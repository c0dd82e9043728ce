-- ===== src/Masp.antt =====
-- programs/solana-masp: the on-chain program.
pub mod Error
pub mod State
pub mod Inputs
pub mod Verify
pub mod Stores
pub mod Build
pub mod Instructions
pub mod Entry
pub mod Growth
pub mod Nullifiers
pub mod Outputs
pub mod Runs
pub mod Transfer
pub mod Unshield
pub mod Shield
pub mod Transactions
pub mod Spent
pub mod Proofs
pub mod Upload
pub mod Guards
pub mod Setup
