-- ===== src/Tests/Client.antt =====
-- A wallet, its tree and its proofs, with a toy sponge and a toy curve.
pub mod Sample
mod Proving
mod Ledger
mod Spending
mod Mocks
mod Submitting
