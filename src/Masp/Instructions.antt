-- ===== src/Masp/Instructions.antt =====
-- programs/solana-masp/src/instructions.rs: one function per instruction, from the accounts, the
-- instruction data and the ledger to the new ledger. An error leaves the ledger to the runtime,
-- which drops all changes of a failed transaction.
mod Checks
mod Setup
mod Value
unfoldable pub use Checks.*
unfoldable pub use Setup.*
unfoldable pub use Value.*
