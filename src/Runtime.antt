-- ===== src/Runtime.antt =====
-- What the programs take from the Solana runtime and from Borsh. None of it is code of this
-- repository: it is a parameter of the models, with the documented behaviour as named laws.
mod Outcome
mod Accounts
unfoldable pub use Outcome.*
unfoldable pub use Accounts.*
use solana_masp.Prelude.{ℕ, List, Bytes}

-- `Pubkey::find_program_address`, `Rent::get()?.minimum_balance`, and `invoke_signed` (`invoke` is
-- `invoke_signed` with no seeds), which runs another program on the ledger.
pub record Host : Type 0 where
  pub find_program_address : List Bytes → Pubkey → Pubkey × ℕ
  pub minimum_balance : ℕ → Result ℕ
  pub invoke_signed : Instruction → List AccountInfo → List (List Bytes) → Ledger → Result Ledger

-- `BorshSerialize` and `BorshDeserialize` of one type.
pub record Borsh (A : Type 0) : Type 0 where
  pub try_from_slice : Bytes → Result A
  pub to_vec : A → Bytes
