-- ===== src/Masp/Error.antt =====
-- programs/solana-masp/src/error.rs
use solana_masp.Prelude.{ℕ}
use solana_masp.Runtime.{ProgramError, custom}

pub data MaspError : Type 0 where
  nullifier_already_spent invalid_anchor proof_verification_failed invalid_proof_data : MaspError
  invalid_public_inputs tree_full invalid_owner not_initialized already_initialized : MaspError
  invalid_instruction overflow invalid_vk buffer_incomplete invalid_account_data : MaspError
  invalid_authority state_inconsistency : MaspError

-- `e as u32`
unfoldable pub discriminant : MaspError → ℕ
discriminant nullifier_already_spent = 0
discriminant invalid_anchor = 1
discriminant proof_verification_failed = 2
discriminant invalid_proof_data = 3
discriminant invalid_public_inputs = 4
discriminant tree_full = 5
discriminant invalid_owner = 6
discriminant not_initialized = 7
discriminant already_initialized = 8
discriminant invalid_instruction = 9
discriminant overflow = 10
discriminant invalid_vk = 11
discriminant buffer_incomplete = 12
discriminant invalid_account_data = 13
discriminant invalid_authority = 14
discriminant state_inconsistency = 15

-- `impl From<MaspError> for ProgramError`
unfoldable pub into : MaspError → ProgramError
unfolding discriminant
into e = custom (discriminant e)
