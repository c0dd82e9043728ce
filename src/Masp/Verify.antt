-- ===== src/Masp/Verify.antt =====
-- programs/solana-masp/src/verify.rs: the proof systems and the dispatch to them.
use solana_masp.Prelude.{
  ℕ, not, List, [], ◌∷◌, Bytes, bytes_eq, ltb, ◌==◌, if◌then◌else◌, length, true, false,
}
use solana_masp.Runtime.{
  ProgramError, Result, ok, err, invalid_argument, invalid_account_data, Host, AccountInfo,
  Instruction, Ledger,
}
use solana_masp.Masp.Error.{
  MaspError, invalid_proof_data, invalid_public_inputs, proof_verification_failed,
}
use solana_masp.Masp.State.{CircuitType, circuit_byte}
use solana_masp.Masp.Inputs.Fields.{concat}

-- The build's features choose one: `CURRENT_PROOF_SYSTEM`.
pub data ProofSystem : Type 0 where
  ultra_plonk groth16 mock : ProofSystem

-- `ProofSystem::proof_size`
unfoldable pub system_proof_size : ProofSystem → ℕ
system_proof_size ultra_plonk = 2144
system_proof_size groth16 = 192
system_proof_size mock = 32

-- `state.rs` has its own `PROOF_SIZE`, by which the handlers cut the proof out of the buffer.
unfoldable pub state_proof_size : ProofSystem → ℕ
state_proof_size ultra_plonk = 2144
state_proof_size groth16 = 2144
state_proof_size mock = 32

abbrev pub max_public_inputs : ℕ
max_public_inputs = 16

pub data ProofSource : Type 0 where
  buffer : (verifier_program payer proof_buffer : AccountInfo) → ProofSource
  bytes :
      (circuit_type : CircuitType) (public_inputs : List Bytes) (proof_bytes : Bytes) → ProofSource

-- `Result<(), MaspError>`
pub data Checked : Type 0 where
  passed : Checked
  failed : MaspError → Checked

-- `.map_err(|_| ProgramError::InvalidAccountData)`
abbrev pub map_err : Checked → ProgramError → Ledger → Result Ledger
map_err passed e l = ok l
map_err (failed _) e l = err e

-- The instruction of `ultraplonk::verify`: both accounts are read-only.
unfoldable pub verify_instruction :
    (verifier_program payer proof_buffer : AccountInfo) → Instruction
verify_instruction verifier_program payer proof_buffer = record {
  program_id = verifier_program.key;
  accounts =
      record { pubkey = payer.key; is_signer = true; is_writable = false }
      ∷ record { pubkey = proof_buffer.key; is_signer = false; is_writable = false }
      ∷ [];
  payload = 2 ∷ [];
}

-- `groth16::verify`; the check of the proof itself is a stub in the source.
unfoldable pub groth16_verify : List Bytes → Bytes → Checked
groth16_verify public_inputs proof_bytes =
    if not (length proof_bytes == 192)
    then failed invalid_proof_data
    else if ltb max_public_inputs (length public_inputs)
    then failed invalid_public_inputs
    else passed

-- `keccak` is `solana_program::keccak::hash`.
module _ (host : Host) (keccak : Bytes → Bytes) where
  -- `ultraplonk::verify`
  unfoldable pub ultraplonk_verify :
      (verifier_program payer proof_buffer : AccountInfo) → Ledger → Result Ledger
  unfolding verify_instruction
  ultraplonk_verify verifier_program payer proof_buffer l =
      host.invoke_signed (verify_instruction verifier_program payer proof_buffer)
        (payer ∷ proof_buffer ∷ verifier_program ∷ []) [] l

  -- `mock::expected_proof`, which is `mock::generate_proof`
  unfoldable pub expected_proof : CircuitType → List Bytes → Bytes
  unfolding concat
  expected_proof circuit public_inputs = keccak (circuit_byte circuit ∷ concat public_inputs)

  -- `mock::verify`
  unfoldable pub mock_verify : CircuitType → List Bytes → Bytes → Checked
  unfolding expected_proof
  mock_verify circuit public_inputs proof_bytes =
      if not (length proof_bytes == 32)
      then failed invalid_proof_data
      else if not (bytes_eq proof_bytes (expected_proof circuit public_inputs))
      then failed proof_verification_failed
      else passed

  unfoldable pub verify_proof : ProofSystem → ProofSource → Ledger → Result Ledger
  unfolding ultraplonk_verify groth16_verify mock_verify
  verify_proof ultra_plonk (buffer verifier payer proof_buffer) l =
      ultraplonk_verify verifier payer proof_buffer l
  verify_proof ultra_plonk (bytes c pis proof) l = err invalid_argument
  verify_proof groth16 (bytes c pis proof) l =
      map_err (groth16_verify pis proof) invalid_account_data l
  verify_proof groth16 (buffer v p b) l = err invalid_argument
  verify_proof mock (bytes c pis proof) l = map_err (mock_verify c pis proof) invalid_account_data l
  verify_proof mock (buffer v p b) l = err invalid_argument
