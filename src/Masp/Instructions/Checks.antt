-- ===== src/Masp/Instructions/Checks.antt =====
-- The checks that the handlers share.
use solana_masp.Prelude.{
  ℕ, ◌+◌, ◌*◌, not, List, [], ◌∷◌, Bytes, bytes_eq, leb, ◌==◌, length, get_elem?, slice,
}
use solana_masp.Runtime.{
  Result, ok, require, ok_or, ◌>>=◌, ◌>>◌, panicked, invalid_account_data, AccountInfo, Ledger,
  Pubkey, next_account_info,
}
use solana_masp.Masp.Error.{into, invalid_proof_data, buffer_incomplete}
use solana_masp.Masp.State.{TreeState, CircuitType, circuit_byte, header_size}
use solana_masp.Masp.Verify.{
  ProofSystem, ultra_plonk, groth16, mock, state_proof_size, ProofSource, verify_proof,
}
use solana_masp.Masp.Build.{Build}

-- `TreeState::SEEDS`: "masp", "state"
abbrev pub tree_state_seeds : List Bytes
tree_state_seeds = (b'm' ∷ b'a' ∷ b's' ∷ b'p' ∷ []) ∷ (b's' ∷ b't' ∷ b'a' ∷ b't' ∷ b'e' ∷ []) ∷ []

-- `bytes[i]`, which panics out of range
abbrev pub byte_at : Bytes → ℕ → Result ℕ
byte_at bytes i = ok_or (get_elem? bytes i) panicked

module _ (build : Build) where
  abbrev pub tree_state_pda : Pubkey → Pubkey × ℕ
  tree_state_pda program_id = build.host.find_program_address tree_state_seeds program_id

  -- The tree state account is the right one, it parses, and the pool is not paused.
  unfoldable pub load_unpaused : Pubkey → AccountInfo → Ledger → Result TreeState
  load_unpaused program_id tree_state_account l = do
    require (bytes_eq tree_state_account.key (tree_state_pda program_id).0) invalid_account_data
    tree_state ← build.tree_codec.try_from_slice (l tree_state_account.key).bytes
    require (not tree_state.paused) invalid_account_data
    ok tree_state

  -- The circuit type in the buffer's header is the handler's.
  unfoldable pub check_circuit : CircuitType → AccountInfo → Ledger → Result (Unit {0})
  check_circuit circuit proof_buffer l = do
    circuit_type ← byte_at (l proof_buffer.key).bytes 1
    require (circuit_type == circuit_byte circuit) (into invalid_proof_data)

  -- The inline branch: the proof is cut out of the buffer, behind the header and the inputs that
  -- the header counts.
  unfoldable pub verify_inline :
      ProofSystem
      → CircuitType
      → List Bytes
      → AccountInfo
      → List AccountInfo
      → Ledger
      → Result (Ledger × List AccountInfo)
  verify_inline system circuit public_inputs proof_buffer accounts l = do
    let buffer_data = (l proof_buffer.key).bytes
    pi_count ← byte_at buffer_data 4
    let proof_start = header_size + pi_count * 32
    let proof_end = proof_start + state_proof_size system
    require (leb proof_end (length buffer_data)) (into buffer_incomplete)
    let proof_bytes = slice proof_start (state_proof_size system) buffer_data
    l' ←
        verify_proof build.host build.keccak system
          (ProofSource.bytes circuit public_inputs proof_bytes) l
    ok (l', accounts)

  -- The UltraPlonk branch: the next account is the verifier program, which reads the buffer.
  unfoldable pub verify_buffer :
      AccountInfo → AccountInfo → List AccountInfo → Ledger → Result (Ledger × List AccountInfo)
  verify_buffer payer proof_buffer accounts l = do
    (verifier_program, rest) ← next_account_info accounts
    l' ←
        verify_proof build.host build.keccak ultra_plonk
          (ProofSource.buffer verifier_program payer proof_buffer) l
    ok (l', rest)

  -- `match CURRENT_PROOF_SYSTEM { .. }` of the three handlers, with the accounts that are left.
  unfoldable pub verify_step :
      ProofSystem
      → CircuitType
      → List Bytes
      → AccountInfo
      → AccountInfo
      → List AccountInfo
      → Ledger
      → Result (Ledger × List AccountInfo)
  verify_step ultra_plonk circuit public_inputs payer proof_buffer accounts l =
      verify_buffer payer proof_buffer accounts l
  verify_step groth16 circuit public_inputs payer proof_buffer accounts l =
      verify_inline groth16 circuit public_inputs proof_buffer accounts l
  verify_step mock circuit public_inputs payer proof_buffer accounts l =
      verify_inline mock circuit public_inputs proof_buffer accounts l
