-- ===== src/Verifier.antt =====
-- programs/masp-verifier: the program that checks UltraPlonk proofs.
pub mod Accepted
use solana_masp.Prelude.{
  ℕ, zero, suc, ◌+◌, ◌*◌, ◌/◌, ◌%◌, Bool, true, false, ◌&&◌, not, Option, none, some, List, [], ◌∷◌,
  Bytes, bytes_eq, ltb, leb, ◌==◌, if◌then◌else◌, length, map, slice, set, drop, from_le_bytes,
}
use solana_masp.Runtime.{
  Result, ok, err, require, ok_or, ◌>>=◌, ◌>>◌, panicked, illegal_owner, invalid_instruction_data,
  invalid_account_data, AccountInfo, Ledger, Pubkey, next_account_info, set_data,
}
use solana_masp.Masp.Inputs.Fields.{read_fields}
use solana_masp.Masp.Instructions.{byte_at, copy_at}

-- What the program calls of `ultraplonk_core`: `none` where a call returns an error.
pub record UltraplonkCore : Type 1 where
  pub VerificationKey : Type 0
  pub Proof : Type 0
  pub FrLimbs : Type 0
  pub ProofEvaluationsLimbs : Type 0
  pub vk_from_onchain_bytes : Bytes → Option VerificationKey
  pub proof_from_bytes : Bytes → Option Proof
  pub from_raw_bytes : Bytes → FrLimbs
  pub from_all_evaluations : List FrLimbs → ProofEvaluationsLimbs
  pub verify : VerificationKey → Proof → List Bytes → Option Bool
  pub verify_with_public_inputs_limbs :
      VerificationKey → Proof → List Bytes → List FrLimbs → Option Bool
  pub verify_with_public_inputs_limbs_and_evals :
      VerificationKey → Proof → List Bytes → List FrLimbs → ProofEvaluationsLimbs → Option Bool

-- The verification keys that the build embeds.
pub record EmbeddedVks : Type 0 where
  pub vk_shield : Bytes
  pub vk_transfer : Bytes
  pub vk_unshield : Bytes

unfoldable pub get_vk_for_circuit : EmbeddedVks → ℕ → Option Bytes
get_vk_for_circuit vks zero = some vks.vk_shield
get_vk_for_circuit vks (suc zero) = some vks.vk_transfer
get_vk_for_circuit vks (suc (suc zero)) = some vks.vk_unshield
get_vk_for_circuit vks (suc (suc (suc _))) = none

abbrev pub proof_size : ℕ
proof_size = 2144

abbrev pub max_chunk_size : ℕ
max_chunk_size = 900

abbrev pub buffer_header_size : ℕ
buffer_header_size = 5

abbrev pub max_public_inputs : ℕ
max_public_inputs = 32

abbrev pub is_some {ℓ} : {A : Type ℓ} → Option A → Bool
is_some none = false
is_some (some a) = true

-- The five header bytes that `process_init_buffer` writes; a shorter buffer panics.
unfoldable pub init_header : ℕ → ℕ → Bytes → Result Bytes
init_header circuit_type pi_count (_ ∷ _ ∷ _ ∷ _ ∷ _ ∷ rest) =
    ok (0 ∷ circuit_type ∷ 0 ∷ 0 ∷ pi_count ∷ rest)
init_header circuit_type pi_count _ = err panicked

unfoldable pub process_init_buffer :
    EmbeddedVks → Pubkey → List AccountInfo → Bytes → Ledger → Result Ledger
process_init_buffer vks program_id accounts ix_data l = do
  (_, accounts₁) ← next_account_info accounts
  (buffer, _) ← next_account_info accounts₁
  require (bytes_eq (l buffer.key).owner program_id) illegal_owner
  require (leb 2 (length ix_data)) invalid_instruction_data
  circuit_type ← byte_at ix_data 0
  pi_count ← byte_at ix_data 1
  require (is_some (get_vk_for_circuit vks circuit_type)) invalid_instruction_data
  require (leb pi_count max_public_inputs) invalid_instruction_data
  buffer_data ← init_header circuit_type pi_count (l buffer.key).bytes
  ok (set_data buffer.key buffer_data l)

unfoldable pub process_upload_chunk : List AccountInfo → Bytes → Ledger → Result Ledger
process_upload_chunk accounts ix_data l = do
  (buffer, _) ← next_account_info accounts
  require (leb 2 (length ix_data)) invalid_instruction_data
  let offset = from_le_bytes (slice 0 2 ix_data)
  let chunk = drop 2 ix_data
  require (leb (length chunk) max_chunk_size) invalid_instruction_data
  let buffer_data = (l buffer.key).bytes
  let data_start = buffer_header_size + offset
  let data_end = data_start + length chunk
  require (leb data_end (length buffer_data)) invalid_instruction_data
  let new_len = offset + length chunk
  -- the writes at 2 and 3 panic on a buffer of fewer than four bytes, which has no room behind 5
  ok (
      set_data buffer.key
        (set (set (copy_at data_start chunk buffer_data) 2 (new_len % 256)) 3 (new_len / 256 % 256))
        l)

-- The header as `process_verify` reads it: circuit type, length of the data, public inputs.
unfoldable pub read_header : Bytes → Result (ℕ × ℕ × ℕ)
read_header buffer_data = do
  circuit_type ← byte_at buffer_data 1
  low ← byte_at buffer_data 2
  high ← byte_at buffer_data 3
  pi_count ← byte_at buffer_data 4
  ok (circuit_type, from_le_bytes (low ∷ high ∷ []), pi_count)

-- `n` words of 32 bytes from `start`, each as a field in Montgomery form
abbrev pub limbs_at : (core : UltraplonkCore) → ℕ → ℕ → Bytes → List core.FrLimbs
limbs_at core n start buffer_data = map core.from_raw_bytes (read_fields n start buffer_data)

module _ (core : UltraplonkCore) where
  -- `pi_limbs_box`
  unfoldable pub pi_limbs_box : ℕ → ℕ → Bytes → Result (Option (List core.FrLimbs))
  pi_limbs_box proof_len pi_count buffer_data =
      let pi_bytes = pi_count * 32 in
      let proof_end = buffer_header_size + pi_bytes + proof_size in
      if leb (pi_bytes + proof_size + pi_bytes) proof_len && ltb 0 pi_count
      then if ltb (length buffer_data) (proof_end + pi_bytes)
        then err invalid_instruction_data
        else ok (some (limbs_at core pi_count proof_end buffer_data))
      else ok none

  -- `evals_box`
  unfoldable pub evals_box : ℕ → ℕ → Bytes → Result (Option core.ProofEvaluationsLimbs)
  evals_box proof_len pi_count buffer_data =
      let pi_bytes = pi_count * 32 in
      let proof_end = buffer_header_size + pi_bytes + proof_size in
      let eval_bytes = 41 * 32 in
      if leb (pi_bytes + proof_size + pi_bytes + eval_bytes) proof_len
      then if ltb (length buffer_data) (proof_end + pi_bytes + eval_bytes)
        then err invalid_instruction_data
        else ok
            (some (core.from_all_evaluations (limbs_at core 41 (proof_end + pi_bytes) buffer_data)))
      else ok none

  -- The three calls of the verifier.
  unfoldable pub run_verification :
      core.VerificationKey
      → core.Proof
      → List Bytes
      → Option (List core.FrLimbs)
      → Option core.ProofEvaluationsLimbs
      → Option Bool
  run_verification vk proof public_inputs (some pi_limbs) (some evals) =
      core.verify_with_public_inputs_limbs_and_evals vk proof public_inputs pi_limbs evals
  run_verification vk proof public_inputs (some pi_limbs) none =
      core.verify_with_public_inputs_limbs vk proof public_inputs pi_limbs
  run_verification vk proof public_inputs none evals = core.verify vk proof public_inputs

  -- `process_verify` on the buffer's data
  unfoldable pub verify_data : EmbeddedVks → Bytes → Result (Unit {0})
  unfolding read_fields
  verify_data vks buffer_data = do
    (circuit_type, proof_len, pi_count) ← read_header buffer_data
    require (leb pi_count max_public_inputs) invalid_instruction_data
    let pi_bytes = pi_count * 32
    require (leb (pi_bytes + proof_size) proof_len) invalid_instruction_data
    -- the copy of the public inputs panics beyond the buffer
    require (leb (buffer_header_size + pi_bytes) (length buffer_data)) panicked
    let public_inputs = read_fields pi_count buffer_header_size buffer_data
    let proof_start = buffer_header_size + pi_bytes
    require (leb (proof_start + proof_size) (length buffer_data)) invalid_instruction_data
    vk_bytes ← ok_or (get_vk_for_circuit vks circuit_type) invalid_instruction_data
    vk ← ok_or (core.vk_from_onchain_bytes vk_bytes) invalid_account_data
    proof ←
        ok_or (core.proof_from_bytes (slice proof_start proof_size buffer_data))
          invalid_account_data
    pi_limbs ← pi_limbs_box proof_len pi_count buffer_data
    evals ← evals_box proof_len pi_count buffer_data
    verdict ← ok_or (run_verification vk proof public_inputs pi_limbs evals) invalid_account_data
    require verdict invalid_account_data

  unfoldable pub process_verify : EmbeddedVks → List AccountInfo → Bytes → Ledger → Result Ledger
  process_verify vks accounts _ l = do
    (_, accounts₁) ← next_account_info accounts
    (buffer, _) ← next_account_info accounts₁
    verify_data vks (l buffer.key).bytes
    ok l

  unfoldable pub process_instruction :
      EmbeddedVks → Pubkey → List AccountInfo → Bytes → Ledger → Result Ledger
  process_instruction vks program_id accounts [] l = err invalid_instruction_data
  process_instruction vks program_id accounts (discriminator ∷ payload) l =
      if discriminator == 0
      then process_init_buffer vks program_id accounts payload l
      else if discriminator == 1
      then process_upload_chunk accounts payload l
      else if discriminator == 2
      then process_verify vks accounts payload l
      else err invalid_instruction_data
