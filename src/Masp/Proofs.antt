-- ===== src/Masp/Proofs.antt =====
-- What a handler has learnt of the proof when its verification step succeeds, for each proof system.
use solana_masp.Prelude.{
  sym, ℕ, ◌+◌, ◌*◌, ◌≤◌, ◌≡◌, ◌≢◌, refl, ap, ◌∙◌, some, List, [], ◌∷◌, map, Bytes, bytes_eq→eq,
  arith, length, slice, drop, get_elem?, leb→le, length-take_of_le, length-drop,
}
use solana_masp.Runtime.{
  ProgramError, ok, ◌>>=◌, >>=-eq-ok, with_ok, ok-injective, require-eq-ok, ok_or-eq-ok,
  AccountInfo, AccountMeta, Instruction, Ledger, Pubkey, Host, next_account_info,
  next_account_info-ok,
}
use solana_masp.Masp.State.{CircuitType, circuit_byte, shield, transfer, unshield}
use solana_masp.Masp.Inputs.Fields.{concat}
use solana_masp.Masp.Inputs.{TransferInputs, transfer_public_inputs, transfer_from_buffer}
use solana_masp.Protocol.{TransferData}
use solana_masp.Verifier.{UltraplonkCore, EmbeddedVks, verify_data}
use solana_masp.Verifier
use solana_masp.Masp.Verify.{
  ProofSystem, state_proof_size, ultra_plonk, groth16, mock, Checked, passed, failed, map_err,
  verify_proof, groth16_verify, mock_verify, expected_proof, verify_instruction, ultraplonk_verify,
}
use solana_masp.Masp.Build.{Build}
use solana_masp.Masp.Instructions.{
  verify_step, verify_buffer, verify_inline, process_shield, process_transfer, process_unshield,
  transfer_extract,
}
use solana_masp.Masp.Runs.Transfer.{TransferRun, process_transfer-run}
use solana_masp.Masp.Runs.Unshield.{process_unshield-run}
use solana_masp.Masp.Runs.Shield.{process_shield-run}

map_err-passed :
    (c : Checked) (e : ProgramError) (l : Ledger) {l' : Ledger} → map_err c e l ≡ ok l' → c ≡ passed
map_err-passed passed e l h = refl
map_err-passed (failed x) e l h = cc

-- Groth16 wants 192 bytes.
groth16_verify-length :
    (pis : List Bytes) (proof : Bytes) → groth16_verify pis proof ≡ passed → length proof ≡ 192
unfolding groth16_verify
groth16_verify-length pis proof h = ground arith

length-slice : (start n : ℕ) (b : Bytes) → start + n ≤ length b → length (slice start n b) ≡ n
length-slice start n b room =
    length-take_of_le n (drop start b) (omega (arith, length-drop start b))

mock_verify-passed :
    (host : Host) (keccak : Bytes → Bytes) (circuit : CircuitType) (pis : List Bytes)
    (proof : Bytes)
    → mock_verify host keccak circuit pis proof ≡ passed
    → proof ≡ keccak (circuit_byte circuit ∷ concat pis)
unfolding mock_verify expected_proof
mock_verify-passed host keccak circuit pis proof h =
    bytes_eq→eq proof (keccak (circuit_byte circuit ∷ concat pis)) (ground arith)

abbrev pub as_info : AccountMeta → AccountInfo
as_info m = record { key = m.pubkey; is_signer = m.is_signer; is_writable = m.is_writable }

module _ (build : Build) where
  step_at :
      (circuit : CircuitType) (pis : List Bytes) (payer buffer : AccountInfo)
      (accounts : List AccountInfo) (l : Ledger) {p q : ProofSystem}
      {left : Ledger × List AccountInfo}
      → p ≡ q
      → verify_step build p circuit pis payer buffer accounts l ≡ ok left
      → verify_step build q circuit pis payer buffer accounts l ≡ ok left
  step_at circuit pis payer buffer accounts l e h = rw e at h

  groth16_step :
      (circuit : CircuitType) (pis : List Bytes) (payer buffer : AccountInfo)
      (accounts : List AccountInfo) (l : Ledger) {left : Ledger × List AccountInfo}
      → verify_step build groth16 circuit pis payer buffer accounts l ≡ ok left
      → ⊥
  unfolding verify_step verify_inline verify_proof state_proof_size
  groth16_step circuit pis payer buffer accounts l h = with_ok _ _ h λ n _ h₁.
      with_ok _ _ h₁ λ _ fits h₂. with_ok _ _ h₂ λ l₁ accepted _.
        let cut =
          groth16_verify-length pis (slice (5 + n * 32) 2144 (l buffer.key).bytes)
            (map_err-passed _ _ l accepted) in
        let room : 5 + n * 32 + 2144 ≤ length (l buffer.key).bytes =
          leb→le _ _ (require-eq-ok _ _ fits) in
        omega (arith, cut, length-slice (5 + n * 32) 2144 (l buffer.key).bytes room)

  mock_step :
      (circuit : CircuitType) (pis : List Bytes) (payer buffer : AccountInfo)
      (accounts : List AccountInfo) (l : Ledger) {left : Ledger × List AccountInfo}
      → verify_step build mock circuit pis payer buffer accounts l ≡ ok left
      → (n : ℕ) × (get_elem? (l buffer.key).bytes 4 ≡ some n)
        × (slice (5 + n * 32) 32 (l buffer.key).bytes
            ≡ build.keccak (circuit_byte circuit ∷ concat pis))
  unfolding verify_step verify_inline verify_proof state_proof_size
  mock_step circuit pis payer buffer accounts l h = with_ok _ _ h λ n at h₁.
      with_ok _ _ h₁ λ _ fits h₂. with_ok _ _ h₂ λ l₁ accepted _. (
        n,
        ok_or-eq-ok _ _ at,
        mock_verify-passed build.host build.keccak circuit pis _ (map_err-passed _ _ l accepted),
      )

  ultraplonk_step :
      (circuit : CircuitType) (pis : List Bytes) (payer buffer : AccountInfo)
      (accounts : List AccountInfo) (l : Ledger) {left : Ledger × List AccountInfo}
      → verify_step build ultra_plonk circuit pis payer buffer accounts l ≡ ok left
      → (verifier : AccountInfo) × (accounts ≡ verifier ∷ left.1)
        × (build.host.invoke_signed
              (verify_instruction verifier payer buffer)
              (payer ∷ buffer ∷ verifier ∷ [])
              []
              l
            ≡ ok left.0)
  unfolding verify_step verify_buffer verify_proof ultraplonk_verify
  ultraplonk_step circuit pis payer buffer accounts l {left} h = with_ok _ _ h λ next e h₁.
      with_ok _ _ h₁ λ l₁ accepted h₂.
        let e₁ : next.1 ≡ left.1 = ap (λ (r : Ledger × List AccountInfo). r.1) (ok-injective h₂) in
        let e₀ : l₁ ≡ left.0 = ap (λ (r : Ledger × List AccountInfo). r.0) (ok-injective h₂) in
        (next.0, next_account_info-ok accounts e ∙ ap (λ t. next.0 ∷ t) e₁, accepted ∙ ap ok e₀)

  -- In an UltraPlonk build the inputs come from the buffer.
  read_inputs :
      (system : ProofSystem) (buffer : AccountInfo) (payload : TransferData) (l : Ledger)
      {inputs : TransferInputs}
      → transfer_extract system buffer payload l ≡ ok inputs
      → system ≡ ultra_plonk
      → transfer_from_buffer (l buffer.key).bytes ≡ ok inputs
  unfolding transfer_extract
  read_inputs system buffer payload l h chosen = rw chosen at h

  -- In a Groth16 build no Shield, Transfer or Unshield succeeds.
  pub groth16_rejects :
      (program_id : Pubkey) (accounts : List AccountInfo) (ix_data : Bytes) (l l' : Ledger)
      → build.proof_system ≡ groth16
      → (process_shield build program_id accounts ix_data l ≢ ok l')
        × (process_transfer build program_id accounts ix_data l ≢ ok l')
        × (process_unshield build program_id accounts ix_data l ≢ ok l')
  groth16_rejects program_id accounts ix_data l l' chosen = (
    λ h.
        let run = process_shield-run build program_id accounts ix_data l h in
        groth16_step shield _ _ _ _ l (step_at shield _ _ _ _ l chosen run.verified),
    λ h.
        let run = process_transfer-run build program_id accounts ix_data l h in
        groth16_step transfer _ _ _ _ l (step_at transfer _ _ _ _ l chosen run.verified),
    λ h.
        let run = process_unshield-run build program_id accounts ix_data l h in
        groth16_step unshield _ _ _ _ l (step_at unshield _ _ _ _ l chosen run.verified),
  )

  -- In a mock build, a Transfer that succeeds found in its buffer, behind as many fields as the header
  -- counts, the hash of the circuit and of the public inputs that it went on to use.
  pub process_transfer-mock_proof :
      (program_id : Pubkey) (accounts : List AccountInfo) (ix_data : Bytes) (l : Ledger)
      {l' : Ledger}
      → build.proof_system ≡ mock
      → process_transfer build program_id accounts ix_data l ≡ ok l'
      → (run : TransferRun build program_id accounts ix_data l l') × (n : ℕ) × (get_elem?
            (l run.proof_buffer.key).bytes
            4
          ≡ some n)
        × (slice (5 + n * 32) 32 (l run.proof_buffer.key).bytes
            ≡ build.keccak (circuit_byte transfer ∷ concat (transfer_public_inputs run.inputs)))
  process_transfer-mock_proof program_id accounts ix_data l chosen h =
      let run = process_transfer-run build program_id accounts ix_data l h in
      let (n, counted, same) =
        mock_step transfer _ _ _ _ l (step_at transfer _ _ _ _ l chosen run.verified) in
      (run, n, counted, same)

  -- What the runtime does on a call of the program `verifier_id`: it runs the verifier on the
  -- accounts that the instruction names.
  pub record RunsVerifier (core : UltraplonkCore) (vks : EmbeddedVks) (verifier_id : Pubkey)
      : Type 0 where
    pub runs :
        (ix : Instruction) (infos : List AccountInfo) (seeds : List (List Bytes)) (l l' : Ledger)
        → ix.program_id ≡ verifier_id
        → build.host.invoke_signed ix infos seeds l ≡ ok l'
        → Verifier.process_instruction core vks verifier_id (map as_info ix.accounts) ix.payload l
          ≡ ok l'

  verifier_accepts :
      (core : UltraplonkCore) (vks : EmbeddedVks) (verifier_id : Pubkey)
      → RunsVerifier core vks verifier_id
      → (payer buffer verifier : AccountInfo) (l : Ledger) {l' : Ledger} {infos : List AccountInfo}
      → build.host.invoke_signed (verify_instruction verifier payer buffer) infos [] l ≡ ok l'
      → verifier.key ≡ verifier_id
      → verify_data core vks (l buffer.key).bytes ≡ ok tt
  unfolding verify_instruction Verifier.process_instruction Verifier.process_verify
      next_account_info ◌>>=◌
  verifier_accepts core vks verifier_id law payer buffer verifier l {l'} {infos} h same =
      let ran = law.runs (verify_instruction verifier payer buffer) infos [] l l' same h in
      let (u, accepted, _) = >>=-eq-ok (verify_data core vks (l buffer.key).bytes) _ ran in accepted

  -- In an UltraPlonk build, where the account that follows the system program is the verifier and the
  -- runtime runs the verifier for its id, a Transfer that succeeds read its inputs from its buffer, and
  -- the verifier accepted this buffer.
  pub process_transfer-verified :
      (core : UltraplonkCore) (vks : EmbeddedVks) (verifier_id : Pubkey)
      → RunsVerifier core vks verifier_id
      → (program_id : Pubkey) (accounts : List AccountInfo) (ix_data : Bytes) (l : Ledger)
        {l' : Ledger}
      → build.proof_system ≡ ultra_plonk
      → (verifier : AccountInfo) → get_elem? accounts 4 ≡ some verifier
      → verifier.key ≡ verifier_id
      → process_transfer build program_id accounts ix_data l ≡ ok l'
      → (run : TransferRun build program_id accounts ix_data l l') × (transfer_from_buffer
            (l run.proof_buffer.key).bytes
          ≡ ok run.inputs)
        × (verify_data core vks (l run.proof_buffer.key).bytes ≡ ok tt)
  process_transfer-verified core vks verifier_id law program_id accounts ix_data l chosen v fifth
        same h =
      let run = process_transfer-run build program_id accounts ix_data l h in
      let (verifier, named, called) =
        ultraplonk_step transfer _ _ _ _ l (step_at transfer _ _ _ _ l chosen run.verified) in
      let found : get_elem? accounts 4 ≡ some verifier =
        ap (λ a. get_elem? a 4) run.given ∙ ap (λ r. get_elem? r 0) named in
      let e : v ≡ verifier = cc (fifth, found) in
      let is_verifier : verifier.key ≡ verifier_id =
        ap (λ (a : AccountInfo). a.key) (sym e) ∙ same in
      (
        run,
        read_inputs _ _ _ l run.extracted chosen,
        verifier_accepts core vks verifier_id law _ _ verifier l called is_verifier,
      )
