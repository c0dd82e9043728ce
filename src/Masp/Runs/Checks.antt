-- ===== src/Masp/Runs/Checks.antt =====
-- What a check that succeeds has found.
use solana_masp.Prelude.{
  ◌≡◌, refl, sym, ap, ◌∙◌, Bool, true, false, not, some, List, Bytes, bytes_eq→eq, arith, get_elem?,
}
use solana_masp.Runtime.{
  ProgramError, ok, >>=-eq-ok, with_ok, ok-injective, require-eq-ok, ok_or-eq-ok, AccountInfo,
  Ledger, Pubkey,
}
use solana_masp.Masp.State.{TreeState, CircuitType, circuit_byte}
use solana_masp.Masp.Verify.{
  ProofSystem, ultra_plonk, groth16, mock, Checked, passed, failed, map_err, verify_proof,
  groth16_verify, mock_verify, ProofSource,
}
use solana_masp.Masp.Build.{Build}
use solana_masp.Masp.Build.Laws.{KeepsReadonly}
use solana_masp.Masp.Instructions.{
  tree_state_pda, load_unpaused, check_circuit, verify_step, verify_buffer, verify_inline,
}

map_err-ledger :
    (c : Checked) (e : ProgramError) (l : Ledger) {l' : Ledger} → map_err c e l ≡ ok l' → l ≡ l'
map_err-ledger passed e l h = ok-injective h
map_err-ledger (failed x) e l h = cc

not-true : (b : Bool) → not b ≡ true → b ≡ false
not-true true h = cc
not-true false h = refl

module _ (build : Build) where
  pub load_unpaused-ok :
      (program_id : Pubkey) (account : AccountInfo) (l : Ledger) {s : TreeState}
      → load_unpaused build program_id account l ≡ ok s
      → (account.key ≡ (tree_state_pda build program_id).0)
        × (build.tree_codec.try_from_slice (l account.key).bytes ≡ ok s)
        × (s.paused ≡ false)
  unfolding load_unpaused
  load_unpaused-ok program_id account l {s} h = with_ok _ _ h λ _ at_pda h₁.
      with_ok _ _ h₁ λ s₁ stored h₂. with_ok _ _ h₂ λ _ running h₃.
        let same : s₁ ≡ s = ok-injective h₃ in
        (
          bytes_eq→eq _ _ (require-eq-ok _ _ at_pda),
          stored ∙ h₃,
          rw (← same) (not-true s₁.paused (require-eq-ok _ _ running)),
        )

  -- The circuit type stands in byte 1 of the buffer.
  pub check_circuit-ok :
      (circuit : CircuitType) (buffer : AccountInfo) (l : Ledger) {u : Unit {0}}
      → check_circuit build circuit buffer l ≡ ok u
      → get_elem? (l buffer.key).bytes 1 ≡ some (circuit_byte circuit)
  unfolding check_circuit
  check_circuit-ok circuit buffer l h =
      let (c, at, h₁) = >>=-eq-ok _ _ h in
      let same = require-eq-ok _ _ h₁ in
      let e : c ≡ circuit_byte circuit = ground arith in ok_or-eq-ok _ _ at ∙ ap some e

  module _ (laws : KeepsReadonly build.host) where
    verify_proof-ledger :
        (system : ProofSystem) (source : ProofSource) (l : Ledger) {l' : Ledger}
        → verify_proof build.host build.keccak system source l ≡ ok l'
        → l ≡ l'
    unfolding verify_proof
    verify_proof-ledger ultra_plonk (ProofSource.buffer v p b) l h =
        sym (laws.kept _ _ _ l _ (refl, (refl, tt)) h)
    verify_proof-ledger ultra_plonk (ProofSource.bytes c pis proof) l h = cc
    verify_proof-ledger groth16 (ProofSource.buffer v p b) l h = cc
    verify_proof-ledger groth16 (ProofSource.bytes c pis proof) l h =
        map_err-ledger (groth16_verify pis proof) _ l h
    verify_proof-ledger mock (ProofSource.buffer v p b) l h = cc
    verify_proof-ledger mock (ProofSource.bytes c pis proof) l h =
        map_err-ledger (mock_verify build.host build.keccak c pis proof) _ l h

    -- Verifying a proof changes no account.
    pub verify_step-ledger :
        (system : ProofSystem) (circuit : CircuitType) (pis : List Bytes)
        (payer buffer : AccountInfo) (accounts : List AccountInfo) (l : Ledger)
        {r : Ledger × List AccountInfo}
        → verify_step build system circuit pis payer buffer accounts l ≡ ok r
        → l ≡ r.0
    unfolding verify_step verify_buffer verify_inline
    verify_step-ledger ultra_plonk circuit pis payer buffer accounts l h =
        let (next, _, h₁) = >>=-eq-ok _ _ h in
        let (l₁, verified, h₂) = >>=-eq-ok _ _ h₁ in
        verify_proof-ledger ultra_plonk _ l verified
        ∙ ap (λ (r : Ledger × List AccountInfo). r.0) (ok-injective h₂)
    verify_step-ledger groth16 circuit pis payer buffer accounts l h =
        let (_, _, h₁) = >>=-eq-ok _ _ h in
        let (_, _, h₂) = >>=-eq-ok _ _ h₁ in
        let (l₁, verified, h₃) = >>=-eq-ok _ _ h₂ in
        verify_proof-ledger groth16 _ l verified
        ∙ ap (λ (r : Ledger × List AccountInfo). r.0) (ok-injective h₃)
    verify_step-ledger mock circuit pis payer buffer accounts l h =
        let (_, _, h₁) = >>=-eq-ok _ _ h in
        let (_, _, h₂) = >>=-eq-ok _ _ h₁ in
        let (l₁, verified, h₃) = >>=-eq-ok _ _ h₂ in
        verify_proof-ledger mock _ l verified
        ∙ ap (λ (r : Ledger × List AccountInfo). r.0) (ok-injective h₃)
