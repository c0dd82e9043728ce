-- ===== src/Verifier/Accepted.antt =====
-- What the verifier has checked when it accepts a buffer.
use solana_masp.Prelude.{
  ℕ, ◌+◌, ◌*◌, ◌≤◌, ◌↔◌, ◌≡◌, refl, sym, ◌∙◌, true, Option, none, some, List, Bytes, length, slice,
  arith, leb,
}
use solana_masp.Runtime.{◌>>=◌, ok, with_ok, require-eq-ok, ok_or-eq-ok, ok-injective}
use solana_masp.Masp.Inputs.Fields.{read_fields}
use solana_masp.Verifier.{
  UltraplonkCore, EmbeddedVks, get_vk_for_circuit, proof_size, buffer_header_size, pi_limbs_box,
  evals_box, run_verification, verify_data, read_header, max_public_inputs,
}

-- The plain check of a buffer: with this key and this proof, the public inputs behind the header.
pub record PlainlyVerified (core : UltraplonkCore) (vks : EmbeddedVks) (circuit_type pi_count : ℕ)
    (b : Bytes) : Type 0 where
  pub vk_bytes : Bytes
  pub key : get_vk_for_circuit vks circuit_type ≡ some vk_bytes
  pub vk : core.VerificationKey
  pub parsed_key : core.vk_from_onchain_bytes vk_bytes ≡ some vk
  pub proof : core.Proof
  pub parsed_proof :
      core.proof_from_bytes (slice (buffer_header_size + pi_count * 32) proof_size b) ≡ some proof
  pub verified : core.verify vk proof (read_fields pi_count buffer_header_size b) ≡ some true

module _ (core : UltraplonkCore) where
  -- Without room behind the proof there are no limbs: the box is empty, or the handler fails.
  pi_limbs_box-none :
      (proof_len pi_count : ℕ) (b : Bytes) {limbs : Option (List core.FrLimbs)}
      → length b ≡ buffer_header_size + pi_count * 32 + proof_size
      → pi_limbs_box core proof_len pi_count b ≡ ok limbs
      → limbs ≡ none
  unfolding pi_limbs_box
  pi_limbs_box-none proof_len pi_count b sized h = ground arith

  -- Nor are there any where the header counts no more than the inputs and the proof.
  pi_limbs_box-exact : (n : ℕ) (b : Bytes) → pi_limbs_box core (n * 32 + proof_size) n b ≡ ok none
  unfolding pi_limbs_box
  pi_limbs_box-exact n b = ground arith

  evals_box-exact : (n : ℕ) (b : Bytes) → evals_box core (n * 32 + proof_size) n b ≡ ok none
  unfolding evals_box
  evals_box-exact n b = ground arith

  accepted-plain :
      (vks : EmbeddedVks) (c n : ℕ) (b : Bytes)
      → read_header b ≡ ok (c, n * 32 + proof_size, n)
      → length b ≡ buffer_header_size + n * 32 + proof_size
      → verify_data core vks b ≡ ok tt
      → PlainlyVerified core vks c n b
  unfolding verify_data run_verification
  accepted-plain vks c n b header sized h = with_ok _ _ h λ hd found h₁.
      let same : hd ≡ (c, n * 32 + proof_size, n) = ok-injective (sym found ∙ header) in
      with_ok _ _ (rw same at h₁) λ _ _ h₂. with_ok _ _ h₂ λ _ _ h₃. with_ok _ _ h₃ λ _ _ h₄.
        with_ok _ _ h₄ λ _ _ h₅. with_ok _ _ h₅ λ vk_bytes key h₆. with_ok _ _ h₆ λ vk vk_ok h₇.
          with_ok _ _ h₇ λ proof proof_ok h₈. with_ok _ _ h₈ λ limbs no_limbs h₉.
            with_ok _ _ h₉ λ evals _ h₁₀. with_ok _ _ h₁₀ λ verdict accepts h₁₁.
              let none_of : limbs ≡ none = pi_limbs_box-none _ n b sized no_limbs in
              let holds : verdict ≡ true = require-eq-ok _ _ h₁₁ in
              record {
                vk_bytes = vk_bytes;
                key = ok_or-eq-ok _ _ key;
                vk = vk;
                parsed_key = ok_or-eq-ok _ _ vk_ok;
                proof = proof;
                parsed_proof = ok_or-eq-ok _ _ proof_ok;
                verified = rw (none_of, holds) at (ok_or-eq-ok _ _ accepts);
              }

  plain-accepted :
      (vks : EmbeddedVks) (c n : ℕ) (b : Bytes)
      → read_header b ≡ ok (c, n * 32 + proof_size, n)
      → n ≤ max_public_inputs
      → length b ≡ buffer_header_size + n * 32 + proof_size
      → PlainlyVerified core vks c n b
      → verify_data core vks b ≡ ok tt
  unfolding verify_data run_verification ◌>>=◌
  plain-accepted vks c n b header few sized v =
      let t₁ : leb n max_public_inputs ≡ true = ground arith in
      let t₂ : leb (n * 32 + proof_size) (n * 32 + proof_size) ≡ true = ground arith in
      let t₃ : leb (buffer_header_size + n * 32) (length b) ≡ true = ground arith in
      let t₄ : leb (buffer_header_size + n * 32 + proof_size) (length b) ≡ true = ground arith in
      rw
        (
          header,
          t₁,
          t₂,
          t₃,
          t₄,
          v.key,
          v.parsed_key,
          v.parsed_proof,
          pi_limbs_box-exact n b,
          evals_box-exact n b,
          v.verified,
        )
        refl

  -- A buffer of exactly the header, at most 32 public inputs and the proof, with a header that counts
  -- them, is accepted exactly when the plain check of it succeeds.
  pub verify_data_iff :
      (vks : EmbeddedVks) (circuit_type pi_count : ℕ) (b : Bytes)
      → read_header b ≡ ok (circuit_type, pi_count * 32 + proof_size, pi_count)
      → pi_count ≤ max_public_inputs
      → length b ≡ buffer_header_size + pi_count * 32 + proof_size
      → (verify_data core vks b ≡ ok tt) ↔ PlainlyVerified core vks circuit_type pi_count b
  verify_data_iff vks c n b header few sized =
      (accepted-plain vks c n b header sized, plain-accepted vks c n b header few sized)
