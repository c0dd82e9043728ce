-- ===== src/Client/Proofs/OnChain.antt =====
-- The client's proofs before its own verifiers and before the program's.
use solana_masp.Prelude.{
  ◌≡◌, refl, sym, ap, ◌∙◌, true, List, Bytes, bytes_eq, bytes_eq_refl, map, length, arith,
}
use solana_masp.Runtime.{Host, Ledger, ok}
use solana_masp.Masp.State.{CircuitType, shield, transfer, unshield}
use solana_masp.Masp.Inputs.{shield_public_inputs, transfer_public_inputs, unshield_public_inputs}
use solana_masp.Masp.Inputs.Fields.{concat, u64_field, u32_field}
use solana_masp.Masp.Verify.{mock, bytes, verify_proof, mock_verify, expected_proof}
use solana_masp.Client.Outcome.{done}
use solana_masp.Client.Hash.{Crypto, field_to_bytes}
use solana_masp.Client.Requests.{
  PublicInputs, shield_public, transfer_public, unshield_public, PrivateInputs,
}
use solana_masp.Client.Proofs.Prover.{
  circuit_type, onchain_updates, onchain_mock_proof_for_public_inputs, mock_prove,
  mock_verify_local, mock_proof_for_public_inputs, onchain_mock_prove,
}

-- The program's circuit and public inputs for the client's
abbrev pub circuit_of : PublicInputs → CircuitType
circuit_of (shield_public pi) = shield
circuit_of (transfer_public pi) = transfer
circuit_of (unshield_public pi) = unshield

unfoldable pub chain_inputs : PublicInputs → List Bytes
chain_inputs (shield_public pi) = shield_public_inputs (record {
  commitment = field_to_bytes pi.new_commitment;
  asset_id = field_to_bytes pi.public_asset_id;
  amount = pi.public_amount;
  ct_hash = field_to_bytes pi.ct_hash;
})
chain_inputs (transfer_public pi) = transfer_public_inputs (record {
  anchor = field_to_bytes pi.anchor;
  nullifiers = map field_to_bytes pi.nullifiers;
  output_commitments = map field_to_bytes pi.output_commitments;
  input_count = pi.input_count;
  output_count = pi.output_count;
  ct_hashes = map field_to_bytes pi.ct_hashes;
  tx_binding = field_to_bytes pi.tx_binding;
})
chain_inputs (unshield_public pi) = unshield_public_inputs (record {
  anchor = field_to_bytes pi.anchor;
  nullifier = field_to_bytes pi.nullifier;
  tx_binding = field_to_bytes pi.tx_binding;
  amount = pi.public_amount;
  recipient_limbs = pi.public_recipient_limbs;
  asset_id = field_to_bytes pi.public_asset_id;
})

-- The client hashes what the program hashes.
expected_proof-onchain :
    (keccak : Bytes → Bytes) (host : Host) (pi : PublicInputs)
    → expected_proof host keccak (circuit_of pi) (chain_inputs pi)
      ≡ onchain_mock_proof_for_public_inputs keccak pi
unfolding expected_proof chain_inputs onchain_mock_proof_for_public_inputs circuit_type
    onchain_updates concat shield_public_inputs transfer_public_inputs unshield_public_inputs
    u64_field u32_field
expected_proof-onchain keccak host (shield_public pi) = refl
expected_proof-onchain keccak host (transfer_public pi) = refl
expected_proof-onchain keccak host (unshield_public pi) = refl

-- A proof of the client's prover satisfies the client's verifier.
pub mock_prove-mock_verify_local :
    (crypto : Crypto) (pi : PublicInputs) (private : PrivateInputs) (proof : Bytes)
    → mock_prove crypto pi private ≡ done proof
    → mock_verify_local crypto pi proof ≡ true
unfolding mock_prove mock_verify_local
mock_prove-mock_verify_local crypto pi private proof h =
    let e : proof ≡ mock_proof_for_public_inputs crypto pi = ground arith in
    rw (e) (bytes_eq_refl (mock_proof_for_public_inputs crypto pi))

module _ (crypto : Crypto) (host : Host) (keccak : Bytes → Bytes)
    (hashed : (message : Bytes) → length (keccak message) ≡ 32) where
  proof_size : (pi : PublicInputs) → length (onchain_mock_proof_for_public_inputs keccak pi) ≡ 32
  unfolding onchain_mock_proof_for_public_inputs
  proof_size pi = hashed _

  pub onchain_accepted :
      (pi : PublicInputs) (l : Ledger)
      → verify_proof host keccak mock
          (bytes (circuit_of pi) (chain_inputs pi) (onchain_mock_proof_for_public_inputs keccak pi))
          l
        ≡ ok l
  unfolding verify_proof mock_verify
  onchain_accepted pi l =
      let same = sym (expected_proof-onchain keccak host pi) in
      let equal =
        ap (bytes_eq (onchain_mock_proof_for_public_inputs keccak pi)) (sym same)
        ∙ bytes_eq_refl (onchain_mock_proof_for_public_inputs keccak pi) in
      let sized : length (onchain_mock_proof_for_public_inputs keccak pi) ≡ 32 = proof_size pi in
      ground arith

  -- What the client proves for the chain, the program's mock verifier accepts.
  pub onchain_mock_prove-verify_proof :
      (pi : PublicInputs) (private : PrivateInputs) (proof : Bytes) (l : Ledger)
      → onchain_mock_prove crypto keccak pi private ≡ done proof
      → verify_proof host keccak mock (bytes (circuit_of pi) (chain_inputs pi) proof) l ≡ ok l
  unfolding onchain_mock_prove
  onchain_mock_prove-verify_proof pi private proof l h =
      let e : proof ≡ onchain_mock_proof_for_public_inputs keccak pi = ground arith in
      rw (e) (onchain_accepted pi l)
