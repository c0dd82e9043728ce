-- ===== src/Client/Proofs/Prover.antt =====
-- client/src/proofs.rs: the mock provers and verifiers.
use solana_masp.Prelude.{
  ℕ, not, Bool, List, [], ◌∷◌, ◌++◌, Bytes, bytes_eq, map, length, ◌==◌, replicate, to_be_bytes,
  if◌then◌else◌,
}
use solana_masp.Protocol.Domain.{transaction_binding}
use solana_masp.Masp.Inputs.Fields.{concat}
use solana_masp.Client.Outcome.{
  Outcome, raised, done, ◌>>=◌, ProofSystemError, verification_failed, invalid_public_inputs,
}
use solana_masp.Client.Hash.{Fr, Crypto, to_field, poseidon2_hash_noir, field_to_bytes}
use solana_masp.Client.Note.{Note, commitment}
use solana_masp.Client.Requests.{
  ShieldPublicInputs, PublicInputs, shield_public, transfer_public, unshield_public,
  ShieldPrivateInputs, PrivateInputs, shield_private, transfer_private, unshield_private,
}
use solana_masp.Client.Proofs.{mock_check_transfer, mock_check_unshield}

-- The byte of the circuit in `onchain_mock_proof_for_public_inputs`
unfoldable pub circuit_type : PublicInputs → ℕ
circuit_type (shield_public pi) = 0
circuit_type (transfer_public pi) = 1
circuit_type (unshield_public pi) = 2

-- The bytes that the hasher reads after it, one element for each `update`
unfoldable pub onchain_updates : PublicInputs → List Bytes
onchain_updates (shield_public pi) =
    field_to_bytes pi.new_commitment
    ∷ field_to_bytes pi.public_asset_id
    ∷ (replicate 24 0 ++ to_be_bytes 8 pi.public_amount)
    ∷ field_to_bytes pi.ct_hash
    ∷ []
onchain_updates (transfer_public pi) =
    field_to_bytes pi.anchor
    ∷ (map field_to_bytes pi.nullifiers
        ++ (map field_to_bytes pi.output_commitments
            ++ ((replicate 28 0 ++ to_be_bytes 4 pi.input_count)
                ∷ (replicate 28 0 ++ to_be_bytes 4 pi.output_count)
                ∷ (map field_to_bytes pi.ct_hashes ++ (field_to_bytes pi.tx_binding ∷ [])))))
onchain_updates (unshield_public pi) =
    field_to_bytes pi.anchor
    ∷ field_to_bytes pi.nullifier
    ∷ field_to_bytes pi.tx_binding
    ∷ (replicate 24 0 ++ to_be_bytes 8 pi.public_amount)
    ∷ (map (λ limb. replicate 24 0 ++ to_be_bytes 8 limb) pi.public_recipient_limbs
        ++ (field_to_bytes pi.public_asset_id ∷ []))

-- `keccak` is `sha3::Keccak256`.
unfoldable pub onchain_mock_proof_for_public_inputs :
    (keccak : Bytes → Bytes) → PublicInputs → Bytes
unfolding circuit_type onchain_updates
onchain_mock_proof_for_public_inputs keccak pi =
    keccak (concat ((circuit_type pi ∷ []) ∷ onchain_updates pi))

-- `OnChainMockProofVerifier::verify_local`
unfoldable pub onchain_mock_verify : (keccak : Bytes → Bytes) → PublicInputs → Bytes → Bool
unfolding onchain_mock_proof_for_public_inputs
onchain_mock_verify keccak public_inputs proof =
    bytes_eq proof (onchain_mock_proof_for_public_inputs keccak public_inputs)

module _ (crypto : Crypto) where
  unfoldable pub mock_public_inputs_hash : PublicInputs → Fr
  mock_public_inputs_hash (shield_public pi) =
      poseidon2_hash_noir crypto
        (to_field transaction_binding
          ∷ 1
          ∷ pi.new_commitment
          ∷ pi.public_asset_id
          ∷ pi.public_amount
          ∷ [])
        5
  mock_public_inputs_hash (transfer_public pi) =
      let inputs =
        to_field transaction_binding
        ∷ 2
        ∷ pi.anchor
        ∷ pi.input_count
        ∷ pi.output_count
        ∷ (pi.nullifiers ++ (pi.output_commitments ++ (pi.tx_binding ∷ []))) in
      poseidon2_hash_noir crypto inputs (length inputs)
  mock_public_inputs_hash (unshield_public pi) =
      poseidon2_hash_noir crypto
        (to_field transaction_binding
          ∷ 3
          ∷ pi.anchor
          ∷ pi.nullifier
          ∷ pi.tx_binding
          ∷ pi.public_amount
          ∷ (pi.public_recipient_limbs ++ (pi.public_asset_id ∷ [])))
        11

  unfoldable pub mock_proof_for_public_inputs : PublicInputs → Bytes
  unfolding mock_public_inputs_hash
  mock_proof_for_public_inputs public_inputs =
      field_to_bytes (mock_public_inputs_hash public_inputs)

  -- The first arm of `MockSpendProver::prove`
  unfoldable pub mock_check_shield :
      ShieldPublicInputs → ShieldPrivateInputs → Outcome ProofSystemError (Unit {0})
  mock_check_shield pi private =
      let note : Note = record {
        asset_id = private.note_asset_id;
        amount = private.note_amount;
        recipient = private.note_recipient;
        diversifier_index = private.note_diversifier_index;
        nullifier_nonce = private.note_nullifier_nonce;
        note_randomness = private.note_randomness;
      } in
      if not (commitment crypto note == pi.new_commitment)
      then raised verification_failed
      else if not (pi.public_amount == private.note_amount)
      then raised verification_failed
      else if not (pi.public_asset_id == private.note_asset_id)
      then raised verification_failed
      else if pi.ct_hash == 0
      then raised verification_failed
      else done tt

  -- The match of `MockSpendProver::prove`
  unfoldable pub mock_check : PublicInputs → PrivateInputs → Outcome ProofSystemError (Unit {0})
  unfolding mock_check_shield mock_check_transfer mock_check_unshield
  mock_check (shield_public pi) (shield_private private) = mock_check_shield pi private
  mock_check (transfer_public pi) (transfer_private private) = mock_check_transfer crypto pi private
  mock_check (unshield_public pi) (unshield_private private) = mock_check_unshield crypto pi private
  mock_check (shield_public pi) (transfer_private private) = raised invalid_public_inputs
  mock_check (shield_public pi) (unshield_private private) = raised invalid_public_inputs
  mock_check (transfer_public pi) (shield_private private) = raised invalid_public_inputs
  mock_check (transfer_public pi) (unshield_private private) = raised invalid_public_inputs
  mock_check (unshield_public pi) (shield_private private) = raised invalid_public_inputs
  mock_check (unshield_public pi) (transfer_private private) = raised invalid_public_inputs

  -- `MockSpendProver::prove`
  unfoldable pub mock_prove : PublicInputs → PrivateInputs → Outcome ProofSystemError Bytes
  unfolding mock_check mock_proof_for_public_inputs
  mock_prove public_inputs private_inputs = mock_check public_inputs private_inputs >>= λ _.
      done (mock_proof_for_public_inputs public_inputs)

  -- `MockProofVerifier::verify_local`
  unfoldable pub mock_verify_local : PublicInputs → Bytes → Bool
  unfolding mock_proof_for_public_inputs
  mock_verify_local public_inputs proof =
      bytes_eq proof (mock_proof_for_public_inputs public_inputs)

  -- `OnChainMockSpendProver::prove`
  unfoldable pub onchain_mock_prove :
      (keccak : Bytes → Bytes) → PublicInputs → PrivateInputs → Outcome ProofSystemError Bytes
  unfolding mock_prove onchain_mock_proof_for_public_inputs
  onchain_mock_prove keccak public_inputs private_inputs =
      mock_prove public_inputs private_inputs >>= λ _.
      done (onchain_mock_proof_for_public_inputs keccak public_inputs)
