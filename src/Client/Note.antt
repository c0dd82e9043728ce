-- ===== src/Client/Note.antt =====
-- client/src/note.rs, nullifier.rs and tx_binding.rs: notes, and the hashes of a transaction.
pub mod RoundTrip
use solana_masp.Prelude.{
  ℕ, zero, suc, ◌+◌, List, [], ◌∷◌, ◌++◌, Bytes, take, drop, map, to_le_bytes, from_le_bytes,
}
use solana_masp.Protocol.Domain.{
  note_commitment, nullifier, asset_id, transaction_binding, nullifier_nonce,
}
use solana_masp.Client.Hash.{
  Fr, Crypto, to_field, poseidon2_hash_noir, field_to_bytes, field_from_bytes,
}

pub record Note : Type 0 where
  pub asset_id : Fr
  pub amount : ℕ
  pub recipient : Fr
  pub diversifier_index : ℕ
  pub nullifier_nonce : Fr
  pub note_randomness : Fr

pub record NotePlaintext : Type 0 where
  pub asset_id : Bytes
  pub amount : ℕ
  pub recipient : Bytes
  pub diversifier_index : ℕ
  pub nullifier_nonce : Bytes
  pub note_randomness : Bytes

unfoldable pub to_plaintext : Note → NotePlaintext
unfolding field_to_bytes
to_plaintext n = record {
  asset_id = field_to_bytes n.asset_id;
  amount = n.amount;
  recipient = field_to_bytes n.recipient;
  diversifier_index = n.diversifier_index;
  nullifier_nonce = field_to_bytes n.nullifier_nonce;
  note_randomness = field_to_bytes n.note_randomness;
}

unfoldable pub from_plaintext : NotePlaintext → Note
unfolding field_from_bytes
from_plaintext p = record {
  asset_id = field_from_bytes p.asset_id;
  amount = p.amount;
  recipient = field_from_bytes p.recipient;
  diversifier_index = p.diversifier_index;
  nullifier_nonce = field_from_bytes p.nullifier_nonce;
  note_randomness = field_from_bytes p.note_randomness;
}

-- `recipient_to_u64_limbs_le`, on the chunks of eight bytes of a list
unfoldable pub to_limbs : (limbs : ℕ) → Bytes → List ℕ
unfolding from_le_bytes
to_limbs zero bytes = []
to_limbs (suc n) bytes = from_le_bytes (take 8 bytes) ∷ to_limbs n (drop 8 bytes)

unfoldable pub recipient_to_u64_limbs_le : Bytes → List ℕ
unfolding to_limbs
recipient_to_u64_limbs_le recipient = to_limbs 4 recipient

unfoldable pub recipient_from_u64_limbs_le : List ℕ → Bytes
unfolding to_le_bytes
recipient_from_u64_limbs_le [] = []
recipient_from_u64_limbs_le (limb ∷ limbs) = to_le_bytes 8 limb ++ recipient_from_u64_limbs_le limbs

module _ (crypto : Crypto) where
  -- `Note::commitment`
  unfoldable pub commitment : Note → Fr
  unfolding to_field
  commitment n =
      poseidon2_hash_noir crypto
        (to_field note_commitment
          ∷ n.asset_id
          ∷ n.amount
          ∷ n.recipient
          ∷ n.diversifier_index
          ∷ n.nullifier_nonce
          ∷ n.note_randomness
          ∷ [])
        7

  unfoldable pub compute_asset_id : Bytes → Fr
  unfolding to_field field_from_bytes
  compute_asset_id token_address =
      poseidon2_hash_noir crypto (to_field asset_id ∷ field_from_bytes token_address ∷ []) 2

  unfoldable pub compute_nullifier : (nsk nonce : Fr) → Fr
  unfolding to_field
  compute_nullifier nsk nonce = poseidon2_hash_noir crypto (to_field nullifier ∷ nsk ∷ nonce ∷ []) 3

  unfoldable pub tx_binding_transfer :
      (anchor : Fr) (nullifiers : List Fr) (input_count output_count : ℕ) → Fr
  unfolding to_field
  tx_binding_transfer anchor nullifiers input_count output_count =
      let h_nf = poseidon2_hash_noir crypto nullifiers 3 in
      poseidon2_hash_noir crypto
        (to_field transaction_binding ∷ 2 ∷ anchor ∷ input_count ∷ output_count ∷ h_nf ∷ []) 6

  unfoldable pub tx_binding_unshield :
      (anchor nf : Fr) (public_amount : ℕ) (limbs : List ℕ) (public_asset_id : Fr) → Fr
  unfolding to_field
  tx_binding_unshield anchor nf public_amount limbs public_asset_id =
      poseidon2_hash_noir crypto
        (to_field transaction_binding
          ∷ 3
          ∷ anchor
          ∷ nf
          ∷ public_amount
          ∷ (limbs ++ (public_asset_id ∷ [])))
        10

  unfoldable pub derive_output_nonce_nm : (tx_binding : Fr) (output_index : ℕ) → Fr
  unfolding to_field
  derive_output_nonce_nm tx_binding output_index =
      poseidon2_hash_noir crypto (to_field nullifier_nonce ∷ tx_binding ∷ output_index ∷ []) 3
