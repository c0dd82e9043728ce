-- ===== src/Client/Requests.antt =====
-- client/src/traits.rs: what is proved, and what is sent to the chain.
use solana_masp.Prelude.{
  ℕ, ◌+◌, List, [], ◌∷◌, ◌++◌, Bytes, Bool, true, false, if◌then◌else◌, ◌==◌, Option, map, take,
}
use solana_masp.Client.Hash.{Fr, Crypto, ciphertext_hash}
use solana_masp.Client.Note.{Note}
use solana_masp.Client.MerkleTree.{fold_path}

abbrev pub max_inputs : ℕ
max_inputs = 3

abbrev pub max_outputs : ℕ
max_outputs = 3

-- The arrays of `max_inputs` and `max_outputs` elements are lists.
pub record TransferPublicInputs : Type 0 where
  pub anchor : Fr
  pub nullifiers : List Fr
  pub output_commitments : List Fr
  pub input_count : ℕ
  pub output_count : ℕ
  pub ct_hashes : List Fr
  pub tx_binding : Fr

pub record UnshieldPublicInputs : Type 0 where
  pub anchor : Fr
  pub nullifier : Fr
  pub tx_binding : Fr
  pub public_amount : ℕ
  pub public_recipient_limbs : List ℕ
  pub public_asset_id : Fr

pub record ShieldPublicInputs : Type 0 where
  pub new_commitment : Fr
  pub public_asset_id : Fr
  pub public_amount : ℕ
  pub ct_hash : Fr

-- `ProofPublicInputs`
pub data PublicInputs : Type 0 where
  shield_public : ShieldPublicInputs → PublicInputs
  transfer_public : TransferPublicInputs → PublicInputs
  unshield_public : UnshieldPublicInputs → PublicInputs

pub data MembershipWitness : Type 0 where
  merkle_path : (siblings : List Fr) (path_indices : List Bool) (root : Fr) → MembershipWitness
  light_validity_proof : (proof_bytes : Bytes) (root : Fr) → MembershipWitness

pub record InputSlot : Type 0 where
  pub enabled : Bool
  pub note_asset_id : Fr
  pub note_amount : ℕ
  pub note_recipient : Fr
  pub note_diversifier_index : ℕ
  pub note_nullifier_nonce : Fr
  pub note_randomness : Fr
  pub spending_key : Fr
  pub membership_witness : MembershipWitness

-- `InputSlot::default`
abbrev pub default_input : InputSlot
default_input = record {
  enabled = false;
  note_asset_id = 0;
  note_amount = 0;
  note_recipient = 0;
  note_diversifier_index = 0;
  note_nullifier_nonce = 0;
  note_randomness = 0;
  spending_key = 0;
  membership_witness = merkle_path [] [] 0;
}

pub record OutputSlot : Type 0 where
  pub enabled : Bool
  pub note : Note

-- `OutputSlot::default`
abbrev pub default_output : OutputSlot
default_output = record {
  enabled = false;
  note = record {
    asset_id = 0;
    amount = 0;
    recipient = 0;
    diversifier_index = 0;
    nullifier_nonce = 0;
    note_randomness = 0;
  };
}

pub record TransferPrivateInputs : Type 0 where
  pub inputs : List InputSlot
  pub outputs : List OutputSlot

unfoldable pub count_inputs : List InputSlot → ℕ
count_inputs [] = 0
count_inputs (s ∷ slots) = (if s.enabled then 1 else 0) + count_inputs slots

unfoldable pub count_outputs : List OutputSlot → ℕ
count_outputs [] = 0
count_outputs (s ∷ slots) = (if s.enabled then 1 else 0) + count_outputs slots

-- `TransferPrivateInputs::input_count` and `output_count`
unfoldable pub input_count : TransferPrivateInputs → ℕ
unfolding count_inputs
input_count p = count_inputs p.inputs

unfoldable pub output_count : TransferPrivateInputs → ℕ
unfolding count_outputs
output_count p = count_outputs p.outputs

pub record ShieldPrivateInputs : Type 0 where
  pub note_asset_id : Fr
  pub note_amount : ℕ
  pub note_recipient : Fr
  pub note_diversifier_index : ℕ
  pub note_nullifier_nonce : Fr
  pub note_randomness : Fr

pub record UnshieldPrivateInputs : Type 0 where
  pub spending_key : Fr
  pub note_asset_id : Fr
  pub note_amount : ℕ
  pub note_recipient : Fr
  pub note_diversifier_index : ℕ
  pub note_nullifier_nonce : Fr
  pub note_randomness : Fr
  pub membership_witness : MembershipWitness

-- `ProofPrivateInputs`
pub data PrivateInputs : Type 0 where
  shield_private : ShieldPrivateInputs → PrivateInputs
  transfer_private : TransferPrivateInputs → PrivateInputs
  unshield_private : UnshieldPrivateInputs → PrivateInputs

-- A transaction's signature is the bytes of its string.
pub record OutputCiphertextData : Type 0 where
  pub ciphertext : Bytes
  pub ephemeral_key : Bytes
  pub ct_hash : Fr

pub record ShieldRequest : Type 0 where
  pub token_address : Bytes
  pub amount : ℕ
  pub commitment : Fr
  pub shield_proof : Bytes
  pub ciphertext : Option Bytes
  pub ephemeral_key : Option Bytes
  pub ct_hash : Fr

pub record TransferOutput : Type 0 where
  pub commitment : Fr
  pub ciphertext : Option Bytes
  pub ephemeral_key : Option Bytes

pub record TransferRequest : Type 0 where
  pub anchor : Fr
  pub nullifiers : List Fr
  pub input_count : ℕ
  pub output_count : ℕ
  pub ct_hashes : List Fr
  pub tx_binding : Fr
  pub spend_proof : Bytes
  pub outputs : List TransferOutput

-- `output_commitments_array` and the enabled slots of a request
unfoldable pub output_commitments_array : TransferRequest → List Fr
output_commitments_array r = map (λ o. o.commitment) r.outputs

unfoldable pub enabled_nullifiers : TransferRequest → List Fr
enabled_nullifiers r = take r.input_count r.nullifiers

unfoldable pub enabled_output_commitments : TransferRequest → List Fr
enabled_output_commitments r = map (λ o. o.commitment) (take r.output_count r.outputs)

pub record UnshieldRequest : Type 0 where
  pub anchor : Fr
  pub nullifier : Fr
  pub tx_binding : Fr
  pub spend_proof : Bytes
  pub recipient : Bytes
  pub amount : ℕ
  pub token_address : Bytes

-- `Indexer`'s record of an output
pub record OutputCiphertext : Type 0 where
  pub commitment : Fr
  pub ciphertext : Bytes
  pub ephemeral_key : Bytes
  pub tx_sig : Bytes
  pub committed_ct_hash : Option Fr

-- `MembershipWitness::root`
unfoldable pub witness_root : MembershipWitness → Fr
witness_root (merkle_path siblings path_indices root) = root
witness_root (light_validity_proof proof_bytes root) = root

unfoldable pub is_local : MembershipWitness → Bool
is_local (merkle_path siblings path_indices root) = true
is_local (light_validity_proof proof_bytes root) = false

module _ (crypto : Crypto) where
  unfoldable pub verify_local : MembershipWitness → Fr → Bool
  unfolding fold_path
  verify_local (merkle_path siblings path_indices root) commitment =
      fold_path crypto commitment siblings path_indices == root
  verify_local (light_validity_proof proof_bytes root) commitment = false

  -- `OutputCiphertextData::new`
  unfoldable pub new_ciphertext_data : Bytes → Bytes → OutputCiphertextData
  unfolding ciphertext_hash
  new_ciphertext_data ciphertext ephemeral_key = record {
    ciphertext = ciphertext;
    ephemeral_key = ephemeral_key;
    ct_hash = ciphertext_hash crypto (ephemeral_key ++ ciphertext);
  }
