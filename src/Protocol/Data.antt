-- ===== src/Protocol/Data.antt =====
-- masp-protocol/src/instructions.rs and public_inputs.rs: instruction data and layouts.
use solana_masp.Prelude.{ℕ, ◌%◌, ◌^◌, List, [], ◌∷◌, ◌++◌, Bytes, length, to_le_bytes}

abbrev pub max_inputs : ℕ
max_inputs = 3

abbrev pub max_outputs : ℕ
max_outputs = 3

pub record ShieldData : Type 0 where
  pub commitment : Bytes
  pub asset_id : Bytes
  pub amount : ℕ
  pub ct_hash : Bytes

pub record TransferData : Type 0 where
  pub anchor : Bytes
  pub nullifiers : List Bytes
  pub output_commitments : List Bytes
  pub input_count : ℕ
  pub output_count : ℕ
  pub ct_hashes : List Bytes
  pub tx_binding : Bytes

pub record UnshieldData : Type 0 where
  pub anchor : Bytes
  pub nullifier : Bytes
  pub tx_binding : Bytes
  pub amount : ℕ
  pub recipient_limbs : List ℕ
  pub asset_id : Bytes

-- `COUNT` of ShieldPublicInputs, TransferPublicInputs and UnshieldPublicInputs
abbrev pub shield_count : ℕ
shield_count = 4

abbrev pub transfer_count : ℕ
transfer_count = 13

abbrev pub unshield_count : ℕ
unshield_count = 9

pub record PostCiphertextsData : Type 0 where
  pub count : ℕ
  pub packed_ciphertexts : Bytes

-- `PostCiphertextsData::encode`
unfoldable pub encode : PostCiphertextsData → Bytes
encode d = d.count ∷ d.packed_ciphertexts

-- `PostCiphertextsData::pack_ciphertexts`; the length is cast to a u16.
unfoldable pub pack_ciphertexts : List Bytes → Bytes
pack_ciphertexts [] = []
pack_ciphertexts (ct ∷ cts) = to_le_bytes 2 (length ct % 2 ^ 16) ++ ct ++ pack_ciphertexts cts
