-- ===== src/Masp/Inputs.antt =====
-- programs/solana-masp/src/inputs.rs: the public inputs of each circuit, read from the proof
-- buffer (UltraPlonk) or from the instruction data (the other proof systems).
pub mod Fields
pub mod Layout
pub mod RoundTrip
use Fields.{field_u64, u64_field, field_u32, u32_field, read_fields}
use solana_masp.Prelude.{
  ℕ, ◌+◌, ◌*◌, List, [], ◌∷◌, ◌++◌, Bytes, ltb, if◌then◌else◌, length, slice, to_le_bytes, map,
}
use solana_masp.Runtime.{Result, ok, err, invalid_account_data}
use solana_masp.Protocol.{ShieldData, TransferData, UnshieldData}

abbrev pub buffer_header_size : ℕ
buffer_header_size = 5

pub record ShieldInputs : Type 0 where
  pub commitment : Bytes
  pub asset_id : Bytes
  pub amount : ℕ
  pub ct_hash : Bytes

-- `ShieldInputs::PI_COUNT`, and so for the other circuits
abbrev pub shield_pi_count : ℕ
shield_pi_count = 4

-- `ShieldInputs::from_buffer` on the account's data
unfoldable pub shield_from_buffer : Bytes → Result ShieldInputs
shield_from_buffer bytes =
    let o₀ = buffer_header_size in
    let o₁ = o₀ + 32 in
    let o₂ = o₁ + 32 in
    let o₃ = o₂ + 32 in
    if ltb (length bytes) (buffer_header_size + shield_pi_count * 32)
    then err invalid_account_data
    else ok (record {
      commitment = slice o₀ 32 bytes;
      asset_id = slice o₁ 32 bytes;
      amount = field_u64 (slice o₂ 32 bytes);
      ct_hash = slice o₃ 32 bytes;
    })

unfoldable pub shield_from_data : ShieldData → Result ShieldInputs
shield_from_data d = ok (record {
  commitment = d.commitment;
  asset_id = d.asset_id;
  amount = d.amount;
  ct_hash = d.ct_hash;
})

unfoldable pub shield_public_inputs : ShieldInputs → List Bytes
shield_public_inputs i = i.commitment ∷ i.asset_id ∷ u64_field i.amount ∷ i.ct_hash ∷ []

pub record TransferInputs : Type 0 where
  pub anchor : Bytes
  pub nullifiers : List Bytes
  pub output_commitments : List Bytes
  pub input_count : ℕ
  pub output_count : ℕ
  pub ct_hashes : List Bytes
  pub tx_binding : Bytes

abbrev pub transfer_pi_count : ℕ
transfer_pi_count = 13

unfoldable pub transfer_from_buffer : Bytes → Result TransferInputs
transfer_from_buffer bytes =
    let o₀ = buffer_header_size in
    let o₁ = o₀ + 32 in
    let o₂ = o₁ + 3 * 32 in
    let o₃ = o₂ + 3 * 32 in
    let o₄ = o₃ + 32 in
    let o₅ = o₄ + 32 in
    let o₆ = o₅ + 3 * 32 in
    if ltb (length bytes) (buffer_header_size + transfer_pi_count * 32)
    then err invalid_account_data
    else ok (record {
      anchor = slice o₀ 32 bytes;
      nullifiers = read_fields 3 o₁ bytes;
      output_commitments = read_fields 3 o₂ bytes;
      input_count = field_u32 (slice o₃ 32 bytes);
      output_count = field_u32 (slice o₄ 32 bytes);
      ct_hashes = read_fields 3 o₅ bytes;
      tx_binding = slice o₆ 32 bytes;
    })

unfoldable pub transfer_from_data : TransferData → Result TransferInputs
transfer_from_data d = ok (record {
  anchor = d.anchor;
  nullifiers = d.nullifiers;
  output_commitments = d.output_commitments;
  input_count = d.input_count;
  output_count = d.output_count;
  ct_hashes = d.ct_hashes;
  tx_binding = d.tx_binding;
})

unfoldable pub transfer_public_inputs : TransferInputs → List Bytes
transfer_public_inputs i =
    i.anchor
    ∷ (i.nullifiers
        ++ (i.output_commitments
            ++ (u32_field i.input_count
                ∷ u32_field i.output_count
                ∷ (i.ct_hashes ++ (i.tx_binding ∷ [])))))

pub record UnshieldInputs : Type 0 where
  pub anchor : Bytes
  pub nullifier : Bytes
  pub tx_binding : Bytes
  pub amount : ℕ
  pub recipient_limbs : List ℕ
  pub asset_id : Bytes

abbrev pub unshield_pi_count : ℕ
unshield_pi_count = 9

unfoldable pub unshield_from_buffer : Bytes → Result UnshieldInputs
unshield_from_buffer bytes =
    let o₀ = buffer_header_size in
    let o₁ = o₀ + 32 in
    let o₂ = o₁ + 32 in
    let o₃ = o₂ + 32 in
    let o₄ = o₃ + 32 in
    let o₅ = o₄ + 4 * 32 in
    if ltb (length bytes) (buffer_header_size + unshield_pi_count * 32)
    then err invalid_account_data
    else ok (record {
      anchor = slice o₀ 32 bytes;
      nullifier = slice o₁ 32 bytes;
      tx_binding = slice o₂ 32 bytes;
      amount = field_u64 (slice o₃ 32 bytes);
      recipient_limbs = map field_u64 (read_fields 4 o₄ bytes);
      asset_id = slice o₅ 32 bytes;
    })

unfoldable pub unshield_from_data : UnshieldData → Result UnshieldInputs
unshield_from_data d = ok (record {
  anchor = d.anchor;
  nullifier = d.nullifier;
  tx_binding = d.tx_binding;
  amount = d.amount;
  recipient_limbs = d.recipient_limbs;
  asset_id = d.asset_id;
})

unfoldable pub unshield_public_inputs : UnshieldInputs → List Bytes
unshield_public_inputs i =
    i.anchor
    ∷ i.nullifier
    ∷ i.tx_binding
    ∷ u64_field i.amount
    ∷ (map u64_field i.recipient_limbs ++ (i.asset_id ∷ []))

-- `UnshieldInputs::recipient`: the limbs as little-endian bytes, one after the other.
unfoldable pub limbs_bytes : List ℕ → Bytes
limbs_bytes [] = []
limbs_bytes (limb ∷ limbs) = to_le_bytes 8 limb ++ limbs_bytes limbs

unfoldable pub recipient : UnshieldInputs → Bytes
unfolding limbs_bytes
recipient i = limbs_bytes i.recipient_limbs
