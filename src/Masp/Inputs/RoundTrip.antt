-- ===== src/Masp/Inputs/RoundTrip.antt =====
-- Reading the public inputs back from a buffer that holds them gives the inputs.
use mathlib.Core.List.{append_assoc, append-nil}
use solana_masp.Prelude.{◌≡◌, ◌∙◌, refl, ◌++◌, Bytes, length, drop, map}
use solana_masp.Runtime.{ok}
use solana_masp.Masp.Inputs.{
  ShieldInputs, shield_from_buffer, shield_public_inputs, TransferInputs, transfer_from_buffer,
  transfer_public_inputs, UnshieldInputs, unshield_from_buffer, unshield_public_inputs,
  buffer_header_size,
}
use solana_masp.Masp.Inputs.Fields.{
  concat, u64_field, u32_field, length-u64_field, length-u32_field, field_u64-u64_field,
  field_u32-u32_field, concat-append, slice_here, drop_next, read_fields_here,
}
use solana_masp.Masp.Inputs.Layout.{
  buffer, buffer_start, buffer_room, ShieldFits, TransferFits, UnshieldFits, shield_fields,
  transfer_fields, unshield_fields, length-transfer_public_inputs, length-unshield_public_inputs,
  AreFields-limbs, length-limbs, limbs_read, length-fields,
}

module _ (header rest : Bytes) (sized : length header ≡ buffer_header_size) where
  -- The public inputs of Shield, of the Rust types' widths and behind a header of five bytes, are read
  -- back from the buffer, whatever follows them.
  pub shield_from_buffer-public_inputs :
      (i : ShieldInputs)
      → ShieldFits i
      → shield_from_buffer (buffer header (shield_public_inputs i) rest) ≡ ok i
  unfolding shield_from_buffer shield_public_inputs concat
  shield_from_buffer-public_inputs i h =
      let bytes = buffer header (shield_public_inputs i) rest in
      let amount = u64_field i.amount in
      let p₀ : drop 5 bytes ≡ i.commitment ++ (i.asset_id ++ (amount ++ (i.ct_hash ++ rest))) =
        buffer_start header rest sized (shield_public_inputs i) ∙ simp (append_assoc, append-nil) in
      let p₁ = drop_next 5 bytes i.commitment _ p₀ h.commitment in
      let p₂ = drop_next 37 bytes i.asset_id _ p₁ h.asset_id in
      let p₃ = drop_next 69 bytes amount _ p₂ (length-u64_field i.amount) in
      rw (
        buffer_room header rest sized (shield_public_inputs i) (shield_fields i h) refl,
        slice_here 5 bytes i.commitment _ p₀ h.commitment,
        slice_here 37 bytes i.asset_id _ p₁ h.asset_id,
        slice_here 69 bytes amount _ p₂ (length-u64_field i.amount),
        slice_here 101 bytes i.ct_hash _ p₃ h.ct_hash,
        field_u64-u64_field i.amount h.amount,
      )

  -- The public inputs of Transfer, of the Rust types' widths and behind a header of five bytes, are read
  -- back from the buffer, whatever follows them.
  pub transfer_from_buffer-public_inputs :
      (i : TransferInputs)
      → TransferFits i
      → transfer_from_buffer (buffer header (transfer_public_inputs i) rest) ≡ ok i
  unfolding transfer_from_buffer transfer_public_inputs
  transfer_from_buffer-public_inputs i h =
      let pis = transfer_public_inputs i in
      let bytes = buffer header pis rest in
      let inputs = u32_field i.input_count in
      let outputs = u32_field i.output_count in
      let p₀ : drop 5 bytes
          ≡ i.anchor
            ++ (concat i.nullifiers
                ++ (concat i.output_commitments
                    ++ (inputs ++ (outputs ++ (concat i.ct_hashes ++ (i.tx_binding ++ rest)))))) =
        buffer_start header rest sized pis
        ∙ unfold concat in simp (concat-append, append_assoc, append-nil) in
      let p₁ = drop_next 5 bytes i.anchor _ p₀ h.anchor in
      let p₂ =
        drop_next 37 bytes (concat i.nullifiers) _ p₁
          (length-fields i.nullifiers h.nullifiers h.three_nullifiers) in
      let p₃ =
        drop_next 133 bytes (concat i.output_commitments) _ p₂
          (length-fields i.output_commitments h.output_commitments h.three_outputs) in
      let p₄ = drop_next 229 bytes inputs _ p₃ (length-u32_field i.input_count) in
      let p₅ = drop_next 261 bytes outputs _ p₄ (length-u32_field i.output_count) in
      let p₆ =
        drop_next 293 bytes (concat i.ct_hashes) _ p₅
          (length-fields i.ct_hashes h.ct_hashes h.three_hashes) in
      rw (
        buffer_room header rest sized pis (transfer_fields i h) (length-transfer_public_inputs i h),
        slice_here 5 bytes i.anchor _ p₀ h.anchor,
        read_fields_here 3 37 bytes i.nullifiers _ p₁ h.nullifiers h.three_nullifiers,
        read_fields_here 3 133 bytes i.output_commitments _ p₂ h.output_commitments h.three_outputs,
        slice_here 229 bytes inputs _ p₃ (length-u32_field i.input_count),
        slice_here 261 bytes outputs _ p₄ (length-u32_field i.output_count),
        read_fields_here 3 293 bytes i.ct_hashes _ p₅ h.ct_hashes h.three_hashes,
        slice_here 389 bytes i.tx_binding _ p₆ h.tx_binding,
        field_u32-u32_field i.input_count h.input_count,
        field_u32-u32_field i.output_count h.output_count,
      )

  -- The public inputs of Unshield, of the Rust types' widths and behind a header of five bytes, are read
  -- back from the buffer, whatever follows them.
  pub unshield_from_buffer-public_inputs :
      (i : UnshieldInputs)
      → UnshieldFits i
      → unshield_from_buffer (buffer header (unshield_public_inputs i) rest) ≡ ok i
  unfolding unshield_from_buffer unshield_public_inputs
  unshield_from_buffer-public_inputs i h =
      let pis = unshield_public_inputs i in
      let bytes = buffer header pis rest in
      let amount = u64_field i.amount in
      let limbs = map u64_field i.recipient_limbs in
      let four : length limbs ≡ 4 = length-limbs i.recipient_limbs ∙ h.four_limbs in
      let p₀ : drop 5 bytes
          ≡ i.anchor
            ++ (i.nullifier
                ++ (i.tx_binding ++ (amount ++ (concat limbs ++ (i.asset_id ++ rest))))) =
        buffer_start header rest sized pis
        ∙ unfold concat in simp (concat-append, append_assoc, append-nil) in
      let p₁ = drop_next 5 bytes i.anchor _ p₀ h.anchor in
      let p₂ = drop_next 37 bytes i.nullifier _ p₁ h.nullifier in
      let p₃ = drop_next 69 bytes i.tx_binding _ p₂ h.tx_binding in
      let p₄ = drop_next 101 bytes amount _ p₃ (length-u64_field i.amount) in
      let p₅ =
        drop_next 133 bytes (concat limbs) _ p₄
          (length-fields limbs (AreFields-limbs i.recipient_limbs) four) in
      rw (
        buffer_room header rest sized pis (unshield_fields i h) (length-unshield_public_inputs i h),
        slice_here 5 bytes i.anchor _ p₀ h.anchor,
        slice_here 37 bytes i.nullifier _ p₁ h.nullifier,
        slice_here 69 bytes i.tx_binding _ p₂ h.tx_binding,
        slice_here 101 bytes amount _ p₃ (length-u64_field i.amount),
        read_fields_here 4 133 bytes limbs _ p₄ (AreFields-limbs i.recipient_limbs) four,
        slice_here 261 bytes i.asset_id _ p₅ h.asset_id,
        field_u64-u64_field i.amount h.amount,
        limbs_read i.recipient_limbs h.recipient_limbs,
      )
