-- ===== src/Tests/Layouts.antt =====
-- The layouts of the public inputs, the verifier's buffer and the store's root on concrete data.
use native.Mathlib.Omega.{arith}
use solana_masp.Prelude.{
  ◌%◌, ◌+◌, ◌*◌, ◌≡◌, ◌↔◌, refl, [], ◌∷◌, Bytes, length, to_le_bytes, to_be_bytes, from_le_bytes,
}
use solana_masp.Runtime.{ok, ◌>>=◌}
use solana_masp.Masp.Inputs.{
  shield_from_buffer, transfer_from_buffer, unshield_from_buffer, shield_public_inputs,
  transfer_public_inputs, unshield_public_inputs,
}
use solana_masp.Masp.Inputs.Fields.{concat, u32_field}
use solana_masp.Masp.Inputs.Layout.{buffer, ShieldFits, TransferFits, UnshieldFits}
use solana_masp.Masp.Inputs.RoundTrip.{
  shield_from_buffer-public_inputs, transfer_from_buffer-public_inputs,
  unshield_from_buffer-public_inputs,
}
use solana_masp.Protocol.Domain.{nullifier, tag_bytes-injective}
use solana_masp.Verifier.{verify_data, read_header, proof_size}
use solana_masp.Verifier.Accepted.{PlainlyVerified, verify_data_iff}
use solana_masp.Store.{StoreState, new_store_state}
use solana_masp.Store.Roots.{insert_all, bit, byte, ones, insert_all-ones}
use solana_masp.Tests.Runtime.{key, toy_core, toy_vks}
use solana_masp.Tests.Scenario.{shield_inputs, transfer_inputs, unshield_inputs, uploaded}

shield_fits : ShieldFits shield_inputs
shield_fits = record { commitment = refl; asset_id = refl; amount = omega arith; ct_hash = refl }

transfer_fits : TransferFits transfer_inputs
transfer_fits = record {
  anchor = refl;
  nullifiers = (refl, (refl, (refl, tt)));
  three_nullifiers = refl;
  output_commitments = (refl, (refl, (refl, tt)));
  three_outputs = refl;
  input_count = omega arith;
  output_count = omega arith;
  ct_hashes = (refl, (refl, (refl, tt)));
  three_hashes = refl;
  tx_binding = refl;
}

unshield_fits : UnshieldFits unshield_inputs
unshield_fits = record {
  anchor = refl;
  nullifier = refl;
  tx_binding = refl;
  amount = omega arith;
  recipient_limbs = (omega arith, (omega arith, (omega arith, (omega arith, tt))));
  four_limbs = refl;
  asset_id = refl;
}

shield_from_buffer-public_inputs_example :
    shield_from_buffer
      (buffer (0 ∷ 0 ∷ 0 ∷ 0 ∷ 4 ∷ []) (shield_public_inputs shield_inputs) (9 ∷ []))
    ≡ ok shield_inputs
shield_from_buffer-public_inputs_example =
    shield_from_buffer-public_inputs (0 ∷ 0 ∷ 0 ∷ 0 ∷ 4 ∷ []) (9 ∷ []) refl shield_inputs
      shield_fits

transfer_from_buffer-public_inputs_example :
    transfer_from_buffer
      (buffer (0 ∷ 1 ∷ 0 ∷ 0 ∷ 13 ∷ []) (transfer_public_inputs transfer_inputs) (9 ∷ []))
    ≡ ok transfer_inputs
transfer_from_buffer-public_inputs_example =
    transfer_from_buffer-public_inputs (0 ∷ 1 ∷ 0 ∷ 0 ∷ 13 ∷ []) (9 ∷ []) refl transfer_inputs
      transfer_fits

unshield_from_buffer-public_inputs_example :
    unshield_from_buffer
      (buffer (0 ∷ 2 ∷ 0 ∷ 0 ∷ 9 ∷ []) (unshield_public_inputs unshield_inputs) (9 ∷ []))
    ≡ ok unshield_inputs
unshield_from_buffer-public_inputs_example =
    unshield_from_buffer-public_inputs (0 ∷ 2 ∷ 0 ∷ 0 ∷ 9 ∷ []) (9 ∷ []) refl unshield_inputs
      unshield_fits

unfoldable full_buffer : Bytes
unfolding concat
full_buffer = uploaded 1 0 10 13 (transfer_public_inputs transfer_inputs)

full_header : read_header full_buffer ≡ ok (1, 13 * 32 + proof_size, 13)
unfolding read_header full_buffer transfer_public_inputs concat u32_field to_be_bytes to_le_bytes
    from_le_bytes ◌>>=◌
full_header = refl

full_size : length full_buffer ≡ 5 + 13 * 32 + proof_size
unfolding full_buffer transfer_public_inputs concat u32_field to_be_bytes to_le_bytes
full_size = refl

verify_data_iff_example :
    (verify_data toy_core toy_vks full_buffer ≡ ok tt)
    ↔ PlainlyVerified toy_core toy_vks 1 13 full_buffer
verify_data_iff_example =
    verify_data_iff toy_core toy_vks 1 13 full_buffer full_header (omega arith) full_size

-- Bit 1 of the first byte is set in 2 and in 3, and bit 0 in 3 alone.
insert_all-ones_example :
    (s : StoreState) × (insert_all (key 2 ∷ key 3 ∷ []) (new_store_state (key 9)) ≡ ok s)
    × (s.leaf_count ≡ length (key 2 ∷ key 3 ∷ []))
    × (bit 1 (byte 0 s.current_root) ≡ ones 0 1 (key 2 ∷ key 3 ∷ []) % 2)
insert_all-ones_example =
    insert_all-ones (key 9) (key 2 ∷ key 3 ∷ []) 0 1 (omega arith) (refl, (refl, tt)) (omega arith)
      (omega arith)

tag_bytes-injective_example : nullifier ≡ nullifier
tag_bytes-injective_example = tag_bytes-injective nullifier nullifier refl
