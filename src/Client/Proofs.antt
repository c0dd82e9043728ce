-- ===== src/Client/Proofs.antt =====
-- client/src/proofs.rs: the statements that the mock prover checks, and its proofs.
pub mod Inputs
pub mod InputLoop
pub mod OutputLoop
pub mod Transfer
pub mod Prover
pub mod Unshield
pub mod OnChain
pub mod Submission
use solana_masp.Prelude.{
  ℕ, zero, suc, ◌+◌, ◌*◌, ◌%◌, ◌^◌, Bool, not, ◌||◌, List, [], ◌∷◌, ◌++◌, Bytes, bytes_eq, length,
  ◌==◌, ltb, Option, none, some, if◌then◌else◌,
}
use solana_masp.Protocol.Domain.{
  transaction_binding, authorization_secret, nullifier_secret, incoming_viewing_key,
}
use solana_masp.Client.Outcome.{
  Outcome, raised, done, ◌>>=◌, ProofSystemError, verification_failed, invalid_public_inputs,
}
use solana_masp.Client.Hash.{Fr, Crypto, to_field, poseidon2_hash_noir, field_to_bytes}
use solana_masp.Client.Keys.{SpendingKey, to_grumpkin_scalar, from_grumpkin_base, nsk}
use solana_masp.Client.Note.{
  Note, commitment, compute_nullifier, tx_binding_transfer, tx_binding_unshield,
  derive_output_nonce_nm,
}
use solana_masp.Client.Requests.{
  TransferPublicInputs, UnshieldPublicInputs, ShieldPublicInputs, PublicInputs, shield_public,
  transfer_public, unshield_public, InputSlot, OutputSlot, TransferPrivateInputs, input_count,
  output_count, ShieldPrivateInputs, UnshieldPrivateInputs, PrivateInputs, shield_private,
  transfer_private, unshield_private, witness_root, verify_local,
}

-- `u128::checked_add`
unfoldable pub checked_add_u128 : ℕ → ℕ → Option ℕ
checked_add_u128 a b = if ltb (a + b) (2 ^ 128) then some (a + b) else none

-- `Note::with_values` of an input slot
abbrev pub input_note : InputSlot → Note
input_note s = record {
  asset_id = s.note_asset_id;
  amount = s.note_amount;
  recipient = s.note_recipient;
  diversifier_index = s.note_diversifier_index;
  nullifier_nonce = s.note_nullifier_nonce;
  note_randomness = s.note_randomness;
}

-- The match on `transfer_asset_id`
unfoldable pub check_asset : Option Fr → Fr → Outcome ProofSystemError (Option Fr)
check_asset none asset = done (some asset)
check_asset (some a) asset = if not (a == asset) then raised verification_failed else done (some a)

unfoldable pub add_amount : ℕ → ℕ → Outcome ProofSystemError ℕ
add_amount sum amount = elim (checked_add_u128 sum amount) [
  | none ↦ raised verification_failed
  | some total ↦ done total
]

-- The last loop
unfoldable pub check_ct_hashes : List OutputSlot → List Fr → Outcome ProofSystemError (Unit {0})
check_ct_hashes [] ct_hashes = done tt
check_ct_hashes (slot ∷ slots) [] = done tt
check_ct_hashes (slot ∷ slots) (h ∷ ct_hashes) =
    if slot.enabled
    then (if h == 0 then raised verification_failed else check_ct_hashes slots ct_hashes)
    else if not (h == 0)
    then raised verification_failed
    else check_ct_hashes slots ct_hashes

module _ (crypto : Crypto) where
  unfoldable pub mock_check_spend_authorization :
      (spending_key note_recipient : Fr) (note_diversifier_index : ℕ)
      → Outcome ProofSystemError (Unit {0})
  unfolding to_field to_grumpkin_scalar from_grumpkin_base
  mock_check_spend_authorization spending_key note_recipient note_diversifier_index =
      let ask = poseidon2_hash_noir crypto (to_field authorization_secret ∷ spending_key ∷ []) 2 in
      let nsk = poseidon2_hash_noir crypto (to_field nullifier_secret ∷ spending_key ∷ []) 2 in
      let ak = crypto.mul crypto.generator (to_grumpkin_scalar ask) in
      let nk = crypto.mul crypto.generator (to_grumpkin_scalar nsk) in
      let ak_x = from_grumpkin_base ak.x in
      let nk_x = from_grumpkin_base nk.x in
      let ivk = poseidon2_hash_noir crypto (to_field incoming_viewing_key ∷ ak_x ∷ nk_x ∷ []) 3 in
      let g_d_scalar_field = poseidon2_hash_noir crypto (note_diversifier_index ∷ []) 1 in
      let g_d = crypto.mul crypto.generator (to_grumpkin_scalar g_d_scalar_field) in
      let pk_d = crypto.mul g_d (to_grumpkin_scalar ivk) in
      let expected_recipient = from_grumpkin_base pk_d.x in
      if not (note_recipient == expected_recipient) then raised verification_failed else done tt

  -- The checks of one enabled input of `mock_check_transfer`, up to the asset's
  unfoldable pub check_input : (anchor : Fr) → InputSlot → Fr → Outcome ProofSystemError (Unit {0})
  check_input anchor slot nf =
      if not (witness_root slot.membership_witness == anchor)
      then raised verification_failed
      else if not
          (verify_local crypto slot.membership_witness (commitment crypto (input_note slot)))
      then raised verification_failed
      else mock_check_spend_authorization slot.spending_key slot.note_recipient
          slot.note_diversifier_index
        >>= λ _.
            if not (
              compute_nullifier crypto (nsk crypto (record { sk = slot.spending_key }))
                slot.note_nullifier_nonce
              == nf)
            then raised verification_failed
            else done tt

  -- The loop on the inputs, with `transfer_asset_id` and `in_sum`
  unfoldable pub check_inputs :
      (anchor : Fr)
      → List InputSlot
      → List Fr
      → Option Fr
      → ℕ
      → Outcome ProofSystemError (Option Fr × ℕ)
  unfolding check_input check_asset add_amount
  check_inputs anchor [] nullifiers asset sum = done (asset, sum)
  check_inputs anchor (slot ∷ slots) [] asset sum = done (asset, sum)
  check_inputs anchor (slot ∷ slots) (nf ∷ nullifiers) asset sum =
      if slot.enabled
      then (check_input anchor slot nf >>= λ _. check_asset asset slot.note_asset_id >>= λ asset.
          add_amount sum slot.note_amount >>= λ sum. check_inputs anchor slots nullifiers asset sum)
      else if not (nf == 0)
      then raised verification_failed
      else check_inputs anchor slots nullifiers asset sum

  -- The checks of one enabled output, whose index is `j`
  unfoldable pub check_output :
      (tx_binding asset : Fr) → ℕ → Note → Fr → Outcome ProofSystemError (Unit {0})
  check_output tx_binding asset j note cm =
      if not (commitment crypto note == cm)
      then raised verification_failed
      else if not (note.nullifier_nonce == derive_output_nonce_nm crypto tx_binding j)
      then raised verification_failed
      else if not (note.asset_id == asset)
      then raised verification_failed
      else done tt

  -- The loop on the outputs, with `out_sum`
  unfoldable pub check_outputs :
      (tx_binding asset : Fr) → ℕ → List OutputSlot → List Fr → ℕ → Outcome ProofSystemError ℕ
  unfolding check_output add_amount
  check_outputs tx_binding asset j [] commitments sum = done sum
  check_outputs tx_binding asset j (slot ∷ slots) [] sum = done sum
  check_outputs tx_binding asset j (slot ∷ slots) (cm ∷ commitments) sum =
      if slot.enabled
      then (check_output tx_binding asset j slot.note cm >>= λ _.
          add_amount sum slot.note.amount >>= λ sum.
          check_outputs tx_binding asset (j + 1) slots commitments sum)
      else if not (cm == 0)
      then raised verification_failed
      else check_outputs tx_binding asset (j + 1) slots commitments sum

  unfoldable pub mock_check_transfer :
      TransferPublicInputs → TransferPrivateInputs → Outcome ProofSystemError (Unit {0})
  unfolding check_inputs check_outputs check_ct_hashes input_count output_count
  mock_check_transfer public private =
      let expected_tx_binding =
        tx_binding_transfer crypto public.anchor public.nullifiers public.input_count
          public.output_count in
      if not (public.tx_binding == expected_tx_binding)
      then raised verification_failed
      else if not (input_count private == public.input_count)
          || not (output_count private == public.output_count)
      then raised invalid_public_inputs
      else check_inputs public.anchor private.inputs public.nullifiers none 0 >>= λ read.
          (elim read.0 [
            | none ↦ raised invalid_public_inputs
            | some asset ↦
                check_outputs public.tx_binding asset 0 private.outputs public.output_commitments 0
                >>= λ out_sum.
                    if not (read.1 == out_sum)
                    then raised verification_failed
                    else check_ct_hashes private.outputs public.ct_hashes
          ])

  unfoldable pub mock_check_unshield :
      UnshieldPublicInputs → UnshieldPrivateInputs → Outcome ProofSystemError (Unit {0})
  unfolding mock_check_spend_authorization
  mock_check_unshield public private =
      let in_note : Note = record {
        asset_id = private.note_asset_id;
        amount = private.note_amount;
        recipient = private.note_recipient;
        diversifier_index = private.note_diversifier_index;
        nullifier_nonce = private.note_nullifier_nonce;
        note_randomness = private.note_randomness;
      } in
      let input_commitment = commitment crypto in_note in
      let expected_tx_binding =
        tx_binding_unshield crypto public.anchor public.nullifier public.public_amount
          public.public_recipient_limbs public.public_asset_id in
      if not (public.tx_binding == expected_tx_binding)
      then raised verification_failed
      else if not (witness_root private.membership_witness == public.anchor)
      then raised verification_failed
      else if not (verify_local crypto private.membership_witness input_commitment)
      then raised verification_failed
      else mock_check_spend_authorization private.spending_key private.note_recipient
          private.note_diversifier_index
        >>= λ _.
            if not (
              compute_nullifier crypto (nsk crypto (record { sk = private.spending_key }))
                private.note_nullifier_nonce
              == public.nullifier)
            then raised verification_failed
            else if not (public.public_asset_id == private.note_asset_id)
            then raised verification_failed
            else if not (public.public_amount == private.note_amount)
            then raised verification_failed
            else done tt
