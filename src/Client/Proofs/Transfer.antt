-- ===== src/Client/Proofs/Transfer.antt =====
-- `mock_check_transfer` decides the statement of the transfer circuit.
use solana_masp.Prelude.{
  ℕ, ◌+◌, ◌<◌, ◌≡◌, ◌↔◌, inl, inr, refl, sym, ap, ◌∙◌, none, some, arith, length,
}
use solana_masp.Client.Outcome.{done, Outcome-cases}
use solana_masp.Client.Hash.{Fr, Crypto}
use solana_masp.Client.Note.{tx_binding_transfer}
use solana_masp.Client.Requests.{
  TransferPublicInputs, TransferPrivateInputs, input_count, output_count, count_inputs, max_inputs,
  max_outputs,
}
use solana_masp.Client.Proofs.{check_inputs, check_outputs, mock_check_transfer}
use solana_masp.Client.Proofs.InputLoop.{
  InputsHold, AmountsFit, input_sum, first_asset-count_inputs, first_asset-InputsHold,
  check_inputs-done, check_inputs-InputsHold,
}
use solana_masp.Client.Proofs.OutputLoop.{
  OutputsHold, NoteAmountsFit, HashesHold, output_sum, check_outputs-done,
  check_outputs-OutputsHold, check_ct_hashes-HashesHold,
}

-- What the types of the arrays and of the amounts say
pub record IsTransfer (public : TransferPublicInputs) (private : TransferPrivateInputs)
    : Type 0 where
  pub inputs : length private.inputs ≡ max_inputs
  pub nullifiers : length public.nullifiers ≡ max_inputs
  pub outputs : length private.outputs ≡ max_outputs
  pub commitments : length public.output_commitments ≡ max_outputs
  pub input_amounts : AmountsFit private.inputs
  pub output_amounts : NoteAmountsFit private.outputs

module _ (crypto : Crypto) where
  -- One asset moves: every enabled input is a note of the tree that its owner spends, every
  -- enabled output is a new note of the same asset, and the amounts add up.
  pub record TransferStatement (public : TransferPublicInputs) (private : TransferPrivateInputs)
      : Type 0 where
    pub asset : Fr
    pub bound :
        public.tx_binding
        ≡ tx_binding_transfer crypto public.anchor public.nullifiers public.input_count
            public.output_count
    pub inputs_counted : input_count private ≡ public.input_count
    pub outputs_counted : output_count private ≡ public.output_count
    pub some_input : 0 < public.input_count
    pub inputs : InputsHold crypto public.anchor asset private.inputs public.nullifiers
    pub outputs :
        OutputsHold crypto public.tx_binding asset 0 private.outputs public.output_commitments
    pub conserved : input_sum private.inputs ≡ output_sum private.outputs
    pub ciphertexts : HashesHold private.outputs public.ct_hashes

  module _ (public : TransferPublicInputs) (private : TransferPrivateInputs)
      (typed : IsTransfer public private) where
    accepted_transfer :
        mock_check_transfer crypto public private ≡ done tt
        → (asset total : ℕ)
        → check_inputs crypto public.anchor private.inputs public.nullifiers none 0
          ≡ done (some asset, total)
        → (out_sum : ℕ)
        → check_outputs crypto public.tx_binding asset 0 private.outputs public.output_commitments 0
          ≡ done out_sum
        → TransferStatement public private
    unfolding mock_check_transfer input_count output_count
    accepted_transfer h asset total ran out_sum ran_outputs =
        let (first, in_total, inputs_hold) =
          check_inputs-done crypto public.anchor private.inputs public.nullifiers none 0
            (some asset) total (omega (arith, typed.inputs, typed.nullifiers)) ran in
        let (out_total, outputs_hold) =
          check_outputs-done crypto public.tx_binding asset 0 private.outputs
            public.output_commitments 0 out_sum (omega (arith, typed.outputs, typed.commitments))
            ran_outputs in
        let some_on = first_asset-count_inputs private.inputs asset (sym first) in
        let counted : input_count private ≡ public.input_count = ground arith in
        let equal : total ≡ out_sum = ground arith in
        record {
          asset = asset;
          bound = ground arith;
          inputs_counted = counted;
          outputs_counted = ground arith;
          some_input = omega (arith, counted, some_on);
          inputs = inputs_hold asset refl;
          outputs = outputs_hold;
          conserved = omega (arith, in_total, out_total, equal);
          ciphertexts =
              (check_ct_hashes-HashesHold private.outputs public.ct_hashes).0 (ground arith);
        }

    pub mock_check_transfer_sound :
        mock_check_transfer crypto public private ≡ done tt → TransferStatement public private
    unfolding mock_check_transfer
    mock_check_transfer_sound h =
        elim (Outcome-cases
          (check_inputs crypto public.anchor private.inputs public.nullifiers none 0)) [
            | inr (e, failed) ↦ absurd (ground arith)
            | inl ((none, total), ran) ↦ absurd (ground arith)
            | inl ((some asset, total), ran) ↦
                elim (Outcome-cases (
                  check_outputs crypto public.tx_binding asset 0 private.outputs
                    public.output_commitments 0)) [
                      | inl (out_sum, ran_outputs) ↦
                          accepted_transfer h asset total ran out_sum ran_outputs
                      | inr (e, failed) ↦ absurd (ground arith)
                    ]
          ]

    pub mock_check_transfer_complete :
        TransferStatement public private → mock_check_transfer crypto public private ≡ done tt
    unfolding mock_check_transfer input_count output_count
    mock_check_transfer_complete s =
        let counted : 0 < count_inputs private.inputs =
          omega (arith, s.some_input, s.inputs_counted) in
        let first =
          first_asset-InputsHold crypto public.anchor s.asset private.inputs public.nullifiers
            (omega (arith, typed.inputs, typed.nullifiers)) counted s.inputs in
        let ran_inputs =
          check_inputs-InputsHold crypto public.anchor s.asset private.inputs public.nullifiers none
            0 (omega (arith, typed.inputs, typed.nullifiers)) typed.input_amounts
            (omega (arith, typed.inputs)) s.inputs (inl refl)
          ∙ ap (λ o. done (o, 0 + input_sum private.inputs)) first in
        let ran_outputs =
          check_outputs-OutputsHold crypto public.tx_binding s.asset 0 private.outputs
            public.output_commitments 0 (omega (arith, typed.outputs, typed.commitments))
            typed.output_amounts (omega (arith, typed.outputs)) s.outputs in
        let hashed =
          (check_ct_hashes-HashesHold private.outputs public.ct_hashes).1 s.ciphertexts in
        ground (arith, s.bound, s.inputs_counted, s.outputs_counted, s.conserved)

  -- The check of a transfer, with three slots on each side and amounts of 64 bits, accepts
  -- exactly when the statement holds: binding, counts, slots, one asset, equal sums and
  -- ciphertext hashes.
  pub mock_check_transfer-TransferStatement :
      (public : TransferPublicInputs) (private : TransferPrivateInputs)
      → IsTransfer public private
      → (mock_check_transfer crypto public private ≡ done tt) ↔ TransferStatement public private
  mock_check_transfer-TransferStatement public private typed = (
    mock_check_transfer_sound public private typed,
    mock_check_transfer_complete public private typed,
  )
