-- ===== src/Client/Wallet/Spending.antt =====
-- A transfer that the wallet builds from a note of its own satisfies the circuit's statement.
use solana_masp.Prelude.{
  ℕ, ◌+◌, ◌-◌, ◌^◌, ◌<◌, ◌≤◌, ◌≡◌, ◌≢◌, refl, Bool, true, false, none, some, [], ◌∷◌, Bytes, ltb,
  arith, if◌then◌else◌,
}
use solana_masp.Client.Outcome.{done}
use solana_masp.Client.Hash.{Fr, Crypto}
use solana_masp.Client.Keys.{DiversifiedAddress, nsk}
use solana_masp.Client.Note.{Note, commitment, compute_nullifier, tx_binding_transfer}
use solana_masp.Client.Requests.{
  MembershipWitness, witness_root, verify_local, input_count, output_count, count_inputs,
  count_outputs, transfer_public, transfer_private, OutputSlot, default_output,
}
use solana_masp.Client.Proofs.Inputs.{recipient_of}
use solana_masp.Client.Proofs.InputLoop.{EnabledInput, input_sum}
use solana_masp.Client.Proofs.OutputLoop.{OutputStatement, output_sum}
use solana_masp.Client.Proofs.Transfer.{
  IsTransfer, TransferStatement, mock_check_transfer-TransferStatement,
}
use solana_masp.Client.Proofs.Prover.{mock_prove, mock_check, mock_proof_for_public_inputs}
use solana_masp.Client.Wallet.{
  Backend, OwnedNote, Wallet, TransferData, find_note, prepare_spend, transfer_data, build_transfer,
}
use solana_masp.Client.Wallet.Request.{spend_public, spend_private}

-- The hashes of the ciphertexts: of the payment, and of the change if there is any
pub record HashesFor (has_change : Bool) (h₀ h₁ : Fr) : Type 0 where
  pub payment : h₀ ≢ 0
  pub with_change : has_change ≡ true → h₁ ≢ 0
  pub without_change : has_change ≡ false → h₁ ≡ 0

module _ (crypto : Crypto) where
  -- A note of the wallet's key that is in the tree of the witness
  pub record Owns (w : Wallet) (note : Note) (witness : MembershipWitness) : Type 0 where
    pub member : verify_local crypto witness (commitment crypto note) ≡ true
    pub own : note.recipient ≡ recipient_of crypto w.spending_key.sk note.diversifier_index
    pub fits : note.amount < 2 ^ 64

  -- A transfer of one note, with or without change
  record IsSpend (w : Wallet) (t : TransferData) (count change_amount : ℕ) : Type 0 where
    pub owns : Owns w t.spend_note t.membership_witness
    pub anchored : witness_root t.membership_witness ≡ t.anchor
    pub bound : t.tx_binding ≡ tx_binding_transfer crypto t.anchor (t.nf ∷ 0 ∷ 0 ∷ []) 1 count
    pub revealed :
        compute_nullifier crypto (nsk crypto w.spending_key) t.spend_note.nullifier_nonce ≡ t.nf
    pub paid :
        OutputStatement crypto t.tx_binding t.spend_note.asset_id 0 t.output
          (commitment crypto t.output)
    pub conserved : t.spend_note.amount ≡ t.output.amount + change_amount

  module _ (w : Wallet) (t : TransferData) (h₀ h₁ : Fr) where
    spends_input :
        (count change_amount : ℕ)
        → IsSpend w t count change_amount
        → EnabledInput crypto t.anchor t.spend_note.asset_id
            (record {
              enabled = true;
              note_asset_id = t.spend_note.asset_id;
              note_amount = t.spend_note.amount;
              note_recipient = t.spend_note.recipient;
              note_diversifier_index = t.spend_note.diversifier_index;
              note_nullifier_nonce = t.spend_note.nullifier_nonce;
              note_randomness = t.spend_note.note_randomness;
              spending_key = w.spending_key.sk;
              membership_witness = t.membership_witness;
            })
            t.nf
    spends_input count change_amount h = record {
      spends = record {
        anchored = h.anchored;
        member = h.owns.member;
        owned = h.owns.own;
        revealed = h.revealed;
      };
      same_asset = refl;
    }

    statement_without_change :
        IsSpend w t 1 0
        → HashesFor false h₀ h₁
        → TransferStatement crypto
            (spend_public crypto (record t { change = none }) (h₀ ∷ h₁ ∷ 0 ∷ []))
            (spend_private (record t { change = none }) w.spending_key.sk)
    unfolding spend_public spend_private input_count output_count count_inputs count_outputs
        input_sum output_sum
    statement_without_change h hashes = record {
      asset = t.spend_note.asset_id;
      bound = h.bound;
      inputs_counted = refl;
      outputs_counted = refl;
      some_input = omega arith;
      inputs = (λ _. spends_input 1 0 h, λ e. cc, (λ e. cc, λ _. refl, (λ e. cc, λ _. refl, tt)));
      outputs = (λ _. h.paid, λ e. cc, (λ e. cc, λ _. refl, (λ e. cc, λ _. refl, tt)));
      conserved = omega (arith, h.conserved);
      ciphertexts = (
        λ _. hashes.payment,
        λ e. cc,
        (λ e. cc, λ _. hashes.without_change refl, (λ e. cc, λ _. refl, tt)),
      );
    }

    statement_with_change :
        (change : Note)
        → OutputStatement crypto t.tx_binding t.spend_note.asset_id 1 change
            (commitment crypto change)
        → IsSpend w t 2 change.amount
        → HashesFor true h₀ h₁
        → TransferStatement crypto
            (spend_public crypto (record t { change = some change }) (h₀ ∷ h₁ ∷ 0 ∷ []))
            (spend_private (record t { change = some change }) w.spending_key.sk)
    unfolding spend_public spend_private input_count output_count count_inputs count_outputs
        input_sum output_sum
    statement_with_change change returned h hashes = record {
      asset = t.spend_note.asset_id;
      bound = h.bound;
      inputs_counted = refl;
      outputs_counted = refl;
      some_input = omega arith;
      inputs = (
        λ _. spends_input 2 change.amount h,
        λ e. cc,
        (λ e. cc, λ _. refl, (λ e. cc, λ _. refl, tt)),
      );
      outputs = (λ _. h.paid, λ e. cc, (λ _. returned, λ e. cc, (λ e. cc, λ _. refl, tt)));
      conserved = omega (arith, h.conserved);
      ciphertexts = (
        λ _. hashes.payment,
        λ e. cc,
        (λ _. hashes.with_change refl, λ e. cc, (λ e. cc, λ _. refl, tt)),
      );
    }

  module _ (w : Wallet) (c : Fr) (note : Note) (witness : MembershipWitness)
      (recipient : DiversifiedAddress) (amount r₀ r₁ : ℕ) (owns : Owns w note witness)
      (enough : amount ≤ note.amount) where
    abbrev spent_nullifier : Fr
    spent_nullifier = compute_nullifier crypto (nsk crypto w.spending_key) note.nullifier_nonce

    abbrev data_of : Bool → TransferData
    data_of b = transfer_data crypto w c note witness spent_nullifier recipient amount r₀ r₁ b

    data_of-IsSpend :
        (b : Bool) (rest : ℕ)
        → note.amount ≡ amount + rest
        → IsSpend w (data_of b) (if b then 2 else 1) rest
    unfolding transfer_data
    data_of-IsSpend b rest sum = record {
      owns = owns;
      anchored = refl;
      bound = refl;
      revealed = refl;
      paid = record { committed = refl; nonce = refl; same_asset = refl };
      conserved = sum;
    }

    abbrev Stated : (h₀ h₁ : Fr) → Bool → Type 0
    Stated h₀ h₁ b =
        TransferStatement crypto (spend_public crypto (data_of b) (h₀ ∷ h₁ ∷ 0 ∷ []))
          (spend_private (data_of b) w.spending_key.sk)

    stated :
        (h₀ h₁ : Fr) (b : Bool) → ltb amount note.amount ≡ b → HashesFor b h₀ h₁ → Stated h₀ h₁ b
    unfolding transfer_data
    stated h₀ h₁ true e hashes =
        statement_with_change w (data_of true) h₀ h₁ _
          (record { committed = refl; nonce = refl; same_asset = refl })
          (data_of-IsSpend true (note.amount - amount) (omega arith)) hashes
    stated h₀ h₁ false e hashes =
        let exact : note.amount ≡ amount + 0 = ground arith in
        statement_without_change w (data_of false) h₀ h₁ (data_of-IsSpend false 0 exact) hashes

    typed :
        (h₀ h₁ : Fr) (b : Bool)
        → IsTransfer
            (spend_public crypto (data_of b) (h₀ ∷ h₁ ∷ 0 ∷ []))
            (spend_private (data_of b) w.spending_key.sk)
    unfolding transfer_data spend_public spend_private
    typed h₀ h₁ b = record {
      inputs = refl;
      nullifiers = refl;
      outputs = refl;
      commitments = refl;
      input_amounts = (owns.fits, (omega arith, (omega arith, tt)));
      output_amounts = (omega (arith, owns.fits), (change_fits b, (omega arith, tt)));
    }
      where
        change_fits :
            (b : Bool)
            → (elim (data_of b).change as (λ _. OutputSlot) [
              | some n ↦ record { enabled = true; note = n }
              | none ↦ default_output
            ]).note.amount
              < 2 ^ 64
        change_fits true = omega (arith, owns.fits)
        change_fits false = omega arith

  -- The wallet builds a transfer of at most the amount of an unspent note that it holds and owns
  -- with its witness, and the mock prover proves it when the hashes of its ciphertexts are not
  -- zero.
  pub build_transfer-mock_prove :
      {S : Type 0} (backend : Backend S) (w : Wallet) (s : S) (c : Fr) (owned : OwnedNote)
      (witness : MembershipWitness) (recipient : DiversifiedAddress) (amount r₀ r₁ h₀ h₁ : ℕ)
      → find_note w.notes c ≡ some owned
      → owned.spent ≡ false
      → backend.get_witness s c ≡ done witness
      → Owns w owned.note witness
      → amount ≤ owned.note.amount
      → HashesFor (ltb amount owned.note.amount) h₀ h₁
      → (t : TransferData) × (proof : Bytes) × (build_transfer crypto backend w s c recipient amount
            r₀ r₁
          ≡ done t)
        × (mock_prove crypto
              (transfer_public (spend_public crypto t (h₀ ∷ h₁ ∷ 0 ∷ [])))
              (transfer_private (spend_private t w.spending_key.sk))
            ≡ done proof)
  unfolding build_transfer prepare_spend mock_prove mock_check
  build_transfer-mock_prove backend w s c owned witness recipient amount r₀ r₁ h₀ h₁ found fresh
        has_witness owns enough hashes =
      let b = ltb amount owned.note.amount in
      let t = data_of w c owned.note witness recipient amount r₀ r₁ owns enough b in
      let public = spend_public crypto t (h₀ ∷ h₁ ∷ 0 ∷ []) in
      let checked =
        (mock_check_transfer-TransferStatement crypto public (spend_private t w.spending_key.sk)
            (typed w c owned.note witness recipient amount r₀ r₁ owns enough h₀ h₁ b)).1
          (stated w c owned.note witness recipient amount r₀ r₁ owns enough h₀ h₁ b refl hashes) in
      (
        t,
        mock_proof_for_public_inputs crypto (transfer_public public),
        ground arith,
        rw (checked) refl,
      )
