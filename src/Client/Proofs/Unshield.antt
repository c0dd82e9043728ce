-- ===== src/Client/Proofs/Unshield.antt =====
-- What the checks of an unshield and of a shield decide.
use solana_masp.Prelude.{◌≡◌, ◌≢◌, ◌↔◌, true, arith}
use solana_masp.Client.Outcome.{done}
use solana_masp.Client.Hash.{Crypto}
use solana_masp.Client.Keys.{nsk}
use solana_masp.Client.Note.{Note, commitment, compute_nullifier, tx_binding_unshield}
use solana_masp.Client.Requests.{
  UnshieldPublicInputs, UnshieldPrivateInputs, ShieldPublicInputs, ShieldPrivateInputs,
  witness_root, verify_local,
}
use solana_masp.Client.Proofs.{mock_check_spend_authorization, mock_check_unshield}
use solana_masp.Client.Proofs.Inputs.{recipient_of, mock_check_spend_authorization_lem}
use solana_masp.Client.Proofs.Prover.{mock_check_shield}

-- The note whose fields the prover holds
abbrev pub spent_note : UnshieldPrivateInputs → Note
spent_note p = record {
  asset_id = p.note_asset_id;
  amount = p.note_amount;
  recipient = p.note_recipient;
  diversifier_index = p.note_diversifier_index;
  nullifier_nonce = p.note_nullifier_nonce;
  note_randomness = p.note_randomness;
}

abbrev pub shielded_note : ShieldPrivateInputs → Note
shielded_note p = record {
  asset_id = p.note_asset_id;
  amount = p.note_amount;
  recipient = p.note_recipient;
  diversifier_index = p.note_diversifier_index;
  nullifier_nonce = p.note_nullifier_nonce;
  note_randomness = p.note_randomness;
}

module _ (crypto : Crypto) where
  -- The owner of one note of the tree withdraws all of it.
  pub record UnshieldStatement (public : UnshieldPublicInputs) (private : UnshieldPrivateInputs)
      : Type 0 where
    pub bound :
        public.tx_binding
        ≡ tx_binding_unshield crypto public.anchor public.nullifier public.public_amount
            public.public_recipient_limbs public.public_asset_id
    pub anchored : witness_root private.membership_witness ≡ public.anchor
    pub member :
        verify_local crypto private.membership_witness (commitment crypto (spent_note private))
        ≡ true
    pub owned :
        private.note_recipient
        ≡ recipient_of crypto private.spending_key private.note_diversifier_index
    pub revealed :
        compute_nullifier crypto
          (nsk crypto (record { sk = private.spending_key }))
          private.note_nullifier_nonce
        ≡ public.nullifier
    pub same_asset : public.public_asset_id ≡ private.note_asset_id
    pub whole_amount : public.public_amount ≡ private.note_amount

  -- The check of an unshield accepts exactly when the statement holds: binding, membership,
  -- owner, nullifier, the asset and the whole amount.
  pub mock_check_unshield-UnshieldStatement :
      (public : UnshieldPublicInputs) (private : UnshieldPrivateInputs)
      → (mock_check_unshield crypto public private ≡ done tt) ↔ UnshieldStatement public private
  unfolding mock_check_unshield
  mock_check_unshield-UnshieldStatement public private = (sound, complete)
    where
      owner :
          (mock_check_spend_authorization crypto private.spending_key private.note_recipient
              private.note_diversifier_index
            ≡ done tt)
          ↔ (private.note_recipient
              ≡ recipient_of crypto private.spending_key private.note_diversifier_index)
      owner =
          mock_check_spend_authorization_lem crypto private.spending_key private.note_recipient
            private.note_diversifier_index

      sound : mock_check_unshield crypto public private ≡ done tt → UnshieldStatement public private
      sound h = record {
        bound = ground arith;
        anchored = ground arith;
        member = ground arith;
        owned = owner.0 (ground arith);
        revealed = ground arith;
        same_asset = ground arith;
        whole_amount = ground arith;
      }

      complete :
          UnshieldStatement public private → mock_check_unshield crypto public private ≡ done tt
      complete s =
          let authorized = owner.1 s.owned in
          ground (
            arith, s.bound, s.anchored, s.member, s.revealed, s.same_asset, s.whole_amount,
            authorized,
          )

  pub record ShieldStatement (public : ShieldPublicInputs) (private : ShieldPrivateInputs)
      : Type 0 where
    pub committed : commitment crypto (shielded_note private) ≡ public.new_commitment
    pub amount : public.public_amount ≡ private.note_amount
    pub asset : public.public_asset_id ≡ private.note_asset_id
    pub ciphertext : public.ct_hash ≢ 0

  pub mock_check_shield-ShieldStatement :
      (public : ShieldPublicInputs) (private : ShieldPrivateInputs)
      → (mock_check_shield crypto public private ≡ done tt) ↔ ShieldStatement public private
  unfolding mock_check_shield
  mock_check_shield-ShieldStatement public private = (sound, complete)
    where
      sound : mock_check_shield crypto public private ≡ done tt → ShieldStatement public private
      sound h = record {
        committed = ground arith;
        amount = ground arith;
        asset = ground arith;
        ciphertext = ground arith;
      }

      complete : ShieldStatement public private → mock_check_shield crypto public private ≡ done tt
      complete s = ground (arith, s.committed, s.amount, s.asset, s.ciphertext)
