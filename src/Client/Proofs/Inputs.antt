-- ===== src/Client/Proofs/Inputs.antt =====
-- The checks of one input slot against what they mean.
use solana_masp.Prelude.{ℕ, ◌≡◌, ◌↔◌, true, arith}
use solana_masp.Client.Outcome.{done}
use solana_masp.Client.Hash.{Fr, Crypto}
use solana_masp.Client.Keys.{address_field, to_full_viewing_key, diversified_address, ivk, ask, nsk}
use solana_masp.Client.Note.{commitment, compute_nullifier}
use solana_masp.Client.Requests.{InputSlot, witness_root, verify_local}
use solana_masp.Client.Proofs.{input_note, mock_check_spend_authorization, check_input}

module _ (crypto : Crypto) where
  -- The recipient field of the key's address with this index
  unfoldable pub recipient_of : Fr → ℕ → Fr
  recipient_of spending_key index =
      address_field (
        diversified_address crypto (to_full_viewing_key crypto (record { sk = spending_key }))
          index)

  -- The check of the owner, which derives the address by its own code, accepts exactly the
  -- address that the keys derive from the spending key.
  pub mock_check_spend_authorization_lem :
      (spending_key recipient : Fr) (index : ℕ)
      → (mock_check_spend_authorization crypto spending_key recipient index ≡ done tt)
        ↔ (recipient ≡ recipient_of spending_key index)
  unfolding mock_check_spend_authorization recipient_of address_field diversified_address
      to_full_viewing_key ask nsk ivk
  mock_check_spend_authorization_lem spending_key recipient index = ground arith

  pub record InputStatement (anchor : Fr) (slot : InputSlot) (nf : Fr) : Type 0 where
    pub anchored : witness_root slot.membership_witness ≡ anchor
    pub member :
        verify_local crypto slot.membership_witness (commitment crypto (input_note slot)) ≡ true
    pub owned : slot.note_recipient ≡ recipient_of slot.spending_key slot.note_diversifier_index
    pub revealed :
        compute_nullifier crypto
          (nsk crypto (record { sk = slot.spending_key }))
          slot.note_nullifier_nonce
        ≡ nf

  pub check_input-InputStatement :
      (anchor : Fr) (slot : InputSlot) (nf : Fr)
      → (check_input crypto anchor slot nf ≡ done tt) ↔ InputStatement anchor slot nf
  unfolding check_input
  check_input-InputStatement anchor slot nf = (sound, complete)
    where
      owner :
          (mock_check_spend_authorization crypto slot.spending_key slot.note_recipient
              slot.note_diversifier_index
            ≡ done tt)
          ↔ (slot.note_recipient ≡ recipient_of slot.spending_key slot.note_diversifier_index)
      owner =
          mock_check_spend_authorization_lem slot.spending_key slot.note_recipient
            slot.note_diversifier_index

      sound : check_input crypto anchor slot nf ≡ done tt → InputStatement anchor slot nf
      sound h = record {
        anchored = ground arith;
        member = ground arith;
        owned = owner.0 (ground arith);
        revealed = ground arith;
      }

      complete : InputStatement anchor slot nf → check_input crypto anchor slot nf ≡ done tt
      complete h =
          let authorized = owner.1 h.owned in
          ground (arith, h.anchored, h.member, h.revealed, authorized)
