-- ===== src/Client/Wallet/Submit.antt =====
-- client/src/client.rs: `shield`, `transfer_to` and `unshield`, from the note to the chain's answer.
use solana_masp.Prelude.{
  ℕ, not, Option, none, some, List, [], ◌∷◌, ◌++◌, Bytes, ◌==◌, if◌then◌else◌,
}
use solana_masp.Client.Outcome.{
  Outcome, raised, done, ChainError, ClientError, chain_error, proof_error, insufficient_balance,
  client_panicked,
}
use solana_masp.Client.Hash.{Fr, Crypto, ciphertext_hash}
use solana_masp.Client.Keys.{DiversifiedAddress, diversified_address, address_field}
use solana_masp.Client.Note.{
  Note, commitment, compute_asset_id, recipient_to_u64_limbs_le, tx_binding_unshield,
}
use solana_masp.Client.Requests.{
  TransferOutput, UnshieldRequest, ShieldRequest, ShieldPublicInputs, ShieldPrivateInputs,
  UnshieldPublicInputs, UnshieldPrivateInputs, shield_public, shield_private, transfer_public,
  transfer_private, unshield_public, unshield_private, witness_root, MembershipWitness,
}
use solana_masp.Client.Wallet.{
  Backend, OwnedNote, Wallet, TransferData, balance, unspent_notes, find_covering, mark_spent,
  add_note, prepare_spend, build_transfer, add_change,
}
use solana_masp.Client.Wallet.Request.{spend_public, spend_private, to_request_with_outputs}
use solana_masp.Client.Wallet.Operations.{NoteEncryption, Called}

module _ (crypto : Crypto) (encryption : NoteEncryption) {S : Type 0} (backend : Backend S) where
  -- An encrypted output: what is sent of it, and the hash of its ciphertext
  unfoldable pub encrypt_output : Note → DiversifiedAddress → (seed : ℕ) → TransferOutput × Fr
  encrypt_output note recipient seed =
      let encrypted = encryption.encrypt note recipient seed in
      (
        record {
          commitment = commitment crypto note;
          ciphertext = some encrypted.1;
          ephemeral_key = some encrypted.0;
        },
        ciphertext_hash crypto (encrypted.0 ++ encrypted.1),
      )

  -- `?` on the chain's answer, which leaves the chain as it is
  unfoldable pub on_answer :
      {A B : Type 0} → Wallet → S × Outcome ClientError A → (A → Wallet × B) → Called S B
  on_answer w (s, raised e) next = (w, s, raised e)
  on_answer w (s, done v) next = let after = next v in (after.0, s, done after.1)

  unfoldable pub of_chain : {A : Type 0} → S × Outcome ChainError A → S × Outcome ClientError A
  of_chain (s, raised e) = (s, raised (chain_error e))
  of_chain (s, done v) = (s, done v)

  -- `nonce` and `randomness` of the new note, and the encryption's `seed`, are drawn from `OsRng`.
  unfoldable pub shield :
      Wallet
      → S
      → (token_address : Bytes) (amount nonce randomness seed : ℕ) → Called S (Note × Bytes × Fr)
  unfolding encrypt_output on_answer of_chain add_note diversified_address address_field
  shield w s token_address amount nonce randomness seed =
      let asset = compute_asset_id crypto token_address in
      let recipient_addr = diversified_address crypto w.fvk 0 in
      let note : Note = record {
        asset_id = asset;
        amount = amount;
        recipient = address_field recipient_addr;
        diversifier_index = recipient_addr.diversifier_index;
        nullifier_nonce = nonce;
        note_randomness = randomness;
      } in
      let encrypted = encrypt_output note recipient_addr seed in
      let public : ShieldPublicInputs = record {
        new_commitment = commitment crypto note;
        public_asset_id = asset;
        public_amount = amount;
        ct_hash = encrypted.1;
      } in
      let private : ShieldPrivateInputs = record {
        note_asset_id = note.asset_id;
        note_amount = note.amount;
        note_recipient = note.recipient;
        note_diversifier_index = note.diversifier_index;
        note_nullifier_nonce = note.nullifier_nonce;
        note_randomness = note.note_randomness;
      } in
      let request : Bytes → ShieldRequest = λ shield_proof. record {
        token_address = token_address;
        amount = amount;
        commitment = commitment crypto note;
        shield_proof = shield_proof;
        ciphertext = encrypted.0.ciphertext;
        ephemeral_key = encrypted.0.ephemeral_key;
        ct_hash = encrypted.1;
      } in
      elim (backend.prove (shield_public public) (shield_private private)) [
        | raised e ↦ (w, s, raised client_panicked)
        | done shield_proof ↦
            on_answer w (of_chain (backend.shield s (request shield_proof)))
              (λ result. (add_note crypto w note result.0, (note, result.0, result.1)))
      ]

  -- The ciphertext of the change, which goes to the wallet's own address
  unfoldable pub encrypt_change : Wallet → Option Note → (seed : ℕ) → List TransferOutput × Fr
  unfolding encrypt_output diversified_address
  encrypt_change w none seed = ([], 0)
  encrypt_change w (some change) seed =
      let encrypted = encrypt_output change (diversified_address crypto w.fvk 0) seed in
      (encrypted.0 ∷ [], encrypted.1)

  -- `transfer_to` once the transfer is built
  unfoldable pub submit_transfer :
      Wallet
      → S
      → TransferData
      → DiversifiedAddress
      → (seed change_seed : ℕ) → Called S (Bytes × List Fr)
  unfolding encrypt_output encrypt_change add_change on_answer of_chain mark_spent spend_public
      spend_private to_request_with_outputs
  submit_transfer w s t recipient seed change_seed =
      let payment = encrypt_output t.output recipient seed in
      let change = encrypt_change w t.change change_seed in
      let ct_hashes = payment.1 ∷ change.1 ∷ 0 ∷ [] in
      elim (backend.prove (transfer_public (spend_public crypto t ct_hashes))
        (transfer_private (spend_private t w.spending_key.sk))) [
          | raised e ↦ (w, s, raised (proof_error e))
          | done spend_proof ↦
              on_answer w
                (of_chain (
                  backend.transfer s
                    (to_request_with_outputs t spend_proof payment.0 change.0 ct_hashes)))
                (λ result.
                  (add_change crypto (mark_spent w t.spent_commitment) t.change result.0, result))
        ]

  unfoldable pub transfer_to :
      Wallet
      → S
      → DiversifiedAddress
      → (amount : ℕ) (asset : Fr) (r₀ r₁ seed change_seed : ℕ) → Called S (Bytes × List Fr)
  unfolding unspent_notes find_covering balance build_transfer submit_transfer
  transfer_to w s recipient amount asset r₀ r₁ seed change_seed =
      elim (find_covering (unspent_notes w.notes asset) amount) [
        | none ↦ (w, s, raised (insufficient_balance (balance w.notes asset) amount))
        | some spend_note ↦
            elim (build_transfer crypto backend w s spend_note.cm recipient amount r₀ r₁) [
              | raised e ↦ (w, s, raised e)
              | done t ↦ submit_transfer w s t recipient seed change_seed
            ]
      ]

  -- `unshield` once the note is prepared
  unfoldable pub submit_unshield :
      Wallet
      → S
      → OwnedNote
      → MembershipWitness
      → (nf : Fr) (recipient : Bytes) (amount : ℕ) (token_address : Bytes) (spend_commitment : Fr)
      → Called S Bytes
  unfolding on_answer of_chain mark_spent
  submit_unshield w s owned witness nf recipient amount token_address spend_commitment =
      let asset = compute_asset_id crypto token_address in
      let limbs = recipient_to_u64_limbs_le recipient in
      let tx_binding = tx_binding_unshield crypto (witness_root witness) nf amount limbs asset in
      let public : UnshieldPublicInputs = record {
        anchor = witness_root witness;
        nullifier = nf;
        tx_binding = tx_binding;
        public_amount = amount;
        public_recipient_limbs = limbs;
        public_asset_id = asset;
      } in
      let private : UnshieldPrivateInputs = record {
        spending_key = w.spending_key.sk;
        note_asset_id = owned.note.asset_id;
        note_amount = owned.note.amount;
        note_recipient = owned.note.recipient;
        note_diversifier_index = owned.note.diversifier_index;
        note_nullifier_nonce = owned.note.nullifier_nonce;
        note_randomness = owned.note.note_randomness;
        membership_witness = witness;
      } in
      let request : Bytes → UnshieldRequest = λ spend_proof. record {
        anchor = witness_root witness;
        nullifier = nf;
        tx_binding = tx_binding;
        spend_proof = spend_proof;
        recipient = recipient;
        amount = amount;
        token_address = token_address;
      } in
      if not (owned.note.amount == amount)
      then (w, s, raised (insufficient_balance owned.note.amount amount))
      else (elim (backend.prove (unshield_public public) (unshield_private private)) [
        | raised e ↦ (w, s, raised (proof_error e))
        | done spend_proof ↦
            on_answer w (of_chain (backend.unshield s (request spend_proof)))
              (λ tx_sig. (mark_spent w spend_commitment, tx_sig))
      ])

  unfoldable pub unshield :
      Wallet → S → (recipient : Bytes) (amount : ℕ) (token_address : Bytes) → Called S Bytes
  unfolding unspent_notes find_covering balance prepare_spend submit_unshield
  unshield w s recipient amount token_address =
      let asset = compute_asset_id crypto token_address in
      elim (find_covering (unspent_notes w.notes asset) amount) [
        | none ↦ (w, s, raised (insufficient_balance (balance w.notes asset) amount))
        | some spend_note ↦ elim (prepare_spend crypto backend w s spend_note.cm) [
          | raised e ↦ (w, s, raised e)
          | done (owned, witness, nf) ↦
              submit_unshield w s owned witness nf recipient amount token_address spend_note.cm
        ]
      ]
