-- ===== src/Client/Wallet/Build.antt =====
-- client/src/client.rs: the requests without ciphertexts, and the calls that recover a wallet.
use solana_masp.Prelude.{
  ℕ, ◌+◌, ◌≡◌, ◌≢◌, refl, Option, none, some, [], ◌∷◌, List, Bytes, ltb, arith, if◌then◌else◌,
}
use solana_masp.Client.Outcome.{Outcome, raised, done, ClientError, client_panicked}
use solana_masp.Client.Hash.{Fr, Crypto}
use solana_masp.Client.Keys.{diversified_address, address_field}
use solana_masp.Client.Note.{Note, commitment, compute_asset_id}
use solana_masp.Client.Requests.{
  TransferOutput, TransferRequest, ShieldRequest, ShieldPublicInputs, ShieldPrivateInputs,
  shield_public, shield_private,
}
use solana_masp.Client.Wallet.{Backend, Wallet, TransferData}
use solana_masp.Client.Wallet.Request.{slot, to_request_with_outputs}
use solana_masp.Client.Wallet.Operations.{
  NoteEncryption, SyncResult, sync_incremental, sync_from_tx,
}

-- `ShieldPublicInputs::placeholder_ct_hash`
abbrev pub placeholder_ct_hash : Fr
placeholder_ct_hash = 1

-- `TransferPublicInputs::placeholder_ct_hashes`, whose loop has three rounds at most
unfoldable pub placeholder_ct_hashes : (output_count : ℕ) → List Fr
placeholder_ct_hashes output_count =
    let at : ℕ → Fr = λ i. if ltb i output_count then i + 1 else 0 in at 0 ∷ at 1 ∷ at 2 ∷ []

unfoldable pub commitment_only : Fr → TransferOutput
commitment_only cm = record { commitment = cm; ciphertext = none; ephemeral_key = none }

module _ (crypto : Crypto) where
  unfoldable pub to_request : TransferData → (spend_proof : Bytes) → TransferRequest
  unfolding placeholder_ct_hashes commitment_only
  to_request t spend_proof =
      let output_count : ℕ = elim t.change [ some n ↦ 2 | none ↦ 1 ] in
      record {
        anchor = t.anchor;
        nullifiers = t.nf ∷ 0 ∷ 0 ∷ [];
        input_count = 1;
        output_count = output_count;
        ct_hashes = placeholder_ct_hashes output_count;
        tx_binding = t.tx_binding;
        spend_proof = spend_proof;
        outputs =
            commitment_only (commitment crypto t.output)
            ∷ (elim t.change [
              | some n ↦ commitment_only (commitment crypto n)
              | none ↦ commitment_only 0
            ])
            ∷ commitment_only 0
            ∷ [];
      }

  module _ {S : Type 0} (backend : Backend S) where
    -- `nonce` and `randomness` are drawn from `OsRng`; the prover's error is a panic.
    unfoldable pub build_shield :
        Wallet
        → (token_address : Bytes) (amount nonce randomness : ℕ)
        → Outcome ClientError (Note × ShieldRequest)
    unfolding diversified_address address_field
    build_shield w token_address amount nonce randomness =
        let asset = compute_asset_id crypto token_address in
        let recipient_addr = diversified_address crypto w.fvk 0 in
        let note : Note = record {
          asset_id = asset;
          amount = amount;
          recipient = address_field recipient_addr;
          diversifier_index = recipient_addr.diversifier_index;
          nullifier_nonce = nonce;
          note_randomness = randomness;
        } in
        let public : ShieldPublicInputs = record {
          new_commitment = commitment crypto note;
          public_asset_id = asset;
          public_amount = amount;
          ct_hash = placeholder_ct_hash;
        } in
        let private : ShieldPrivateInputs = record {
          note_asset_id = note.asset_id;
          note_amount = note.amount;
          note_recipient = note.recipient;
          note_diversifier_index = note.diversifier_index;
          note_nullifier_nonce = note.nullifier_nonce;
          note_randomness = note.note_randomness;
        } in
        elim (backend.prove (shield_public public) (shield_private private)) [
          | raised e ↦ raised client_panicked
          | done shield_proof ↦ done (
            note,
            record {
              token_address = token_address;
              amount = amount;
              commitment = commitment crypto note;
              shield_proof = shield_proof;
              ciphertext = none;
              ephemeral_key = none;
              ct_hash = placeholder_ct_hash;
            },
          )
        ]

    module _ (encryption : NoteEncryption) where
      -- The body is that of `sync_incremental`, with all outputs.
      unfoldable pub sync_from_chain :
          Wallet → S → (diversifier_index : ℕ) → Outcome ClientError (Wallet × SyncResult)
      unfolding sync_incremental
      sync_from_chain w s diversifier_index =
          sync_incremental crypto encryption backend w s diversifier_index none

      unfoldable pub recover : Wallet → S → Outcome ClientError (Wallet × SyncResult)
      unfolding sync_from_chain
      recover w s = sync_from_chain w s 0

      unfoldable pub receive_payment :
          Wallet → S → (tx_sig : Bytes) → Wallet × Outcome ClientError (List Note)
      unfolding sync_from_tx
      receive_payment w s tx_sig = sync_from_tx crypto encryption backend w s tx_sig 0

  abbrev pub commitments_of : Option Note → List TransferOutput
  commitments_of none = []
  commitments_of (some n) = commitment_only (commitment crypto n) ∷ []

  -- When no commitment of a transfer is zero, its request without ciphertexts is the request
  -- with outputs that only have their commitments and with the same hashes.
  pub to_request-to_request_with_outputs :
      (t : TransferData) (spend_proof : Bytes)
      → commitment crypto t.output ≢ 0
      → ((n : Note) → t.change ≡ some n → commitment crypto n ≢ 0)
      → to_request t spend_proof
        ≡ to_request_with_outputs t spend_proof
            (commitment_only (commitment crypto t.output))
            (commitments_of t.change)
            (to_request t spend_proof).ct_hashes
  unfolding to_request to_request_with_outputs commitment_only slot
  to_request-to_request_with_outputs t spend_proof paid changed = by_change t.change changed
    where
      by_change :
          (change : Option Note)
          → ((n : Note) → change ≡ some n → commitment crypto n ≢ 0)
          → let t' = record t { change = change } in
            to_request t' spend_proof
            ≡ to_request_with_outputs t' spend_proof
                (commitment_only (commitment crypto t.output))
                (commitments_of change)
                (to_request t' spend_proof).ct_hashes
      by_change none changed = ground (arith, paid)
      by_change (some n) changed = let real = changed n refl in ground (arith, paid, real)
