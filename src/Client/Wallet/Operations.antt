-- ===== src/Client/Wallet/Operations.antt =====
-- client/src/client.rs: what a wallet does with the chain, and how it learns of its notes.
use solana_masp.Prelude.{
  ℕ, ◌+◌, Bool, true, false, not, ◌&&◌, Option, none, some, List, [], ◌∷◌, ◌++◌, Bytes, bytes_eq,
  length, map, ◌==◌, if◌then◌else◌,
}
use solana_masp.Client.Outcome.{
  Outcome, raised, done, ◌>>=◌, map_err, ClientError, chain_error, indexer_error,
}
use solana_masp.Client.Hash.{Fr, Crypto, ciphertext_hash}
use solana_masp.Client.Keys.{FullViewingKey, DiversifiedAddress, nsk}
use solana_masp.Client.Note.{Note, commitment, compute_nullifier}
use solana_masp.Client.Requests.{OutputCiphertext}
use solana_masp.Client.Wallet.{Backend, OwnedNote, Wallet, find_note, add_note}

-- `dyn NoteEncryption` with the bytes of `EncryptedNote`: the ephemeral key and the ciphertext
-- of a note, and the note that a viewing key reads in a ciphertext. `seed` is what the call draws.
pub record NoteEncryption : Type 0 where
  pub encrypt : Note → DiversifiedAddress → (seed : ℕ) → Bytes × Bytes
  pub try_decrypt : Bytes → FullViewingKey → (diversifier_index : ℕ) → Option Note

-- The client's two states after a call, and what the call returns
abbrev pub Called : Type 0 → Type 0 → Type 0
Called S A = Wallet × S × Outcome ClientError A

pub record SyncResult : Type 0 where
  pub outputs_scanned : ℕ
  pub received_found : ℕ
  pub already_spent : ℕ
  pub notes_added : ℕ

-- Notes with their output's commitment and transaction
abbrev pub Found : Type 0
Found = Note × Fr × Bytes

-- The loop that adds the notes whose nullifier is not spent
unfoldable pub add_unspent : List OwnedNote → List Found → List Bool → List OwnedNote
add_unspent notes [] flags = notes
add_unspent notes (f ∷ found) [] = notes
add_unspent notes (f ∷ found) (is_spent ∷ flags) =
    let owned : OwnedNote = record { note = f.0; cm = f.1; tx_sig = f.2; spent = false } in
    add_unspent (if is_spent then notes else notes ++ (owned ∷ [])) found flags

unfoldable pub count_spent : List Found → List Bool → ℕ
count_spent [] flags = 0
count_spent (f ∷ found) [] = 0
count_spent (f ∷ found) (is_spent ∷ flags) = (if is_spent then 1 else 0) + count_spent found flags

unfoldable pub count_unspent : List Found → List Bool → ℕ
count_unspent [] flags = 0
count_unspent (f ∷ found) [] = 0
count_unspent (f ∷ found) (is_spent ∷ flags) =
    (if is_spent then 0 else 1) + count_unspent found flags

-- The loop of `refresh_spent_status`
unfoldable pub refresh : List OwnedNote → List Bool → List OwnedNote
refresh [] flags = []
refresh (n ∷ notes) [] = n ∷ notes
refresh (n ∷ notes) (is_spent ∷ flags) =
    (if is_spent && not n.spent then record n { spent = true } else n) ∷ refresh notes flags

unfoldable pub newly_spent : List OwnedNote → List Bool → ℕ
newly_spent [] flags = 0
newly_spent (n ∷ notes) [] = 0
newly_spent (n ∷ notes) (is_spent ∷ flags) =
    (if is_spent && not n.spent then 1 else 0) + newly_spent notes flags

module _ (crypto : Crypto) (encryption : NoteEncryption) where
  unfoldable pub ct_hash_holds : OutputCiphertext → Bool
  ct_hash_holds o = elim o.committed_ct_hash [
    | none ↦ true
    | some committed ↦ ciphertext_hash crypto (o.ephemeral_key ++ o.ciphertext) == committed
  ]

  unfoldable pub try_decrypt_output : Wallet → OutputCiphertext → ℕ → Option Note
  unfolding ct_hash_holds
  try_decrypt_output w o diversifier_index =
      elim (encryption.try_decrypt o.ciphertext w.fvk diversifier_index) [
        | none ↦ none
        | some note ↦
            if not (commitment crypto note == o.commitment)
            then none
            else if not (ct_hash_holds o)
            then none
            else some note
      ]

  -- The loop of a sync on the scanned outputs
  unfoldable pub found_notes : Wallet → List OutputCiphertext → ℕ → List Found
  found_notes w [] diversifier_index = []
  found_notes w (o ∷ outputs) diversifier_index =
      let rest = found_notes w outputs diversifier_index in
      elim (try_decrypt_output w o diversifier_index) [
        | none ↦ rest
        | some note ↦ (note, o.commitment, o.tx_sig) ∷ rest
      ]

  unfoldable pub note_nullifier : Wallet → Note → Fr
  note_nullifier w note = compute_nullifier crypto (nsk crypto w.spending_key) note.nullifier_nonce

  module _ {S : Type 0} (backend : Backend S) where
    -- Nothing is asked when nothing was found.
    unfoldable pub check_found : Wallet → S → List Found → Outcome ClientError (List Bool)
    unfolding note_nullifier
    check_found w s [] = done []
    check_found w s (f ∷ found) =
        map_err chain_error
          (backend.batch_check_nullifiers s (map (λ g. note_nullifier w g.0) (f ∷ found)))

    -- `sync_incremental`, and `sync_from_chain` where `since_tx` is `none`
    unfoldable pub sync_incremental :
        Wallet
        → S
        → (diversifier_index : ℕ) (since_tx : Option Bytes)
        → Outcome ClientError (Wallet × SyncResult)
    unfolding found_notes check_found add_unspent count_spent count_unspent
    sync_incremental w s diversifier_index since_tx =
        map_err indexer_error (backend.scan_outputs_since s since_tx) >>= λ outputs.
        let found = found_notes w outputs diversifier_index in
        check_found w s found >>= λ flags. done (
          record w { notes = add_unspent w.notes found flags },
          record {
            outputs_scanned = length outputs;
            received_found = length found;
            already_spent = count_spent found flags;
            notes_added = count_unspent found flags;
          },
        )

    unfoldable pub refresh_spent_status : Wallet → S → Outcome ClientError (Wallet × ℕ)
    unfolding refresh newly_spent note_nullifier
    refresh_spent_status w s = elim w.notes [
      | [] ↦ done (w, 0)
      | n ∷ ns ↦
          map_err chain_error
            (backend.batch_check_nullifiers s (map (λ o. note_nullifier w o.note) w.notes))
          >>= λ flags. done (record w { notes = refresh w.notes flags }, newly_spent w.notes flags)
    ]

    -- The loop of `sync_from_tx`: what was added before an error stays added.
    unfoldable pub sync_outputs :
        S
        → Bytes
        → ℕ
        → List OutputCiphertext
        → Wallet
        → List Note
        → Wallet × Outcome ClientError (List Note)
    unfolding try_decrypt_output note_nullifier add_note find_note
    sync_outputs s tx_sig diversifier_index [] w found = (w, done found)
    sync_outputs s tx_sig diversifier_index (o ∷ outputs) w found =
        elim (try_decrypt_output w o diversifier_index) [
          | none ↦ sync_outputs s tx_sig diversifier_index outputs w found
          | some note ↦ elim (find_note w.notes (commitment crypto note)) [
            | some owned ↦ sync_outputs s tx_sig diversifier_index outputs w (found ++ (note ∷ []))
            | none ↦ elim (backend.is_nullifier_spent s (note_nullifier w note)) [
              | raised e ↦ (w, raised (chain_error e))
              | done is_spent ↦
                  sync_outputs s tx_sig diversifier_index outputs
                    (if is_spent then w else add_note crypto w note tx_sig) (found ++ (note ∷ []))
            ]
          ]
        ]

    -- `get_outputs_for_tx`
    unfoldable pub outputs_of : Bytes → List OutputCiphertext → List OutputCiphertext
    outputs_of tx_sig [] = []
    outputs_of tx_sig (o ∷ outputs) =
        let rest = outputs_of tx_sig outputs in if bytes_eq o.tx_sig tx_sig then o ∷ rest else rest

    unfoldable pub sync_from_tx : Wallet → S → Bytes → ℕ → Wallet × Outcome ClientError (List Note)
    unfolding sync_outputs outputs_of
    sync_from_tx w s tx_sig diversifier_index = elim (backend.scan_outputs_since s none) [
      | raised e ↦ (w, raised (indexer_error e))
      | done outputs ↦ sync_outputs s tx_sig diversifier_index (outputs_of tx_sig outputs) w []
    ]
