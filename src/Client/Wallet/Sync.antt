-- ===== src/Client/Wallet/Sync.antt =====
-- What a sync accepts, and that the wallet stays well formed.
use mathlib.Core.Path.{subst}
use solana_masp.Prelude.{
  ℕ, ◌+◌, ◌≡◌, inl, inr, refl, sym, Bool, true, false, Option, none, some, List, [], ◌∷◌, ◌++◌,
  Bytes, length, length-append, ◌==◌, arith, Bool-cases, Option-cases,
}
use solana_masp.Client.Outcome.{done, Outcome-cases}
use solana_masp.Client.Hash.{Fr, Crypto, ciphertext_hash}
use solana_masp.Client.Note.{Note, commitment}
use solana_masp.Client.Requests.{OutputCiphertext}
use solana_masp.Client.Wallet.{Backend, OwnedNote, Wallet, mark_note, add_note}
use solana_masp.Client.Wallet.Operations.{
  NoteEncryption, SyncResult, Found, add_unspent, count_spent, count_unspent, ct_hash_holds,
  try_decrypt_output, found_notes, check_found, sync_incremental,
}

module _ (crypto : Crypto) where
  -- Every note is kept with its own commitment.
  abbrev pub NotesMatch : List OwnedNote → Type 0
  NotesMatch [] = Unit {0}
  NotesMatch (n ∷ notes) = (n.cm ≡ commitment crypto n.note) × NotesMatch notes

  NotesMatch-append :
      (notes : List OwnedNote) (n : OwnedNote)
      → NotesMatch notes
      → n.cm ≡ commitment crypto n.note
      → NotesMatch (notes ++ (n ∷ []))
  NotesMatch-append [] n h e = (e, tt)
  NotesMatch-append (m ∷ notes) n h e = (h.0, NotesMatch-append notes n h.1 e)

  pub add_note-NotesMatch :
      (w : Wallet) (note : Note) (tx_sig : Bytes)
      → NotesMatch w.notes
      → NotesMatch (add_note crypto w note tx_sig).notes
  unfolding add_note
  add_note-NotesMatch w note tx_sig h = NotesMatch-append w.notes _ h refl

  pub mark_note-NotesMatch :
      (notes : List OwnedNote) (c : Fr) → NotesMatch notes → NotesMatch (mark_note notes c)
  unfolding mark_note
  mark_note-NotesMatch [] c h = tt
  mark_note-NotesMatch (n ∷ notes) c h = elim (Bool-cases (n.cm == c)) [
    | inl e ↦ rw (e) h
    | inr e ↦ rw (e) (h.0, mark_note-NotesMatch notes c h.1)
  ]

  -- The two integrity checks on a decrypted output
  pub record Authentic (o : OutputCiphertext) (note : Note) : Type 0 where
    pub committed : commitment crypto note ≡ o.commitment
    pub hashed :
        (h : Fr)
        → o.committed_ct_hash ≡ some h
        → ciphertext_hash crypto (o.ephemeral_key ++ o.ciphertext) ≡ h

  module _ (encryption : NoteEncryption) where
    -- A note that the wallet takes from an output has the published commitment, and the
    -- ciphertext with its ephemeral key has the published hash when there is one.
    pub try_decrypt_output-Authentic :
        (w : Wallet) (o : OutputCiphertext) (index : ℕ) (note : Note)
        → try_decrypt_output crypto encryption w o index ≡ some note
        → Authentic o note
    unfolding try_decrypt_output ct_hash_holds
    try_decrypt_output-Authentic w o index note h = record {
      committed = ground arith;
      hashed = λ c e. ground arith;
    }

    abbrev FoundMatch : List Found → Type 0
    FoundMatch [] = Unit {0}
    FoundMatch (f ∷ found) = (commitment crypto f.0 ≡ f.1) × FoundMatch found

    found_none :
        (w : Wallet) (o : OutputCiphertext) (outputs : List OutputCiphertext) (index : ℕ)
        → try_decrypt_output crypto encryption w o index ≡ none
        → found_notes crypto encryption w (o ∷ outputs) index
          ≡ found_notes crypto encryption w outputs index
    unfolding found_notes
    found_none w o outputs index e = rw (found_notes, e) refl

    found_some :
        (w : Wallet) (o : OutputCiphertext) (outputs : List OutputCiphertext) (index : ℕ)
        (note : Note)
        → try_decrypt_output crypto encryption w o index ≡ some note
        → found_notes crypto encryption w (o ∷ outputs) index
          ≡ (note, o.commitment, o.tx_sig) ∷ found_notes crypto encryption w outputs index
    unfolding found_notes
    found_some w o outputs index note e = rw (found_notes, e) refl

    found_notes-FoundMatch :
        (w : Wallet) (outputs : List OutputCiphertext) (index : ℕ)
        → FoundMatch (found_notes crypto encryption w outputs index)
    unfolding found_notes
    found_notes-FoundMatch w [] index = tt
    found_notes-FoundMatch w (o ∷ outputs) index =
        let rest = found_notes-FoundMatch w outputs index in
        elim (Option-cases (try_decrypt_output crypto encryption w o index)) [
          | inl e ↦ subst FoundMatch (sym (found_none w o outputs index e)) rest
          | inr (note, e) ↦
              subst FoundMatch (sym (found_some w o outputs index note e))
                ((try_decrypt_output-Authentic w o index note e).committed, rest)
        ]

    add_unspent-NotesMatch :
        (notes : List OwnedNote) (found : List Found) (flags : List Bool)
        → NotesMatch notes
        → FoundMatch found
        → NotesMatch (add_unspent notes found flags)
    unfolding add_unspent
    add_unspent-NotesMatch notes [] flags h h' = h
    add_unspent-NotesMatch notes (f ∷ found) [] h h' = h
    add_unspent-NotesMatch notes (f ∷ found) (true ∷ flags) h h' =
        add_unspent-NotesMatch notes found flags h h'.1
    add_unspent-NotesMatch notes (f ∷ found) (false ∷ flags) h h' =
        add_unspent-NotesMatch _ found flags (NotesMatch-append notes _ h (sym h'.0)) h'.1

    counts_add :
        (found : List Found) (flags : List Bool)
        → length flags ≡ length found
        → count_spent found flags + count_unspent found flags ≡ length found
    unfolding count_spent count_unspent
    counts_add [] flags h = refl
    counts_add (f ∷ found) [] h = absurd (omega arith)
    counts_add (f ∷ found) (true ∷ flags) h = omega (arith, counts_add found flags (omega arith))
    counts_add (f ∷ found) (false ∷ flags) h = omega (arith, counts_add found flags (omega arith))

    length-add_unspent :
        (notes : List OwnedNote) (found : List Found) (flags : List Bool)
        → length (add_unspent notes found flags) ≡ length notes + count_unspent found flags
    unfolding add_unspent count_unspent
    length-add_unspent notes [] flags = omega arith
    length-add_unspent notes (f ∷ found) [] = omega arith
    length-add_unspent notes (f ∷ found) (true ∷ flags) =
        omega (arith, length-add_unspent notes found flags)
    length-add_unspent notes (f ∷ found) (false ∷ flags) =
        omega
          (arith, length-add_unspent (notes ++ (_ ∷ [])) found flags, length-append notes (_ ∷ []))

    module _ {S : Type 0} (backend : Backend S) where
      -- A sync adds only authentic notes, and counts what it adds.
      pub record Synced (w w' : Wallet) (r : SyncResult) : Type 0 where
        pub matching : NotesMatch w'.notes
        pub counted : length w'.notes ≡ length w.notes + r.notes_added
        pub same_key : w'.spending_key ≡ w.spending_key

      abbrev added : Wallet → List Found → List Bool → Wallet
      added w found flags = record w { notes = add_unspent w.notes found flags }

      abbrev counts : List OutputCiphertext → List Found → List Bool → SyncResult
      counts outputs found flags = record {
        outputs_scanned = length outputs;
        received_found = length found;
        already_spent = count_spent found flags;
        notes_added = count_unspent found flags;
      }

      synced :
          (w : Wallet) (outputs : List OutputCiphertext) (index : ℕ) (flags : List Bool)
          → NotesMatch w.notes
          → let found = found_notes crypto encryption w outputs index in
            Synced w (added w found flags) (counts outputs found flags)
      synced w outputs index flags h =
          let found = found_notes crypto encryption w outputs index in
          record {
            matching =
                add_unspent-NotesMatch w.notes found flags h
                  (found_notes-FoundMatch w outputs index);
            counted = length-add_unspent w.notes found flags;
            same_key = refl;
          }

      -- A sync that succeeds keeps every note of the wallet matching its commitment, and reports
      -- as many added notes as the wallet has more than before.
      pub sync_incremental-Synced :
          (w w' : Wallet) (s : S) (index : ℕ) (since_tx : Option Bytes) (r : SyncResult)
          → NotesMatch w.notes
          → sync_incremental crypto encryption backend w s index since_tx ≡ done (w', r)
          → Synced w w' r
      unfolding sync_incremental
      sync_incremental-Synced w w' s index since_tx r h ran =
          elim (Outcome-cases (backend.scan_outputs_since s since_tx)) [
            | inr (e, failed) ↦ absurd (ground arith)
            | inl (outputs, scanned) ↦
                let found = found_notes crypto encryption w outputs index in
                elim (Outcome-cases (check_found crypto encryption backend w s found)) [
                  | inr (e, failed) ↦ absurd (ground arith)
                  | inl (flags, checked) ↦
                      let mine : Wallet × SyncResult =
                        (added w found flags, counts outputs found flags) in
                      let result : mine ≡ (w', r) = ground arith in
                      subst (λ p. Synced w p.0 p.1) result (synced w outputs index flags h)
                ]
          ]
