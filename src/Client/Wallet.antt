-- ===== src/Client/Wallet.antt =====
-- client/src/client.rs: `MaspClient`, its notes and the transactions that it builds.
pub mod Operations
pub mod Submit
pub mod Sync
pub mod Balance
pub mod Spending
pub mod Sending
pub mod Build
pub mod Request
pub mod Shielding
use solana_masp.Prelude.{
  ℕ, ◌+◌, ◌-◌, ◌^◌, ◌%◌, Bool, true, false, not, ◌&&◌, Option, none, some, List, [], ◌∷◌, ◌++◌,
  Bytes, ltb, ◌==◌, if◌then◌else◌,
}
use solana_masp.Client.Outcome.{
  Outcome, raised, done, ◌>>=◌, map_err, StoreError, IndexerError, ChainError, ProofSystemError,
  ClientError, store_error, note_not_found, note_already_spent, commitment_not_found,
  insufficient_balance,
}
use solana_masp.Client.Hash.{Fr, Crypto}
use solana_masp.Client.Keys.{
  SpendingKey, FullViewingKey, DiversifiedAddress, to_full_viewing_key, diversified_address,
  address_field, nsk,
}
use solana_masp.Client.Note.{
  Note, commitment, compute_nullifier, tx_binding_transfer, derive_output_nonce_nm,
}
use solana_masp.Client.Requests.{
  MembershipWitness, witness_root, OutputCiphertext, ShieldRequest, TransferRequest,
  UnshieldRequest, PublicInputs, PrivateInputs,
}

-- The trait objects of a client: its indexer and chain, whose state is `S`, and its prover
pub record Backend (S : Type 0) : Type 0 where
  pub exists : S → Fr → Outcome StoreError Bool
  pub get_witness : S → Fr → Outcome StoreError MembershipWitness
  pub scan_outputs_since : S → Option Bytes → Outcome IndexerError (List OutputCiphertext)
  pub is_nullifier_spent : S → Fr → Outcome ChainError Bool
  pub batch_check_nullifiers : S → List Fr → Outcome ChainError (List Bool)
  pub shield : S → ShieldRequest → S × Outcome ChainError (Bytes × Fr)
  pub transfer : S → TransferRequest → S × Outcome ChainError (Bytes × List Fr)
  pub unshield : S → UnshieldRequest → S × Outcome ChainError Bytes
  pub prove : PublicInputs → PrivateInputs → Outcome ProofSystemError Bytes

pub record OwnedNote : Type 0 where
  pub note : Note
  pub cm : Fr
  pub tx_sig : Bytes
  pub spent : Bool

-- `MaspClient` without its trait objects
pub record Wallet : Type 0 where
  pub spending_key : SpendingKey
  pub fvk : FullViewingKey
  pub notes : List OwnedNote

-- The filter of `balance` and `unspent_notes`
unfoldable pub is_unspent : Fr → OwnedNote → Bool
is_unspent asset n = not n.spent && (n.note.asset_id == asset)

unfoldable pub unspent_notes : List OwnedNote → Fr → List OwnedNote
unspent_notes [] asset = []
unspent_notes (n ∷ notes) asset =
    let rest = unspent_notes notes asset in if is_unspent asset n then n ∷ rest else rest

unfoldable pub total : List OwnedNote → ℕ
total [] = 0
total (n ∷ notes) = n.note.amount + total notes

-- The sum of a `u64` iterator wraps in a release build.
unfoldable pub balance : List OwnedNote → Fr → ℕ
unfolding unspent_notes total
balance notes asset = total (unspent_notes notes asset) % 2 ^ 64

unfoldable pub find_note : List OwnedNote → Fr → Option OwnedNote
find_note [] c = none
find_note (n ∷ notes) c = if n.cm == c then some n else find_note notes c

-- `mark_spent` marks the first note with the commitment.
unfoldable pub mark_note : List OwnedNote → Fr → List OwnedNote
mark_note [] c = []
mark_note (n ∷ notes) c =
    let rest = mark_note notes c in
    if n.cm == c then record n { spent = true } ∷ notes else n ∷ rest

unfoldable pub mark_spent : Wallet → Fr → Wallet
unfolding mark_note
mark_spent w c = record w { notes = mark_note w.notes c }

-- `unspent_notes(asset).iter().find(|n| n.note.amount >= amount)`
unfoldable pub find_covering : List OwnedNote → ℕ → Option OwnedNote
find_covering [] amount = none
find_covering (n ∷ notes) amount =
    if ltb n.note.amount amount then find_covering notes amount else some n

pub record TransferData : Type 0 where
  pub anchor : Fr
  pub spent_commitment : Fr
  pub membership_witness : MembershipWitness
  pub nf : Fr
  pub tx_binding : Fr
  pub spend_note : Note
  pub output : Note
  pub change : Option Note

module _ (crypto : Crypto) where
  unfoldable pub new_wallet : SpendingKey → Wallet
  unfolding to_full_viewing_key
  new_wallet key = record { spending_key = key; fvk = to_full_viewing_key crypto key; notes = [] }

  unfoldable pub get_address : Wallet → ℕ → Fr
  unfolding diversified_address address_field
  get_address w index = address_field (diversified_address crypto w.fvk index)

  unfoldable pub add_note : Wallet → Note → Bytes → Wallet
  add_note w note tx_sig =
      let owned : OwnedNote = record {
        note = note;
        cm = commitment crypto note;
        tx_sig = tx_sig;
        spent = false;
      } in
      record w { notes = w.notes ++ (owned ∷ []) }

  -- The change, if any, is a note of the wallet's own.
  unfoldable pub add_change : Wallet → Option Note → Bytes → Wallet
  unfolding add_note
  add_change w none tx_sig = w
  add_change w (some change) tx_sig = add_note w change tx_sig

  -- What `build_transfer` makes after its check of the amount; `output_randomness` and
  -- `change_randomness` are drawn from `OsRng`.
  unfoldable pub transfer_data :
      Wallet
      → (spend_commitment : Fr) → Note
      → MembershipWitness
      → (nf : Fr) → DiversifiedAddress
      → (amount : ℕ) (output_randomness change_randomness : Fr) (has_change : Bool) → TransferData
  unfolding address_field diversified_address
  transfer_data w spend_commitment note witness nf recipient amount output_randomness
        change_randomness has_change =
      let output_count = if has_change then 2 else 1 in
      let tx_binding =
        tx_binding_transfer crypto (witness_root witness) (nf ∷ 0 ∷ 0 ∷ []) 1 output_count in
      let output : Note = record {
        asset_id = note.asset_id;
        amount = amount;
        recipient = address_field recipient;
        diversifier_index = recipient.diversifier_index;
        nullifier_nonce = derive_output_nonce_nm crypto tx_binding 0;
        note_randomness = output_randomness;
      } in
      let change_addr = diversified_address crypto w.fvk 0 in
      let change : Note = record {
        asset_id = note.asset_id;
        amount = note.amount - amount;
        recipient = address_field change_addr;
        diversifier_index = change_addr.diversifier_index;
        nullifier_nonce = derive_output_nonce_nm crypto tx_binding 1;
        note_randomness = change_randomness;
      } in
      record {
        anchor = witness_root witness;
        spent_commitment = spend_commitment;
        membership_witness = witness;
        nf = nf;
        tx_binding = tx_binding;
        spend_note = note;
        output = output;
        change = if has_change then some change else none;
      }

  module _ {S : Type 0} (backend : Backend S) where
    unfoldable pub import_note : Wallet → S → Note → Bytes → Outcome ClientError Wallet
    unfolding add_note
    import_note w s note tx_sig =
        map_err store_error (backend.exists s (commitment crypto note)) >>= λ found.
        if not found then raised commitment_not_found else done (add_note w note tx_sig)

    unfoldable pub prepare_spend :
        Wallet → S → Fr → Outcome ClientError (OwnedNote × MembershipWitness × Fr)
    unfolding find_note
    prepare_spend w s c = elim (find_note w.notes c) [
      | none ↦ raised note_not_found
      | some owned ↦
          if owned.spent
          then raised note_already_spent
          else map_err store_error (backend.get_witness s c) >>= λ witness. done (
            owned,
            witness,
            compute_nullifier crypto (nsk crypto w.spending_key) owned.note.nullifier_nonce,
          )
    ]

    unfoldable pub build_transfer :
        Wallet
        → S
        → (spend_commitment : Fr) (recipient : DiversifiedAddress) (amount : ℕ)
        → (output_randomness change_randomness : Fr) → Outcome ClientError TransferData
    unfolding prepare_spend transfer_data
    build_transfer w s spend_commitment recipient amount output_randomness change_randomness =
        prepare_spend w s spend_commitment >>= λ prepared.
        if ltb prepared.0.note.amount amount
        then raised (insufficient_balance prepared.0.note.amount amount)
        else done (
            transfer_data w spend_commitment prepared.0.note prepared.1 prepared.2 recipient amount
              output_randomness change_randomness (ltb amount prepared.0.note.amount))
