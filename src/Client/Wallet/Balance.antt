-- ===== src/Client/Wallet/Balance.antt =====
-- What sending does to the balance.
use solana_masp.Prelude.{
  ℕ, ◌+◌, ◌-◌, ◌^◌, ◌<◌, ◌≤◌, ◌≡◌, inl, inr, refl, ap, ◌∙◌, Bool, true, false, some, List, [], ◌∷◌,
  ◌++◌, Bytes, ltb, ◌==◌, arith, Bool-cases, if◌then◌else◌,
}
use solana_masp.Client.Hash.{Fr, Crypto}
use solana_masp.Client.Keys.{DiversifiedAddress}
use solana_masp.Client.Note.{Note}
use solana_masp.Client.Requests.{MembershipWitness}
use solana_masp.Client.Wallet.{
  OwnedNote, Wallet, is_unspent, unspent_notes, total, balance, find_note, mark_note, mark_spent,
  add_note, add_change, transfer_data,
}

-- The amount of a note, if it counts
abbrev value : Fr → OwnedNote → ℕ
value asset n = if is_unspent asset n then n.note.amount else 0

unfoldable pub held : List OwnedNote → Fr → ℕ
held notes asset = total (unspent_notes notes asset)

held_cons :
    (n : OwnedNote) (notes : List OwnedNote) (asset : Fr)
    → held (n ∷ notes) asset ≡ value asset n + held notes asset
unfolding held unspent_notes total
held_cons n notes asset = ground arith

pub held-append :
    (notes : List OwnedNote) (n : OwnedNote) (asset : Fr)
    → held (notes ++ (n ∷ [])) asset ≡ held notes asset + value asset n
held-append [] n asset = held_cons n [] asset ∙ omega arith
held-append (m ∷ notes) n asset = omega (
  arith,
  held_cons m (notes ++ (n ∷ [])) asset,
  held-append notes n asset,
  held_cons m notes asset,
)

mark_hit :
    (m : OwnedNote) (notes : List OwnedNote) (c : Fr)
    → (m.cm == c) ≡ true
    → mark_note (m ∷ notes) c ≡ record m { spent = true } ∷ notes
unfolding mark_note
mark_hit m notes c e = ground arith

mark_miss :
    (m : OwnedNote) (notes : List OwnedNote) (c : Fr)
    → (m.cm == c) ≡ false
    → mark_note (m ∷ notes) c ≡ m ∷ mark_note notes c
unfolding mark_note
mark_miss m notes c e = ground arith

value_spent : (m : OwnedNote) (asset : Fr) → value asset (record m { spent = true }) ≡ 0
unfolding is_unspent
value_spent m asset = refl

pub value_fresh :
    (n : OwnedNote) (asset : Fr) → is_unspent asset n ≡ true → value asset n ≡ n.note.amount
value_fresh n asset h = ground arith

-- Marking an unspent note takes its amount out.
held-mark_note :
    (notes : List OwnedNote) (c : Fr) (n : OwnedNote) (asset : Fr)
    → find_note notes c ≡ some n
    → is_unspent asset n ≡ true
    → held (mark_note notes c) asset + n.note.amount ≡ held notes asset
unfolding find_note
held-mark_note [] c n asset found fresh = cc
held-mark_note (m ∷ notes) c n asset found fresh = elim (Bool-cases (m.cm == c)) [
  | inl e ↦
      let same : m ≡ n = ground arith in
      let marked = ap (λ l. held l asset) (mark_hit m notes c e) in
      let counted : value asset m ≡ n.note.amount =
        ap (value asset) same ∙ value_fresh n asset fresh in
      omega (
        arith,
        marked,
        held_cons (record m { spent = true }) notes asset,
        value_spent m asset,
        held_cons m notes asset,
        counted,
      )
  | inr e ↦
      let later : find_note notes c ≡ some n = ground arith in
      let marked = ap (λ l. held l asset) (mark_miss m notes c e) in
      omega (
        arith,
        marked,
        held_cons m (mark_note notes c) asset,
        held_cons m notes asset,
        held-mark_note notes c n asset later fresh,
      )
]

module _ (crypto : Crypto) where
  added_value :
      (w : Wallet) (note : Note) (tx_sig : Bytes) (asset : Fr)
      → note.asset_id ≡ asset
      → held (add_note crypto w note tx_sig).notes asset ≡ held w.notes asset + note.amount
  unfolding add_note is_unspent
  added_value w note tx_sig asset e =
      held-append w.notes _ asset ∙ ap (λ v. held w.notes asset + v) (ground arith)

  module _ (w : Wallet) (c : Fr) (owned : OwnedNote) (witness : MembershipWitness) (nf : Fr)
      (recipient : DiversifiedAddress) (amount r₀ r₁ : ℕ) (tx_sig : Bytes)
      (found : find_note w.notes c ≡ some owned)
      (fresh : is_unspent owned.note.asset_id owned ≡ true)
      (enough : amount ≤ owned.note.amount) where
    -- The wallet after the transfer of `amount` out of the note
    abbrev after_transfer : Bool → Wallet
    after_transfer b =
        add_change crypto (mark_spent w c)
          (transfer_data crypto w c owned.note witness nf recipient amount r₀ r₁ b).change tx_sig

    held_transfer :
        (b : Bool)
        → ltb amount owned.note.amount ≡ b
        → held (after_transfer b).notes owned.note.asset_id + amount
          ≡ held w.notes owned.note.asset_id
    unfolding transfer_data add_change mark_spent
    held_transfer true e = omega (
      arith,
      held-mark_note w.notes c owned owned.note.asset_id found fresh,
      added_value (mark_spent w c)
          (record {
            asset_id = owned.note.asset_id;
            amount = owned.note.amount - amount;
            recipient = _;
            diversifier_index = _;
            nullifier_nonce = _;
            note_randomness = r₁;
          })
          tx_sig owned.note.asset_id refl,
    )
    held_transfer false e =
        let exact : owned.note.amount ≡ amount = ground arith in
        omega (arith, held-mark_note w.notes c owned owned.note.asset_id found fresh, exact)

  -- When the notes of an asset add up to less than 2 ^ 64, a transfer out of an unspent note
  -- that the wallet holds takes the amount from the balance and gives the change back.
  pub balance_transfer :
      (w : Wallet) (c : Fr) (owned : OwnedNote) (witness : MembershipWitness) (nf : Fr)
      (recipient : DiversifiedAddress) (amount r₀ r₁ : ℕ) (tx_sig : Bytes)
      → find_note w.notes c ≡ some owned
      → is_unspent owned.note.asset_id owned ≡ true
      → amount ≤ owned.note.amount
      → total (unspent_notes w.notes owned.note.asset_id) < 2 ^ 64
      → balance
            (add_change crypto
              (mark_spent w c)
              (transfer_data crypto w c owned.note witness nf recipient amount r₀ r₁
                (ltb amount owned.note.amount)).change
              tx_sig).notes
            owned.note.asset_id
          + amount
        ≡ balance w.notes owned.note.asset_id
  unfolding balance held
  balance_transfer w c owned witness nf recipient amount r₀ r₁ tx_sig found fresh enough small =
      let costs =
        held_transfer w c owned witness nf recipient amount r₀ r₁ tx_sig found fresh enough
          (ltb amount owned.note.amount) refl in
      omega (arith, costs)
