-- ===== src/Client/Wallet/Sending.antt =====
-- What `transfer_to` does to the balance, on every branch.
use mathlib.Core.Path.{subst}
use solana_masp.Prelude.{
  ℕ, ◌+◌, ◌^◌, ◌<◌, ◌≤◌, ◌≡◌, inl, inr, refl, sym, ◌∙◌, true, false, Option, none, some, List, [],
  ◌∷◌, Bytes, ltb, arith, Bool-cases,
}
use solana_masp.Client.Outcome.{Outcome, with_done, raised, done, ClientError, proof_error}
use solana_masp.Client.Hash.{Fr, Crypto}
use solana_masp.Client.Keys.{DiversifiedAddress}
use solana_masp.Client.Requests.{MembershipWitness, transfer_public, transfer_private}
use solana_masp.Client.Wallet.Request.{spend_public, spend_private, to_request_with_outputs}
use solana_masp.Client.Wallet.{
  Backend, OwnedNote, Wallet, TransferData, is_unspent, unspent_notes, total, balance, find_note,
  find_covering, mark_spent, add_change, transfer_data, prepare_spend, build_transfer,
}
use solana_masp.Client.Wallet.Balance.{balance_transfer}
use solana_masp.Client.Wallet.Operations.{NoteEncryption, Called}
use solana_masp.Client.Wallet.Submit.{
  encrypt_output, encrypt_change, of_chain, on_answer, submit_transfer, transfer_to,
}

-- Notes under one commitment are of one asset.
abbrev AssetFor : List OwnedNote → List OwnedNote → Type 0
AssetFor all [] = Unit {0}
AssetFor all (n ∷ notes) =
    ((m : OwnedNote) → find_note all n.cm ≡ some m → m.note.asset_id ≡ n.note.asset_id)
    × AssetFor all notes

abbrev pub AssetsAgree : List OwnedNote → Type 0
AssetsAgree notes = AssetFor notes notes

-- The note that is chosen is of the asset.
chosen-AssetFor :
    (all notes : List OwnedNote) (asset : Fr) (amount : ℕ) (n : OwnedNote)
    → AssetFor all notes
    → find_covering (unspent_notes notes asset) amount ≡ some n
    → (m : OwnedNote) → find_note all n.cm ≡ some m
    → m.note.asset_id ≡ asset
unfolding find_covering unspent_notes is_unspent
chosen-AssetFor all [] asset amount n agree h m found = cc
chosen-AssetFor all (x ∷ notes) asset amount n agree h m found =
    elim (Bool-cases (is_unspent asset x)) [
      | inr e ↦ chosen-AssetFor all notes asset amount n agree.1 (ground arith) m found
      | inl e ↦ elim (Bool-cases (ltb x.note.amount amount)) [
        | inl small ↦ chosen-AssetFor all notes asset amount n agree.1 (ground arith) m found
        | inr big ↦
            let same : x ≡ n = ground arith in
            let of_asset : x.note.asset_id ≡ asset = ground arith in
            agree.0 m (rw (same) found) ∙ of_asset
      ]
    ]

module _ (crypto : Crypto) {S : Type 0} (backend : Backend S) where
  prepare_spend-done :
      (w : Wallet) (s : S) (c : Fr) (p : OwnedNote × MembershipWitness × Fr)
      → prepare_spend crypto backend w s c ≡ done p
      → (find_note w.notes c ≡ some p.0) × (p.0.spent ≡ false)
  unfolding prepare_spend
  prepare_spend-done w s c p h = (ground arith, ground arith)

  -- What `build_transfer` has looked up and checked when it succeeds
  record Built (w : Wallet) (c : Fr) (recipient : DiversifiedAddress) (amount r₀ r₁ : ℕ)
      (t : TransferData) : Type 0 where
    pub owned : OwnedNote
    pub witness : MembershipWitness
    pub nf : Fr
    pub found : find_note w.notes c ≡ some owned
    pub unspent : owned.spent ≡ false
    pub enough : amount ≤ owned.note.amount
    pub made :
        transfer_data crypto w c owned.note witness nf recipient amount r₀ r₁
          (ltb amount owned.note.amount)
        ≡ t

  build_transfer-Built :
      (w : Wallet) (s : S) (c : Fr) (recipient : DiversifiedAddress) (amount r₀ r₁ : ℕ)
      (t : TransferData)
      → build_transfer crypto backend w s c recipient amount r₀ r₁ ≡ done t
      → Built w c recipient amount r₀ r₁ t
  unfolding build_transfer
  build_transfer-Built w s c recipient amount r₀ r₁ t h =
      with_done (prepare_spend crypto backend w s c) _ h λ p prepared rest.
        let (found, unspent) = prepare_spend-done w s c p prepared in
        record {
          owned = p.0;
          witness = p.1;
          nf = p.2;
          found = found;
          unspent = unspent;
          enough = ground arith;
          made = ground arith;
        }

  -- What a call sent of the amount
  abbrev pub sent : {A : Type 0} → Outcome ClientError A → ℕ → ℕ
  sent (raised e) amount = 0
  sent (done v) amount = amount

  -- The balance after a call is less by what it sent.
  module _ (asset : Fr) (amount held : ℕ) where
    abbrev Pays : {A : Type 0} → Called S A → Type 0
    Pays ran = balance ran.0.notes asset + sent ran.2 amount ≡ held

    on_answer-Pays :
        (encryption : NoteEncryption) {A B : Type 0} (w : Wallet) (ran : S × Outcome ClientError A)
        (next : A → Wallet × B)
        → balance w.notes asset ≡ held
        → ((v : A) → balance (next v).0.notes asset + amount ≡ held)
        → Pays (on_answer crypto encryption backend w ran next)
    unfolding on_answer
    on_answer-Pays encryption w (s, raised e) next kept pays = omega (arith, kept)
    on_answer-Pays encryption w (s, done v) next kept pays = pays v

    outcome-Pays :
        {E A B : Type 0} (w : Wallet) (s : S) (r : Outcome E A) (error : E → ClientError)
        (next : A → Called S B)
        → balance w.notes asset ≡ held
        → ((v : A) → r ≡ done v → Pays (next v))
        → Pays
            (elim r as (λ _. Called S B) [ raised e ↦ (w, s, raised (error e)) | done v ↦ next v ])
    outcome-Pays w s (raised e) error next kept pays = omega (arith, kept)
    outcome-Pays w s (done v) error next kept pays = pays v refl

    option-Pays :
        {A B : Type 0} (w : Wallet) (s : S) (r : Option A) (error : ClientError)
        (next : A → Called S B)
        → balance w.notes asset ≡ held
        → ((v : A) → r ≡ some v → Pays (next v))
        → Pays (elim r as (λ _. Called S B) [ none ↦ (w, s, raised error) | some v ↦ next v ])
    option-Pays w s none error next kept pays = omega (arith, kept)
    option-Pays w s (some v) error next kept pays = pays v refl

  submitted_balance :
      (w : Wallet) (c : Fr) (recipient : DiversifiedAddress) (amount r₀ r₁ : ℕ) (t : TransferData)
      (asset : Fr) (sig : Bytes)
      → (built : Built w c recipient amount r₀ r₁ t) → built.owned.note.asset_id ≡ asset
      → total (unspent_notes w.notes asset) < 2 ^ 64
      → balance (add_change crypto (mark_spent w t.spent_commitment) t.change sig).notes asset
          + amount
        ≡ balance w.notes asset
  unfolding transfer_data is_unspent
  submitted_balance w c recipient amount r₀ r₁ t asset sig b of_asset small =
      let owned = b.owned in
      let fresh : is_unspent owned.note.asset_id owned ≡ true = ground (arith, b.unspent) in
      let limit = subst (λ a. total (unspent_notes w.notes a) < 2 ^ 64) (sym of_asset) small in
      let costs =
        balance_transfer crypto w c owned b.witness b.nf recipient amount r₀ r₁ sig b.found fresh
          b.enough limit in
      let settled =
        subst
          (λ u.
            balance (add_change crypto (mark_spent w u.spent_commitment) u.change sig).notes
                owned.note.asset_id
              + amount
            ≡ balance w.notes owned.note.asset_id)
          b.made costs in
      rw (of_asset) at settled

  submit_transfer-Pays :
      (asset amount held : ℕ) (encryption : NoteEncryption) (w : Wallet) (s : S) (t : TransferData)
      (recipient : DiversifiedAddress) (seed change_seed : ℕ)
      → balance w.notes asset ≡ held
      → ((sig : Bytes)
          → balance (add_change crypto (mark_spent w t.spent_commitment) t.change sig).notes asset
              + amount
            ≡ held)
      → Pays asset amount held
          (submit_transfer crypto encryption backend w s t recipient seed change_seed)
  unfolding submit_transfer encrypt_output encrypt_change of_chain on_answer
  submit_transfer-Pays asset amount held encryption w s t recipient seed change_seed kept pays =
      let payment = encrypt_output crypto encryption backend t.output recipient seed in
      let change = encrypt_change crypto encryption backend w t.change change_seed in
      let ct_hashes = payment.1 ∷ change.1 ∷ 0 ∷ [] in
      let answer : Bytes → S × Outcome ClientError (Bytes × List Fr) = λ proof.
        of_chain crypto encryption backend
          (backend.transfer s (to_request_with_outputs t proof payment.0 change.0 ct_hashes)) in
      let after : Bytes × List Fr → Wallet × (Bytes × List Fr) =
        λ v. (add_change crypto (mark_spent w t.spent_commitment) t.change v.0, v) in
      outcome-Pays asset amount held w s
        (backend.prove (transfer_public (spend_public crypto t ct_hashes))
          (transfer_private (spend_private t w.spending_key.sk)))
        proof_error (λ proof. on_answer crypto encryption backend w (answer proof) after) kept
        λ proof _.
          on_answer-Pays asset amount held encryption w (answer proof) after kept λ v. pays v.0

  -- When the notes that a wallet has under one commitment are of one asset, and those of the asset
  -- add up to less than 2 ^ 64, `transfer_to` takes the amount from the balance and gives the change
  -- back when it succeeds, and leaves the balance as it was when it fails.
  pub transfer_to-balance :
      (encryption : NoteEncryption) (w : Wallet) (s : S) (recipient : DiversifiedAddress)
      (amount : ℕ) (asset : Fr) (r₀ r₁ seed change_seed : ℕ)
      → AssetsAgree w.notes
      → total (unspent_notes w.notes asset) < 2 ^ 64
      → let ran =
          transfer_to crypto encryption backend w s recipient amount asset r₀ r₁ seed change_seed in
        balance ran.0.notes asset + sent ran.2 amount ≡ balance w.notes asset
  unfolding transfer_to
  transfer_to-balance encryption w s recipient amount asset r₀ r₁ seed change_seed agree small =
      let held = balance w.notes asset in
      option-Pays asset amount held w s _ _ _ refl λ n chosen.
        outcome-Pays asset amount held w s _ (λ e. e) _ refl
          λ t built.
            let b = build_transfer-Built w s n.cm recipient amount r₀ r₁ t built in
            let of_asset =
              chosen-AssetFor w.notes w.notes asset amount n agree chosen b.owned b.found in
            submit_transfer-Pays asset amount held encryption w s t recipient seed change_seed refl
              λ sig. submitted_balance w n.cm recipient amount r₀ r₁ t asset sig b of_asset small
