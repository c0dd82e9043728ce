-- ===== src/Client/Chain/Accepted.antt =====
-- What an accepted action says of the state before it, and no double spend.
use native.Mathlib.Decide.{ℕ_discrete}
use mathlib.Core.Path.{subst}
use solana_masp.Prelude.{
  ◌≡◌, ◌≢◌, inl, inr, refl, sym, ◌∙◌, Bool, true, false, List, [], ◌∷◌, arith, Bool-cases,
}
use solana_masp.Client.Outcome.{Outcome, raised, done, ChainError}
use solana_masp.Client.Hash.{Fr, Crypto}
use solana_masp.Client.Requests.{TransferRequest, UnshieldRequest, enabled_nullifiers}
use solana_masp.Client.Store.{mark, contains}
use solana_masp.Client.Chain.{
  MockChain, Ran, and_then, ensure, when_verified, insert_into_set, next_tx_sig, insert_nullifier,
  insert_nullifiers, transfer, unshield, finish_transfer, update_anchor_history,
}
use solana_masp.Client.Chain.DoubleSpend.{
  Action, do_shield, do_transfer, do_unshield, do_post, do_insert_commitment, do_insert_nullifier,
  succeeded, reveals, run_action, run_actions, Spent, insert_nullifier-Spent,
  insert_nullifiers-Spent, run_actions-Spent,
}

pub ensure-succeeded :
    {A : Type 0} (test : Bool) (e : ChainError) (c : MockChain) (rest : Ran A)
    → succeeded (ensure test e c rest).1 ≡ true
    → (test ≡ true) × (ensure test e c rest ≡ rest)
unfolding ensure succeeded
ensure-succeeded false e c rest h = cc
ensure-succeeded true e c rest h = (refl, refl)

pub when_verified-succeeded :
    {A : Type 0} (c : MockChain) (v : Outcome ChainError Bool) (rest : Ran A)
    → succeeded (when_verified c v rest).1 ≡ true
    → (v ≡ done true) × (when_verified c v rest ≡ rest)
unfolding when_verified succeeded
when_verified-succeeded c (raised e) rest h = cc
when_verified-succeeded c (done false) rest h = cc
when_verified-succeeded c (done true) rest h = (refl, refl)

pub and_then-succeeded :
    {A B : Type 0} (ran : Ran A) (next : A → MockChain → Ran B)
    → succeeded (and_then ran next).1 ≡ true
    → (v : A) × (ran.1 ≡ done v) × (and_then ran next ≡ next v ran.0)
unfolding and_then succeeded
and_then-succeeded (c, raised e) next h = cc
and_then-succeeded (c, done v) next h = (v, refl, refl)

succeeded_done : {A : Type 0} (r : Outcome ChainError A) (v : A) → r ≡ done v → succeeded r ≡ true
unfolding succeeded
succeeded_done r v e = rw (e) refl

insert_nullifiers_zero :
    (x : Fr) (xs : List Fr) (c : MockChain)
    → x ≡ 0
    → insert_nullifiers (x ∷ xs) c ≡ insert_nullifiers xs c
unfolding insert_nullifiers
insert_nullifiers_zero x xs c e = ground arith

insert_nullifiers_real :
    (x : Fr) (xs : List Fr) (c : MockChain)
    → x ≢ 0
    → insert_nullifiers (x ∷ xs) c ≡ and_then (insert_nullifier c x) (λ sig. insert_nullifiers xs)
unfolding insert_nullifiers
insert_nullifiers_real x xs c e = ground arith

module _ (nf : Fr) where
  -- `nf` was fresh before a call and is spent after it.
  pub record Spends {A : Type 0} (c : MockChain) (ran : Ran A) : Type 0 where
    pub fresh : c.nullifier_set nf ≡ false
    pub spent : Spent nf ran.0

  insert_nullifier-Spends :
      (c : MockChain) (x : Fr)
      → x ≡ nf
      → succeeded (insert_nullifier c x).1 ≡ true
      → Spends c (insert_nullifier c x)
  unfolding insert_nullifier insert_into_set next_tx_sig mark succeeded
  insert_nullifier-Spends c x e h = record { fresh = ground arith; spent = ground arith }

  Spends-later :
      {A : Type 0} (c : MockChain) (x : Fr) (ran : Ran A)
      → Spends (insert_nullifier c x).0 ran
      → Spends c ran
  Spends-later c x ran h = record {
    fresh = elim (Bool-cases (c.nullifier_set nf)) [
      | inl e ↦ let still = (insert_nullifier-Spent nf c x e).after in let gone = h.fresh in cc
      | inr e ↦ e
    ];
    spent = h.spent;
  }

  insert_nullifiers-Spends :
      (xs : List Fr) (c : MockChain)
      → nf ≢ 0
      → contains xs nf ≡ true
      → succeeded (insert_nullifiers xs c).1 ≡ true
      → Spends c (insert_nullifiers xs c)
  unfolding contains
  insert_nullifiers-Spends [] c real among h = cc
  insert_nullifiers-Spends (x ∷ xs) c real among h = elim (ℕ_discrete x 0) [
    | yes e ↦
        let skip = insert_nullifiers_zero x xs c e in
        let among' : contains xs nf ≡ true = ground arith in
        subst (Spends c) (sym skip)
          (insert_nullifiers-Spends xs c real among' (subst (λ r. succeeded r.1 ≡ true) skip h))
    | no ne ↦
        let taken = insert_nullifiers_real x xs c ne in
        let (sig, inserted, rest) =
          and_then-succeeded (insert_nullifier c x) (λ sig. insert_nullifiers xs)
            (subst (λ r. succeeded r.1 ≡ true) taken h) in
        let next = taken ∙ rest in
        let went : succeeded (insert_nullifier c x).1 ≡ true = succeeded_done _ sig inserted in
        subst (Spends c) (sym next) (elim (ℕ_discrete x nf) [
          | yes same ↦
              let first = insert_nullifier-Spends c x same went in
              record {
                fresh = first.fresh;
                spent = (insert_nullifiers-Spent nf xs (insert_nullifier c x).0 first.spent).after;
              }
          | no other ↦
              let among' : contains xs nf ≡ true = ground arith in
              Spends-later c x (insert_nullifiers xs (insert_nullifier c x).0) (
                insert_nullifiers-Spends xs (insert_nullifier c x).0 real among'
                  (subst (λ r. succeeded r.1 ≡ true) next h))
        ])
  ]

module _ (crypto : Crypto) where
  transfer-Spends :
      (nf : Fr) (c : MockChain) (r : TransferRequest)
      → nf ≢ 0
      → contains (enabled_nullifiers r) nf ≡ true
      → succeeded (transfer crypto c r).1 ≡ true
      → Spends nf c (transfer crypto c r)
  unfolding transfer finish_transfer next_tx_sig update_anchor_history
  transfer-Spends nf c r real among h =
      let (valid, checked) = ensure-succeeded _ _ _ _ h in
      let h₁ = subst (λ r. succeeded r.1 ≡ true) checked h in
      let (verified, proved) = when_verified-succeeded _ _ _ h₁ in
      let h₂ = subst (λ r. succeeded r.1 ≡ true) proved h₁ in
      let (sized, sliced) = ensure-succeeded _ _ _ _ h₂ in
      let h₃ = subst (λ r. succeeded r.1 ≡ true) sliced h₂ in
      let (v, inserted, finished) = and_then-succeeded _ _ h₃ in
      let all =
        insert_nullifiers-Spends nf (enabled_nullifiers r) c real among
          (succeeded_done _ v inserted) in
      subst (Spends nf c) (sym (checked ∙ proved ∙ sliced ∙ finished))
        (record { fresh = all.fresh; spent = all.spent })

  unshield-Spends :
      (nf : Fr) (c : MockChain) (r : UnshieldRequest)
      → r.nullifier ≡ nf
      → succeeded (unshield crypto c r).1 ≡ true
      → Spends nf c (unshield crypto c r)
  unfolding unshield
  unshield-Spends nf c r same h =
      let (valid, checked) = ensure-succeeded _ _ _ _ h in
      let h₁ = subst (λ r. succeeded r.1 ≡ true) checked h in
      let (verified, proved) = when_verified-succeeded _ _ _ h₁ in
      let h₂ = subst (λ r. succeeded r.1 ≡ true) proved h₁ in
      subst (Spends nf c) (sym (checked ∙ proved))
        (insert_nullifier-Spends nf c r.nullifier same h₂)

  accepted_action :
      (nf : Fr) (a : Action) (c : MockChain)
      → reveals a nf ≡ true
      → (run_action crypto a c).1 ≡ true
      → (c.nullifier_set nf ≡ false) × Spent nf (run_action crypto a c).0
  unfolding reveals run_action
  accepted_action nf (do_transfer r) c shown h =
      let real : nf ≢ 0 = λ e. absurd (ground arith) in
      let among : contains (enabled_nullifiers r) nf ≡ true = ground arith in
      let s = transfer-Spends nf c r real among h in (s.fresh, s.spent)
  accepted_action nf (do_unshield r) c shown h =
      let s = unshield-Spends nf c r (ground arith) h in (s.fresh, s.spent)
  accepted_action nf (do_insert_nullifier x) c shown h =
      let s = insert_nullifier-Spends nf c x (ground arith) h in (s.fresh, s.spent)
  accepted_action nf (do_shield r) c shown h = cc
  accepted_action nf (do_post os) c shown h = cc
  accepted_action nf (do_insert_commitment cm) c shown h = cc

  -- After an accepted action that reveals a nullifier, where a transfer does not reveal zero,
  -- and any actions of the chain, no action that reveals the nullifier again is accepted.
  pub revealed_once :
      (nf : Fr) (c : MockChain) (first : Action) (between : List Action) (second : Action)
      → reveals first nf ≡ true
      → reveals second nf ≡ true
      → (run_action crypto first c).1 ≡ true
      → (run_action crypto second (run_actions crypto between (run_action crypto first c).0)).1
        ≡ false
  revealed_once nf c first between second shown shown' accepted =
      let (_, spent) = accepted_action nf first c shown accepted in
      let c' = run_actions crypto between (run_action crypto first c).0 in
      let kept = run_actions-Spent crypto nf between (run_action crypto first c).0 spent in
      elim (Bool-cases (run_action crypto second c').1) [
        | inl e ↦ let (fresh, _) = accepted_action nf second c' shown' e in cc
        | inr e ↦ e
      ]
