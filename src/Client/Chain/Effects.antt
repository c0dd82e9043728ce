-- ===== src/Client/Chain/Effects.antt =====
-- What the actions do to the tree: accepted commitments are appended, and nothing else.
use mathlib.Core.Path.{subst}
use mathlib.Core.List.{append_assoc, append-nil}
use solana_masp.Prelude.{
  ℕ, ◌+◌, ◌≤◌, ◌≡◌, inl, inr, refl, sym, ◌∙◌, Bool, true, false, Option, none, some, List, [], ◌∷◌,
  ◌++◌, Bytes, length, ◌==◌, arith, Bool-cases, if◌then◌else◌,
}
use solana_masp.Client.Outcome.{Outcome, raised, done, ChainError}
use solana_masp.Client.Hash.{Fr, Crypto}
use solana_masp.Client.Requests.{
  OutputCiphertextData, ShieldRequest, TransferOutput, TransferRequest, UnshieldRequest,
  enabled_nullifiers,
}
use solana_masp.Client.Store.{MockStore, store_ciphertext, insert_note_commitment, insert_output}
use solana_masp.Client.Store.Insertion.{IsStore, insert_internal-IsStore}
use solana_masp.Client.Chain.{
  MockChain, Ran, and_then, ensure, when_verified, insert_into_set, next_tx_sig, insert_nullifier,
  insert_nullifiers, store_ciphertexts, post_ciphertexts, update_anchor_history, insert_outputs,
  finish_transfer, chain_insert_commitment, shield, transfer, unshield,
}
use solana_masp.Client.Chain.DoubleSpend.{
  Action, do_shield, do_transfer, do_unshield, do_post, do_insert_commitment, do_insert_nullifier,
  succeeded, run_action,
}

-- The commitments of the outputs that are not dummies
unfoldable pub real_commitments : List TransferOutput → List Fr
real_commitments [] = []
real_commitments (o ∷ outputs) =
    let rest = real_commitments outputs in if o.commitment == 0 then rest else o.commitment ∷ rest

-- The leaves that an accepted action adds
unfoldable pub new_leaves : Action → List Fr
new_leaves (do_shield r) = r.commitment ∷ []
new_leaves (do_transfer r) = real_commitments r.outputs
new_leaves (do_insert_commitment cm) = cm ∷ []
new_leaves (do_unshield r) = []
new_leaves (do_post os) = []
new_leaves (do_insert_nullifier x) = []

-- A transfer counts at most the outputs that it has.
unfoldable pub Counted : Action → Type 0
Counted (do_transfer r) = r.output_count ≤ length r.outputs
Counted (do_shield r) = Unit {0}
Counted (do_insert_commitment cm) = Unit {0}
Counted (do_unshield r) = Unit {0}
Counted (do_post os) = Unit {0}
Counted (do_insert_nullifier x) = Unit {0}

insert_nullifier_store :
    (c : MockChain) (x : Fr) → (insert_nullifier c x).0.note_store ≡ c.note_store
unfolding insert_nullifier insert_into_set next_tx_sig
insert_nullifier_store c x = ground arith

and_then_store :
    {A B : Type 0} (s : MockStore) (ran : Ran A) (next : A → MockChain → Ran B)
    → ran.0.note_store ≡ s
    → ((v : A) (c : MockChain) → c.note_store ≡ s → (next v c).0.note_store ≡ s)
    → (and_then ran next).0.note_store ≡ s
unfolding and_then
and_then_store s (c, raised e) next h keep = h
and_then_store s (c, done v) next h keep = keep v c h

insert_nullifiers_store :
    (xs : List Fr) (c : MockChain) → (insert_nullifiers xs c).0.note_store ≡ c.note_store
unfolding insert_nullifiers
insert_nullifiers_store [] c = refl
insert_nullifiers_store (x ∷ xs) c =
    let skip = insert_nullifiers_store xs c in
    let take =
      and_then_store c.note_store (insert_nullifier c x) (λ sig. insert_nullifiers xs)
        (insert_nullifier_store c x) (λ sig c' h. insert_nullifiers_store xs c' ∙ h) in
    elim (Bool-cases (x == 0)) [ inl e ↦ rw (e) skip | inr e ↦ rw (e) take ]

module _ (crypto : Crypto) where
  store_ciphertexts-IsStore :
      (s : MockStore) (leaves : List Fr) (tx_sig : Bytes) (i : ℕ) (os : List OutputCiphertextData)
      → IsStore crypto s leaves
      → IsStore crypto (store_ciphertexts s tx_sig i os) leaves
  unfolding store_ciphertexts store_ciphertext
  store_ciphertexts-IsStore s leaves tx_sig i [] h = h
  store_ciphertexts-IsStore s leaves tx_sig i (o ∷ os) h =
      store_ciphertexts-IsStore (store_ciphertext s tx_sig i o.ciphertext o.ephemeral_key o.ct_hash)
        leaves tx_sig (i + 1) os
        (record { tree = h.tree; counted = h.counted; indexed = h.indexed })

  insert_output-IsStore :
      (s : MockStore) (leaves : List Fr) (c : Fr) (tx_sig : Bytes)
      (data' : Option OutputCiphertextData)
      → IsStore crypto s leaves
      → IsStore crypto (insert_output crypto s c tx_sig data').0 (leaves ++ (c ∷ []))
  unfolding insert_output insert_note_commitment
  insert_output-IsStore s leaves c tx_sig none h =
      insert_internal-IsStore crypto s leaves c h tx_sig
  insert_output-IsStore s leaves c tx_sig (some ct) h =
      let kept = insert_internal-IsStore crypto s leaves c h tx_sig in
      record { tree = kept.tree; counted = kept.counted; indexed = kept.indexed }

  insert_outputs-IsStore :
      (os : List TransferOutput) (s : MockStore) (leaves : List Fr) (tx_sig : Bytes)
      → IsStore crypto s leaves
      → IsStore crypto (insert_outputs crypto s tx_sig os) (leaves ++ real_commitments os)
  unfolding insert_outputs real_commitments
  insert_outputs-IsStore [] s leaves tx_sig h = subst (IsStore crypto s) (sym (append-nil leaves)) h
  insert_outputs-IsStore (o ∷ os) s leaves tx_sig h = elim (Bool-cases (o.commitment == 0)) [
    | inl e ↦ rw (e) (insert_outputs-IsStore os s leaves tx_sig h)
    | inr e ↦ rw (e) (
        subst (IsStore crypto _) (append_assoc leaves (o.commitment ∷ []) (real_commitments os)) (
          insert_outputs-IsStore os _ (leaves ++ (o.commitment ∷ [])) tx_sig
            (insert_output-IsStore s leaves o.commitment tx_sig _ h)))
  ]

  -- The store after a call: with `new` when it succeeded, unchanged when it failed
  module _ (leaves new : List Fr) where
    record Records {A : Type 0} (ran : Ran A) : Type 0 where
      pub on_done : succeeded ran.1 ≡ true → IsStore crypto ran.0.note_store (leaves ++ new)
      pub on_raised : succeeded ran.1 ≡ false → IsStore crypto ran.0.note_store leaves

    ensure-Records :
        {A : Type 0} (test : Bool) (e : ChainError) (c : MockChain) (rest : Ran A)
        → IsStore crypto c.note_store leaves
        → Records rest
        → Records (ensure test e c rest)
    unfolding ensure succeeded
    ensure-Records false e c rest h h' = record { on_done = λ e. cc; on_raised = λ _. h }
    ensure-Records true e c rest h h' = h'

    when_verified-Records :
        {A : Type 0} (c : MockChain) (v : Outcome ChainError Bool) (rest : Ran A)
        → IsStore crypto c.note_store leaves
        → Records rest
        → Records (when_verified c v rest)
    unfolding when_verified succeeded
    when_verified-Records c (raised e) rest h h' = record { on_done = λ e. cc; on_raised = λ _. h }
    when_verified-Records c (done false) rest h h' = record {
      on_done = λ e. cc;
      on_raised = λ _. h;
    }
    when_verified-Records c (done true) rest h h' = h'

    and_then-Records :
        {A B : Type 0} (ran : Ran A) (next : A → MockChain → Ran B)
        → IsStore crypto ran.0.note_store leaves
        → ((v : A) (c : MockChain) → IsStore crypto c.note_store leaves → Records (next v c))
        → Records (and_then ran next)
    unfolding and_then succeeded
    and_then-Records (c, raised e) next h keep = record { on_done = λ e. cc; on_raised = λ _. h }
    and_then-Records (c, done v) next h keep = keep v c h

  by_result :
      {A : Type 0} (leaves new : List Fr) (ran : Ran A)
      → Records leaves new ran
      → IsStore crypto ran.0.note_store (if succeeded ran.1 then leaves ++ new else leaves)
  by_result leaves new ran h = elim (Bool-cases (succeeded ran.1)) [
    | inl e ↦ rw (e) (h.on_done e)
    | inr e ↦ rw (e) (h.on_raised e)
  ]

  finish_transfer-Records :
      (leaves : List Fr) (c : MockChain)
      → IsStore crypto c.note_store leaves
      → (r : TransferRequest) → r.output_count ≤ length r.outputs
      → Records leaves (real_commitments r.outputs) (finish_transfer crypto c r)
  unfolding finish_transfer next_tx_sig update_anchor_history succeeded
  finish_transfer-Records leaves c h r counted = record {
    on_done = λ _. insert_outputs-IsStore r.outputs c.note_store leaves _ h;
    on_raised = λ e. absurd (ground arith);
  }

  module _ (leaves : List Fr) (c : MockChain) (h : IsStore crypto c.note_store leaves) where
    shield-Records : (r : ShieldRequest) → Records leaves (r.commitment ∷ []) (shield crypto c r)
    unfolding shield next_tx_sig update_anchor_history succeeded
    shield-Records r = when_verified-Records leaves (r.commitment ∷ []) _ _ _ h (record {
      on_done = λ _. insert_output-IsStore c.note_store leaves r.commitment _ _ h;
      on_raised = λ e. cc;
    })

    insert_commitment-Records :
        (cm : Fr) → Records leaves (cm ∷ []) (chain_insert_commitment crypto c cm)
    unfolding chain_insert_commitment insert_note_commitment next_tx_sig update_anchor_history
        succeeded
    insert_commitment-Records cm = record {
      on_done = λ _. insert_internal-IsStore crypto c.note_store leaves cm h _;
      on_raised = λ e. cc;
    }

    -- What leaves the tree alone
    kept-Records :
        {A : Type 0} (ran : Ran A) → IsStore crypto ran.0.note_store leaves → Records leaves [] ran
    kept-Records ran kept = record {
      on_done = λ _. subst (IsStore crypto ran.0.note_store) (sym (append-nil leaves)) kept;
      on_raised = λ _. kept;
    }

    post-Records : (os : List OutputCiphertextData) → Records leaves [] (post_ciphertexts c os)
    unfolding post_ciphertexts next_tx_sig
    post-Records os =
        kept-Records (post_ciphertexts c os)
          (store_ciphertexts-IsStore c.note_store leaves _ 0 os h)

    insert_nullifier-Records : (x : Fr) → Records leaves [] (insert_nullifier c x)
    insert_nullifier-Records x =
        kept-Records (insert_nullifier c x)
          (subst (λ s. IsStore crypto s leaves) (sym (insert_nullifier_store c x)) h)

    unshield-Records : (r : UnshieldRequest) → Records leaves [] (unshield crypto c r)
    unfolding unshield
    unshield-Records r =
        ensure-Records leaves [] _ _ _ _ h
          (when_verified-Records leaves [] _ _ _ h (insert_nullifier-Records r.nullifier))

    transfer-Records :
        (r : TransferRequest)
        → r.output_count ≤ length r.outputs
        → Records leaves (real_commitments r.outputs) (transfer crypto c r)
    unfolding transfer
    transfer-Records r counted =
        let new = real_commitments r.outputs in
        ensure-Records leaves new _ _ _ _ h (
          when_verified-Records leaves new _ _ _ h (
            ensure-Records leaves new _ _ _ _ h (
              and_then-Records leaves new _ _
                (subst (λ s. IsStore crypto s leaves)
                  (sym (insert_nullifiers_store (enabled_nullifiers r) c)) h)
                (λ v c' h'. finish_transfer-Records leaves c' h' r counted))))

  -- An action on the chain keeps its store in order; an accepted one, which counts no more
  -- outputs than it has, appends its commitments to the leaves, and a rejected one appends
  -- nothing.
  pub run_action-IsStore :
      (a : Action) (c : MockChain) (leaves : List Fr)
      → Counted a
      → IsStore crypto c.note_store leaves
      → IsStore crypto
          (run_action crypto a c).0.note_store
          (if (run_action crypto a c).1 then leaves ++ new_leaves a else leaves)
  unfolding run_action new_leaves Counted
  run_action-IsStore (do_shield r) c leaves counted h =
      by_result _ _ _ (shield-Records leaves c h r)
  run_action-IsStore (do_transfer r) c leaves counted h =
      by_result _ _ _ (transfer-Records leaves c h r counted)
  run_action-IsStore (do_unshield r) c leaves counted h =
      by_result _ _ _ (unshield-Records leaves c h r)
  run_action-IsStore (do_post os) c leaves counted h = by_result _ _ _ (post-Records leaves c h os)
  run_action-IsStore (do_insert_commitment cm) c leaves counted h =
      by_result _ _ _ (insert_commitment-Records leaves c h cm)
  run_action-IsStore (do_insert_nullifier x) c leaves counted h =
      by_result _ _ _ (insert_nullifier-Records leaves c h x)
