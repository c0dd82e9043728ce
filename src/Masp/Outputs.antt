-- ===== src/Masp/Outputs.antt =====
-- What the loop over the output commitments does: it counts the enabled ones.
use mathlib.Core.Path.{subst}
use solana_masp.Prelude.{
  ℕ, zero, suc, ◌+◌, ◌^◌, ◌<◌, ◌≤◌, ◌≡◌, sym, ap, ◌∙◌, false, List, [], ◌∷◌, Bytes, bytes_eq, arith,
  length, inl, inr, Bool-cases,
}
use solana_masp.Runtime.{ok, >>=-eq-ok, ok-injective, AccountInfo, Ledger}
use solana_masp.Masp.State.{TreeState, increment_leaf_count, zero32}
use solana_masp.Masp.Instructions.{insert_outputs, count_leaf}
use solana_masp.Masp.Nullifiers.{enabled}

-- The state with `k` more leaves.
abbrev pub add_leaves : TreeState → ℕ → TreeState
add_leaves s k = record s { leaf_count = s.leaf_count + k }

pub count_leaf-ok :
    (s : TreeState) {s' : TreeState}
    → count_leaf s ≡ ok s'
    → (s' ≡ add_leaves s 1) × (s.leaf_count + 1 < 2 ^ 64)
unfolding increment_leaf_count
count_leaf-ok s h = (ground arith, ground arith)

insert_outputs_step :
    (n : ℕ) (x : Bytes) (rest : List Bytes) (authority : AccountInfo) (s : TreeState) (l : Ledger)
    {r : TreeState × Ledger}
    → bytes_eq x zero32 ≡ false
    → insert_outputs (suc n) (x ∷ rest) authority s l ≡ ok r
    → (s₁ : TreeState) × (count_leaf s ≡ ok s₁) × (insert_outputs n rest authority s₁ l ≡ ok r)
unfolding insert_outputs
insert_outputs_step n x rest authority s l nz h =
    let (l₁, same, h₁) = >>=-eq-ok _ _ (rw (nz, insert_outputs) at h) in
    let (s₁, counted, h₂) = >>=-eq-ok _ _ h₁ in (s₁, counted, rw (← ok-injective same) at h₂)

add_leaves_twice : (s : TreeState) (k : ℕ) → add_leaves (add_leaves s 1) k ≡ add_leaves s (suc k)
add_leaves_twice s k =
    let e : s.leaf_count + 1 + k ≡ s.leaf_count + suc k = omega arith in
    ap (λ n. record s { leaf_count = n }) e

-- The loop changes no account, adds one leaf for each enabled commitment among the first `n`, and
-- neither the count nor the index is out of range.
pub insert_outputs-ok :
    (n : ℕ) (commitments : List Bytes) (authority : AccountInfo) (s : TreeState) (l : Ledger)
    {s' : TreeState} {l' : Ledger}
    → s.leaf_count < 2 ^ 64
    → insert_outputs n commitments authority s l ≡ ok (s', l')
    → (n ≤ length commitments)
      × (l ≡ l')
      × (add_leaves s (length (enabled n commitments)) ≡ s')
      × (s.leaf_count + length (enabled n commitments) < 2 ^ 64)
unfolding insert_outputs
insert_outputs-ok zero cms a s l fits h =
    let e : s.leaf_count + 0 ≡ s.leaf_count = omega arith in
    let same = ok-injective h in
    (
      omega arith,
      ap (λ (r : TreeState × Ledger). r.1) same,
      rw e (ap (λ (r : TreeState × Ledger). r.0) same),
      omega arith,
    )
insert_outputs-ok (suc n) [] a s l fits h = cc
insert_outputs-ok (suc n) (x ∷ cms) a s l {s'} fits h = elim (Bool-cases (bytes_eq x zero32)) [
  | inl z ↦
      let (len, same, count, room) =
        insert_outputs-ok n cms a s l fits (rw (z, insert_outputs) at h) in
      (omega arith, same, rw (z, enabled) count, rw (z, enabled) room)
  | inr nz ↦
      let (s₁, counted, rest) = insert_outputs_step n x cms a s l nz h in
      let (one, fits₁) = count_leaf-ok s counted in
      let (len, same, count, room) =
        insert_outputs-ok n cms a s₁ l
          (subst (λ (t : TreeState). t.leaf_count < 2 ^ 64) (sym one) fits₁) rest in
      let count₁ : add_leaves (add_leaves s 1) (length (enabled n cms)) ≡ s' =
        ap (λ t. add_leaves t (length (enabled n cms))) (sym one) ∙ count in
      let room₁ : s.leaf_count + 1 + length (enabled n cms) < 2 ^ 64 =
        subst (λ (t : TreeState). t.leaf_count + length (enabled n cms) < 2 ^ 64) one room in
      (
        omega arith,
        same,
        rw (nz, enabled) (sym (add_leaves_twice s (length (enabled n cms))) ∙ count₁),
        rw (nz, enabled) (omega arith),
      )
]
