-- ===== src/Masp/State/Window.antt =====
-- Which anchors are accepted after any number of root updates.
use mathlib.Core.List.{append_assoc, reverse-cons}
use solana_masp.Prelude.{
  ℕ, ◌≡◌, refl, ap, sym, ◌∙◌, List, [], ◌∷◌, ◌++◌, reverse, Bytes, arith, length, take, take_all,
  replicate,
}
use solana_masp.Runtime.{Result, ok, ◌>>=◌, Pubkey}
use solana_masp.Masp.State.{
  TreeState, in_history, is_valid_anchor, update_root, new_tree_state, zero32,
}
use solana_masp.Masp.State.Anchors.{
  IsWellFormed, recent, update_root-recent, is_valid_anchor-recent, take-append-take, length-recent,
}

-- The calls of `update_root` that a sequence of roots makes, oldest first.
abbrev pub update_roots : List Bytes → TreeState → Result TreeState
update_roots [] s = ok s
update_roots (r ∷ rs) s = update_root s r >>= update_roots rs

-- Seventeen roots are accepted: the current one and the sixteen of the history.
abbrev pub window : ℕ
window = 17

update_roots-recent :
    (rs : List Bytes) (s : TreeState)
    → IsWellFormed s
    → (s' : TreeState) × (update_roots rs s ≡ ok s')
      × IsWellFormed s'
      × (recent s' ≡ take window (reverse rs ++ recent s))
unfolding ◌>>=◌
update_roots-recent [] s w =
    let all : take (length (recent s)) (recent s) ≡ recent s = take_all (recent s) in
    (s, refl, w, sym (rw (length-recent s w) at all))
update_roots-recent (r ∷ rs) s w =
    let (s₁, first, w₁, top) = update_root-recent s r w in
    let (s₂, others, w₂, top₂) = update_roots-recent rs s₁ w₁ in
    (
      s₂,
      rw first others,
      w₂,
      top₂
          ∙ ap (λ t. take window (reverse rs ++ t)) top
          ∙ take-append-take window window (reverse rs) (r ∷ recent s) (omega arith)
          ∙ rw (reverse-cons, append_assoc),
    )

new_tree_state-IsWellFormed : (k : Pubkey) → IsWellFormed (new_tree_state k)
unfolding new_tree_state
new_tree_state-IsWellFormed k = omega arith

recent-new_tree_state : (k : Pubkey) → recent (new_tree_state k) ≡ replicate window zero32
unfolding recent new_tree_state
recent-new_tree_state k = refl

-- From a new tree state every sequence of root updates succeeds, and afterwards exactly the last
-- seventeen roots are valid anchors, where the state starts as if seventeen zero roots had been set.
pub is_valid_anchor-update_roots :
    (k : Pubkey) (roots : List Bytes)
    → (s : TreeState) × (update_roots roots (new_tree_state k) ≡ ok s)
      × ((anchor : Bytes)
          → is_valid_anchor s anchor
            ≡ in_history anchor (take window (reverse roots ++ replicate window zero32)))
is_valid_anchor-update_roots k roots =
    let (s, done, _, top) =
      update_roots-recent roots (new_tree_state k) (new_tree_state-IsWellFormed k) in
    (
      s,
      done,
      λ anchor.
          is_valid_anchor-recent s anchor
          ∙ ap (in_history anchor)
              (top ∙ ap (λ t. take window (reverse roots ++ t)) (recent-new_tree_state k)),
    )
