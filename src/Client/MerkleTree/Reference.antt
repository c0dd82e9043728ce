-- ===== src/Client/MerkleTree/Reference.antt =====
-- The Merkle tree as a function of its leaves.
use solana_masp.Prelude.{
  ℕ, zero, suc, ◌+◌, ◌*◌, ◌/◌, ◌^◌, ◌<◌, ◌≡◌, ◌≢◌, refl, sym, ap, ap₂, ◌∙◌, none, some, List,
  get_elem?, arith,
}
use native.Mathlib.Numerals.{unary_clauses}
use solana_masp.Client.Hash.{Fr, Crypto, merkle_hash}

-- The inserted commitments, and 0 in every leaf after them
unfoldable pub leaf_at : List Fr → ℕ → Fr
leaf_at leaves i = elim (get_elem? leaves i) [ some leaf ↦ leaf | none ↦ 0 ]

-- The ancestor of leaf `index`, `count` levels above it
unfoldable pub ancestor : (count index : ℕ) → ℕ
ancestor zero index = index
ancestor (suc count) index = ancestor count (index / 2)

pub ancestor_lt : (count index : ℕ) → index < 2 ^ count → ancestor count index ≡ 0
unfolding ancestor
ancestor_lt zero index h = omega arith
ancestor_lt (suc count) index h =
    ancestor_lt count (index / 2) (half (2 ^ count) (simp unary_clauses at h))
  where
    half : (k : ℕ) → index < k * 2 → index / 2 < k
    half k h = omega arith

pub ancestor_suc : (count index : ℕ) → ancestor count (index / 2) ≡ ancestor count index / 2
unfolding ancestor
ancestor_suc zero index = refl
ancestor_suc (suc count) index = ancestor_suc count (index / 2)

pub ancestor_parent : (count index : ℕ) → ancestor (count + 1) index ≡ ancestor count index / 2
unfolding ancestor
ancestor_parent count index =
    let next : count + 1 ≡ suc count = omega arith in
    ap (λ n. ancestor n index) next ∙ ancestor_suc count index

module _ (crypto : Crypto) where
  unfoldable pub subtree : (leaf : ℕ → Fr) (level index : ℕ) → Fr
  subtree leaf zero index = leaf index
  subtree leaf (suc level) index =
      merkle_hash crypto (subtree leaf level (index * 2)) (subtree leaf level (index * 2 + 1))

  pub subtree_parent :
      (leaf : ℕ → Fr) (level index : ℕ)
      → subtree leaf (level + 1) index
        ≡ merkle_hash crypto (subtree leaf level (index * 2)) (subtree leaf level (index * 2 + 1))
  unfolding subtree
  subtree_parent leaf level index =
      let next : level + 1 ≡ suc level = omega arith in ap (λ n. subtree leaf n index) next

  -- Only the ancestors of a leaf depend on it.
  pub subtree_other :
      (old new : ℕ → Fr) (j : ℕ)
      → ((i : ℕ) → i ≢ j → old i ≡ new i)
      → (level index : ℕ) → index ≢ ancestor level j
      → subtree old level index ≡ subtree new level index
  unfolding subtree ancestor
  subtree_other old new j agree zero index h = agree index h
  subtree_other old new j agree (suc level) index h =
      let up = ancestor_suc level j in
      ap₂ (merkle_hash crypto)
        (subtree_other old new j agree level (index * 2) (λ e. h (even up e)))
        (subtree_other old new j agree level (index * 2 + 1) (λ e. h (odd up e)))
    where
      even :
          ancestor level (j / 2) ≡ ancestor level j / 2
          → index * 2 ≡ ancestor level j
          → index ≡ ancestor level (j / 2)
      even up e = omega arith

      odd :
          ancestor level (j / 2) ≡ ancestor level j / 2
          → index * 2 + 1 ≡ ancestor level j
          → index ≡ ancestor level (j / 2)
      odd up e = omega arith

  -- The nodes of an empty tree
  pub subtree_empty :
      (level index : ℕ) (leaf : ℕ → Fr)
      → ((i : ℕ) → leaf i ≡ 0)
      → (k : ℕ) → subtree leaf level index ≡ subtree leaf level k
  unfolding subtree
  subtree_empty zero index leaf h k = h index ∙ sym (h k)
  subtree_empty (suc level) index leaf h k =
      ap₂ (merkle_hash crypto) (subtree_empty level (index * 2) leaf h (k * 2))
        (subtree_empty level (index * 2 + 1) leaf h (k * 2 + 1))
