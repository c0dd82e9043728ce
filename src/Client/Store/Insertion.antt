-- ===== src/Client/Store/Insertion.antt =====
-- The store keeps the Merkle tree of the commitments that were inserted.
use native.Mathlib.Decide.{ℕ_discrete}
use mathlib.Core.Path.{subst}
use solana_masp.Prelude.{
  ℕ, zero, suc, ◌<◌, ◌≡◌, ◌≢◌, ◌⊎◌, inl, inr, refl, sym, ap, ◌∙◌, Option, some, List, [], ◌∷◌, ◌++◌,
  Bytes, length, arith, length-append,
}
use solana_masp.Client.Hash.{Fr, Crypto}
use solana_masp.Client.MerkleTree.{put_node, update_path}
use solana_masp.Client.MerkleTree.Reference.{leaf_at}
use solana_masp.Client.MerkleTree.Update.{IsTree, empty_levels-IsTree, update_path-IsTree}
use solana_masp.Client.Store.{MockStore, put, new_store, insert_internal}

pub leaf_at-append_other :
    (leaves : List Fr) (c : Fr) (i : ℕ)
    → i ≢ length leaves
    → leaf_at leaves i ≡ leaf_at (leaves ++ (c ∷ [])) i
unfolding leaf_at
leaf_at-append_other [] c zero h = absurd (h refl)
leaf_at-append_other [] c (suc i) h = refl
leaf_at-append_other (x ∷ leaves) c zero h = refl
leaf_at-append_other (x ∷ leaves) c (suc i) h = leaf_at-append_other leaves c i (λ e. h (ap suc e))

pub leaf_at-append : (leaves : List Fr) (c : Fr) → leaf_at (leaves ++ (c ∷ [])) (length leaves) ≡ c
unfolding leaf_at
leaf_at-append [] c = refl
leaf_at-append (x ∷ leaves) c = leaf_at-append leaves c

put-cases :
    {A : Type 0} (m : ℕ → Option A) (key : ℕ) (v : A) (k : ℕ) (a : A)
    → put m key v k ≡ some a
    → ((k ≡ key) × (a ≡ v)) ⊎ (m k ≡ some a)
unfolding put
put-cases m key v k a h = elim (ℕ_discrete k key) [
  | yes e ↦ inl (e, ground arith)
  | no ne ↦ inr (ground arith)
]

module _ (crypto : Crypto) where
  -- The store holds `leaves`, in the order of their insertion.
  pub record IsStore (s : MockStore) (leaves : List Fr) : Type 0 where
    pub tree : IsTree crypto s.nodes s.empty_nodes s.depth (leaf_at leaves)
    pub counted : s.leaf_count ≡ length leaves
    pub indexed :
        (c : Fr) (k : ℕ) → s.commitments c ≡ some k → (k < length leaves) × (leaf_at leaves k ≡ c)

  pub new_store-IsStore : (depth : ℕ) → IsStore (new_store crypto depth) []
  unfolding new_store
  new_store-IsStore depth = record {
    tree = empty_levels-IsTree crypto depth;
    counted = refl;
    indexed = λ c k h. cc;
  }

  module _ (s : MockStore) (leaves : List Fr) (c : Fr) (h : IsStore s leaves) where
    pub inserted_leaf : leaf_at (leaves ++ (c ∷ [])) s.leaf_count ≡ c
    inserted_leaf = ap (leaf_at (leaves ++ (c ∷ []))) h.counted ∙ leaf_at-append leaves c

    inserted_tree :
        IsTree crypto
          (update_path crypto s.empty_nodes s.depth 0 s.leaf_count
            (put_node s.nodes 0 s.leaf_count c))
          s.empty_nodes
          s.depth
          (leaf_at (leaves ++ (c ∷ [])))
    inserted_tree =
        subst
          (λ v.
            IsTree crypto
              (update_path crypto s.empty_nodes s.depth 0 s.leaf_count
                (put_node s.nodes 0 s.leaf_count v))
              s.empty_nodes s.depth (leaf_at (leaves ++ (c ∷ []))))
          inserted_leaf
          (update_path-IsTree crypto s.empty_nodes (leaf_at leaves) (leaf_at (leaves ++ (c ∷ [])))
            s.leaf_count (λ i ne. leaf_at-append_other leaves c i (λ e. ne (e ∙ sym h.counted)))
            s.depth s.nodes h.tree)

    inserted_index :
        (c' : Fr) (k : ℕ)
        → put s.commitments c s.leaf_count c' ≡ some k
        → (k < length (leaves ++ (c ∷ []))) × (leaf_at (leaves ++ (c ∷ [])) k ≡ c')
    inserted_index c' k e = elim (put-cases s.commitments c s.leaf_count c' k e) [
      | inl (same, last) ↦ (
        omega (arith, last, h.counted, length-append leaves (c ∷ [])),
        ap (leaf_at (leaves ++ (c ∷ []))) last ∙ inserted_leaf ∙ sym same,
      )
      | inr old ↦
          let (within, found) = h.indexed c' k old in
          (
            omega (arith, within, length-append leaves (c ∷ [])),
            sym (leaf_at-append_other leaves c k (λ e. absurd (omega arith))) ∙ found,
          )
    ]

    -- An insertion appends one leaf to the tree.
    pub insert_internal-IsStore :
        (tx_sig : Bytes) → IsStore (insert_internal crypto s c tx_sig).0 (leaves ++ (c ∷ []))
    unfolding insert_internal
    insert_internal-IsStore tx_sig = record {
      tree = inserted_tree;
      counted = omega (arith, h.counted, length-append leaves (c ∷ []));
      indexed = inserted_index;
    }
