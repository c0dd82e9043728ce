-- ===== src/Client/MerkleTree/Paths.antt =====
-- The path of a leaf folds to the root of the tree.
use solana_masp.Prelude.{
  ℕ, zero, suc, ◌+◌, ◌-◌, ◌/◌, ◌%◌, ◌^◌, ◌<◌, ◌≤◌, ◌≡◌, inl, inr, sym, ap, ap₂, ◌∙◌, List, ◌==◌,
  Bool-cases, if◌then◌else◌, arith,
}
use solana_masp.Client.Hash.{Fr, Crypto, merkle_hash}
use solana_masp.Client.MerkleTree.{Nodes, get_node, siblings, path_indices, fold_path}
use solana_masp.Client.MerkleTree.Reference.{ancestor, ancestor_lt, subtree, subtree_parent}
use solana_masp.Client.MerkleTree.Update.{IsTree}

module _ (crypto : Crypto) (nodes : Nodes) (empty_nodes : List Fr) (depth : ℕ) (leaf : ℕ → Fr)
    (tree : IsTree crypto nodes empty_nodes depth leaf) where
  -- A node and its sibling hash to their parent.
  fold_path_step :
      (level index : ℕ)
      → level + 1 ≤ depth
      → (if index % 2 == 1
          then merkle_hash crypto
              (get_node nodes empty_nodes level (if index % 2 == 1 then index - 1 else index + 1))
              (subtree crypto leaf level index)
          else merkle_hash crypto
              (subtree crypto leaf level index)
              (get_node nodes empty_nodes level (if index % 2 == 1 then index - 1 else index + 1)))
        ≡ subtree crypto leaf (level + 1) (index / 2)
  unfolding IsTree
  fold_path_step level index h =
      (elim (Bool-cases (index % 2 == 1)) [
        | inl e ↦
            let odd : index % 2 ≡ 1 = ground arith in
            rw (e) (
              ap₂ (merkle_hash crypto)
                (tree level (index - 1) (omega arith)
                  ∙ ap (subtree crypto leaf level) (omega arith))
                (ap (subtree crypto leaf level) (omega arith)))
        | inr e ↦
            let even : index % 2 ≡ 0 = ground arith in
            rw (e) (
              ap₂ (merkle_hash crypto) (ap (subtree crypto leaf level) (omega arith)) (
                tree level (index + 1) (omega arith)
                ∙ ap (subtree crypto leaf level) (omega arith)))
      ])
      ∙ sym (subtree_parent crypto leaf level (index / 2))

  fold_path-siblings :
      (count level index : ℕ)
      → level + count ≡ depth
      → fold_path crypto
          (subtree crypto leaf level index)
          (siblings nodes empty_nodes count level index)
          (path_indices count index)
        ≡ subtree crypto leaf depth (ancestor count index)
  unfolding fold_path siblings path_indices ancestor
  fold_path-siblings zero level index h = ap (λ l. subtree crypto leaf l index) (omega arith)
  fold_path-siblings (suc count) level index h =
      ap
        (λ node.
          fold_path crypto node (siblings nodes empty_nodes count (level + 1) (index / 2))
            (path_indices count (index / 2)))
        (fold_path_step level index (omega arith))
      ∙ fold_path-siblings count (level + 1) (index / 2) (omega arith)

  pub fold_path-siblings_root :
      (index : ℕ)
      → index < 2 ^ depth
      → fold_path crypto
          (leaf index)
          (siblings nodes empty_nodes depth 0 index)
          (path_indices depth index)
        ≡ get_node nodes empty_nodes depth 0
  unfolding subtree IsTree
  fold_path-siblings_root index h =
      fold_path-siblings depth 0 index (omega arith)
      ∙ ap (subtree crypto leaf depth) (ancestor_lt depth index h)
      ∙ sym (tree depth 0 (omega arith))
