-- ===== src/Client/MerkleTree/Update.antt =====
-- `insert_internal` keeps the stored nodes equal to those of the tree of all leaves.
use native.Mathlib.Decide.{ℕ_discrete}
use mathlib.Core.Path.{subst}
use solana_masp.Prelude.{
  ℕ, zero, suc, ◌+◌, ◌*◌, ◌/◌, ◌<◌, ◌≤◌, ◌≡◌, ◌≢◌, ◌⊎◌, inl, inr, refl, sym, ap, ap₂, ◌∙◌, List, [],
  arith,
}
use solana_masp.Client.Hash.{Fr, Crypto, merkle_hash}
use solana_masp.Client.MerkleTree.{
  Nodes, no_nodes, put_node, empty_node, get_node, empty_levels, update_path,
}
use solana_masp.Client.MerkleTree.Reference.{
  leaf_at, ancestor, ancestor_parent, subtree, subtree_parent, subtree_other,
}

put_node_same :
    (nodes : Nodes) (empty_nodes : List Fr) (level index : ℕ) (value : Fr) (l i : ℕ)
    → l ≡ level
    → i ≡ index
    → get_node (put_node nodes level index value) empty_nodes l i ≡ value
unfolding get_node put_node
put_node_same nodes empty_nodes level index value l i h h' = ground arith

put_node_other :
    (nodes : Nodes) (empty_nodes : List Fr) (level index : ℕ) (value : Fr) (l i : ℕ)
    → (l ≢ level) ⊎ (i ≢ index)
    → get_node (put_node nodes level index value) empty_nodes l i ≡ get_node nodes empty_nodes l i
unfolding get_node put_node
put_node_other nodes empty_nodes level index value l i (inl h) = ground arith
put_node_other nodes empty_nodes level index value l i (inr h) = ground arith

module _ (crypto : Crypto) where
  -- The stored nodes are those of the tree of `leaf`.
  unfoldable pub IsTree : Nodes → List Fr → (depth : ℕ) → (ℕ → Fr) → Type 0
  IsTree nodes empty_nodes depth leaf =
      (level index : ℕ)
      → level ≤ depth
      → get_node nodes empty_nodes level index ≡ subtree crypto leaf level index

  empty_levels_lem :
      (leaf : ℕ → Fr)
      → ((i : ℕ) → leaf i ≡ 0)
      → (depth k : ℕ) (node : Fr) → ((i : ℕ) → node ≡ subtree crypto leaf k i)
      → (level index : ℕ) → level ≤ depth
      → empty_node (empty_levels crypto depth node) level ≡ subtree crypto leaf (level + k) index
  unfolding empty_node empty_levels subtree
  empty_levels_lem leaf blank zero k node h zero index le =
      h index ∙ ap (λ n. subtree crypto leaf n index) (omega arith)
  empty_levels_lem leaf blank zero k node h (suc level) index le = absurd (omega arith)
  empty_levels_lem leaf blank (suc depth) k node h zero index le =
      h index ∙ ap (λ n. subtree crypto leaf n index) (omega arith)
  empty_levels_lem leaf blank (suc depth) k node h (suc level) index le =
      empty_levels_lem leaf blank depth (suc k) (merkle_hash crypto node node)
        (λ i. ap₂ (merkle_hash crypto) (h (i * 2)) (h (i * 2 + 1))) level index (omega arith)
      ∙ ap (λ n. subtree crypto leaf n index) (omega arith)

  -- The tree of `new` is the empty one.
  pub empty_levels-IsTree :
      (depth : ℕ) → IsTree no_nodes (empty_levels crypto depth 0) depth (leaf_at [])
  unfolding IsTree get_node no_nodes leaf_at subtree
  empty_levels-IsTree depth level index le =
      empty_levels_lem (leaf_at []) (λ i. refl) depth 0 0 (λ i. refl) level index le
      ∙ ap (λ n. subtree crypto (leaf_at []) n index) (omega arith)

  module _ (empty_nodes : List Fr) (old new : ℕ → Fr) (j : ℕ)
      (agree : (i : ℕ) → i ≢ j → old i ≡ new i) where
    -- One turn: the nodes up to `level` are new, those above it are old.
    update_path_step :
        (level : ℕ) (nodes : Nodes)
        → ((i : ℕ) → get_node nodes empty_nodes level i ≡ subtree crypto new level i)
        → ((i : ℕ) → get_node nodes empty_nodes (level + 1) i ≡ subtree crypto old (level + 1) i)
        → (i : ℕ) → (parent : ℕ) → parent ≡ ancestor (level + 1) j
        → get_node
            (put_node nodes (level + 1) parent (
              merkle_hash crypto
                (get_node nodes empty_nodes level (parent * 2))
                (get_node nodes empty_nodes level (parent * 2 + 1))))
            empty_nodes
            (level + 1)
            i
          ≡ subtree crypto new (level + 1) i
    unfolding subtree
    update_path_step level nodes low high i parent up = elim (ℕ_discrete i parent) [
      | yes e ↦
          put_node_same nodes empty_nodes (level + 1) parent _ (level + 1) i refl e
          ∙ ap₂ (merkle_hash crypto) (low (parent * 2)) (low (parent * 2 + 1))
          ∙ sym (subtree_parent crypto new level parent)
          ∙ ap (λ n. subtree crypto new (level + 1) n) (sym e)
      | no ne ↦
          put_node_other nodes empty_nodes (level + 1) parent _ (level + 1) i (inr ne)
          ∙ high i
          ∙ subtree_other crypto old new j agree (level + 1) i (λ e. ne (e ∙ sym up))
    ]

    update_path_lem :
        (count level index : ℕ) (nodes : Nodes)
        → index ≡ ancestor level j
        → ((l i : ℕ) → l ≤ level → get_node nodes empty_nodes l i ≡ subtree crypto new l i)
        → ((l i : ℕ)
            → level < l
            → l ≤ level + count
            → get_node nodes empty_nodes l i ≡ subtree crypto old l i)
        → (l i : ℕ) → l ≤ level + count
        → get_node (update_path crypto empty_nodes count level index nodes) empty_nodes l i
          ≡ subtree crypto new l i
    unfolding update_path ancestor
    update_path_lem zero level index nodes here low high l i le = low l i (omega arith)
    update_path_lem (suc count) level index nodes here low high l i le =
        let up : index / 2 ≡ ancestor (level + 1) j =
          ap (λ n. n / 2) here ∙ sym (ancestor_parent level j) in
        let next : Nodes = put_node nodes (level + 1) (index / 2) (
          merkle_hash crypto (get_node nodes empty_nodes level (index / 2 * 2))
            (get_node nodes empty_nodes level (index / 2 * 2 + 1))) in
        update_path_lem count (level + 1) (index / 2) next up
          (λ l i le. elim (ℕ_discrete l (level + 1)) [
            | yes e ↦
                subst (λ n. get_node next empty_nodes n i ≡ subtree crypto new n i) (sym e)
                  (update_path_step level nodes (λ i. low level i (omega arith))
                    (λ i. high (level + 1) i (omega arith) (omega arith)) i (index / 2) up)
            | no ne ↦
                put_node_other nodes empty_nodes (level + 1) (index / 2) _ l i (inl ne)
                ∙ low l i (omega arith)
          ])
          (λ l i gt le.
            put_node_other nodes empty_nodes (level + 1) (index / 2) _ l i
              (inl (λ e. absurd (omega arith)))
            ∙ high l i (omega arith) (omega arith))
          l i (omega arith)

    leaf_level : (leaf : ℕ → Fr) (l i : ℕ) → l ≤ 0 → leaf i ≡ subtree crypto leaf l i
    unfolding subtree
    leaf_level leaf zero i h = refl
    leaf_level leaf (suc l) i h = absurd (omega arith)

    -- After the leaf is written, the loop writes what changes above it.
    pub update_path-IsTree :
        (depth : ℕ) (nodes : Nodes)
        → IsTree nodes empty_nodes depth old
        → IsTree
            (update_path crypto empty_nodes depth 0 j (put_node nodes 0 j (new j)))
            empty_nodes
            depth
            new
    unfolding IsTree ancestor subtree
    update_path-IsTree depth nodes h l i le =
        update_path_lem depth 0 j _ refl
          (λ l i le. elim (ℕ_discrete i j) [
            | yes e ↦
                put_node_same nodes empty_nodes 0 j (new j) l i (omega arith) e
                ∙ ap new (sym e)
                ∙ leaf_level new l i le
            | no ne ↦
                put_node_other nodes empty_nodes 0 j (new j) l i (inr ne)
                ∙ h l i (omega arith)
                ∙ sym (leaf_level old l i le)
                ∙ agree i ne
                ∙ leaf_level new l i le
          ])
          (λ l i gt le.
            put_node_other nodes empty_nodes 0 j _ l i (inl (λ e. absurd (omega arith)))
            ∙ h l i (omega arith))
          l i (omega arith)
