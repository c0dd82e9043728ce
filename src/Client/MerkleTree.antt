-- ===== src/Client/MerkleTree.antt =====
-- client/src/mock.rs: the Merkle tree of `MockStoreInner`, and client/src/proofs.rs: paths in it.
pub mod Reference
pub mod Update
pub mod Paths
use solana_masp.Prelude.{
  ℕ, zero, suc, ◌+◌, ◌-◌, ◌*◌, ◌/◌, ◌%◌, Bool, true, false, ◌&&◌, Option, none, some, List, [], ◌∷◌,
  get_elem?, ◌==◌, if◌then◌else◌,
}
use solana_masp.Client.Hash.{Fr, Crypto, merkle_hash}

-- The field `nodes`, by level and index
abbrev pub Nodes : Type 0
Nodes = ℕ → ℕ → Option Fr

unfoldable pub no_nodes : Nodes
no_nodes level index = none

unfoldable pub put_node : Nodes → ℕ → ℕ → Fr → Nodes
put_node nodes level index value l i =
    if (l == level) && (i == index) then some value else nodes l i

-- `empty_nodes[level]`: every caller's level is at most the depth, so the index is in range.
unfoldable pub empty_node : List Fr → ℕ → Fr
empty_node empty_nodes level = elim (get_elem? empty_nodes level) [ some e ↦ e | none ↦ 0 ]

-- `MockStoreInner::get_node`
unfoldable pub get_node : Nodes → List Fr → ℕ → ℕ → Fr
unfolding empty_node
get_node nodes empty_nodes level index = elim (nodes level index) [
  | some value ↦ value
  | none ↦ empty_node empty_nodes level
]

-- The loop of `get_merkle_path`, with `count` levels to go: the siblings and the path's sides.
module _ (nodes : Nodes) (empty_nodes : List Fr) where
  unfoldable pub siblings : (count level index : ℕ) → List Fr
  unfolding get_node
  siblings zero level index = []
  siblings (suc count) level index =
      let sibling = if index % 2 == 1 then index - 1 else index + 1 in
      get_node nodes empty_nodes level sibling ∷ siblings count (level + 1) (index / 2)

unfoldable pub path_indices : (count index : ℕ) → List Bool
path_indices zero index = []
path_indices (suc count) index = (index % 2 == 1) ∷ path_indices count (index / 2)

module _ (crypto : Crypto) where
  -- `empty_nodes` of `new`, from the level whose node is `node` up
  unfoldable pub empty_levels : (depth : ℕ) (node : Fr) → List Fr
  empty_levels zero node = node ∷ []
  empty_levels (suc depth) node = node ∷ empty_levels depth (merkle_hash crypto node node)

  -- The loop of `insert_internal`, with `count` levels to go
  unfoldable pub update_path : (empty_nodes : List Fr) (count level index : ℕ) → Nodes → Nodes
  unfolding get_node put_node
  update_path empty_nodes zero level index nodes = nodes
  update_path empty_nodes (suc count) level index nodes =
      let parent = index / 2 in
      let left = get_node nodes empty_nodes level (parent * 2) in
      let right = get_node nodes empty_nodes level (parent * 2 + 1) in
      update_path empty_nodes count (level + 1) parent
        (put_node nodes (level + 1) parent (merkle_hash crypto left right))

  -- The loop of `verify_local`
  unfoldable pub fold_path : Fr → List Fr → List Bool → Fr
  fold_path current [] sides = current
  fold_path current (sibling ∷ rest) [] = current
  fold_path current (sibling ∷ rest) (is_right ∷ sides) =
      let next =
        if is_right
        then merkle_hash crypto sibling current
        else merkle_hash crypto current sibling in
      fold_path next rest sides
