-- ===== src/Client/Store/Witnesses.antt =====
-- Every commitment in the store has a path to the root, which is that of the reference tree.
use native.Mathlib.Numerals.{unary_clauses}
use native.Mathlib.Decide.{ℕ_discrete}
use mathlib.Core.Path.{subst}
use mathlib.Core.List.{append_assoc, append-nil}
use solana_masp.Prelude.{
  ℕ, zero, suc, ◌*◌, ◌/◌, ◌^◌, ◌<◌, ◌≤◌, ◌≡◌, ◌⊎◌, inl, inr, refl, sym, ap, ◌∙◌, true, List, [],
  ◌∷◌, ◌++◌, Bytes, length, arith, ==_iff, Option-cases,
}
use solana_masp.Client.Outcome.{done}
use solana_masp.Client.Hash.{Fr, Crypto}
use solana_masp.Client.MerkleTree.{get_node, fold_path, siblings, path_indices}
use solana_masp.Client.MerkleTree.Reference.{leaf_at, ancestor, subtree, subtree_other}
use solana_masp.Client.MerkleTree.Update.{IsTree}
use solana_masp.Client.MerkleTree.Paths.{fold_path-siblings_root}
use solana_masp.Client.Requests.{MembershipWitness, merkle_path, verify_local, witness_root}
use solana_masp.Client.Store.{
  MockStore, put, contains, exists, current_root, get_witness, new_store, insert_internal,
}
use solana_masp.Client.Store.Insertion.{
  IsStore, new_store-IsStore, insert_internal-IsStore, leaf_at-append_other,
}

ancestor_zero : (count index : ℕ) → ancestor count index ≡ 0 → index < 2 ^ count
unfolding ancestor
ancestor_zero zero index h = omega arith
ancestor_zero (suc count) index h =
    simp unary_clauses (double (2 ^ count) (ancestor_zero count (index / 2) h))
  where
    double : (k : ℕ) → index / 2 < k → index < k * 2
    double k h = omega arith

module _ (crypto : Crypto) where
  unfoldable pub insert_all : MockStore → List Fr → (tx_sig : Bytes) → MockStore
  insert_all s [] tx_sig = s
  insert_all s (c ∷ cs) tx_sig = insert_all (insert_internal crypto s c tx_sig).0 cs tx_sig

  module _ (s : MockStore) (leaves : List Fr) (h : IsStore crypto s leaves) where
    -- The root is that of the tree of all leaves.
    pub current_root-subtree : current_root s ≡ subtree crypto (leaf_at leaves) s.depth 0
    unfolding current_root IsTree
    current_root-subtree = h.tree s.depth 0 (omega arith)

    -- A known commitment has a witness, which verifies against the current root.
    pub get_witness-verify_local :
        (c : Fr)
        → length leaves ≤ 2 ^ s.depth
        → exists s c ≡ true
        → (w : MembershipWitness) × (get_witness s c ≡ done w)
          × (verify_local crypto w c ≡ true)
          × (witness_root w ≡ current_root s)
    unfolding get_witness exists verify_local witness_root current_root
    get_witness-verify_local c room known = elim (Option-cases (s.commitments c)) [
      | inl e ↦ absurd (ground arith)
      | inr (k, e) ↦
          let (within, leaf) = h.indexed c k e in
          let folded =
            fold_path-siblings_root crypto s.nodes s.empty_nodes s.depth (leaf_at leaves) h.tree k
              (omega arith) in
          let w : MembershipWitness =
            merkle_path (siblings s.nodes s.empty_nodes s.depth 0 k) (path_indices s.depth k)
              (get_node s.nodes s.empty_nodes s.depth 0) in
          let fold : Fr → Fr = λ n.
            fold_path crypto n (siblings s.nodes s.empty_nodes s.depth 0 k)
              (path_indices s.depth k) in
          (w, rw (get_witness, e) refl, (==_iff _ _).1 (ap fold (sym leaf) ∙ folded), refl)
    ]

    -- An insertion into a store whose tree is in order and full leaves the root as it is.
    pub current_root_full :
        (c : Fr) (tx_sig : Bytes)
        → 2 ^ s.depth ≤ length leaves
        → current_root (insert_internal crypto s c tx_sig).0 ≡ current_root s
    unfolding current_root insert_internal IsTree
    current_root_full c tx_sig full =
        let after : IsStore crypto (insert_internal crypto s c tx_sig).0 (leaves ++ (c ∷ [])) =
          insert_internal-IsStore crypto s leaves c h tx_sig in
        after.tree s.depth 0 (omega arith)
        ∙ sym (
            subtree_other crypto (leaf_at leaves) (leaf_at (leaves ++ (c ∷ []))) (length leaves)
              (leaf_at-append_other leaves c) s.depth 0
              (λ e.
                let small = ancestor_zero s.depth (length leaves) (sym e) in absurd (omega arith)))
        ∙ sym (h.tree s.depth 0 (omega arith))

  depth-insert_all :
      (cs : List Fr) (s : MockStore) (tx_sig : Bytes) → (insert_all s cs tx_sig).depth ≡ s.depth
  unfolding insert_all insert_internal
  depth-insert_all [] s tx_sig = refl
  depth-insert_all (c ∷ cs) s tx_sig =
      depth-insert_all cs (insert_internal crypto s c tx_sig).0 tx_sig

  pub insert_all-IsStore :
      (cs : List Fr) (s : MockStore) (leaves : List Fr) (tx_sig : Bytes)
      → IsStore crypto s leaves
      → IsStore crypto (insert_all s cs tx_sig) (leaves ++ cs)
  unfolding insert_all
  insert_all-IsStore [] s leaves tx_sig h = subst (IsStore crypto s) (sym (append-nil leaves)) h
  insert_all-IsStore (c ∷ cs) s leaves tx_sig h =
      subst (IsStore crypto (insert_all (insert_internal crypto s c tx_sig).0 cs tx_sig))
        (append_assoc leaves (c ∷ []) cs)
        (insert_all-IsStore cs (insert_internal crypto s c tx_sig).0 (leaves ++ (c ∷ [])) tx_sig
          (insert_internal-IsStore crypto s leaves c h tx_sig))

  exists-insert_internal :
      (s : MockStore) (c d : Fr) (tx_sig : Bytes)
      → exists s c ≡ true
      → exists (insert_internal crypto s d tx_sig).0 c ≡ true
  unfolding exists insert_internal put
  exists-insert_internal s c d tx_sig h = ground arith

  exists-inserted :
      (s : MockStore) (c : Fr) (tx_sig : Bytes)
      → exists (insert_internal crypto s c tx_sig).0 c ≡ true
  unfolding exists insert_internal put
  exists-inserted s c tx_sig = ground arith

  exists-insert_all :
      (cs : List Fr) (s : MockStore) (c : Fr) (tx_sig : Bytes)
      → (exists s c ≡ true) ⊎ (contains cs c ≡ true)
      → exists (insert_all s cs tx_sig) c ≡ true
  unfolding insert_all contains
  exists-insert_all [] s c tx_sig (inl h) = h
  exists-insert_all [] s c tx_sig (inr h) = absurd (ground arith)
  exists-insert_all (d ∷ cs) s c tx_sig (inl h) =
      exists-insert_all cs (insert_internal crypto s d tx_sig).0 c tx_sig
        (inl (exists-insert_internal s c d tx_sig h))
  exists-insert_all (d ∷ cs) s c tx_sig (inr h) = elim (ℕ_discrete d c) [
    | yes e ↦ exists-insert_all cs (insert_internal crypto s d tx_sig).0 c tx_sig (
        inl (
          ap (λ x. exists (insert_internal crypto s d tx_sig).0 x) (sym e)
          ∙ exists-inserted s d tx_sig))
    | no ne ↦
        exists-insert_all cs (insert_internal crypto s d tx_sig).0 c tx_sig (inr (ground arith))
  ]

  module _ (depth : ℕ) (cs : List Fr) (tx_sig : Bytes) where
    -- After any insertions into a new store the root is the Merkle root of the inserted
    -- commitments.
    pub current_root-insert_all :
        current_root (insert_all (new_store crypto depth) cs tx_sig)
        ≡ subtree crypto (leaf_at cs) depth 0
    unfolding new_store
    current_root-insert_all =
        current_root-subtree (insert_all (new_store crypto depth) cs tx_sig) cs (
          insert_all-IsStore cs (new_store crypto depth) [] tx_sig (new_store-IsStore crypto depth))
        ∙ ap (λ n. subtree crypto (leaf_at cs) n 0)
            (depth-insert_all cs (new_store crypto depth) tx_sig)

    -- A commitment among those inserted into a new store, no more than its tree has leaves, has
    -- a witness whose root is the Merkle root of the insertions and which verifies.
    pub get_witness-insert_all :
        (c : Fr)
        → length cs ≤ 2 ^ depth
        → contains cs c ≡ true
        → (w : MembershipWitness) × (get_witness (insert_all (new_store crypto depth) cs tx_sig) c
            ≡ done w)
          × (verify_local crypto w c ≡ true)
          × (witness_root w ≡ subtree crypto (leaf_at cs) depth 0)
    unfolding new_store
    get_witness-insert_all c room among =
        let s = insert_all (new_store crypto depth) cs tx_sig in
        let sized : s.depth ≡ depth = depth-insert_all cs (new_store crypto depth) tx_sig in
        let (w, found, member, anchored) =
          get_witness-verify_local s cs
            (insert_all-IsStore cs (new_store crypto depth) [] tx_sig
              (new_store-IsStore crypto depth))
            c (subst (λ n. length cs ≤ 2 ^ n) (sym sized) room)
            (exists-insert_all cs (new_store crypto depth) c tx_sig (inr among)) in
        (w, found, member, anchored ∙ current_root-insert_all)
