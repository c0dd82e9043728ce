-- ===== src/Client/Chain/Ledger.antt =====
-- The tree after a run of the chain holds the accepted commitments.
use mathlib.Core.Path.{subst}
use mathlib.Core.List.{append_assoc, append-nil}
use solana_masp.Prelude.{ℕ, ◌≡◌, sym, inl, inr, List, [], ◌∷◌, ◌++◌, Bool-cases, if◌then◌else◌}
use solana_masp.Client.Hash.{Fr, Crypto}
use solana_masp.Client.MerkleTree.Reference.{leaf_at, subtree}
use solana_masp.Client.Store.{current_root, new_store}
use solana_masp.Client.Store.Insertion.{IsStore, new_store-IsStore}
use solana_masp.Client.Store.Witnesses.{current_root-subtree}
use solana_masp.Client.Chain.{MockChain, ProofVerifier, ProofVerificationMode, new_chain}
use solana_masp.Client.Chain.DoubleSpend.{Action, run_action, run_actions}
use solana_masp.Client.Chain.Effects.{new_leaves, Counted, run_action-IsStore}

module _ (crypto : Crypto) where
  -- The leaves that a run adds, from the actions that the chain accepted
  unfoldable pub accepted_leaves : List Action → MockChain → List Fr
  accepted_leaves [] c = []
  accepted_leaves (a ∷ actions) c =
      let ran = run_action crypto a c in
      (if ran.1 then new_leaves a else []) ++ accepted_leaves actions ran.0

  abbrev pub AllCounted : List Action → Type 0
  AllCounted [] = Unit {0}
  AllCounted (a ∷ actions) = Counted a × AllCounted actions

  run_actions-IsStore :
      (actions : List Action) (c : MockChain) (leaves : List Fr)
      → AllCounted actions
      → IsStore crypto c.note_store leaves
      → IsStore crypto
          (run_actions crypto actions c).note_store
          (leaves ++ accepted_leaves actions c)
  unfolding run_actions accepted_leaves
  run_actions-IsStore [] c leaves counted h =
      subst (IsStore crypto c.note_store) (sym (append-nil leaves)) h
  run_actions-IsStore (a ∷ actions) c leaves counted h =
      let ran = run_action crypto a c in
      let stepped = run_action-IsStore crypto a c leaves counted.0 h in
      elim (Bool-cases ran.1) [
        | inl e ↦
            let grown : IsStore crypto ran.0.note_store (leaves ++ new_leaves a) =
              rw (e) at stepped in
            rw (e) (
              subst (IsStore crypto _)
                (append_assoc leaves (new_leaves a) (accepted_leaves actions ran.0))
                (run_actions-IsStore actions ran.0 (leaves ++ new_leaves a) counted.1 grown))
        | inr e ↦
            let same : IsStore crypto ran.0.note_store leaves = rw (e) at stepped in
            rw (e) (run_actions-IsStore actions ran.0 leaves counted.1 same)
      ]

  -- After any actions on a new chain whose transfers count no more outputs than they have, the
  -- root is the Merkle root of the commitments of the accepted actions, in their order.
  pub current_root-run_actions :
      (actions : List Action) (depth max_anchors : ℕ) (v : ProofVerifier)
      (mode : ProofVerificationMode)
      → AllCounted actions
      → let c = new_chain (new_store crypto depth) max_anchors v mode in
        let after = (run_actions crypto actions c).note_store in
        current_root after ≡ subtree crypto (leaf_at (accepted_leaves actions c)) after.depth 0
  unfolding new_chain
  current_root-run_actions actions depth max_anchors v mode counted =
      let c = new_chain (new_store crypto depth) max_anchors v mode in
      current_root-subtree crypto (run_actions crypto actions c).note_store
        (accepted_leaves actions c)
        (run_actions-IsStore actions c [] counted (new_store-IsStore crypto depth))
