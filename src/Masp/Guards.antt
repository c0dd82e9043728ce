-- ===== src/Masp/Guards.antt =====
-- Initialize, UpdateRoot and the paused flag: who may do what, and when.
use mathlib.Core.Path.{subst}
use solana_masp.Prelude.{
  ℕ, ◌≡◌, ◌≢◌, sym, ap, ◌∙◌, refl, true, false, List, ◌∷◌, Bytes, set, arith, bytes_eq→eq, length,
  length-replicate, ==_iff,
}
use solana_masp.Runtime.{
  ok, with_ok, ok-injective, require-eq-ok, AccountInfo, Ledger, Pubkey, serialize, or_else-ok,
  next_account_info-ok,
}
use solana_masp.Masp.State.{TreeState, update_root, tree_state_size}
use solana_masp.Masp.Stores.{is_empty}
use solana_masp.Masp.Build.{Build, UpdateRootData}
use solana_masp.Masp.Build.Laws.{RuntimeLaws}
use solana_masp.Masp.Instructions.{
  load_unpaused, tree_state_pda, process_initialize, process_update_root, process_shield,
  process_transfer, process_unshield,
}
use solana_masp.Masp.Growth.{length-is_empty, serialize-length}
use solana_masp.Masp.Transfer.{IsRewritten, tree-IsRewritten, other_bytes}
use solana_masp.Masp.Spent.{submit_all-Grows}
use solana_masp.Masp.Transactions.{Tx, submit_all}
use solana_masp.Masp.Runs.Checks.{load_unpaused-ok}
use solana_masp.Masp.Runs.Transfer.{process_transfer-run}
use solana_masp.Masp.Runs.Unshield.{process_unshield-run}
use solana_masp.Masp.Runs.Shield.{process_shield-run}

-- A root that is set leaves the state as it was, but for the ring, which takes the old root.
update_root-ok :
    (s : TreeState) (r : Bytes) {s' : TreeState}
    → update_root s r ≡ ok s'
    → (s'.current_root ≡ r)
      × (s'.leaf_count ≡ s.leaf_count)
      × (s'.authority ≡ s.authority)
      × (s'.anchor_history ≡ set s.anchor_history s.anchor_history_index s.current_root)
unfolding update_root
update_root-ok s r h = ground arith

-- What an UpdateRoot with these accounts and data has checked and done.
pub record UpdateRootEffect (build : Build) (program_id : Pubkey) (accounts : List AccountInfo)
    (ix_data : Bytes) (l l' : Ledger) : Type 0 where
  pub authority : AccountInfo
  pub tree_state_account : AccountInfo
  pub rest : List AccountInfo
  pub given : accounts ≡ authority ∷ tree_state_account ∷ rest
  pub signed : authority.is_signer ≡ true
  pub at_tree : tree_state_account.key ≡ (tree_state_pda build program_id).0
  pub payload : UpdateRootData
  pub parsed : build.update_root_codec.try_from_slice ix_data ≡ ok payload
  pub state : TreeState
  pub stored :
      build.tree_codec.try_from_slice (l (tree_state_pda build program_id).0).bytes ≡ ok state
  pub authorized : authority.key ≡ state.authority
  pub expected : payload.expected_leaf_count ≡ state.leaf_count
  pub updated : TreeState
  pub moved : updated.current_root ≡ payload.new_root
  pub same_leaves : updated.leaf_count ≡ state.leaf_count
  pub same_authority : updated.authority ≡ state.authority
  pub remembered :
      updated.anchor_history
      ≡ set state.anchor_history state.anchor_history_index state.current_root
  pub rewritten : IsRewritten build.tree_codec (tree_state_pda build program_id).0 updated l l'
  pub others : (j : Pubkey) → (tree_state_pda build program_id).0 ≢ j → (l' j).bytes ≡ (l j).bytes

module _ (build : Build) (program_id : Pubkey) where
  -- An UpdateRoot that succeeds was signed by its first account, which is the authority that the
  -- stored tree state names; it expected the leaf count of that state, and wrote the state with the
  -- new root, the old root in its ring and the same leaves and authority; no other data changed.
  pub process_update_root_effect :
      (accounts : List AccountInfo) (ix_data : Bytes) (l : Ledger) {l' : Ledger}
      → process_update_root build program_id accounts ix_data l ≡ ok l'
      → UpdateRootEffect build program_id accounts ix_data l l'
  unfolding process_update_root
  process_update_root_effect accounts ix_data l {l'} h = with_ok _ _ h λ n₁ a₁ h₁.
      with_ok _ _ h₁ λ n₂ a₂ h₂. with_ok _ _ h₂ λ payload parsed h₃. with_ok _ _ h₃ λ _ signed h₄.
        with_ok _ _ h₄ λ _ at_pda h₅. with_ok _ _ h₅ λ state stored h₆.
          with_ok _ _ h₆ λ _ by_authority h₇. with_ok _ _ h₇ λ _ expected h₈.
            with_ok _ _ h₈ λ updated moved written.
              let pda = (tree_state_pda build program_id).0 in
              let e : n₂.0.key ≡ pda = bytes_eq→eq _ _ (require-eq-ok _ _ at_pda) in
              let (root, leaves, owner, ring) = update_root-ok state payload.new_root moved in
              let wrote : serialize pda (build.tree_codec.to_vec updated) l ≡ ok l' =
                subst (λ k. serialize k (build.tree_codec.to_vec updated) l ≡ ok l') e written in
              record {
                authority = n₁.0;
                tree_state_account = n₂.0;
                rest = n₂.1;
                given =
                    next_account_info-ok accounts a₁
                    ∙ ap (λ t. n₁.0 ∷ t) (next_account_info-ok n₁.1 a₂);
                signed = require-eq-ok _ _ signed;
                at_tree = e;
                payload = payload;
                parsed = or_else-ok _ _ parsed;
                state = state;
                stored =
                    subst (λ k. build.tree_codec.try_from_slice (l k).bytes ≡ ok state) e
                      (or_else-ok _ _ stored);
                authorized = bytes_eq→eq _ _ (require-eq-ok _ _ by_authority);
                expected = (==_iff _ _).0 (require-eq-ok _ _ expected);
                updated = updated;
                moved = root;
                same_leaves = leaves;
                same_authority = owner;
                remembered = ring;
                rewritten = tree-IsRewritten build.tree_codec pda updated l l refl wrote;
                others = λ j apart. other_bytes pda j _ l wrote apart;
              }

  runs_unpaused :
      (s : TreeState) (account : AccountInfo) (l : Ledger) {found : TreeState}
      → build.tree_codec.try_from_slice (l (tree_state_pda build program_id).0).bytes ≡ ok s
      → s.paused ≡ true
      → load_unpaused build program_id account l ≡ ok found
      → ⊥
  runs_unpaused s account l {found} stored paused loaded =
      let (at_pda, read, running) = load_unpaused-ok build program_id account l loaded in
      let same : s ≡ found = ok-injective (sym (rw (← at_pda) at stored) ∙ read) in
      cc (rw (← same) at running, paused)

  -- While the tree state at its address is paused, no Shield, Transfer or Unshield succeeds.
  pub paused_rejects :
      (s : TreeState) (accounts : List AccountInfo) (ix_data : Bytes) (l l' : Ledger)
      → build.tree_codec.try_from_slice (l (tree_state_pda build program_id).0).bytes ≡ ok s
      → s.paused ≡ true
      → (process_shield build program_id accounts ix_data l ≢ ok l')
        × (process_transfer build program_id accounts ix_data l ≢ ok l')
        × (process_unshield build program_id accounts ix_data l ≢ ok l')
  paused_rejects s accounts ix_data l l' stored paused = (
    λ h.
        runs_unpaused s _ l stored paused
          (process_shield-run build program_id accounts ix_data l h).loaded,
    λ h.
        runs_unpaused s _ l stored paused
          (process_transfer-run build program_id accounts ix_data l h).loaded,
    λ h.
        runs_unpaused s _ l stored paused
          (process_unshield-run build program_id accounts ix_data l h).loaded,
  )

  -- Initialize wants an empty account at the tree state's address, and leaves data there.
  initialize-fills :
      (laws : RuntimeLaws build) (accounts : List AccountInfo) (ix_data : Bytes) (l : Ledger)
      {l' : Ledger}
      → process_initialize build program_id accounts ix_data l ≡ ok l'
      → (is_empty (l (tree_state_pda build program_id).0).bytes ≡ true)
        × (is_empty (l' (tree_state_pda build program_id).0).bytes ≡ false)
  unfolding process_initialize
  initialize-fills laws accounts ix_data l {l'} h = with_ok _ _ h λ n₁ _ h₁.
      with_ok _ _ h₁ λ n₂ _ h₂. with_ok _ _ h₂ λ n₃ _ h₃. with_ok _ _ h₃ λ _ _ h₄.
        with_ok _ _ h₄ λ _ at_pda h₅. with_ok _ _ h₅ λ _ empty h₆. with_ok _ _ h₆ λ lamports _ h₇.
          with_ok _ _ h₇ λ created made written.
            let e : n₂.0.key ≡ (tree_state_pda build program_id).0 =
              bytes_eq→eq _ _ (require-eq-ok _ _ at_pda) in
            let (_, zeros, _) =
              laws.creates.created _ _ lamports tree_state_size _ _ _ l created made in
            let size = serialize-length n₂.0.key _ created written ∙ ap length zeros in
            let filled : is_empty (l' n₂.0.key).bytes ≡ false =
              length-is_empty (l' n₂.0.key).bytes 650 (size ∙ length-replicate {A = ℕ} 651 0) in
            (
              subst (λ k. is_empty (l k).bytes ≡ true) e (require-eq-ok _ _ empty),
              subst (λ k. is_empty (l' k).bytes ≡ false) e filled,
            )

  -- Under the laws of the runtime, after an Initialize that succeeded, and whatever transactions follow it, no other succeeds.
  pub initialize_once :
      (laws : RuntimeLaws build) (accounts accounts' : List AccountInfo) (ix_data ix_data' : Bytes)
      (txs : List Tx) (l : Ledger) {l' : Ledger} (l'' : Ledger)
      → process_initialize build program_id accounts ix_data l ≡ ok l'
      → process_initialize build program_id accounts' ix_data' (submit_all build program_id txs l')
        ≢ ok l''
  initialize_once laws accounts accounts' ix_data ix_data' txs l {l'} l'' first second =
      let (_, filled) = initialize-fills laws accounts ix_data l first in
      let later = submit_all build program_id txs l' in
      let (empty, _) = initialize-fills laws accounts' ix_data' later second in
      let still = (submit_all-Grows build laws program_id txs l').keeps _ filled in
      cc (still, empty)
