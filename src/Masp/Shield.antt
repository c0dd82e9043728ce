-- ===== src/Masp/Shield.antt =====
-- What a successful Shield has checked, and what it did to the ledger.
use solana_masp.Prelude.{◌+◌, ◌^◌, ◌<◌, ◌≡◌, ◌≢◌, refl, sym, ap₂, ◌∙◌, List, Bytes}
use solana_masp.Runtime.{ok, ok-injective, AccountInfo, Ledger, Pubkey, serialize}
use solana_masp.Masp.State.{TreeState}
use solana_masp.Masp.Stores.{insert_commitment}
use solana_masp.Masp.Build.{Build}
use solana_masp.Masp.Build.Laws.{RuntimeLaws}
use solana_masp.Masp.Instructions.{process_shield}
use solana_masp.Masp.Growth.{Grows, serialize-Grows}
use solana_masp.Masp.Outputs.{add_leaves, count_leaf-ok}
use solana_masp.Masp.Transfer.{IsRewritten, tree-IsRewritten, other_bytes}
use solana_masp.Masp.Runs.Checks.{verify_step-ledger}
use solana_masp.Masp.Runs.Shield.{ShieldRun, process_shield-run}

pub record ShieldEffect (build : Build) (tree : Pubkey) (state : TreeState) (l l' : Ledger)
    : Type 0 where
  pub room : state.leaf_count + 1 < 2 ^ 64
  pub rewritten : IsRewritten build.tree_codec tree (add_leaves state 1) l l'
  pub others : (j : Pubkey) → tree ≢ j → (l' j).bytes ≡ (l j).bytes

shield_written :
    (build : Build) (laws : RuntimeLaws build) (program_id : Pubkey) (accounts : List AccountInfo)
    (ix_data : Bytes) (l l' : Ledger) (run : ShieldRun build program_id accounts ix_data l l')
    → serialize run.tree_state_account.key (build.tree_codec.to_vec (add_leaves run.state 1)) l
      ≡ ok l'
unfolding insert_commitment
shield_written build laws program_id accounts ix_data l l' run =
    let kept = verify_step-ledger build laws.readonly _ _ _ _ _ _ l run.verified in
    let logged : l ≡ run.logged = kept ∙ ok-injective run.logs in
    let (one, _) = count_leaf-ok run.state run.counts in
    ap₂ (λ s t. serialize run.tree_state_account.key (build.tree_codec.to_vec s) t) (sym one) logged
    ∙ run.written

-- Under the laws of the runtime, a Shield that succeeds has passed every check; the tree state has one leaf more and is otherwise
-- the same, and the data of no other account changes.
pub process_shield_effect :
    (build : Build) (laws : RuntimeLaws build) (program_id : Pubkey) (accounts : List AccountInfo)
    (ix_data : Bytes) (l : Ledger) {l' : Ledger}
    → process_shield build program_id accounts ix_data l ≡ ok l'
    → (run : ShieldRun build program_id accounts ix_data l l') × ShieldEffect build
        run.tree_state_account.key run.state l l'
process_shield_effect build laws program_id accounts ix_data l {l'} h =
    let run = process_shield-run build program_id accounts ix_data l h in
    let tree = run.tree_state_account.key in
    let (_, room) = count_leaf-ok run.state run.counts in
    let written = shield_written build laws program_id accounts ix_data l l' run in
    (
      run,
      record {
        room = room;
        rewritten =
            tree-IsRewritten build.tree_codec tree (add_leaves run.state 1) l l refl written;
        others = λ j apart. other_bytes tree j _ l written apart;
      },
    )

pub process_shield-Grows :
    (build : Build) (laws : RuntimeLaws build) (program_id : Pubkey) (accounts : List AccountInfo)
    (ix_data : Bytes) (l : Ledger) {l' : Ledger}
    → process_shield build program_id accounts ix_data l ≡ ok l'
    → Grows l l'
process_shield-Grows build laws program_id accounts ix_data l {l'} h =
    let run = process_shield-run build program_id accounts ix_data l h in
    serialize-Grows _ _ l (shield_written build laws program_id accounts ix_data l l' run)
