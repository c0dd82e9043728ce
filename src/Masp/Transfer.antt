-- ===== src/Masp/Transfer.antt =====
-- What a successful Transfer has checked, and what it did to the ledger.
use mathlib.Core.Path.{subst}
use solana_masp.Prelude.{
  ◌+◌, ◌^◌, ◌<◌, ◌≤◌, ◌≡◌, ◌≢◌, sym, ap, ap₂, ◌∙◌, true, false, List, [], ◌∷◌, ◌++◌, Bytes, length,
  drop,
}
use solana_masp.Runtime.{ok, Account, AccountInfo, Ledger, Pubkey, serialize, set_data_self, Borsh}
use solana_masp.Masp.State.{TreeState}
use solana_masp.Masp.Inputs.{TransferInputs}
use solana_masp.Masp.Stores.{is_empty}
use solana_masp.Masp.Build.{Build}
use solana_masp.Masp.Build.Laws.{RuntimeLaws, ReadsTreeState}
use solana_masp.Masp.Instructions.{process_transfer}
use solana_masp.Masp.Growth.{
  Grows, Grows-trans, is_empty-nil, serialize-ok, serialize-other, serialize-Grows,
}
use solana_masp.Masp.Nullifiers.{
  All, AreDistinct, AllMarked, enabled, nullifier_pda, mark_nullifiers-AllMarked,
}
use solana_masp.Masp.Outputs.{add_leaves, insert_outputs-ok}
use solana_masp.Masp.Runs.Checks.{load_unpaused-ok, verify_step-ledger}
use solana_masp.Masp.Runs.Transfer.{TransferRun, process_transfer-run}

-- The account of a tree state is rewritten with the encoding of another state.
abbrev pub IsRewritten : Borsh TreeState → Pubkey → TreeState → Ledger → Ledger → Type 0
IsRewritten codec k s l l' =
    (l' k).bytes ≡ codec.to_vec s ++ drop (length (codec.to_vec s)) (l k).bytes

-- What Transfer does, given the inputs that it read and the tree state that it found.
module _ (build : Build) (program_id : Pubkey) (tree : Pubkey) (state : TreeState) where
  pub record TransferEffect (inputs : TransferInputs) (l l' : Ledger) : Type 0 where
    pub input_count : inputs.input_count ≤ length inputs.nullifiers
    pub output_count : inputs.output_count ≤ length inputs.output_commitments
    -- every enabled nullifier was unspent and is spent now, each in an account of its own
    pub fresh :
        All
          (λ n. is_empty (l (nullifier_pda build program_id n)).bytes ≡ true)
          (enabled inputs.input_count inputs.nullifiers)
    pub spent :
        All
          (λ n. is_empty (l' (nullifier_pda build program_id n)).bytes ≡ false)
          (enabled inputs.input_count inputs.nullifiers)
    pub distinct :
        AreDistinct (nullifier_pda build program_id) (enabled inputs.input_count inputs.nullifiers)
    -- the tree state gains one leaf for each enabled output, and nothing else of it changes
    pub room :
        state.leaf_count + length (enabled inputs.output_count inputs.output_commitments) < 2 ^ 64
    pub rewritten :
        IsRewritten build.tree_codec tree
          (add_leaves state (length (enabled inputs.output_count inputs.output_commitments)))
          l
          l'
    -- no account that has data loses it, and no other account's data changes
    pub grows : Grows l l'
    pub others :
        (j : Pubkey)
        → tree ≢ j
        → All
            (λ n. nullifier_pda build program_id n ≢ j)
            (enabled inputs.input_count inputs.nullifiers)
        → (l' j).bytes ≡ (l j).bytes

-- An account in which a tree state was read is not one that was empty.
tree_apart :
    (codec : Borsh TreeState) (laws : ReadsTreeState codec) (pda : Bytes → Pubkey) (tree : Pubkey)
    (s : TreeState) (l : Ledger) (ns : List Bytes)
    → codec.try_from_slice (l tree).bytes ≡ ok s
    → All (λ n. is_empty (l (pda n)).bytes ≡ true) ns
    → All (λ n. pda n ≢ tree) ns
tree_apart codec laws pda tree s l [] read fresh = tt
tree_apart codec laws pda tree s l (n ∷ ns) read fresh = (
  λ e.
      let empty : (l tree).bytes ≡ [] = is_empty-nil (l tree).bytes (rw e at fresh.0) in
      laws.not_from_empty s (rw empty at read),
  tree_apart codec laws pda tree s l ns read fresh.1,
)

still_spent :
    (pda : Bytes → Pubkey) (ns : List Bytes) {l l' : Ledger}
    → Grows l l'
    → All (λ n. is_empty (l (pda n)).bytes ≡ false) ns
    → All (λ n. is_empty (l' (pda n)).bytes ≡ false) ns
still_spent pda [] g h = tt
still_spent pda (n ∷ ns) g h = (g.keeps (pda n) h.0, still_spent pda ns g h.1)

-- The write of the tree state at the end of a handler.
pub tree-IsRewritten :
    (codec : Borsh TreeState) (tree : Pubkey) (s : TreeState) (l m : Ledger) {l' : Ledger}
    → (m tree).bytes ≡ (l tree).bytes
    → serialize tree (codec.to_vec s) m ≡ ok l'
    → IsRewritten codec tree s l l'
tree-IsRewritten codec tree s l m same written =
    let (_, e) = serialize-ok tree (codec.to_vec s) m written in
    ap (λ (t : Ledger). (t tree).bytes) (sym e)
    ∙ set_data_self tree _ m
    ∙ ap (λ b. codec.to_vec s ++ drop (length (codec.to_vec s)) b) same

pub other_bytes :
    (tree j : Pubkey) (encoded : Bytes) (m : Ledger) {l' : Ledger}
    → serialize tree encoded m ≡ ok l'
    → tree ≢ j
    → (l' j).bytes ≡ (m j).bytes
other_bytes tree j encoded m written apart =
    ap (λ (a : Account). a.bytes) (serialize-other tree j encoded m written apart)

-- The last two loops of Transfer and the write of the tree state.
pub transfer_tail :
    (build : Build) (laws : RuntimeLaws build) (program_id : Pubkey) (accounts : List AccountInfo)
    (ix_data : Bytes) (l l' : Ledger) (run : TransferRun build program_id accounts ix_data l l')
    → TransferEffect build program_id run.tree_state_account.key run.state run.inputs l l'
transfer_tail build laws program_id accounts ix_data l l' run =
    let tree = run.tree_state_account.key in
    let pda = nullifier_pda build program_id in
    let ns = enabled run.inputs.input_count run.inputs.nullifiers in
    let leaves = length (enabled run.inputs.output_count run.inputs.output_commitments) in
    let s = add_leaves run.state leaves in
    let (_, read, _) = load_unpaused-ok build program_id run.tree_state_account l run.loaded in
    let kept = verify_step-ledger build laws.readonly _ _ _ _ _ _ l run.verified in
    let (in_range, marks₁) =
      mark_nullifiers-AllMarked build laws.creates _ _ _ _ program_id _ _ run.marks in
    let marks : AllMarked pda ns l run.marked =
      subst (λ t. AllMarked pda ns t run.marked) (sym kept) marks₁ in
    let (out_range, same, count, room) =
      insert_outputs-ok _ _ run.authority run.state run.marked
        (laws.tree_codec.leaf_count _ run.state read) run.counts in
    let written : serialize tree (build.tree_codec.to_vec s) run.marked ≡ ok l' =
      ap₂ (λ t m. serialize tree (build.tree_codec.to_vec t) m) count same ∙ run.written in
    let apart =
      tree_apart build.tree_codec laws.tree_codec pda tree run.state l ns read marks.fresh in
    record {
      input_count = in_range;
      output_count = out_range;
      fresh = marks.fresh;
      spent = still_spent pda ns (serialize-Grows tree _ run.marked written) marks.spent;
      distinct = marks.distinct;
      room = room;
      grows = Grows-trans marks.grows (serialize-Grows tree _ run.marked written);
      rewritten =
          tree-IsRewritten build.tree_codec tree s l run.marked (marks.others tree apart) written;
      others = λ j ne nes. other_bytes tree j _ run.marked written ne ∙ marks.others j nes;
    }

-- Under the laws of the runtime, a Transfer that succeeds has passed every check, its nullifiers were unspent and are spent, the
-- tree state has one leaf more for each enabled output, and the data of no other account changes.
pub process_transfer_effect :
    (build : Build) (laws : RuntimeLaws build) (program_id : Pubkey) (accounts : List AccountInfo)
    (ix_data : Bytes) (l : Ledger) {l' : Ledger}
    → process_transfer build program_id accounts ix_data l ≡ ok l'
    → (run : TransferRun build program_id accounts ix_data l l') × TransferEffect build program_id
        run.tree_state_account.key run.state run.inputs l l'
process_transfer_effect build laws program_id accounts ix_data l {l'} h =
    let run = process_transfer-run build program_id accounts ix_data l h in
    (run, transfer_tail build laws program_id accounts ix_data l l' run)
