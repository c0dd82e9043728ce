-- ===== src/Masp/Unshield.antt =====
-- What a successful Unshield has checked, and what it did to the ledger.
use mathlib.Core.Path.{subst}
use solana_masp.Prelude.{◌≡◌, sym, List, Bytes}
use solana_masp.Runtime.{ok, AccountInfo, Ledger, Pubkey}
use solana_masp.Masp.Build.{Build}
use solana_masp.Masp.Build.Laws.{RuntimeLaws}
use solana_masp.Masp.Instructions.{process_unshield}
use solana_masp.Masp.Nullifiers.{Marked, nullifier_pda, insert_nullifier-Marked}
use solana_masp.Masp.Runs.Checks.{verify_step-ledger}
use solana_masp.Masp.Runs.Unshield.{UnshieldRun, process_unshield-run}

pub UnshieldRun-Marked :
    (build : Build) (laws : RuntimeLaws build) (program_id : Pubkey) (accounts : List AccountInfo)
    (ix_data : Bytes) (l l' : Ledger) (run : UnshieldRun build program_id accounts ix_data l l')
    → (run.nullifier_account.key ≡ nullifier_pda build program_id run.inputs.nullifier)
      × Marked l l' (nullifier_pda build program_id run.inputs.nullifier)
UnshieldRun-Marked build laws program_id accounts ix_data l l' run =
    let kept = verify_step-ledger build laws.readonly _ _ _ _ _ _ l run.verified in
    let (at_pda, marks) =
      insert_nullifier-Marked build.host build.nullifier_codec laws.creates _ _ _ _ program_id _
        run.marks in
    let marks₁ : Marked l l' run.nullifier_account.key =
      subst (λ t. Marked t l' run.nullifier_account.key) (sym kept) marks in
    (at_pda, subst (Marked l l') at_pda marks₁)

-- Under the laws of the runtime, an Unshield that succeeds has passed every check; its nullifier was unspent and is spent, in the
-- account derived from it, and the data of no other account changes, the tree state's included.
pub process_unshield_effect :
    (build : Build) (laws : RuntimeLaws build) (program_id : Pubkey) (accounts : List AccountInfo)
    (ix_data : Bytes) (l : Ledger) {l' : Ledger}
    → process_unshield build program_id accounts ix_data l ≡ ok l'
    → (run : UnshieldRun build program_id accounts ix_data l l') × (run.nullifier_account.key
        ≡ nullifier_pda build program_id run.inputs.nullifier)
      × Marked l l' (nullifier_pda build program_id run.inputs.nullifier)
process_unshield_effect build laws program_id accounts ix_data l {l'} h =
    let run = process_unshield-run build program_id accounts ix_data l h in
    let (at_pda, marks) = UnshieldRun-Marked build laws program_id accounts ix_data l l' run in
    (run, at_pda, marks)
