-- ===== src/Masp/Transactions.antt =====
-- Transactions sent to the program, and the spends that it accepts with the nullifiers they enable.
use solana_masp.Prelude.{ap, ◌∙◌, ◌≡◌, List, [], ◌∷◌, Bytes}
use solana_masp.Runtime.{
  ◌>>=◌, not_enough_account_keys, Result, ok, err, AccountInfo, Ledger, Pubkey,
}
use solana_masp.Masp.Inputs.{TransferInputs, UnshieldInputs}
use solana_masp.Masp.Build.{Build}
use solana_masp.Masp.Instructions.{
  transfer_extract, unshield_extract, process_transfer, process_unshield,
}
use solana_masp.Masp.Entry.{process_instruction}
use solana_masp.Masp.Nullifiers.{enabled}
use solana_masp.Masp.Runs.Transfer.{TransferRun}
use solana_masp.Masp.Runs.Unshield.{UnshieldRun}

-- An instruction sent to the program.
pub record Tx : Type 0 where
  pub accounts : List AccountInfo
  pub payload : Bytes

-- The runtime keeps the ledger as it was when the program returns an error.
unfoldable pub submit : Build → Pubkey → Tx → Ledger → Ledger
submit build program_id tx l =
    elim (process_instruction build program_id tx.accounts tx.payload l) [ ok l' ↦ l' | err e ↦ l ]

unfoldable pub submit_all : Build → Pubkey → List Tx → Ledger → Ledger
submit_all build program_id [] l = l
submit_all build program_id (tx ∷ txs) l =
    submit_all build program_id txs (submit build program_id tx l)

-- The inputs that Transfer takes from its accounts and its data, and the nullifiers it enables.
unfoldable pub transfer_reads : Build → List AccountInfo → Bytes → Ledger → Result TransferInputs
transfer_reads build (_ ∷ _ ∷ proof_buffer ∷ _) ix_data l =
    build.transfer_codec.try_from_slice ix_data >>= λ payload.
    transfer_extract build.proof_system proof_buffer payload l
transfer_reads build _ ix_data l = err not_enough_account_keys

abbrev pub transfer_enabled : Result TransferInputs → List Bytes
transfer_enabled (ok inputs) = enabled inputs.input_count inputs.nullifiers
transfer_enabled (err e) = []

unfoldable pub transfer_nullifiers : Build → List AccountInfo → Bytes → Ledger → List Bytes
unfolding transfer_reads
transfer_nullifiers build accounts ix_data l =
    transfer_enabled (transfer_reads build accounts ix_data l)

-- The same for Unshield, which has one nullifier.
unfoldable pub unshield_reads : Build → List AccountInfo → Bytes → Ledger → Result UnshieldInputs
unshield_reads build (_ ∷ _ ∷ proof_buffer ∷ _) ix_data l =
    build.unshield_codec.try_from_slice ix_data >>= λ payload.
    unshield_extract build.proof_system proof_buffer payload l
unshield_reads build _ ix_data l = err not_enough_account_keys

abbrev pub unshield_enabled : Result UnshieldInputs → List Bytes
unshield_enabled (ok inputs) = inputs.nullifier ∷ []
unshield_enabled (err e) = []

unfoldable pub unshield_nullifiers : Build → List AccountInfo → Bytes → Ledger → List Bytes
unfolding unshield_reads
unshield_nullifiers build accounts ix_data l =
    unshield_enabled (unshield_reads build accounts ix_data l)

pub transfer_nullifiers-run :
    (build : Build) (program_id : Pubkey) (accounts : List AccountInfo) (ix_data : Bytes)
    (l l' : Ledger) (run : TransferRun build program_id accounts ix_data l l')
    → transfer_nullifiers build accounts ix_data l
      ≡ enabled run.inputs.input_count run.inputs.nullifiers
unfolding transfer_nullifiers transfer_reads ◌>>=◌
transfer_nullifiers-run build program_id accounts ix_data l l' run =
    ap (λ a. transfer_nullifiers build a ix_data l) run.given
    ∙ ap transfer_enabled (
        ap (λ r. r >>= λ payload. transfer_extract build.proof_system run.proof_buffer payload l)
          run.parsed
        ∙ run.extracted)

pub unshield_nullifiers-run :
    (build : Build) (program_id : Pubkey) (accounts : List AccountInfo) (ix_data : Bytes)
    (l l' : Ledger) (run : UnshieldRun build program_id accounts ix_data l l')
    → unshield_nullifiers build accounts ix_data l ≡ run.inputs.nullifier ∷ []
unfolding unshield_nullifiers unshield_reads ◌>>=◌
unshield_nullifiers-run build program_id accounts ix_data l l' run =
    ap (λ a. unshield_nullifiers build a ix_data l) run.given
    ∙ ap unshield_enabled (
        ap (λ r. r >>= λ payload. unshield_extract build.proof_system run.proof_buffer payload l)
          run.parsed
        ∙ run.extracted)

-- A spend that the program accepted, a Transfer or an Unshield, with the nullifiers it enables.
pub data AcceptedSpend (build : Build) (program_id : Pubkey) (l : Ledger)
    : Ledger → List Bytes → Type 0 where
  by_transfer :
      (accounts : List AccountInfo) (ix_data : Bytes) {l' : Ledger}
      (accepted : process_transfer build program_id accounts ix_data l ≡ ok l')
      → AcceptedSpend build program_id l l' (transfer_nullifiers build accounts ix_data l)
  by_unshield :
      (accounts : List AccountInfo) (ix_data : Bytes) {l' : Ledger}
      (accepted : process_unshield build program_id accounts ix_data l ≡ ok l')
      → AcceptedSpend build program_id l l' (unshield_nullifiers build accounts ix_data l)
