-- ===== src/Masp/Runs/Transfer.antt =====
-- A successful Transfer, taken apart.
use solana_masp.Prelude.{◌≡◌, ap, ◌∙◌, true, some, List, ◌∷◌, Bytes, get_elem?}
use solana_masp.Runtime.{
  ok, with_ok, require-eq-ok, AccountInfo, Ledger, Pubkey, next_account_info-ok, serialize,
}
use solana_masp.Masp.State.{TreeState, is_valid_anchor, transfer}
use solana_masp.Masp.Build.{Build}
use solana_masp.Masp.Runs.Checks.{check_circuit-ok}
use solana_masp.Protocol.{TransferData}
use solana_masp.Masp.Inputs.{TransferInputs, transfer_public_inputs}
use solana_masp.Masp.Instructions.{
  load_unpaused, verify_step, mark_nullifiers, insert_outputs, transfer_extract, process_transfer,
}

-- A successful Transfer, step by step.
pub record TransferRun (build : Build) (program_id : Pubkey) (accounts : List AccountInfo)
    (ix_data : Bytes) (l l' : Ledger) : Type 0 where
  pub authority : AccountInfo
  pub tree_state_account : AccountInfo
  pub proof_buffer : AccountInfo
  pub system_program : AccountInfo
  pub rest : List AccountInfo
  pub given : accounts ≡ authority ∷ tree_state_account ∷ proof_buffer ∷ system_program ∷ rest
  pub signed : authority.is_signer ≡ true
  pub payload : TransferData
  pub parsed : build.transfer_codec.try_from_slice ix_data ≡ ok payload
  pub state : TreeState
  pub loaded : load_unpaused build program_id tree_state_account l ≡ ok state
  pub circuit : get_elem? (l proof_buffer.key).bytes 1 ≡ some 1
  pub inputs : TransferInputs
  pub extracted : transfer_extract build.proof_system proof_buffer payload l ≡ ok inputs
  pub anchored : is_valid_anchor state inputs.anchor ≡ true
  pub left : Ledger × List AccountInfo
  pub verified :
      verify_step build build.proof_system transfer
        (transfer_public_inputs inputs)
        authority
        proof_buffer
        rest
        l
      ≡ ok left
  pub marked : Ledger
  pub marks :
      mark_nullifiers build inputs.input_count inputs.nullifiers authority system_program program_id
        left.1 left.0
      ≡ ok marked
  pub counted : TreeState × Ledger
  pub counts :
      insert_outputs inputs.output_count inputs.output_commitments authority state marked
      ≡ ok counted
  pub written :
      serialize tree_state_account.key (build.tree_codec.to_vec counted.0) counted.1 ≡ ok l'

pub process_transfer-run :
    (build : Build) (program_id : Pubkey) (accounts : List AccountInfo) (ix_data : Bytes)
    (l : Ledger) {l' : Ledger}
    → process_transfer build program_id accounts ix_data l ≡ ok l'
    → TransferRun build program_id accounts ix_data l l'
unfolding process_transfer
process_transfer-run build program_id accounts ix_data l h = with_ok _ _ h λ n₁ a₁ h₁.
    with_ok _ _ h₁ λ n₂ a₂ h₂. with_ok _ _ h₂ λ n₃ a₃ h₃. with_ok _ _ h₃ λ n₄ a₄ h₄.
      with_ok _ _ h₄ λ _ signed h₅. with_ok _ _ h₅ λ payload parsed h₆.
        with_ok _ _ h₆ λ state loaded h₇. with_ok _ _ h₇ λ _ circuit h₈.
          with_ok _ _ h₈ λ inputs extracted h₉. with_ok _ _ h₉ λ _ anchored h₁₀.
            with_ok _ _ h₁₀ λ left verified h₁₁. with_ok _ _ h₁₁ λ marked marks h₁₂.
              with_ok _ _ h₁₂ λ counted counts written. record {
                authority = n₁.0;
                tree_state_account = n₂.0;
                proof_buffer = n₃.0;
                system_program = n₄.0;
                rest = n₄.1;
                given =
                    next_account_info-ok accounts a₁
                    ∙ ap (λ t. n₁.0 ∷ t)
                        (next_account_info-ok n₁.1 a₂
                          ∙ ap (λ t. n₂.0 ∷ t)
                              (next_account_info-ok n₂.1 a₃
                                ∙ ap (λ t. n₃.0 ∷ t) (next_account_info-ok n₃.1 a₄)));
                signed = require-eq-ok _ _ signed;
                payload = payload;
                parsed = parsed;
                state = state;
                loaded = loaded;
                circuit = check_circuit-ok build transfer n₃.0 l circuit;
                inputs = inputs;
                extracted = extracted;
                anchored = require-eq-ok _ _ anchored;
                left = left;
                verified = verified;
                marked = marked;
                marks = marks;
                counted = counted;
                counts = counts;
                written = written;
              }
