-- ===== src/Masp/Runs/Unshield.antt =====
-- A successful Unshield, taken apart.
use solana_masp.Prelude.{◌≡◌, ap, ◌∙◌, true, some, List, ◌∷◌, Bytes, get_elem?}
use solana_masp.Runtime.{
  ok, with_ok, require-eq-ok, AccountInfo, Ledger, Pubkey, next_account_info-ok,
}
use solana_masp.Masp.State.{TreeState, is_valid_anchor, unshield}
use solana_masp.Masp.Build.{Build}
use solana_masp.Masp.Runs.Checks.{check_circuit-ok}
use solana_masp.Protocol.{UnshieldData}
use solana_masp.Masp.Inputs.{UnshieldInputs, unshield_public_inputs}
use solana_masp.Masp.Stores.{insert_nullifier}
use solana_masp.Masp.Instructions.{load_unpaused, verify_step, unshield_extract, process_unshield}

pub record UnshieldRun (build : Build) (program_id : Pubkey) (accounts : List AccountInfo)
    (ix_data : Bytes) (l l' : Ledger) : Type 0 where
  pub authority : AccountInfo
  pub tree_state_account : AccountInfo
  pub proof_buffer : AccountInfo
  pub nullifier_account : AccountInfo
  pub system_program : AccountInfo
  pub rest : List AccountInfo
  pub given :
      accounts
      ≡ authority ∷ tree_state_account ∷ proof_buffer ∷ nullifier_account ∷ system_program ∷ rest
  pub signed : authority.is_signer ≡ true
  pub payload : UnshieldData
  pub parsed : build.unshield_codec.try_from_slice ix_data ≡ ok payload
  pub state : TreeState
  pub loaded : load_unpaused build program_id tree_state_account l ≡ ok state
  pub circuit : get_elem? (l proof_buffer.key).bytes 1 ≡ some 2
  pub inputs : UnshieldInputs
  pub extracted : unshield_extract build.proof_system proof_buffer payload l ≡ ok inputs
  pub anchored : is_valid_anchor state inputs.anchor ≡ true
  pub left : Ledger × List AccountInfo
  pub verified :
      verify_step build build.proof_system unshield
        (unshield_public_inputs inputs)
        authority
        proof_buffer
        rest
        l
      ≡ ok left
  pub marks :
      insert_nullifier build.host build.nullifier_codec authority nullifier_account system_program
        inputs.nullifier program_id left.0
      ≡ ok l'

pub process_unshield-run :
    (build : Build) (program_id : Pubkey) (accounts : List AccountInfo) (ix_data : Bytes)
    (l : Ledger) {l' : Ledger}
    → process_unshield build program_id accounts ix_data l ≡ ok l'
    → UnshieldRun build program_id accounts ix_data l l'
unfolding process_unshield
process_unshield-run build program_id accounts ix_data l h = with_ok _ _ h λ n₁ a₁ h₁.
    with_ok _ _ h₁ λ n₂ a₂ h₂. with_ok _ _ h₂ λ n₃ a₃ h₃. with_ok _ _ h₃ λ n₄ a₄ h₄.
      with_ok _ _ h₄ λ n₅ a₅ h₅. with_ok _ _ h₅ λ _ signed h₆. with_ok _ _ h₆ λ payload parsed h₇.
        with_ok _ _ h₇ λ state loaded h₈. with_ok _ _ h₈ λ _ circuit h₉.
          with_ok _ _ h₉ λ inputs extracted h₁₀. with_ok _ _ h₁₀ λ _ anchored h₁₁.
            with_ok _ _ h₁₁ λ left verified marks. record {
              authority = n₁.0;
              tree_state_account = n₂.0;
              proof_buffer = n₃.0;
              nullifier_account = n₄.0;
              system_program = n₅.0;
              rest = n₅.1;
              given =
                  next_account_info-ok accounts a₁
                  ∙ ap (λ t. n₁.0 ∷ t)
                      (next_account_info-ok n₁.1 a₂
                        ∙ ap (λ t. n₂.0 ∷ t)
                            (next_account_info-ok n₂.1 a₃
                              ∙ ap (λ t. n₃.0 ∷ t)
                                  (next_account_info-ok n₃.1 a₄
                                    ∙ ap (λ t. n₄.0 ∷ t) (next_account_info-ok n₄.1 a₅))));
              signed = require-eq-ok _ _ signed;
              payload = payload;
              parsed = parsed;
              state = state;
              loaded = loaded;
              circuit = check_circuit-ok build unshield n₃.0 l circuit;
              inputs = inputs;
              extracted = extracted;
              anchored = require-eq-ok _ _ anchored;
              left = left;
              verified = verified;
              marks = marks;
            }
