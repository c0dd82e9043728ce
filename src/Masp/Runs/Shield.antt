-- ===== src/Masp/Runs/Shield.antt =====
-- A successful Shield, taken apart.
use solana_masp.Prelude.{◌≡◌, ap, ◌∙◌, true, some, List, ◌∷◌, Bytes, get_elem?}
use solana_masp.Runtime.{
  ok, with_ok, require-eq-ok, AccountInfo, Ledger, Pubkey, next_account_info-ok, serialize,
}
use solana_masp.Masp.State.{TreeState, shield}
use solana_masp.Masp.Build.{Build}
use solana_masp.Masp.Runs.Checks.{check_circuit-ok}
use solana_masp.Protocol.{ShieldData}
use solana_masp.Masp.Inputs.{ShieldInputs, shield_public_inputs}
use solana_masp.Masp.Stores.{insert_commitment}
use solana_masp.Masp.Instructions.{
  load_unpaused, verify_step, shield_extract, process_shield, count_leaf,
}

pub record ShieldRun (build : Build) (program_id : Pubkey) (accounts : List AccountInfo)
    (ix_data : Bytes) (l l' : Ledger) : Type 0 where
  pub depositor : AccountInfo
  pub tree_state_account : AccountInfo
  pub proof_buffer : AccountInfo
  pub rest : List AccountInfo
  pub given : accounts ≡ depositor ∷ tree_state_account ∷ proof_buffer ∷ rest
  pub signed : depositor.is_signer ≡ true
  pub payload : ShieldData
  pub parsed : build.shield_codec.try_from_slice ix_data ≡ ok payload
  pub state : TreeState
  pub loaded : load_unpaused build program_id tree_state_account l ≡ ok state
  pub circuit : get_elem? (l proof_buffer.key).bytes 1 ≡ some 0
  pub inputs : ShieldInputs
  pub extracted : shield_extract build.proof_system proof_buffer payload l ≡ ok inputs
  pub left : Ledger × List AccountInfo
  pub verified :
      verify_step build build.proof_system shield
        (shield_public_inputs inputs)
        depositor
        proof_buffer
        rest
        l
      ≡ ok left
  pub logged : Ledger
  pub logs : insert_commitment depositor inputs.commitment left.0 ≡ ok logged
  pub counted : TreeState
  pub counts : count_leaf state ≡ ok counted
  pub written : serialize tree_state_account.key (build.tree_codec.to_vec counted) logged ≡ ok l'

pub process_shield-run :
    (build : Build) (program_id : Pubkey) (accounts : List AccountInfo) (ix_data : Bytes)
    (l : Ledger) {l' : Ledger}
    → process_shield build program_id accounts ix_data l ≡ ok l'
    → ShieldRun build program_id accounts ix_data l l'
unfolding process_shield
process_shield-run build program_id accounts ix_data l h = with_ok _ _ h λ n₁ a₁ h₁.
    with_ok _ _ h₁ λ n₂ a₂ h₂. with_ok _ _ h₂ λ n₃ a₃ h₃. with_ok _ _ h₃ λ _ signed h₄.
      with_ok _ _ h₄ λ payload parsed h₅. with_ok _ _ h₅ λ state loaded h₆.
        with_ok _ _ h₆ λ _ circuit h₇. with_ok _ _ h₇ λ inputs extracted h₈.
          with_ok _ _ h₈ λ left verified h₉. with_ok _ _ h₉ λ logged logs h₁₀.
            with_ok _ _ h₁₀ λ counted counts written. record {
              depositor = n₁.0;
              tree_state_account = n₂.0;
              proof_buffer = n₃.0;
              rest = n₃.1;
              given =
                  next_account_info-ok accounts a₁
                  ∙ ap (λ t. n₁.0 ∷ t)
                      (next_account_info-ok n₁.1 a₂
                        ∙ ap (λ t. n₂.0 ∷ t) (next_account_info-ok n₂.1 a₃));
              signed = require-eq-ok _ _ signed;
              payload = payload;
              parsed = parsed;
              state = state;
              loaded = loaded;
              circuit = check_circuit-ok build shield n₃.0 l circuit;
              inputs = inputs;
              extracted = extracted;
              left = left;
              verified = verified;
              logged = logged;
              logs = logs;
              counted = counted;
              counts = counts;
              written = written;
            }
