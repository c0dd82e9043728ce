-- ===== src/Tests/Spends.antt =====
-- A Transfer, then an Unshield, on a concrete pool.
use solana_masp.Prelude.{
  ◌≡◌, refl, List, [], ◌∷◌, bytes_eq, to_le_bytes, from_le_bytes, from_be_bytes, to_be_bytes,
}
use solana_masp.Runtime.{ok, ◌>>=◌, Ledger, next_account_info, serialize, set_data}
use solana_masp.Masp.State.{new_tree_state, is_valid_anchor, in_history, increment_leaf_count}
use solana_masp.Masp.Inputs.{
  shield_from_buffer, transfer_from_buffer, unshield_from_buffer, shield_public_inputs,
  transfer_public_inputs, unshield_public_inputs,
}
use solana_masp.Masp.Inputs.Fields.{concat, read_fields, u32_field, u64_field, field_u32, field_u64}
use solana_masp.Masp.Verify.{
  ProofSystem, ultra_plonk, verify_proof, ultraplonk_verify, verify_instruction,
}
use solana_masp.Masp.Stores.{
  is_empty, create_account_instruction, derive_pda, insert_nullifier, insert_commitment,
}
use solana_masp.Masp.Instructions.{
  load_unpaused, check_circuit, verify_step, verify_buffer, mark_nullifiers, insert_outputs,
  shield_extract, transfer_extract, unshield_extract, process_shield, process_transfer,
  process_unshield,
}
use solana_masp.Masp.Entry.{process_instruction, ix_shield, ix_transfer}
use solana_masp.Masp.Growth.{Grows}
use solana_masp.Masp.Nullifiers.{Marked, nullifier_pda}
use solana_masp.Masp.Runs.Transfer.{TransferRun}
use solana_masp.Masp.Runs.Unshield.{UnshieldRun}
use solana_masp.Masp.Runs.Shield.{ShieldRun}
use solana_masp.Masp.Transfer.{TransferEffect, process_transfer_effect}
use solana_masp.Masp.Unshield.{process_unshield_effect}
use solana_masp.Masp.Shield.{ShieldEffect, process_shield_effect}
use solana_masp.Masp.Proofs.{process_transfer-verified}
use solana_masp.Masp.Spent.{AreApart, no_double_spend, process_instruction-Grows}
use solana_masp.Masp.Transactions.{
  Tx, submit, submit_all, by_transfer, by_unshield, transfer_nullifiers, unshield_nullifiers,
}
use solana_masp.Verifier.{
  get_vk_for_circuit, read_header, pi_limbs_box, evals_box, run_verification, verify_data,
  process_verify,
}
use solana_masp.Tests.Runtime.{toy_host, create, system, verifier, toy_core, toy_vks, verifier_id}
use solana_masp.Tests.World.{
  toy_build, tree_to_vec, tree_from_slice, toy_tree_codec, toy_transfer_codec, toy_laws, toy_runs,
}
use solana_masp.Tests.Scenario.{
  at, program, ledger, shield_accounts, transfer_accounts, unshield_accounts, after,
}

unfoldable shielded : Ledger
shielded = after (process_shield (toy_build ultra_plonk) program shield_accounts [] ledger) ledger

shield_accepted :
    process_shield (toy_build ultra_plonk) program shield_accounts [] ledger ≡ ok shielded
unfolding shielded ledger process_shield toy_build toy_host toy_tree_codec tree_to_vec
    tree_from_slice load_unpaused check_circuit shield_extract shield_from_buffer verify_step
    verify_buffer verify_proof ultraplonk_verify verify_instruction verifier process_verify
    verify_data read_header pi_limbs_box evals_box run_verification get_vk_for_circuit
    insert_commitment increment_leaf_count serialize set_data next_account_info bytes_eq concat
    read_fields u32_field u64_field field_u32 field_u64 to_le_bytes from_le_bytes from_be_bytes
    to_be_bytes shield_public_inputs new_tree_state ◌>>=◌
shield_accepted = refl

unfoldable transferred : Ledger
transferred =
    after (process_transfer (toy_build ultra_plonk) program transfer_accounts [] ledger) ledger

transfer_accepted :
    process_transfer (toy_build ultra_plonk) program transfer_accounts [] ledger ≡ ok transferred
unfolding transferred ledger process_transfer toy_build toy_host toy_tree_codec toy_transfer_codec
    tree_to_vec tree_from_slice load_unpaused check_circuit transfer_extract transfer_from_buffer
    is_valid_anchor in_history mark_nullifiers insert_outputs insert_nullifier derive_pda
    create_account_instruction system create is_empty verify_step verify_buffer verify_proof
    ultraplonk_verify verify_instruction verifier process_verify verify_data read_header
    pi_limbs_box evals_box run_verification get_vk_for_circuit insert_commitment
    increment_leaf_count serialize set_data next_account_info bytes_eq concat read_fields u32_field
    u64_field field_u32 field_u64 to_le_bytes from_le_bytes from_be_bytes to_be_bytes
    transfer_public_inputs new_tree_state ◌>>=◌
transfer_accepted = refl

unfoldable unshielded : Ledger
unshielded =
    after (process_unshield (toy_build ultra_plonk) program unshield_accounts [] transferred)
      transferred

unshield_accepted :
    process_unshield (toy_build ultra_plonk) program unshield_accounts [] transferred
    ≡ ok unshielded
unfolding unshielded transferred ledger process_transfer process_unshield transfer_extract
    transfer_from_buffer transfer_public_inputs toy_transfer_codec toy_build toy_host toy_tree_codec
    tree_to_vec tree_from_slice load_unpaused check_circuit unshield_extract unshield_from_buffer
    is_valid_anchor in_history mark_nullifiers insert_outputs insert_nullifier derive_pda
    create_account_instruction system create is_empty verify_step verify_buffer verify_proof
    ultraplonk_verify verify_instruction verifier process_verify verify_data read_header
    pi_limbs_box evals_box run_verification get_vk_for_circuit insert_commitment
    increment_leaf_count serialize set_data next_account_info bytes_eq concat read_fields u32_field
    u64_field field_u32 field_u64 to_le_bytes from_le_bytes from_be_bytes to_be_bytes
    unshield_public_inputs new_tree_state ◌>>=◌
unshield_accepted = refl

-- The Transfer, then the Shield, then the Unshield
abbrev between : List Tx
between = record { accounts = shield_accounts; payload = ix_shield ∷ [] } ∷ []

unfoldable unshielded_later : Ledger
unshielded_later =
    let before = submit_all (toy_build ultra_plonk) program between transferred in
    after (process_unshield (toy_build ultra_plonk) program unshield_accounts [] before) before

later_accepted :
    process_unshield
      (toy_build ultra_plonk)
      program
      unshield_accounts
      []
      (submit_all (toy_build ultra_plonk) program between transferred)
    ≡ ok unshielded_later
unfolding transferred ledger process_transfer process_unshield transfer_extract transfer_from_buffer
    transfer_public_inputs toy_transfer_codec toy_build toy_host toy_tree_codec tree_to_vec
    tree_from_slice load_unpaused check_circuit unshield_extract unshield_from_buffer
    is_valid_anchor in_history mark_nullifiers insert_outputs insert_nullifier derive_pda
    create_account_instruction system create is_empty verify_step verify_buffer verify_proof
    ultraplonk_verify verify_instruction verifier process_verify verify_data read_header
    pi_limbs_box evals_box run_verification get_vk_for_circuit insert_commitment
    increment_leaf_count serialize set_data next_account_info bytes_eq concat read_fields u32_field
    u64_field field_u32 field_u64 to_le_bytes from_le_bytes from_be_bytes to_be_bytes
    unshield_public_inputs new_tree_state ◌>>=◌ process_shield shield_extract shield_from_buffer
    shield_public_inputs submit submit_all process_instruction unshielded_later
later_accepted = refl

no_double_spend_example :
    AreApart
      (nullifier_pda (toy_build ultra_plonk) program)
      (transfer_nullifiers (toy_build ultra_plonk) transfer_accounts [] ledger)
      (unshield_nullifiers
        (toy_build ultra_plonk)
        unshield_accounts
        []
        (submit_all (toy_build ultra_plonk) program between transferred))
no_double_spend_example =
    no_double_spend (toy_build ultra_plonk) (toy_laws ultra_plonk) program between
      (by_transfer transfer_accounts [] transfer_accepted)
      (by_unshield unshield_accounts [] later_accepted)

process_transfer_effect_example :
    (run : TransferRun (toy_build ultra_plonk) program transfer_accounts [] ledger transferred)
    × TransferEffect
        (toy_build ultra_plonk)
        program
        run.tree_state_account.key
        run.state
        run.inputs
        ledger
        transferred
process_transfer_effect_example =
    process_transfer_effect (toy_build ultra_plonk) (toy_laws ultra_plonk) program transfer_accounts
      [] ledger transfer_accepted

process_unshield_effect_example :
    (run : UnshieldRun (toy_build ultra_plonk) program unshield_accounts [] transferred unshielded)
    × (run.nullifier_account.key
        ≡ nullifier_pda (toy_build ultra_plonk) program run.inputs.nullifier)
    × Marked transferred unshielded
        (nullifier_pda (toy_build ultra_plonk) program run.inputs.nullifier)
process_unshield_effect_example =
    process_unshield_effect (toy_build ultra_plonk) (toy_laws ultra_plonk) program unshield_accounts
      [] transferred unshield_accepted

process_shield_effect_example :
    (run : ShieldRun (toy_build ultra_plonk) program shield_accounts [] ledger shielded)
    × ShieldEffect (toy_build ultra_plonk) run.tree_state_account.key run.state ledger shielded
process_shield_effect_example =
    process_shield_effect (toy_build ultra_plonk) (toy_laws ultra_plonk) program shield_accounts []
      ledger shield_accepted

chosen : (system : ProofSystem) → (toy_build system).proof_system ≡ system
unfolding toy_build
chosen system = refl

entry_accepted :
    process_instruction (toy_build ultra_plonk) program transfer_accounts (ix_transfer ∷ []) ledger
    ≡ ok transferred
unfolding process_instruction
entry_accepted = transfer_accepted

process_transfer-verified_example :
    (run : TransferRun (toy_build ultra_plonk) program transfer_accounts [] ledger transferred)
    × (transfer_from_buffer (ledger run.proof_buffer.key).bytes ≡ ok run.inputs)
    × (verify_data toy_core toy_vks (ledger run.proof_buffer.key).bytes ≡ ok tt)
process_transfer-verified_example =
    process_transfer-verified (toy_build ultra_plonk) toy_core toy_vks verifier_id
      (toy_runs ultra_plonk) program transfer_accounts [] ledger (chosen ultra_plonk)
      (at verifier_id) refl refl transfer_accepted

process_instruction-Grows_example : Grows ledger transferred
process_instruction-Grows_example =
    process_instruction-Grows (toy_build ultra_plonk) (toy_laws ultra_plonk) program
      transfer_accounts (ix_transfer ∷ []) ledger entry_accepted
