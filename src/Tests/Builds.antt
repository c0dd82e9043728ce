-- ===== src/Tests/Builds.antt =====
-- The mock and the Groth16 build on concrete data.
use solana_masp.Prelude.{
  ℕ, ◌+◌, ◌*◌, ◌≡◌, ◌≢◌, refl, some, List, [], ◌∷◌, ◌++◌, Bytes, bytes_eq, slice, replicate,
  get_elem?, to_le_bytes, from_le_bytes, from_be_bytes, to_be_bytes, if◌then◌else◌,
}
use solana_masp.Runtime.{ok, ◌>>=◌, AccountInfo, Ledger, next_account_info, serialize, set_data}
use solana_masp.Masp.State.{
  new_tree_state, is_valid_anchor, in_history, increment_leaf_count, zero32, transfer, circuit_byte,
}
use solana_masp.Masp.Inputs.{transfer_from_data, transfer_public_inputs, transfer_from_buffer}
use solana_masp.Masp.Inputs.Fields.{concat, read_fields, u32_field, u64_field, field_u32, field_u64}
use solana_masp.Masp.Verify.{
  mock, groth16, verify_proof, state_proof_size, mock_verify, expected_proof,
}
use solana_masp.Masp.Stores.{
  is_empty, create_account_instruction, derive_pda, insert_nullifier, insert_commitment,
  system_program_id,
}
use solana_masp.Masp.Instructions.{
  load_unpaused, check_circuit, verify_step, verify_inline, mark_nullifiers, insert_outputs,
  transfer_extract, process_shield, process_transfer, process_unshield,
}
use solana_masp.Masp.Runs.Transfer.{TransferRun}
use solana_masp.Masp.Proofs.{process_transfer-mock_proof, groth16_rejects}
use solana_masp.Tests.Runtime.{key, toy_host, create, system}
use solana_masp.Tests.World.{
  toy_build, tree_to_vec, tree_from_slice, toy_tree_codec, toy_transfer_codec,
}
use solana_masp.Tests.Scenario.{program, ledger, user, at, tree, spent_at, after}

-- The mock build takes the inputs from the instruction.
unfoldable mock_data : Bytes
unfolding concat
mock_data =
    key 5
    ++ (concat (key 21 ∷ key 22 ∷ zero32 ∷ key 31 ∷ zero32 ∷ key 32 ∷ [])
        ++ (2 ∷ 3 ∷ concat (key 41 ∷ key 42 ∷ key 43 ∷ key 50 ∷ [])))

-- Its buffer needs the header and a proof of 32 bytes behind the inputs: the toy hash of 417 bytes.
unfoldable mock_ledger : Ledger
unfolding ledger
mock_ledger k =
    if bytes_eq k (key 12)
    then record { owner = program; bytes = 0 ∷ 1 ∷ 192 ∷ 1 ∷ 13 ∷ (replicate 416 0 ++ key 161) }
    else ledger k

abbrev mock_accounts : List AccountInfo
mock_accounts =
    user
    ∷ at tree
    ∷ at (key 12)
    ∷ at system_program_id
    ∷ at (spent_at (key 21))
    ∷ at (spent_at (key 22))
    ∷ []

unfoldable mock_after : Ledger
mock_after =
    after (process_transfer (toy_build mock) program mock_accounts mock_data mock_ledger)
      mock_ledger

mock_accepted :
    process_transfer (toy_build mock) program mock_accounts mock_data mock_ledger ≡ ok mock_after
unfolding process_transfer toy_build toy_host toy_tree_codec toy_transfer_codec tree_to_vec
    tree_from_slice load_unpaused check_circuit transfer_extract transfer_from_buffer
    is_valid_anchor in_history mark_nullifiers insert_outputs insert_nullifier derive_pda
    create_account_instruction system create is_empty verify_step verify_proof insert_commitment
    increment_leaf_count serialize set_data next_account_info bytes_eq concat read_fields u32_field
    u64_field field_u32 field_u64 to_le_bytes from_le_bytes from_be_bytes to_be_bytes
    transfer_public_inputs new_tree_state ◌>>=◌ verify_inline state_proof_size mock_verify
    expected_proof transfer_from_data mock_ledger mock_after mock_data ledger
mock_accepted = refl

mock_chosen : (toy_build mock).proof_system ≡ mock
unfolding toy_build
mock_chosen = refl

process_transfer-mock_proof_example :
    (run : TransferRun (toy_build mock) program mock_accounts mock_data mock_ledger mock_after)
    × (n : ℕ) × (get_elem? (mock_ledger run.proof_buffer.key).bytes 4 ≡ some n)
    × (slice (5 + n * 32) 32 (mock_ledger run.proof_buffer.key).bytes
        ≡ (toy_build mock).keccak
            (circuit_byte transfer ∷ concat (transfer_public_inputs run.inputs)))
process_transfer-mock_proof_example =
    process_transfer-mock_proof (toy_build mock) program mock_accounts mock_data mock_ledger
      mock_chosen mock_accepted

groth16_chosen : (toy_build groth16).proof_system ≡ groth16
unfolding toy_build
groth16_chosen = refl

groth16_rejects_example :
    (process_shield (toy_build groth16) program mock_accounts mock_data mock_ledger ≢ ok mock_after)
    × (process_transfer (toy_build groth16) program mock_accounts mock_data mock_ledger
        ≢ ok mock_after)
    × (process_unshield (toy_build groth16) program mock_accounts mock_data mock_ledger
        ≢ ok mock_after)
groth16_rejects_example =
    groth16_rejects (toy_build groth16) program mock_accounts mock_data mock_ledger mock_after
      groth16_chosen
