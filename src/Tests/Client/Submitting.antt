-- ===== src/Tests/Client/Submitting.antt =====
-- The transfer of Proving, submitted to a program in a mock build.
use solana_masp.Prelude.{
  ◌≡◌, refl, true, List, [], ◌∷◌, ◌++◌, Bytes, bytes_eq, length, map, replicate, to_le_bytes,
  from_le_bytes, to_be_bytes, if◌then◌else◌,
}
use solana_masp.Runtime.{
  Result, ok, err, ◌>>=◌, AccountInfo, Ledger, next_account_info, serialize, set_data,
}
use solana_masp.Masp.State.{
  TreeState, new_tree_state, is_valid_anchor, in_history, increment_leaf_count,
}
use solana_masp.Masp.Inputs.Fields.{concat, read_fields}
use solana_masp.Masp.Verify.{mock}
use solana_masp.Masp.Stores.{
  is_empty, create_account_instruction, derive_pda, insert_nullifier, insert_commitment,
  system_program_id,
}
use solana_masp.Masp.Instructions.{load_unpaused, mark_nullifiers, insert_outputs, process_transfer}
use solana_masp.Client.Outcome.{done}
use solana_masp.Client.Hash.{field_to_bytes, poseidon2_hash_noir, merkle_hash}
use solana_masp.Client.Keys.{ask, nsk, ivk}
use solana_masp.Client.Note.{
  commitment, compute_nullifier, tx_binding_transfer, derive_output_nonce_nm,
}
use solana_masp.Client.Requests.{witness_root, transfer_public, transfer_private}
use solana_masp.Client.Proofs.Prover.{onchain_mock_prove, onchain_mock_proof_for_public_inputs}
use solana_masp.Client.Proofs.Submission.{Submission, Uploaded, client_inputs, transfer_accepted}
use solana_masp.Tests.Runtime.{key, toy_host, create, system}
use solana_masp.Tests.World.{
  toy_build, tree_to_vec, tree_from_slice, toy_tree_codec, toy_transfer_codec,
}
use solana_masp.Tests.Scenario.{program, ledger, user, at, tree, spent_at, pool, after}
use solana_masp.Tests.Client.Sample.{toy}
use solana_masp.Tests.Client.Proving.{public, private, is_transfer, stated}

-- The instruction carries the public inputs.
unfoldable sent_data : Bytes
unfolding concat
sent_data =
    field_to_bytes public.anchor
    ++ (concat (map field_to_bytes public.nullifiers)
        ++ (concat (map field_to_bytes public.output_commitments)
            ++ (public.input_count
                ∷ public.output_count
                ∷ (concat (map field_to_bytes public.ct_hashes)
                    ++ field_to_bytes public.tx_binding))))

abbrev proof : Bytes
proof = onchain_mock_proof_for_public_inputs (toy_build mock).keccak (transfer_public public)

abbrev open_pool : TreeState
open_pool = record pool { current_root = field_to_bytes public.anchor }

-- The pool has the anchor, and the proof is uploaded behind 13 fields.
unfoldable sent_ledger : Ledger
unfolding tree_to_vec
sent_ledger k =
    if bytes_eq k tree
    then record { owner = program; bytes = tree_to_vec open_pool }
    else if bytes_eq k (key 12)
    then record { owner = program; bytes = 0 ∷ 1 ∷ 192 ∷ 1 ∷ 13 ∷ (replicate 416 0 ++ proof) }
    else ledger k

abbrev first_spent : List Bytes → AccountInfo
first_spent [] = user
first_spent (n ∷ ns) = at (spent_at n)

abbrev sent_accounts : List AccountInfo
sent_accounts =
    user
    ∷ at tree
    ∷ at (key 12)
    ∷ at system_program_id
    ∷ first_spent (map field_to_bytes public.nullifiers)
    ∷ []

chosen : (toy_build mock).proof_system ≡ mock
unfolding toy_build
chosen = refl

hashed : (message : Bytes) → length ((toy_build mock).keccak message) ≡ 32
unfolding toy_build
hashed message = refl

-- What the steps before and after the proof make of the ledger
abbrev marked_ledger : Ledger
marked_ledger =
    after
      (mark_nullifiers (toy_build mock) public.input_count (map field_to_bytes public.nullifiers)
        user (at system_program_id) program
        (first_spent (map field_to_bytes public.nullifiers) ∷ []) sent_ledger)
      sent_ledger

abbrev or_else_pool : Result (TreeState × Ledger) → TreeState × Ledger
or_else_pool (ok counted) = counted
or_else_pool (err e) = (open_pool, sent_ledger)

abbrev counted_pool : TreeState × Ledger
counted_pool = or_else_pool (
    insert_outputs public.output_count (map field_to_bytes public.output_commitments) user open_pool
      marked_ledger)

abbrev sent_after : Ledger
sent_after =
    after (serialize tree ((toy_build mock).tree_codec.to_vec counted_pool.0) counted_pool.1)
      sent_ledger

marks :
    mark_nullifiers
      (toy_build mock)
      public.input_count
      (map field_to_bytes public.nullifiers)
      user
      (at system_program_id)
      program
      (first_spent (map field_to_bytes public.nullifiers) ∷ [])
      sent_ledger
    ≡ ok marked_ledger
unfolding mark_nullifiers insert_nullifier derive_pda create_account_instruction system create
    is_empty toy_build toy_host toy_tree_codec serialize set_data next_account_info bytes_eq concat
    ◌>>=◌ sent_ledger ledger public poseidon2_hash_noir merkle_hash ivk ask nsk compute_nullifier
    to_be_bytes field_to_bytes tree_to_vec to_le_bytes from_le_bytes tx_binding_transfer
    derive_output_nonce_nm commitment witness_root new_tree_state
marks = refl

counts :
    insert_outputs public.output_count
      (map field_to_bytes public.output_commitments)
      user
      open_pool
      marked_ledger
    ≡ ok counted_pool
unfolding mark_nullifiers insert_nullifier derive_pda create_account_instruction system create
    is_empty toy_build toy_host toy_tree_codec serialize set_data next_account_info bytes_eq concat
    ◌>>=◌ sent_ledger ledger public poseidon2_hash_noir merkle_hash ivk ask nsk compute_nullifier
    to_be_bytes field_to_bytes tree_to_vec to_le_bytes from_le_bytes tx_binding_transfer
    derive_output_nonce_nm commitment witness_root new_tree_state insert_outputs insert_commitment
    increment_leaf_count
counts = refl

written :
    serialize tree ((toy_build mock).tree_codec.to_vec counted_pool.0) counted_pool.1
    ≡ ok sent_after
unfolding mark_nullifiers insert_nullifier derive_pda create_account_instruction system create
    is_empty toy_build toy_host toy_tree_codec serialize set_data next_account_info bytes_eq concat
    ◌>>=◌ sent_ledger ledger public poseidon2_hash_noir merkle_hash ivk ask nsk compute_nullifier
    to_be_bytes field_to_bytes tree_to_vec to_le_bytes from_le_bytes tx_binding_transfer
    derive_output_nonce_nm commitment witness_root new_tree_state insert_outputs insert_commitment
    increment_leaf_count
written = refl

carried :
    (toy_build mock).transfer_codec.try_from_slice sent_data
    ≡ ok (client_inputs (toy_build mock) public)
unfolding mark_nullifiers insert_nullifier derive_pda create_account_instruction system create
    is_empty toy_build toy_host toy_tree_codec serialize set_data next_account_info bytes_eq concat
    ◌>>=◌ sent_ledger ledger public poseidon2_hash_noir merkle_hash ivk ask nsk compute_nullifier
    to_be_bytes field_to_bytes tree_to_vec to_le_bytes from_le_bytes tx_binding_transfer
    derive_output_nonce_nm commitment witness_root new_tree_state toy_transfer_codec read_fields
    sent_data
carried = refl

loaded : load_unpaused (toy_build mock) program (at tree) sent_ledger ≡ ok open_pool
unfolding mark_nullifiers insert_nullifier derive_pda create_account_instruction system create
    is_empty toy_build toy_host toy_tree_codec serialize set_data next_account_info bytes_eq concat
    ◌>>=◌ sent_ledger ledger public poseidon2_hash_noir merkle_hash ivk ask nsk compute_nullifier
    to_be_bytes field_to_bytes tree_to_vec to_le_bytes from_le_bytes tx_binding_transfer
    derive_output_nonce_nm commitment witness_root new_tree_state load_unpaused tree_from_slice
    read_fields
loaded = refl

anchored : is_valid_anchor open_pool (field_to_bytes public.anchor) ≡ true
unfolding mark_nullifiers insert_nullifier derive_pda create_account_instruction system create
    is_empty toy_build toy_host toy_tree_codec serialize set_data next_account_info bytes_eq concat
    ◌>>=◌ sent_ledger ledger public poseidon2_hash_noir merkle_hash ivk ask nsk compute_nullifier
    to_be_bytes field_to_bytes tree_to_vec to_le_bytes from_le_bytes tx_binding_transfer
    derive_output_nonce_nm commitment witness_root new_tree_state is_valid_anchor in_history
anchored = refl

uploaded : Uploaded 1 13 proof (sent_ledger (key 12)).bytes
unfolding mark_nullifiers insert_nullifier derive_pda create_account_instruction system create
    is_empty toy_build toy_host toy_tree_codec serialize set_data next_account_info bytes_eq concat
    ◌>>=◌ sent_ledger ledger public poseidon2_hash_noir merkle_hash ivk ask nsk compute_nullifier
    to_be_bytes field_to_bytes tree_to_vec to_le_bytes from_le_bytes tx_binding_transfer
    derive_output_nonce_nm commitment witness_root new_tree_state
uploaded = record {
  status = 0;
  low = 192;
  high = 1;
  fields = replicate 416 0;
  counted = refl;
  laid_out = refl;
}

submission :
    Submission (toy_build mock) program public proof sent_accounts sent_data sent_ledger sent_after
submission = record {
  authority = user;
  tree_state_account = at tree;
  proof_buffer = at (key 12);
  system_program = at system_program_id;
  rest = first_spent (map field_to_bytes public.nullifiers) ∷ [];
  given = refl;
  signed = refl;
  carried = carried;
  state = open_pool;
  loaded = loaded;
  anchored = anchored;
  pi_count = 13;
  uploaded = uploaded;
  marked = marked_ledger;
  marks = marks;
  counted = counted_pool;
  counts = counts;
  written = written;
}

transfer_accepted_example :
    (onchain_mock_prove toy
        (toy_build mock).keccak
        (transfer_public public)
        (transfer_private private)
      ≡ done proof)
    × (process_transfer (toy_build mock) program sent_accounts sent_data sent_ledger
        ≡ ok sent_after)
transfer_accepted_example =
    transfer_accepted (toy_build mock) toy chosen hashed public private program sent_accounts
      sent_data sent_ledger sent_after is_transfer stated submission
