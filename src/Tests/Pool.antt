-- ===== src/Tests/Pool.antt =====
-- Initialize, UpdateRoot, the paused flag, UploadChunk and the anchors on concrete data.
use solana_masp.Prelude.{
  get_elem?, some, to_be_bytes, arith, ℕ, ◌+◌, ◌≡◌, ◌≢◌, refl, true, List, [], ◌∷◌, ◌++◌, Bytes,
  bytes_eq, take, reverse, replicate, length, to_le_bytes, from_le_bytes, if◌then◌else◌,
}
use solana_masp.Runtime.{ok, ◌>>=◌, AccountInfo, Ledger, next_account_info, serialize, set_data}
use solana_masp.Masp.State.{
  TreeState, new_tree_state, is_valid_anchor, in_history, update_root, zero32,
}
use solana_masp.Masp.State.Window.{update_roots, window, is_valid_anchor-update_roots}
use solana_masp.Masp.Inputs.{transfer_public_inputs}
use solana_masp.Masp.Inputs.Fields.{u32_field, concat, read_fields}
use solana_masp.Masp.Verify.{ultra_plonk}
use solana_masp.Masp.Stores.{is_empty, create_account_instruction, system_program_id}
use solana_masp.Masp.Instructions.{
  tree_state_pda, process_shield, process_transfer, process_unshield, process_initialize,
  process_update_root, process_upload_chunk, copy_at, write_chunk,
}
use solana_masp.Masp.Upload.{process_upload_chunk-kept, write_chunk-append}
use solana_masp.Masp.Entry.{ix_transfer}
use solana_masp.Masp.Transactions.{submit_all}
use solana_masp.Masp.Guards.{
  UpdateRootEffect, process_update_root_effect, paused_rejects, initialize_once,
}
use solana_masp.Tests.Runtime.{key, toy_host, create, system}
use solana_masp.Tests.World.{toy_build, tree_to_vec, tree_from_slice, toy_tree_codec, toy_laws}
use solana_masp.Tests.Scenario.{program, ledger, user, at, tree, pool, transfer_accounts, after}

-- A ledger on which nothing was created yet.
abbrev blank : Ledger
blank k = record { owner = system_program_id; bytes = [] }

abbrev pool_accounts : List AccountInfo
pool_accounts = user ∷ at tree ∷ at system_program_id ∷ []

unfoldable initialized : Ledger
initialized =
    after (process_initialize (toy_build ultra_plonk) program pool_accounts [] blank) blank

initialize_accepted :
    process_initialize (toy_build ultra_plonk) program pool_accounts [] blank ≡ ok initialized
unfolding initialized process_initialize toy_build toy_host toy_tree_codec tree_to_vec concat
    to_le_bytes from_le_bytes create_account_instruction system create is_empty serialize set_data
    next_account_info bytes_eq new_tree_state ◌>>=◌
initialize_accepted = refl

initialize_once_example :
    process_initialize (toy_build ultra_plonk) program pool_accounts [] (
      submit_all
        (toy_build ultra_plonk)
        program
        (record { accounts = transfer_accounts; payload = ix_transfer ∷ [] } ∷ [])
        initialized)
    ≢ ok blank
initialize_once_example =
    initialize_once (toy_build ultra_plonk) program (toy_laws ultra_plonk) pool_accounts
      pool_accounts [] [] (record { accounts = transfer_accounts; payload = ix_transfer ∷ [] } ∷ [])
      blank blank initialize_accepted

-- The new root, and the three leaves that the pool has.
abbrev root_data : Bytes
root_data = key 6 ++ (3 ∷ [])

unfoldable moved : Ledger
moved =
    after (process_update_root (toy_build ultra_plonk) program pool_accounts root_data ledger)
      ledger

update_accepted :
    process_update_root (toy_build ultra_plonk) program pool_accounts root_data ledger ≡ ok moved
unfolding moved process_update_root ledger toy_build toy_host toy_tree_codec tree_to_vec
    tree_from_slice update_root concat read_fields to_le_bytes from_le_bytes serialize set_data
    next_account_info bytes_eq new_tree_state ◌>>=◌
update_accepted = refl

process_update_root_effect_example :
    UpdateRootEffect (toy_build ultra_plonk) program pool_accounts root_data ledger moved
process_update_root_effect_example =
    process_update_root_effect (toy_build ultra_plonk) program pool_accounts root_data ledger
      update_accepted

unfoldable paused_pool : TreeState
unfolding new_tree_state
paused_pool = record pool { paused = true }

unfoldable paused_ledger : Ledger
unfolding ledger tree_to_vec concat paused_pool
paused_ledger k =
    if bytes_eq k tree
    then record { owner = program; bytes = tree_to_vec paused_pool }
    else ledger k

paused_stored :
    (toy_build ultra_plonk).tree_codec.try_from_slice
      (paused_ledger (tree_state_pda (toy_build ultra_plonk) program).0).bytes
    ≡ ok paused_pool
unfolding paused_pool paused_ledger toy_build toy_host toy_tree_codec tree_to_vec tree_from_slice
    concat read_fields to_le_bytes from_le_bytes bytes_eq new_tree_state
paused_stored = refl

is_paused : paused_pool.paused ≡ true
unfolding paused_pool
is_paused = refl

paused_rejects_example :
    (process_shield (toy_build ultra_plonk) program transfer_accounts [] paused_ledger ≢ ok blank)
    × (process_transfer (toy_build ultra_plonk) program transfer_accounts [] paused_ledger
        ≢ ok blank)
    × (process_unshield (toy_build ultra_plonk) program transfer_accounts [] paused_ledger
        ≢ ok blank)
paused_rejects_example =
    paused_rejects (toy_build ultra_plonk) program paused_pool transfer_accounts [] paused_ledger
      blank paused_stored is_paused

write_chunk-append_example :
    (write_chunk 0 (7 ∷ 8 ∷ []) (0 ∷ 1 ∷ 0 ∷ 0 ∷ 13 ∷ replicate 4 0)
      >>= write_chunk (0 + length {A = ℕ} (7 ∷ 8 ∷ [])) (9 ∷ []))
    ≡ write_chunk 0 (7 ∷ 8 ∷ 9 ∷ []) (0 ∷ 1 ∷ 0 ∷ 0 ∷ 13 ∷ replicate 4 0)
write_chunk-append_example =
    write_chunk-append 0 (7 ∷ 8 ∷ []) (9 ∷ []) (0 ∷ 1 ∷ 0 ∷ 0 ∷ 13 ∷ replicate 4 0)

is_valid_anchor-update_roots_example :
    (s : TreeState) × (update_roots (key 1 ∷ key 2 ∷ []) (new_tree_state (key 9)) ≡ ok s)
    × ((anchor : Bytes)
        → is_valid_anchor s anchor
          ≡ in_history anchor
              (take window (reverse (key 1 ∷ key 2 ∷ []) ++ replicate window zero32)))
is_valid_anchor-update_roots_example = is_valid_anchor-update_roots (key 9) (key 1 ∷ key 2 ∷ [])

-- A chunk for the buffer of the Transfer; the tree state starts with its version.
abbrev chunk : Bytes
chunk = 0 ∷ 0 ∷ 7 ∷ 8 ∷ []

unfoldable chunked : Ledger
chunked = after (process_upload_chunk (at (key 12) ∷ []) chunk ledger) ledger

chunk_accepted : process_upload_chunk (at (key 12) ∷ []) chunk ledger ≡ ok chunked
unfolding chunked process_upload_chunk write_chunk copy_at ledger concat from_le_bytes
    next_account_info bytes_eq to_le_bytes to_be_bytes u32_field transfer_public_inputs ◌>>=◌
chunk_accepted = refl

tree_starts : get_elem? (ledger tree).bytes 0 ≡ some 1
unfolding ledger tree_to_vec bytes_eq new_tree_state concat
tree_starts = refl

process_upload_chunk-kept_example : chunked tree ≡ ledger tree
process_upload_chunk-kept_example =
    process_upload_chunk-kept (at (key 12) ∷ []) chunk ledger tree 1 tree_starts (λ e. omega arith)
      chunk_accepted
