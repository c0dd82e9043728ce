-- ===== src/Masp/Instructions/Setup.antt =====
-- Initialize, InitProofBuffer, UploadChunk, UpdateRoot and PostCiphertexts.
use solana_masp.Prelude.{
  ℕ, ◌+◌, ◌*◌, ◌/◌, ◌%◌, List, [], ◌∷◌, ◌++◌, Bytes, bytes_eq, leb, ◌==◌, length, set, take, drop,
  slice, from_le_bytes,
}
use solana_masp.Runtime.{
  Result, ok, err, require, ok_or, or_else, ◌>>=◌, ◌>>◌, panicked, invalid_account_data,
  invalid_instruction_data, missing_required_signature, AccountInfo, Ledger, Pubkey,
  next_account_info, serialize, set_data,
}
use solana_masp.Masp.Error.{
  into, already_initialized, invalid_instruction, invalid_authority, state_inconsistency,
}
use solana_masp.Masp.Error
use solana_masp.Masp.State.{
  new_tree_state, tree_state_size, update_root, incomplete, status_byte, header_size,
  circuit_try_from,
}
use solana_masp.Masp.Verify.{state_proof_size}
use solana_masp.Masp.Stores.{create_account_instruction, is_empty}
use solana_masp.Masp.Build.{Build}
use solana_masp.Masp.Instructions.Checks.{tree_state_seeds, tree_state_pda, byte_at}

-- The header that `process_init_proof_buffer` writes, byte by byte; it panics on a shorter buffer.
unfoldable pub write_header : ℕ → ℕ → Bytes → Result Bytes
write_header circuit_type pi_count (_ ∷ _ ∷ _ ∷ _ ∷ _ ∷ rest) =
    ok (status_byte incomplete ∷ circuit_type ∷ 0 ∷ 0 ∷ pi_count ∷ rest)
write_header circuit_type pi_count _ = err panicked

-- `buffer_data[start..start + chunk.len()].copy_from_slice(chunk)`, where it fits
unfoldable pub copy_at : ℕ → Bytes → Bytes → Bytes
copy_at start chunk bytes = take start bytes ++ (chunk ++ drop (start + length chunk) bytes)

-- `process_upload_chunk` on the buffer's data: the chunk goes behind the header, and the header's
-- bytes 2 and 3 get the end of the chunk.
unfoldable pub write_chunk : ℕ → Bytes → Bytes → Result Bytes
unfolding copy_at
write_chunk offset chunk buffer_data = do
  status ← byte_at buffer_data 0
  require (status == status_byte incomplete) (into already_initialized)
  let data_start = header_size + offset
  let data_end = data_start + length chunk
  require (leb data_end (length buffer_data)) invalid_instruction_data
  let written = copy_at data_start chunk buffer_data
  let new_len = offset + length chunk
  ok (set (set written 2 (new_len % 256)) 3 (new_len / 256 % 256))

module _ (build : Build) where
  unfoldable pub process_initialize : Pubkey → List AccountInfo → Bytes → Ledger → Result Ledger
  process_initialize program_id accounts _ l = do
    (authority, accounts₁) ← next_account_info accounts
    (tree_state_account, accounts₂) ← next_account_info accounts₁
    (system_program, _) ← next_account_info accounts₂
    require authority.is_signer missing_required_signature
    let bump = (tree_state_pda build program_id).1
    require (bytes_eq tree_state_account.key (tree_state_pda build program_id).0)
        invalid_account_data
    require (is_empty (l tree_state_account.key).bytes) (into already_initialized)
    lamports ← build.host.minimum_balance tree_state_size
    created ←
        build.host.invoke_signed
          (create_account_instruction authority.key tree_state_account.key lamports tree_state_size
            program_id)
          (authority ∷ tree_state_account ∷ system_program ∷ [])
          ((tree_state_seeds ++ ((bump ∷ []) ∷ [])) ∷ []) l
    serialize tree_state_account.key (build.tree_codec.to_vec (new_tree_state authority.key))
        created

  unfoldable pub process_init_proof_buffer :
      Pubkey → List AccountInfo → Bytes → Ledger → Result Ledger
  process_init_proof_buffer program_id accounts ix_data l = do
    (payer, accounts₁) ← next_account_info accounts
    (buffer, accounts₂) ← next_account_info accounts₁
    (system_program, _) ← next_account_info accounts₂
    require payer.is_signer missing_required_signature
    require (leb 2 (length ix_data)) invalid_instruction_data
    circuit_type ← byte_at ix_data 0
    pi_count ← byte_at ix_data 1
    _ ← ok_or (circuit_try_from circuit_type) (into invalid_instruction)
    let buffer_size = header_size + pi_count * 32 + state_proof_size build.proof_system
    lamports ← build.host.minimum_balance buffer_size
    created ←
        build.host.invoke_signed
          (create_account_instruction payer.key buffer.key lamports buffer_size program_id)
          (payer ∷ buffer ∷ system_program ∷ []) [] l
    buffer_data ← write_header circuit_type pi_count (created buffer.key).bytes
    ok (set_data buffer.key buffer_data created)

  unfoldable pub process_update_root : Pubkey → List AccountInfo → Bytes → Ledger → Result Ledger
  process_update_root program_id accounts ix_data l = do
    (authority, accounts₁) ← next_account_info accounts
    (tree_state_account, _) ← next_account_info accounts₁
    update_data ← or_else (build.update_root_codec.try_from_slice ix_data) invalid_instruction_data
    require authority.is_signer missing_required_signature
    require (bytes_eq tree_state_account.key (tree_state_pda build program_id).0)
        invalid_account_data
    tree_state ←
        or_else (build.tree_codec.try_from_slice (l tree_state_account.key).bytes)
          (into Error.invalid_account_data)
    require (bytes_eq authority.key tree_state.authority) (into invalid_authority)
    require (update_data.expected_leaf_count == tree_state.leaf_count) (into state_inconsistency)
    updated ← update_root tree_state update_data.new_root
    serialize tree_state_account.key (build.tree_codec.to_vec updated) l

unfoldable pub process_upload_chunk : List AccountInfo → Bytes → Ledger → Result Ledger
process_upload_chunk accounts ix_data l = do
  (buffer, _) ← next_account_info accounts
  require (leb 2 (length ix_data)) invalid_instruction_data
  let offset = from_le_bytes (slice 0 2 ix_data)
  let chunk = drop 2 ix_data
  buffer_data ← write_chunk offset chunk (l buffer.key).bytes
  ok (set_data buffer.key buffer_data l)

-- A data carrier: any bytes are accepted and nothing changes.
unfoldable pub process_post_ciphertexts : Bytes → Ledger → Result Ledger
process_post_ciphertexts _ l = ok l
