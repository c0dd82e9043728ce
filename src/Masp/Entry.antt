-- ===== src/Masp/Entry.antt =====
-- `process_instruction` (programs/solana-masp/src/lib.rs).
use solana_masp.Prelude.{ℕ, ◌&&◌, List, [], ◌∷◌, Bytes, ◌==◌, if◌then◌else◌}
use solana_masp.Runtime.{Result, err, invalid_instruction_data, AccountInfo, Ledger, Pubkey}
use solana_masp.Masp.Build.{Build}
use solana_masp.Masp.Instructions.{
  process_initialize, process_init_proof_buffer, process_upload_chunk, process_shield,
  process_transfer, process_unshield, process_update_root, process_post_ciphertexts,
}

-- The discriminators
abbrev pub ix_initialize : ℕ
ix_initialize = 0

abbrev pub ix_init_proof_buffer : ℕ
ix_init_proof_buffer = 1

abbrev pub ix_upload_chunk : ℕ
ix_upload_chunk = 2

abbrev pub ix_shield : ℕ
ix_shield = 3

abbrev pub ix_transfer : ℕ
ix_transfer = 4

abbrev pub ix_unshield : ℕ
ix_unshield = 5

abbrev pub ix_update_root : ℕ
ix_update_root = 6

abbrev pub ix_post_ciphertexts : ℕ
ix_post_ciphertexts = 7

unfoldable pub process_instruction :
    Build → Pubkey → List AccountInfo → Bytes → Ledger → Result Ledger
process_instruction build program_id accounts [] l = err invalid_instruction_data
process_instruction build program_id accounts (discriminator ∷ payload) l =
    if discriminator == ix_initialize
    then process_initialize build program_id accounts payload l
    else if discriminator == ix_init_proof_buffer
    then process_init_proof_buffer build program_id accounts payload l
    else if discriminator == ix_upload_chunk
    then process_upload_chunk accounts payload l
    else if discriminator == ix_shield
    then process_shield build program_id accounts payload l
    else if discriminator == ix_transfer
    then process_transfer build program_id accounts payload l
    else if discriminator == ix_unshield
    then process_unshield build program_id accounts payload l
    else if build.local_testing && discriminator == ix_update_root
    then process_update_root build program_id accounts payload l
    else if discriminator == ix_post_ciphertexts
    then process_post_ciphertexts payload l
    else err invalid_instruction_data
