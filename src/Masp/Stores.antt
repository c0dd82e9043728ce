-- ===== src/Masp/Stores.antt =====
-- programs/solana-masp/src/stores: nullifiers and commitments in the build without an external
-- store, where the program keeps the nullifiers in accounts of its own.
use solana_masp.Prelude.{ℕ, Bool, true, false, [], ◌∷◌, ◌++◌, Bytes, bytes_eq, to_le_bytes}
use solana_masp.Runtime.{
  Result, ok, require, ◌>>=◌, ◌>>◌, invalid_account_data, Host, Borsh, AccountInfo, Instruction,
  Ledger, Pubkey, serialize,
}
use solana_masp.Masp.Error.{into, nullifier_already_spent}
use solana_masp.Masp.State.{NullifierAccount, new_nullifier_account, nullifier_account_size, zero32}

-- `[0; 32]`
abbrev pub system_program_id : Pubkey
system_program_id = zero32

-- `create_account_instruction` (instructions.rs): the discriminant, lamports, space and owner.
unfoldable pub create_account_instruction :
    (from_pubkey to_pubkey : Pubkey) (lamports space : ℕ) (owner : Pubkey) → Instruction
create_account_instruction from_pubkey to_pubkey lamports space owner = record {
  program_id = system_program_id;
  accounts =
      record { pubkey = from_pubkey; is_signer = true; is_writable = true }
      ∷ record { pubkey = to_pubkey; is_signer = true; is_writable = true }
      ∷ [];
  payload = to_le_bytes 4 0 ++ (to_le_bytes 8 lamports ++ (to_le_bytes 8 space ++ owner));
}

-- `account.data_is_empty()`
unfoldable pub is_empty : Bytes → Bool
is_empty [] = true
is_empty (_ ∷ _) = false

-- `b"nullifier"`
abbrev pub nullifier_seed : Bytes
nullifier_seed = b'n' ∷ b'u' ∷ b'l' ∷ b'l' ∷ b'i' ∷ b'f' ∷ b'i' ∷ b'e' ∷ b'r' ∷ []

module _ (host : Host) (codec : Borsh NullifierAccount) where
  -- `nullifier_store::derive_pda`, with the bump
  unfoldable pub derive_pda : Bytes → Pubkey → Pubkey × ℕ
  derive_pda nullifier program_id =
      host.find_program_address (nullifier_seed ∷ nullifier ∷ []) program_id

  -- `nullifier_store::insert`
  unfoldable pub insert_nullifier :
      (authority nullifier_pda system_program : AccountInfo) (nullifier : Bytes)
      (program_id : Pubkey)
      → Ledger
      → Result Ledger
  insert_nullifier authority nullifier_pda system_program nullifier program_id l = do
    let expected_pda = (derive_pda nullifier program_id).0
    let bump = (derive_pda nullifier program_id).1
    require (bytes_eq nullifier_pda.key expected_pda) invalid_account_data
    require (is_empty (l nullifier_pda.key).bytes) (into nullifier_already_spent)
    lamports ← host.minimum_balance nullifier_account_size
    created ←
        host.invoke_signed
          (create_account_instruction authority.key nullifier_pda.key lamports
            nullifier_account_size program_id)
          (authority ∷ nullifier_pda ∷ system_program ∷ [])
          ((nullifier_seed ∷ nullifier ∷ (bump ∷ []) ∷ []) ∷ []) l
    serialize nullifier_pda.key (codec.to_vec (new_nullifier_account nullifier 0)) created

-- `commitment_store::insert` without an external store: the commitment is only logged.
unfoldable pub insert_commitment :
    (authority : AccountInfo) (commitment : Bytes) → Ledger → Result Ledger
insert_commitment authority commitment l = ok l
