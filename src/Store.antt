-- ===== src/Store.antt =====
-- programs/mock-commitment-store: the store of commitments and nullifiers for local testing.
pub mod Roots
pub mod Nullifiers
use solana_masp.Prelude.{
  ℕ, zero, suc, ◌+◌, ◌*◌, ◌/◌, ◌%◌, ◌^◌, Bool, true, false, List, [], ◌∷◌, ◌++◌, Bytes, bytes_eq,
  ltb, leb, not, ◌==◌, if◌then◌else◌, length, set, replicate, to_le_bytes,
}
use solana_masp.Runtime.{
  ProgramError, custom, Result, ok, err, require, or_else, ◌>>=◌, ◌>>◌, panicked,
  missing_required_signature, invalid_instruction_data, invalid_account_data, Host, Borsh,
  AccountInfo, Ledger, Pubkey, Instruction, next_account_info, serialize,
}
use solana_masp.Masp.Stores.{is_empty}

-- error.rs
pub data StoreError : Type 0 where
  nullifier_already_spent tree_full invalid_anchor not_initialized : StoreError
  already_initialized bad_account_data invalid_authority : StoreError

abbrev pub discriminant : StoreError → ℕ
discriminant nullifier_already_spent = 0
discriminant tree_full = 1
discriminant invalid_anchor = 2
discriminant not_initialized = 3
discriminant already_initialized = 4
discriminant bad_account_data = 5
discriminant invalid_authority = 6

abbrev pub into : StoreError → ProgramError
into e = custom (discriminant e)

-- state.rs
abbrev pub tree_depth : ℕ
tree_depth = 16

abbrev pub max_leaves : ℕ
max_leaves = 2 ^ tree_depth

abbrev pub anchor_history_size : ℕ
anchor_history_size = 16

pub record StoreState : Type 0 where
  pub version : ℕ
  pub current_root : Bytes
  pub leaf_count : ℕ
  pub anchor_history : List Bytes
  pub anchor_history_index : ℕ
  pub authority : Pubkey
  pub reserved : Bytes

abbrev pub store_state_size : ℕ
store_state_size = 1 + 32 + 8 + 32 * anchor_history_size + 1 + 32 + 64

-- `[0u8; 32]`, which is also `empty_tree_root`
abbrev pub empty_tree_root : Bytes
empty_tree_root = replicate 32 0

-- `StoreState::new`
unfoldable pub new_store_state : Pubkey → StoreState
new_store_state authority = record {
  version = 1;
  current_root = empty_tree_root;
  leaf_count = 0;
  anchor_history = replicate anchor_history_size empty_tree_root;
  anchor_history_index = 0;
  authority = authority;
  reserved = replicate 64 0;
}

-- The loop of `is_valid_anchor`
unfoldable pub is_recent : Bytes → List Bytes → Bool
is_recent anchor [] = false
is_recent anchor (root ∷ roots) =
    let later = is_recent anchor roots in if bytes_eq anchor root then true else later

unfoldable pub is_valid_anchor : StoreState → Bytes → Bool
unfolding is_recent
is_valid_anchor s anchor =
    if bytes_eq anchor s.current_root then true else is_recent anchor s.anchor_history

-- The write at an index outside the array panics.
unfoldable pub update_root : StoreState → Bytes → Result StoreState
update_root s new_root =
    let idx = s.anchor_history_index in
    if ltb idx (length s.anchor_history)
    then ok (record s {
      anchor_history = set s.anchor_history idx s.current_root;
      anchor_history_index = (idx + 1) % anchor_history_size % 256;
      current_root = new_root;
    })
    else err panicked

unfoldable pub is_full : StoreState → Bool
is_full s = leb max_leaves s.leaf_count

pub record NullifierAccount : Type 0 where
  pub version : ℕ
  pub nullifier : Bytes
  pub spent_slot : ℕ

abbrev pub nullifier_account_size : ℕ
nullifier_account_size = 1 + 32 + 8

-- `NullifierAccount::new`
unfoldable pub new_nullifier_account : Bytes → ℕ → NullifierAccount
new_nullifier_account nullifier spent_slot = record {
  version = 1;
  nullifier = nullifier;
  spent_slot = spent_slot;
}

-- instructions.rs: the System program and its instruction, whose fields fill the 52 bytes
abbrev pub system_program_id : Pubkey
system_program_id = replicate 32 0

unfoldable pub create_account_instruction :
    (from_pubkey to_pubkey : Pubkey) (lamports space : ℕ) (owner : Pubkey) → Instruction
create_account_instruction from_pubkey to_pubkey lamports space owner = record {
  program_id = system_program_id;
  accounts =
      record { pubkey = from_pubkey; is_signer = true; is_writable = true }
      ∷ record { pubkey = to_pubkey; is_signer = true; is_writable = true }
      ∷ [];
  payload = to_le_bytes 4 0 ++ (to_le_bytes 8 lamports ++ (to_le_bytes 8 space ++ owner));
}

-- `b"nullifier"`
abbrev pub nullifier_seed : Bytes
nullifier_seed = b'n' ∷ b'u' ∷ b'l' ∷ b'l' ∷ b'i' ∷ b'f' ∷ b'i' ∷ b'e' ∷ b'r' ∷ []

-- `a ^ b` on numbers of `w` bits
unfoldable pub xor_bits : ℕ → ℕ → ℕ → ℕ
xor_bits zero a b = 0
xor_bits (suc w) a b = (a % 2 + b % 2) % 2 + 2 * xor_bits w (a / 2) (b / 2)

-- The loop that mixes the commitment into the root, byte by byte.
unfoldable pub xor_bytes : Bytes → Bytes → Bytes
unfolding xor_bits
xor_bytes [] ys = []
xor_bytes (a ∷ xs) [] = []
xor_bytes (a ∷ xs) (b ∷ ys) = xor_bits 8 a b ∷ xor_bytes xs ys

-- What `process_insert_commitment` does to the state that it loaded.
unfoldable pub insert_leaf : StoreState → Bytes → Result StoreState
insert_leaf s commitment = do
  require (not (is_full s)) (into tree_full)
  updated ← update_root s (xor_bytes s.current_root commitment)
  ok (record updated { leaf_count = updated.leaf_count + 1 })

-- What the program runs with. The instruction data are one array each.
pub record StoreBuild : Type 0 where
  pub host : Host
  pub store_codec : Borsh StoreState
  pub nullifier_codec : Borsh NullifierAccount
  pub commitment_codec : Borsh Bytes
  pub insert_nullifier_codec : Borsh Bytes

-- `StoreState::SEEDS`: "mock_store", "state"
abbrev pub store_seeds : List Bytes
store_seeds =
    (b'm' ∷ b'o' ∷ b'c' ∷ b'k' ∷ b'_' ∷ b's' ∷ b't' ∷ b'o' ∷ b'r' ∷ b'e' ∷ [])
    ∷ (b's' ∷ b't' ∷ b'a' ∷ b't' ∷ b'e' ∷ [])
    ∷ []

module _ (build : StoreBuild) where
  unfoldable pub process_initialize : Pubkey → List AccountInfo → Bytes → Ledger → Result Ledger
  process_initialize program_id accounts _ l = do
    (authority, accounts₁) ← next_account_info accounts
    (store_state_account, accounts₂) ← next_account_info accounts₁
    (system_program, _) ← next_account_info accounts₂
    require authority.is_signer missing_required_signature
    let expected_pda = (build.host.find_program_address store_seeds program_id).0
    let bump = (build.host.find_program_address store_seeds program_id).1
    require (bytes_eq store_state_account.key expected_pda) invalid_account_data
    require (is_empty (l store_state_account.key).bytes) (into already_initialized)
    lamports ← build.host.minimum_balance store_state_size
    created ←
        build.host.invoke_signed
          (create_account_instruction authority.key store_state_account.key lamports
            store_state_size program_id)
          (authority ∷ store_state_account ∷ system_program ∷ [])
          ((store_seeds ++ ((bump ∷ []) ∷ [])) ∷ []) l
    serialize store_state_account.key (build.store_codec.to_vec (new_store_state authority.key))
        created

  unfoldable pub process_insert_commitment :
      Pubkey → List AccountInfo → Bytes → Ledger → Result Ledger
  process_insert_commitment program_id accounts ix_data l = do
    (authority, accounts₁) ← next_account_info accounts
    (store_state_account, _) ← next_account_info accounts₁
    commitment ← or_else (build.commitment_codec.try_from_slice ix_data) invalid_instruction_data
    require authority.is_signer missing_required_signature
    let expected_pda = (build.host.find_program_address store_seeds program_id).0
    require (bytes_eq store_state_account.key expected_pda) invalid_account_data
    store_state ←
        or_else (build.store_codec.try_from_slice (l store_state_account.key).bytes)
          (into bad_account_data)
    updated ← insert_leaf store_state commitment
    serialize store_state_account.key (build.store_codec.to_vec updated) l

  unfoldable pub process_insert_nullifier :
      Pubkey → List AccountInfo → Bytes → Ledger → Result Ledger
  process_insert_nullifier program_id accounts ix_data l = do
    (authority, accounts₁) ← next_account_info accounts
    (nullifier_account, accounts₂) ← next_account_info accounts₁
    (system_program, _) ← next_account_info accounts₂
    nullifier ←
        or_else (build.insert_nullifier_codec.try_from_slice ix_data) invalid_instruction_data
    require authority.is_signer missing_required_signature
    let expected_pda =
        (build.host.find_program_address (nullifier_seed ∷ nullifier ∷ []) program_id).0
    let bump = (build.host.find_program_address (nullifier_seed ∷ nullifier ∷ []) program_id).1
    require (bytes_eq nullifier_account.key expected_pda) invalid_account_data
    require (is_empty (l nullifier_account.key).bytes) (into nullifier_already_spent)
    lamports ← build.host.minimum_balance nullifier_account_size
    created ←
        build.host.invoke_signed
          (create_account_instruction authority.key nullifier_account.key lamports
            nullifier_account_size program_id)
          (authority ∷ nullifier_account ∷ system_program ∷ [])
          ((nullifier_seed ∷ nullifier ∷ (bump ∷ []) ∷ []) ∷ []) l
    serialize nullifier_account.key
        (build.nullifier_codec.to_vec (new_nullifier_account nullifier 0)) created

  unfoldable pub process_instruction : Pubkey → List AccountInfo → Bytes → Ledger → Result Ledger
  process_instruction program_id accounts [] l = err invalid_instruction_data
  process_instruction program_id accounts (discriminator ∷ payload) l =
      if discriminator == 0
      then process_initialize program_id accounts payload l
      else if discriminator == 1
      then process_insert_commitment program_id accounts payload l
      else if discriminator == 2
      then process_insert_nullifier program_id accounts payload l
      else err invalid_instruction_data
