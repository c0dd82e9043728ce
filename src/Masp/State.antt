-- ===== src/Masp/State.antt =====
-- programs/solana-masp/src/state.rs: the tree state, the nullifier marker, the proof buffer.
pub mod Anchors
pub mod Window
use solana_masp.Prelude.{
  ℕ, zero, suc, ◌+◌, ◌*◌, ◌%◌, ◌^◌, Bool, true, false, ◌||◌, Option, none, some, List, [], ◌∷◌,
  Bytes, bytes_eq, ltb, if◌then◌else◌, replicate, length, set,
}
use solana_masp.Runtime.{Result, ok, err, panicked, Pubkey}

abbrev pub anchor_history_size : ℕ
anchor_history_size = 16

-- The size of an UltraPlonk proof, and of a proof in every build but the mock one.
abbrev pub proof_size : ℕ
proof_size = 2144

-- `[0u8; 32]`
abbrev pub zero32 : Bytes
zero32 = replicate 32 0

pub record TreeState : Type 0 where
  pub version : ℕ
  pub current_root : Bytes
  pub leaf_count : ℕ
  pub anchor_history : List Bytes
  pub anchor_history_index : ℕ
  pub authority : Pubkey
  pub paused : Bool
  pub reserved : Bytes

-- `TreeState::VERSION` and `TreeState::SIZE`
abbrev pub tree_state_version : ℕ
tree_state_version = 1

abbrev pub tree_state_size : ℕ
tree_state_size = 1 + 32 + 8 + 32 * anchor_history_size + 1 + 32 + 1 + 64

abbrev pub empty_tree_root : Bytes
empty_tree_root = zero32

-- `TreeState::new`
unfoldable pub new_tree_state : Pubkey → TreeState
new_tree_state authority = record {
  version = tree_state_version;
  current_root = empty_tree_root;
  leaf_count = 0;
  anchor_history = replicate anchor_history_size zero32;
  anchor_history_index = 0;
  authority = authority;
  paused = false;
  reserved = replicate 64 0;
}

-- `for root in &self.anchor_history { if anchor == root { return true; } } false`
unfoldable pub in_history : Bytes → List Bytes → Bool
in_history anchor [] = false
in_history anchor (root ∷ rest) =
    let later = in_history anchor rest in if bytes_eq anchor root then true else later

unfoldable pub is_valid_anchor : TreeState → Bytes → Bool
unfolding in_history
is_valid_anchor s anchor =
    if bytes_eq anchor s.current_root then true else in_history anchor s.anchor_history

-- The write at an index outside the array panics.
unfoldable pub update_root : TreeState → Bytes → Result TreeState
update_root s new_root =
    let idx = s.anchor_history_index in
    if ltb idx (length s.anchor_history)
    then ok (record s {
      anchor_history = set s.anchor_history idx s.current_root;
      anchor_history_index = (idx + 1) % anchor_history_size % 256;
      current_root = new_root;
    })
    else err panicked

-- `checked_add(1)` on a u64
unfoldable pub increment_leaf_count : TreeState → Option TreeState
increment_leaf_count s =
    if ltb (s.leaf_count + 1) (2 ^ 64)
    then some (record s { leaf_count = s.leaf_count + 1 })
    else none

pub record NullifierAccount : Type 0 where
  pub version : ℕ
  pub nullifier : Bytes
  pub spent_slot : ℕ

abbrev pub nullifier_account_size : ℕ
nullifier_account_size = 1 + 32 + 8

-- `NullifierAccount::new`
abbrev pub new_nullifier_account : Bytes → ℕ → NullifierAccount
new_nullifier_account nullifier spent_slot = record {
  version = 1;
  nullifier = nullifier;
  spent_slot = spent_slot;
}

pub data BufferStatus : Type 0 where
  incomplete ready verified : BufferStatus

-- `status as u8`
abbrev pub status_byte : BufferStatus → ℕ
status_byte incomplete = 0
status_byte ready = 1
status_byte verified = 2

-- `ProofBufferHeader::SIZE`; the header is [status, circuit_type, data_len (u16 LE), pi_count].
abbrev pub header_size : ℕ
header_size = 5

pub data CircuitType : Type 0 where
  shield transfer unshield : CircuitType

-- `circuit as u8`
abbrev pub circuit_byte : CircuitType → ℕ
circuit_byte shield = 0
circuit_byte transfer = 1
circuit_byte unshield = 2

-- `CircuitType::try_from`
unfoldable pub circuit_try_from : ℕ → Option CircuitType
circuit_try_from zero = some shield
circuit_try_from (suc zero) = some transfer
circuit_try_from (suc (suc zero)) = some unshield
circuit_try_from (suc (suc (suc _))) = none
