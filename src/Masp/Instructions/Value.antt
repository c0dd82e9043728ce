-- ===== src/Masp/Instructions/Value.antt =====
-- Shield, Transfer and Unshield.
use solana_masp.Prelude.{ℕ, zero, suc, true, false, List, [], ◌∷◌, Bytes, bytes_eq}
use solana_masp.Runtime.{
  Result, ok, err, require, ok_or, ◌>>=◌, ◌>>◌, panicked, missing_required_signature, AccountInfo,
  Ledger, Pubkey, next_account_info, serialize,
}
use solana_masp.Protocol.{ShieldData, TransferData, UnshieldData}
use solana_masp.Masp.Error.{into, invalid_anchor, overflow}
use solana_masp.Masp.State.{
  TreeState, is_valid_anchor, increment_leaf_count, zero32, shield, transfer, unshield,
}
use solana_masp.Masp.Inputs.{
  ShieldInputs, shield_from_buffer, shield_from_data, shield_public_inputs, TransferInputs,
  transfer_from_buffer, transfer_from_data, transfer_public_inputs, UnshieldInputs,
  unshield_from_buffer, unshield_from_data, unshield_public_inputs,
}
use solana_masp.Masp.Verify.{ProofSystem, ultra_plonk, groth16, mock}
use solana_masp.Masp.Stores.{insert_nullifier, insert_commitment}
use solana_masp.Masp.Build.{Build}
use solana_masp.Masp.Instructions.Checks.{load_unpaused, check_circuit, verify_step}

-- One more leaf, or the program's overflow error.
abbrev pub count_leaf : TreeState → Result TreeState
count_leaf s = ok_or (increment_leaf_count s) (into overflow)

-- The loop over the outputs: an enabled commitment is inserted and counted.
unfoldable pub insert_outputs :
    ℕ → List Bytes → AccountInfo → TreeState → Ledger → Result (TreeState × Ledger)
unfolding insert_commitment
insert_outputs zero commitments authority s l = ok (s, l)
insert_outputs (suc n) [] authority s l = err panicked
insert_outputs (suc n) (commitment ∷ rest) authority s l = elim (bytes_eq commitment zero32) [
  | true ↦ insert_outputs n rest authority s l
  | false ↦ insert_commitment authority commitment l >>= λ l'.
      count_leaf s >>= λ s'. insert_outputs n rest authority s' l'
]

-- `ShieldInputs::extract`, and so below, in a build with the given proof system
unfoldable pub shield_extract :
    ProofSystem → AccountInfo → ShieldData → Ledger → Result ShieldInputs
shield_extract ultra_plonk proof_buffer shield_data l =
    shield_from_buffer (l proof_buffer.key).bytes
shield_extract groth16 proof_buffer shield_data l = shield_from_data shield_data
shield_extract mock proof_buffer shield_data l = shield_from_data shield_data

unfoldable pub transfer_extract :
    ProofSystem → AccountInfo → TransferData → Ledger → Result TransferInputs
transfer_extract ultra_plonk proof_buffer transfer_data l =
    transfer_from_buffer (l proof_buffer.key).bytes
transfer_extract groth16 proof_buffer transfer_data l = transfer_from_data transfer_data
transfer_extract mock proof_buffer transfer_data l = transfer_from_data transfer_data

unfoldable pub unshield_extract :
    ProofSystem → AccountInfo → UnshieldData → Ledger → Result UnshieldInputs
unshield_extract ultra_plonk proof_buffer unshield_data l =
    unshield_from_buffer (l proof_buffer.key).bytes
unshield_extract groth16 proof_buffer unshield_data l = unshield_from_data unshield_data
unshield_extract mock proof_buffer unshield_data l = unshield_from_data unshield_data

module _ (build : Build) where
  -- The loop over the nullifiers: an enabled one is marked as spent in the next account. The index
  -- panics beyond the array.
  unfoldable pub mark_nullifiers :
      ℕ
      → List Bytes
      → (authority system_program : AccountInfo) → Pubkey
      → List AccountInfo
      → Ledger
      → Result Ledger
  mark_nullifiers zero nullifiers authority system_program program_id accounts l = ok l
  mark_nullifiers (suc n) [] authority system_program program_id accounts l = err panicked
  mark_nullifiers (suc n) (nullifier ∷ rest) authority system_program program_id accounts l =
      elim (bytes_eq nullifier zero32) [
        | true ↦ mark_nullifiers n rest authority system_program program_id accounts l
        | false ↦ next_account_info accounts >>= λ next.
            insert_nullifier build.host build.nullifier_codec authority next.0 system_program
              nullifier program_id l
            >>= λ l'. mark_nullifiers n rest authority system_program program_id next.1 l'
      ]

  unfoldable pub process_shield : Pubkey → List AccountInfo → Bytes → Ledger → Result Ledger
  process_shield program_id accounts ix_data l = do
    (depositor, accounts₁) ← next_account_info accounts
    (tree_state_account, accounts₂) ← next_account_info accounts₁
    (proof_buffer, accounts₃) ← next_account_info accounts₂
    require depositor.is_signer missing_required_signature
    shield_data ← build.shield_codec.try_from_slice ix_data
    tree_state ← load_unpaused build program_id tree_state_account l
    check_circuit build shield proof_buffer l
    inputs ← shield_extract build.proof_system proof_buffer shield_data l
    (l₁, _) ←
        verify_step build build.proof_system shield (shield_public_inputs inputs) depositor
          proof_buffer accounts₃ l
    l₂ ← insert_commitment depositor inputs.commitment l₁
    counted ← count_leaf tree_state
    serialize tree_state_account.key (build.tree_codec.to_vec counted) l₂

  unfoldable pub process_transfer : Pubkey → List AccountInfo → Bytes → Ledger → Result Ledger
  process_transfer program_id accounts ix_data l = do
    (authority, accounts₁) ← next_account_info accounts
    (tree_state_account, accounts₂) ← next_account_info accounts₁
    (proof_buffer, accounts₃) ← next_account_info accounts₂
    (system_program, accounts₄) ← next_account_info accounts₃
    require authority.is_signer missing_required_signature
    transfer_data ← build.transfer_codec.try_from_slice ix_data
    tree_state ← load_unpaused build program_id tree_state_account l
    check_circuit build transfer proof_buffer l
    inputs ← transfer_extract build.proof_system proof_buffer transfer_data l
    require (is_valid_anchor tree_state inputs.anchor) (into invalid_anchor)
    (l₁, accounts₅) ←
        verify_step build build.proof_system transfer (transfer_public_inputs inputs) authority
          proof_buffer accounts₄ l
    l₂ ←
        mark_nullifiers inputs.input_count inputs.nullifiers authority system_program program_id
          accounts₅ l₁
    (counted, l₃) ←
        insert_outputs inputs.output_count inputs.output_commitments authority tree_state l₂
    serialize tree_state_account.key (build.tree_codec.to_vec counted) l₃

  unfoldable pub process_unshield : Pubkey → List AccountInfo → Bytes → Ledger → Result Ledger
  process_unshield program_id accounts ix_data l = do
    (authority, accounts₁) ← next_account_info accounts
    (tree_state_account, accounts₂) ← next_account_info accounts₁
    (proof_buffer, accounts₃) ← next_account_info accounts₂
    (nullifier_account, accounts₄) ← next_account_info accounts₃
    (system_program, accounts₅) ← next_account_info accounts₄
    require authority.is_signer missing_required_signature
    unshield_data ← build.unshield_codec.try_from_slice ix_data
    tree_state ← load_unpaused build program_id tree_state_account l
    check_circuit build unshield proof_buffer l
    inputs ← unshield_extract build.proof_system proof_buffer unshield_data l
    require (is_valid_anchor tree_state inputs.anchor) (into invalid_anchor)
    (l₁, _) ←
        verify_step build build.proof_system unshield (unshield_public_inputs inputs) authority
          proof_buffer accounts₅ l
    insert_nullifier build.host build.nullifier_codec authority nullifier_account system_program
        inputs.nullifier program_id l₁
