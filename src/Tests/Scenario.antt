-- ===== src/Tests/Scenario.antt =====
-- A pool with three proofs uploaded, and the instructions that use them.
use solana_masp.Prelude.{
  ℕ, true, false, List, [], ◌∷◌, ◌++◌, Bytes, bytes_eq, take, replicate, if◌then◌else◌,
}
use solana_masp.Runtime.{Result, ok, err, AccountInfo, Ledger, Pubkey}
use solana_masp.Masp.State.{TreeState, new_tree_state, zero32}
use solana_masp.Masp.Inputs.{
  ShieldInputs, TransferInputs, UnshieldInputs, shield_public_inputs, transfer_public_inputs,
  unshield_public_inputs,
}
use solana_masp.Masp.Inputs.Fields.{concat}
use solana_masp.Masp.Stores.{nullifier_seed, system_program_id}
use solana_masp.Masp.Instructions.{tree_state_seeds}
use solana_masp.Tests.Runtime.{key, verifier_id}
use solana_masp.Tests.World.{tree_to_vec}

abbrev pub program : Pubkey
program = key 66

abbrev pub user : AccountInfo
user = record { key = key 9; is_signer = true; is_writable = true }

abbrev pub at : Pubkey → AccountInfo
at k = record { key = k; is_signer = false; is_writable = true }

abbrev pub tree : Pubkey
unfolding concat
tree = take 32 (concat tree_state_seeds ++ program)

abbrev pub spent_at : Bytes → Pubkey
spent_at n = take 32 (nullifier_seed ++ (n ++ program))

abbrev pub pool : TreeState
unfolding new_tree_state
pool = record (new_tree_state (key 9)) { current_root = key 5; leaf_count = 3 }

abbrev pub shield_inputs : ShieldInputs
shield_inputs = record { commitment = key 30; asset_id = key 1; amount = 1000; ct_hash = key 40 }

abbrev pub transfer_inputs : TransferInputs
transfer_inputs = record {
  anchor = key 5;
  nullifiers = key 21 ∷ key 22 ∷ zero32 ∷ [];
  output_commitments = key 31 ∷ zero32 ∷ key 32 ∷ [];
  input_count = 2;
  output_count = 3;
  ct_hashes = key 41 ∷ key 42 ∷ key 43 ∷ [];
  tx_binding = key 50;
}

abbrev pub unshield_inputs : UnshieldInputs
unshield_inputs = record {
  anchor = key 5;
  nullifier = key 23;
  tx_binding = key 51;
  amount = 700;
  recipient_limbs = 1 ∷ 2 ∷ 3 ∷ 4 ∷ [];
  asset_id = key 1;
}

-- A proof buffer: the header, the public inputs, and a proof that the toy verifier accepts.
abbrev pub uploaded : (circuit low high pi_count : ℕ) → List Bytes → Bytes
uploaded circuit low high pi_count pis =
    0 ∷ circuit ∷ low ∷ high ∷ pi_count ∷ (concat pis ++ (pi_count ∷ replicate 2143 0))

unfoldable pub ledger : Ledger
unfolding concat shield_public_inputs transfer_public_inputs unshield_public_inputs tree_to_vec
ledger k =
    if bytes_eq k tree
    then record { owner = program; bytes = tree_to_vec pool }
    else if bytes_eq k (key 11)
    then record { owner = program; bytes = uploaded 0 224 8 4 (shield_public_inputs shield_inputs) }
    else if bytes_eq k (key 12)
    then record {
      owner = program;
      bytes = uploaded 1 0 10 13 (transfer_public_inputs transfer_inputs);
    }
    else if bytes_eq k (key 13)
    then record {
      owner = program;
      bytes = uploaded 2 128 9 9 (unshield_public_inputs unshield_inputs);
    }
    else record { owner = system_program_id; bytes = [] }

abbrev pub shield_accounts : List AccountInfo
shield_accounts = user ∷ at tree ∷ at (key 11) ∷ at verifier_id ∷ []

abbrev pub transfer_accounts : List AccountInfo
transfer_accounts =
    user
    ∷ at tree
    ∷ at (key 12)
    ∷ at system_program_id
    ∷ at verifier_id
    ∷ at (spent_at (key 21))
    ∷ at (spent_at (key 22))
    ∷ []

abbrev pub unshield_accounts : List AccountInfo
unshield_accounts =
    user
    ∷ at tree
    ∷ at (key 13)
    ∷ at (spent_at (key 23))
    ∷ at system_program_id
    ∷ at verifier_id
    ∷ []

-- The ledger after a call that succeeds.
abbrev pub after : Result Ledger → Ledger → Ledger
after (ok l) before = l
after (err e) before = before
