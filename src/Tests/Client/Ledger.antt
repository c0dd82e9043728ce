-- ===== src/Tests/Client/Ledger.antt =====
-- The tree and the chain on concrete actions.
use solana_masp.Prelude.{
  ◌≡◌, ◌≢◌, refl, Bool, true, false, none, [], ◌∷◌, Bytes, ◌==◌, if◌then◌else◌, ◌++◌, arith,
}
use solana_masp.Client.Outcome.{done}
use solana_masp.Client.Hash.{merkle_hash, poseidon2_hash_noir}
use solana_masp.Client.MerkleTree.Reference.{leaf_at, subtree}
use solana_masp.Client.Requests.{
  MembershipWitness, PublicInputs, ShieldRequest, TransferOutput, TransferRequest, UnshieldRequest,
  enabled_nullifiers, verify_local, witness_root,
}
use solana_masp.Client.Store.{
  MockStore, contains, current_root, get_witness, is_valid_anchor_sync, new_store, insert_internal,
}
use solana_masp.Client.Store.Insertion.{IsStore, new_store-IsStore}
use solana_masp.Client.Store.Witnesses.{
  insert_all, insert_all-IsStore, current_root_full, current_root-insert_all,
  get_witness-insert_all,
}
use solana_masp.Client.Store.Anchors.{is_valid_anchor_sync-insert_all}
use solana_masp.Client.Chain.{
  MockChain, ProofVerifier, local, new_chain, transfer, finish_transfer, ensure, when_verified,
  and_then, insert_nullifier, insert_nullifiers, is_valid_anchor, verify, next_tx_sig,
}
use solana_masp.Client.Chain.DoubleSpend.{
  do_shield, do_transfer, do_unshield, do_insert_nullifier, succeeded, reveals, run_action,
  run_actions,
}
use solana_masp.Client.Chain.Accepted.{revealed_once}
use solana_masp.Client.Chain.Effects.{Counted, new_leaves, run_action-IsStore}
use solana_masp.Client.Chain.Ledger.{accepted_leaves, current_root-run_actions}
use solana_masp.Client.Chain.Signatures.{next_tx_sig_fresh}
use solana_masp.Tests.Client.Sample.{toy, sig}

get_witness-insert_all_example :
    (w : MembershipWitness) × (get_witness (insert_all toy (new_store toy 2) (5 ∷ 6 ∷ 7 ∷ []) sig) 6
      ≡ done w)
    × (verify_local toy w 6 ≡ true)
    × (witness_root w ≡ subtree toy (leaf_at (5 ∷ 6 ∷ 7 ∷ [])) 2 0)
unfolding contains
get_witness-insert_all_example =
    get_witness-insert_all toy 2 (5 ∷ 6 ∷ 7 ∷ []) sig 6 (omega arith) refl

current_root-insert_all_example :
    current_root (insert_all toy (new_store toy 2) (5 ∷ 6 ∷ 7 ∷ []) sig)
    ≡ subtree toy (leaf_at (5 ∷ 6 ∷ 7 ∷ [])) 2 0
current_root-insert_all_example = current_root-insert_all toy 2 (5 ∷ 6 ∷ 7 ∷ []) sig

unfoldable full : MockStore
full = insert_all toy (new_store toy 1) (5 ∷ 6 ∷ []) sig

full-IsStore : IsStore toy full (5 ∷ 6 ∷ [])
unfolding full
full-IsStore =
    insert_all-IsStore toy (5 ∷ 6 ∷ []) (new_store toy 1) [] sig (new_store-IsStore toy 1)

current_root_full_example : current_root (insert_internal toy full 7 sig).0 ≡ current_root full
unfolding full insert_all new_store insert_internal
current_root_full_example = current_root_full toy full (5 ∷ 6 ∷ []) full-IsStore 7 sig (omega arith)

is_valid_anchor_sync-insert_all_example :
    is_valid_anchor_sync
      (insert_all toy (insert_internal toy (new_store toy 2) 5 sig).0 (6 ∷ 7 ∷ []) sig)
      (insert_internal toy (new_store toy 2) 5 sig).2
    ≡ true
is_valid_anchor_sync-insert_all_example =
    is_valid_anchor_sync-insert_all toy (new_store toy 2) 5 (6 ∷ 7 ∷ []) sig (omega arith)

-- A verifier that accepts the proofs that start with 1
accepts : PublicInputs → Bytes → Bool
accepts pi [] = false
accepts pi (b ∷ bytes) = b == 1

abbrev lenient : ProofVerifier
lenient = record {
  verify_local = λ pi proof. done (accepts pi proof);
  verify_on_chain = λ pi proof. done (accepts pi proof);
}

unfoldable chain : MockChain
chain = new_chain (new_store toy 2) 16 lenient local

abbrev deposit : ShieldRequest
deposit = record {
  token_address = 1 ∷ [];
  amount = 10;
  commitment = 5;
  shield_proof = 1 ∷ [];
  ciphertext = none;
  ephemeral_key = none;
  ct_hash = 1;
}

abbrev no_output : TransferOutput
no_output = record { commitment = 0; ciphertext = none; ephemeral_key = none }

unfoldable payment : TransferRequest
payment = record {
  anchor = current_root (new_store toy 2);
  nullifiers = 9 ∷ 0 ∷ 0 ∷ [];
  input_count = 1;
  output_count = 1;
  ct_hashes = 3 ∷ 0 ∷ 0 ∷ [];
  tx_binding = 4;
  spend_proof = 1 ∷ [];
  outputs =
      record { commitment = 6; ciphertext = none; ephemeral_key = none }
      ∷ no_output
      ∷ no_output
      ∷ [];
}

unfoldable withdrawal : UnshieldRequest
withdrawal = record {
  anchor = current_root (new_store toy 2);
  nullifier = 9;
  tx_binding = 4;
  spend_proof = 1 ∷ [];
  recipient = [];
  amount = 10;
  token_address = 1 ∷ [];
}

transfer_reveals : reveals (do_transfer payment) 9 ≡ true
unfolding reveals contains enabled_nullifiers payment
transfer_reveals = refl

unshield_reveals : reveals (do_unshield withdrawal) 9 ≡ true
unfolding reveals withdrawal
unshield_reveals = refl

payment_accepted : (run_action toy (do_transfer payment) chain).1 ≡ true
unfolding run_action succeeded transfer finish_transfer ensure when_verified and_then payment chain
    new_chain accepts current_root new_store insert_nullifier insert_nullifiers is_valid_anchor
    contains verify enabled_nullifiers next_tx_sig merkle_hash poseidon2_hash_noir toy
payment_accepted = refl

revealed_once_example :
    (run_action toy
      (do_unshield withdrawal)
      (run_actions toy (do_shield deposit ∷ []) (run_action toy (do_transfer payment) chain).0)).1
    ≡ false
revealed_once_example =
    revealed_once toy 9 chain (do_transfer payment) (do_shield deposit ∷ [])
      (do_unshield withdrawal) transfer_reveals unshield_reveals payment_accepted

current_root-run_actions_example :
    current_root
      (run_actions toy
        (do_shield deposit ∷ do_transfer payment ∷ [])
        (new_chain (new_store toy 2) 16 lenient local)).note_store
    ≡ subtree toy
        (leaf_at (
          accepted_leaves toy
            (do_shield deposit ∷ do_transfer payment ∷ [])
            (new_chain (new_store toy 2) 16 lenient local)))
        (run_actions toy
          (do_shield deposit ∷ do_transfer payment ∷ [])
          (new_chain (new_store toy 2) 16 lenient local)).note_store.depth
        0
unfolding Counted payment
current_root-run_actions_example =
    current_root-run_actions toy (do_shield deposit ∷ do_transfer payment ∷ []) 2 16 lenient local
      (tt, (omega arith, tt))

run_action-IsStore_example : IsStore toy (run_action toy (do_shield deposit) chain).0.note_store (
    if (run_action toy (do_shield deposit) chain).1
    then [] ++ new_leaves (do_shield deposit)
    else [])
unfolding Counted chain new_chain
run_action-IsStore_example =
    run_action-IsStore toy (do_shield deposit) chain [] tt (new_store-IsStore toy 2)

next_tx_sig_fresh_example :
    (next_tx_sig
      (run_actions toy (do_shield deposit ∷ do_insert_nullifier 9 ∷ []) (next_tx_sig chain).0)).1
    ≢ (next_tx_sig chain).1
next_tx_sig_fresh_example =
    next_tx_sig_fresh toy chain (do_shield deposit ∷ do_insert_nullifier 9 ∷ [])
