-- ===== src/Tests/Client/Mocks.antt =====
-- The sample wallet shields into a mock chain and sends on it, and its requests.
use solana_masp.Prelude.{bytes_eq, ◌+◌, ◌≡◌, ◌≢◌, ◌<◌, ◌^◌, refl, some, [], ◌∷◌, arith}
use solana_masp.Client.Outcome.{done}
use solana_masp.Client.Hash.{field_to_bytes, merkle_hash, poseidon2_hash_noir, ciphertext_hash}
use solana_masp.Client.Keys.{address_field, diversified_address, to_full_viewing_key, ivk, ask, nsk}
use solana_masp.Client.Note.{
  commitment, compute_asset_id, compute_nullifier, tx_binding_transfer, derive_output_nonce_nm,
}
use solana_masp.Client.Store.{new_store, current_root, get_witness, insert_internal}
use solana_masp.Client.Store.Insertion.{new_store-IsStore}
use solana_masp.Client.Chain.{
  MockChain, ProofVerifier, local, new_chain, transfer, is_valid_anchor, verify, insert_nullifiers,
  finish_transfer, ensure, when_verified, and_then,
}
use solana_masp.Client.Proofs.Prover.{mock_verify_local, mock_prove, mock_check}
use solana_masp.Client.Proofs.{
  checked_add_u128, mock_check_spend_authorization, mock_check_transfer,
}
use solana_masp.Client.Requests.{witness_root, verify_local}
use solana_masp.Client.Wallet.{
  TransferData, unspent_notes, total, is_unspent, new_wallet, add_note, balance, find_covering,
  find_note, build_transfer, prepare_spend, transfer_data, mark_spent, add_change,
}
use solana_masp.Client.Wallet.Sending.{AssetsAgree, sent, transfer_to-balance}
use solana_masp.Client.Wallet.Request.{to_request_with_outputs, spend_public, spend_private}
use solana_masp.Client.Wallet.Submit.{
  encrypt_output, encrypt_change, of_chain, on_answer, submit_transfer, transfer_to,
}
use solana_masp.Client.Wallet.Shielding.{
  IsMock, mock_backend, Shielded, shielded_output, shielded_note, shield-Shielded,
}
use solana_masp.Client.Wallet.Build.{
  to_request, commitment_only, commitments_of, to_request-to_request_with_outputs,
}
use solana_masp.Client.Wallet.Operations.{NoteEncryption}
use solana_masp.Tests.Client.Sample.{toy, note, store, witness, wallet, friend}

abbrev mock_verifier : ProofVerifier
mock_verifier = record {
  verify_local = λ pi proof. done (mock_verify_local toy pi proof);
  verify_on_chain = λ pi proof. done (mock_verify_local toy pi proof);
}

unfoldable chain : MockChain
chain = new_chain (new_store toy 2) 16 mock_verifier local

chain-IsMock : IsMock toy chain
unfolding chain new_chain
chain-IsMock = record { mode = refl; checks = λ pi proof. refl }

unfoldable plain : NoteEncryption
plain = record {
  encrypt = λ n address seed. (1 ∷ [], 2 ∷ []);
  try_decrypt = λ bytes fvk index. some note;
}

hashed : (shielded_output toy plain wallet chain (7 ∷ []) 30 8 9 0).1 ≢ 0
unfolding encrypt_output ciphertext_hash poseidon2_hash_noir toy plain
hashed e = absurd (omega (arith, e))

fits :
    total (
        unspent_notes wallet.notes
          (shielded_note toy plain wallet chain (7 ∷ []) 30 8 9 0).asset_id)
      + 30
    < 2 ^ 64
unfolding total unspent_notes is_unspent wallet new_wallet add_note note compute_asset_id
    poseidon2_hash_noir toy
fits = omega arith

shield-Shielded_example : Shielded toy plain wallet chain (7 ∷ []) 30 8 9 0 []
unfolding chain new_chain
shield-Shielded_example =
    shield-Shielded toy plain wallet chain (7 ∷ []) 30 8 9 0 [] chain-IsMock
      (new_store-IsStore toy 2) hashed fits

abbrev planned : TransferData
planned = record {
  anchor = 3;
  spent_commitment = 4;
  membership_witness = witness;
  nf = 5;
  tx_binding = 6;
  spend_note = note;
  output = note;
  change = some note;
}

paid : commitment toy note ≢ 0
unfolding commitment toy note poseidon2_hash_noir address_field diversified_address ivk ask nsk
    to_full_viewing_key
paid e = absurd (omega (arith, e))

to_request-to_request_with_outputs_example :
    to_request toy planned (1 ∷ [])
    ≡ to_request_with_outputs planned
        (1 ∷ [])
        (commitment_only (commitment toy note))
        (commitments_of toy (some note))
        (to_request toy planned (1 ∷ [])).ct_hashes
to_request-to_request_with_outputs_example =
    to_request-to_request_with_outputs toy planned (1 ∷ []) paid
      (λ n e. let same : n ≡ note = ground arith in rw (same) paid)

-- The chain once the sample note is in its tree
unfoldable funded : MockChain
funded = new_chain store 16 mock_verifier local

-- The transfer of 60 is proved, accepted, and paid for: 40 of the 100 are left.
left :
    balance (transfer_to toy plain (mock_backend toy) wallet funded friend 60 42 5 6 7 8).0.notes 42
    ≡ 40
unfolding transfer_to submit_transfer find_covering balance total unspent_notes is_unspent
    build_transfer prepare_spend find_note transfer_data mark_spent add_change encrypt_output
    encrypt_change of_chain on_answer spend_public spend_private to_request_with_outputs
    mock_backend mock_prove mock_check mock_check_transfer get_witness transfer funded new_chain
    store insert_internal new_store wallet new_wallet add_note note toy friend plain
    poseidon2_hash_noir ivk ask nsk merkle_hash address_field diversified_address
    to_full_viewing_key commitment compute_nullifier tx_binding_transfer derive_output_nonce_nm
    ciphertext_hash verify_local mock_check_spend_authorization checked_add_u128 witness_root
    is_valid_anchor verify insert_nullifiers finish_transfer mock_verify_local current_root ensure
    when_verified bytes_eq field_to_bytes and_then
left = refl

is_small : total (unspent_notes wallet.notes 42) < 2 ^ 64
unfolding total unspent_notes is_unspent wallet new_wallet add_note note
is_small = omega arith

agrees : AssetsAgree wallet.notes
unfolding find_note wallet new_wallet add_note commitment
agrees = (λ m e. ground arith, tt)

transfer_to-balance_example :
    (let ran = transfer_to toy plain (mock_backend toy) wallet funded friend 60 42 5 6 7 8 in
      balance ran.0.notes 42 + sent toy (mock_backend toy) ran.2 60 ≡ balance wallet.notes 42)
transfer_to-balance_example =
    transfer_to-balance toy (mock_backend toy) plain wallet funded friend 60 42 5 6 7 8 agrees
      is_small
