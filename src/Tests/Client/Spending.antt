-- ===== src/Tests/Client/Spending.antt =====
-- The sample wallet sends 60 of its 100, and syncs.
use solana_masp.Prelude.{◌≡◌, refl, false, none, some, [], ◌∷◌, Bytes, map, ltb, arith}
use solana_masp.Client.Outcome.{done}
use solana_masp.Client.Hash.{merkle_hash, poseidon2_hash_noir, ciphertext_hash}
use solana_masp.Client.Keys.{address_field, diversified_address, to_full_viewing_key, ivk, ask, nsk}
use solana_masp.Client.Note.{commitment}
use solana_masp.Client.Requests.{OutputCiphertext, verify_local, transfer_public, transfer_private}
use solana_masp.Client.Store.{
  MockStore, exists, get_witness, insert_internal, new_store, scan_outputs_since,
}
use solana_masp.Client.Proofs.Prover.{mock_prove}
use solana_masp.Client.Wallet.{
  Backend, Wallet, TransferData, find_note, add_note, build_transfer, new_wallet,
}
use solana_masp.Client.Wallet.Request.{spend_public, spend_private}
use solana_masp.Client.Wallet.Spending.{Owns, HashesFor, build_transfer-mock_prove}
use solana_masp.Client.Wallet.Operations.{
  NoteEncryption, SyncResult, try_decrypt_output, ct_hash_holds, found_notes, check_found,
  sync_incremental, add_unspent, count_spent, count_unspent,
}
use solana_masp.Client.Wallet.Sync.{
  Authentic, Synced, try_decrypt_output-Authentic, sync_incremental-Synced,
}
use solana_masp.Tests.Client.Sample.{toy, note, store, witness, wallet, owned, friend, sig, key}

-- A backend on the sample store, with no nullifier spent
unfoldable backend : Backend MockStore
backend = record {
  exists = λ s c. done (exists s c);
  get_witness = get_witness;
  scan_outputs_since = λ s tx. done (scan_outputs_since s tx);
  is_nullifier_spent = λ s nf. done false;
  batch_check_nullifiers = λ s nfs. done (map (λ _. false) nfs);
  shield = λ s r. (s, done ([], 0));
  transfer = λ s r. (s, done ([], []));
  unshield = λ s r. (s, done []);
  prove = λ pi private. done [];
}

found : find_note wallet.notes (commitment toy note) ≡ some owned
unfolding find_note wallet new_wallet add_note owned commitment toy note poseidon2_hash_noir
    address_field diversified_address ivk ask nsk
found = refl

has_witness : backend.get_witness store (commitment toy note) ≡ done witness
unfolding backend witness store get_witness insert_internal new_store commitment toy note
    to_full_viewing_key poseidon2_hash_noir address_field diversified_address ivk ask nsk
has_witness = refl

owns : Owns toy wallet owned.note witness
unfolding owned wallet new_wallet add_note note witness toy verify_local merkle_hash
    poseidon2_hash_noir address_field diversified_address ivk ask nsk
owns = record { member = refl; own = refl; fits = omega arith }

hashes : HashesFor (ltb 60 owned.note.amount) 11 12
unfolding owned note
hashes = record {
  payment = λ e. absurd (omega arith);
  with_change = λ _ e. absurd (omega arith);
  without_change = λ e. cc;
}

build_transfer-mock_prove_example :
    (t : TransferData) × (proof : Bytes) × (build_transfer toy backend wallet store
        (commitment toy note)
        friend
        60
        5
        6
      ≡ done t)
    × (mock_prove toy
          (transfer_public (spend_public toy t (11 ∷ 12 ∷ 0 ∷ [])))
          (transfer_private (spend_private t wallet.spending_key.sk))
        ≡ done proof)
unfolding owned note
build_transfer-mock_prove_example =
    build_transfer-mock_prove toy backend wallet store (commitment toy note) owned witness friend 60
      5 6 11 12 found refl has_witness owns (omega arith) hashes

-- An encryption that carries no secret: every ciphertext is one of the sample note.
unfoldable plain : NoteEncryption
plain = record {
  encrypt = λ n address seed. (1 ∷ [], 2 ∷ []);
  try_decrypt = λ bytes fvk index. some note;
}

unfoldable output : OutputCiphertext
output = record {
  commitment = commitment toy note;
  ciphertext = 2 ∷ [];
  ephemeral_key = 1 ∷ [];
  tx_sig = sig;
  committed_ct_hash = some (ciphertext_hash toy (1 ∷ 2 ∷ []));
}

decrypted : try_decrypt_output toy plain wallet output 0 ≡ some note
unfolding try_decrypt_output ct_hash_holds plain output ciphertext_hash commitment toy note
    to_full_viewing_key poseidon2_hash_noir address_field diversified_address ivk ask nsk
decrypted = refl

try_decrypt_output-Authentic_example : Authentic toy output note
try_decrypt_output-Authentic_example =
    try_decrypt_output-Authentic toy plain wallet output 0 note decrypted

unfoldable seen : MockStore
seen = record store { ciphertexts = output ∷ [] }

unfoldable fresh_wallet : Wallet
fresh_wallet = new_wallet toy key

unfoldable synced : Wallet
synced = record fresh_wallet {
  notes = record { note = note; cm = commitment toy note; tx_sig = sig; spent = false } ∷ [];
}

abbrev counts : SyncResult
counts = record { outputs_scanned = 1; received_found = 1; already_spent = 0; notes_added = 1 }

ran : sync_incremental toy plain backend fresh_wallet seen 0 none ≡ done (synced, counts)
unfolding sync_incremental backend scan_outputs_since found_notes check_found try_decrypt_output
    ct_hash_holds plain output seen synced fresh_wallet new_wallet ciphertext_hash commitment toy
    note add_unspent count_spent count_unspent poseidon2_hash_noir address_field diversified_address
    ivk ask nsk
ran = refl

sync_incremental-Synced_example : Synced toy plain backend fresh_wallet synced counts
unfolding fresh_wallet new_wallet
sync_incremental-Synced_example =
    sync_incremental-Synced toy plain backend fresh_wallet synced seen 0 none counts tt ran
