-- ===== src/Client/Wallet/Shielding.antt =====
-- A wallet on the mock chain, with the mock prover: a shield reaches the tree and the balance.
use solana_masp.Prelude.{
  ℕ, ◌+◌, ◌^◌, ◌<◌, ◌≡◌, ◌≢◌, refl, true, false, List, [], ◌∷◌, ◌++◌, Bytes, bytes_eq_refl, ==_iff,
  arith,
}
use solana_masp.Client.Outcome.{raised, done}
use solana_masp.Client.Hash.{Fr, Crypto}
use solana_masp.Client.Keys.{diversified_address, address_field}
use solana_masp.Client.Note.{Note, commitment, compute_asset_id}
use solana_masp.Client.Requests.{
  PublicInputs, TransferOutput, ShieldPublicInputs, ShieldPrivateInputs, ShieldRequest,
  shield_public, shield_private,
}
use solana_masp.Client.Proofs.Prover.{
  mock_check, mock_check_shield, mock_prove, mock_proof_for_public_inputs, mock_verify_local,
}
use solana_masp.Client.Store.{exists, get_witness, scan_outputs_since}
use solana_masp.Client.Store.Insertion.{IsStore}
use solana_masp.Client.Chain.{
  MockChain, Ran, local, verify, when_verified, is_nullifier_spent, batch_check_nullifiers, shield,
  transfer, unshield, next_tx_sig,
}
use solana_masp.Client.Chain.DoubleSpend.{do_shield, run_action, succeeded}
use solana_masp.Client.Chain.Effects.{run_action-IsStore, new_leaves, Counted}
use solana_masp.Client.Wallet.{
  Backend, OwnedNote, Wallet, is_unspent, add_note, balance, total, unspent_notes,
}
use solana_masp.Client.Wallet.Balance.{held, held-append, value_fresh}
use solana_masp.Client.Wallet.Operations.{NoteEncryption}
use solana_masp.Client.Wallet.Submit.{shield as wallet_shield, encrypt_output, on_answer, of_chain}

module _ (crypto : Crypto) where
  -- `MaspClient` over `MockChain`, its store as the indexer, and `MockSpendProver`
  unfoldable pub mock_backend : Backend MockChain
  unfolding exists get_witness scan_outputs_since is_nullifier_spent batch_check_nullifiers
  mock_backend = record {
    exists = λ c cm. done (exists c.note_store cm);
    get_witness = λ c cm. get_witness c.note_store cm;
    scan_outputs_since = λ c since. done (scan_outputs_since c.note_store since);
    is_nullifier_spent = λ c nf. done (is_nullifier_spent c nf);
    batch_check_nullifiers = λ c nfs. done (batch_check_nullifiers c nfs);
    shield = shield crypto;
    transfer = transfer crypto;
    unshield = unshield crypto;
    prove = mock_prove crypto;
  }

  -- `MockProofVerifier` in the mode `Local`
  pub record IsMock (c : MockChain) : Type 0 where
    pub mode : c.verify_mode ≡ local
    pub checks :
        (pi : PublicInputs) (proof : Bytes)
        → c.verifier.verify_local pi proof ≡ done (mock_verify_local crypto pi proof)

  mock_check_shield_done :
      (pi : ShieldPublicInputs) (private : ShieldPrivateInputs)
      → mock_check_shield crypto pi private ≡ done tt
      → mock_prove crypto (shield_public pi) (shield_private private)
        ≡ done (mock_proof_for_public_inputs crypto (shield_public pi))
  unfolding mock_prove mock_check
  mock_check_shield_done pi private h = rw (h) refl

  verify_mock :
      (c : MockChain) (pi : PublicInputs) (proof : Bytes)
      → IsMock c
      → proof ≡ mock_proof_for_public_inputs crypto pi
      → verify c pi proof ≡ done true
  unfolding verify mock_verify_local
  verify_mock c pi proof h e =
      rw (e, h.mode, h.checks, bytes_eq_refl (mock_proof_for_public_inputs crypto pi)) refl

  abbrev shield_inputs : ShieldRequest → PublicInputs
  shield_inputs r = shield_public (record {
    new_commitment = r.commitment;
    public_asset_id = compute_asset_id crypto r.token_address;
    public_amount = r.amount;
    ct_hash = r.ct_hash;
  })

  shield_answer :
      (c : MockChain) (r : ShieldRequest)
      → IsMock c
      → r.shield_proof ≡ mock_proof_for_public_inputs crypto (shield_inputs r)
      → (shield crypto c r).1 ≡ done ((next_tx_sig c).1, r.commitment)
  unfolding shield next_tx_sig when_verified
  shield_answer c r h e =
      let stepped : IsMock (next_tx_sig c).0 = record { mode = h.mode; checks = h.checks } in
      let checked = verify_mock (next_tx_sig c).0 (shield_inputs r) r.shield_proof stepped e in
      rw (checked) refl

  module _ (encryption : NoteEncryption) where
    on_answer_done :
        {A B : Type 0} (w : Wallet) (ran : Ran A) (v : A) (next : A → Wallet × B)
        → ran.1 ≡ done v
        → on_answer crypto encryption mock_backend w
            (of_chain crypto encryption mock_backend ran)
            next
          ≡ ((next v).0, ran.0, done (next v).1)
    unfolding on_answer of_chain
    on_answer_done w (c, raised e) v next h = absurd (ground arith)
    on_answer_done w (c, done v') v next h = let e : v' ≡ v = ground arith in rw (e) refl

    module _ (w : Wallet) (c : MockChain) (token_address : Bytes)
        (amount nonce randomness seed : ℕ) where
      abbrev pub shielded_note : Note
      shielded_note = record {
        asset_id = compute_asset_id crypto token_address;
        amount = amount;
        recipient = address_field (diversified_address crypto w.fvk 0);
        diversifier_index = 0;
        nullifier_nonce = nonce;
        note_randomness = randomness;
      }

      abbrev pub shielded_output : TransferOutput × Fr
      shielded_output =
          encrypt_output crypto encryption mock_backend shielded_note
            (diversified_address crypto w.fvk 0) seed

      abbrev shielded_public : ShieldPublicInputs
      shielded_public = record {
        new_commitment = commitment crypto shielded_note;
        public_asset_id = shielded_note.asset_id;
        public_amount = amount;
        ct_hash = shielded_output.1;
      }

      abbrev shielded_private : ShieldPrivateInputs
      shielded_private = record {
        note_asset_id = shielded_note.asset_id;
        note_amount = amount;
        note_recipient = shielded_note.recipient;
        note_diversifier_index = 0;
        note_nullifier_nonce = nonce;
        note_randomness = randomness;
      }

      abbrev shield_request : ShieldRequest
      shield_request = record {
        token_address = token_address;
        amount = amount;
        commitment = commitment crypto shielded_note;
        shield_proof = mock_proof_for_public_inputs crypto (shield_public shielded_public);
        ciphertext = shielded_output.0.ciphertext;
        ephemeral_key = shielded_output.0.ephemeral_key;
        ct_hash = shielded_output.1;
      }

      shielded_proof :
          shielded_output.1 ≢ 0
          → mock_prove crypto (shield_public shielded_public) (shield_private shielded_private)
            ≡ done (mock_proof_for_public_inputs crypto (shield_public shielded_public))
      unfolding mock_check_shield
      shielded_proof hashed =
          mock_check_shield_done shielded_public shielded_private (ground (arith, hashed))

      shield_ran :
          IsMock c
          → shielded_output.1 ≢ 0
          → wallet_shield crypto encryption mock_backend w c token_address amount nonce randomness
              seed
            ≡ (
              add_note crypto w shielded_note (next_tx_sig c).1,
              (shield crypto c shield_request).0,
              done (shielded_note, (next_tx_sig c).1, commitment crypto shielded_note),
            )
      unfolding wallet_shield mock_backend encrypt_output diversified_address address_field
      shield_ran mocked hashed =
          rw (wallet_shield, shielded_proof hashed)
            (on_answer_done w (shield crypto c shield_request) _ _
              (shield_answer c shield_request mocked refl))

      -- What a shield leaves behind: the wallet's own note, in its balance and in the tree
      pub record Shielded (leaves : List Fr) : Type 0 where
        pub answered :
            (wallet_shield crypto encryption mock_backend w c token_address amount nonce randomness
              seed).2
            ≡ done (shielded_note, (next_tx_sig c).1, commitment crypto shielded_note)
        pub credited :
            balance
              (wallet_shield crypto encryption mock_backend w c token_address amount nonce
                randomness seed).0.notes
              shielded_note.asset_id
            ≡ balance w.notes shielded_note.asset_id + amount
        pub stored :
            IsStore crypto
              (wallet_shield crypto encryption mock_backend w c token_address amount nonce
                randomness seed).1.note_store
              (leaves ++ (commitment crypto shielded_note ∷ []))

      balance-add_note :
          (note : Note) (sig : Bytes)
          → total (unspent_notes w.notes note.asset_id) + note.amount < 2 ^ 64
          → balance (add_note crypto w note sig).notes note.asset_id
            ≡ balance w.notes note.asset_id + note.amount
      unfolding balance add_note held is_unspent
      balance-add_note note sig room =
          let owned : OwnedNote = record {
            note = note;
            cm = commitment crypto note;
            tx_sig = sig;
            spent = false;
          } in
          let counts = (==_iff note.asset_id note.asset_id).1 refl in
          let worth = value_fresh owned note.asset_id (rw (counts) refl) in
          omega (arith, held-append w.notes owned note.asset_id, worth)

      stored_note :
          (leaves : List Fr)
          → IsMock c
          → IsStore crypto c.note_store leaves
          → IsStore crypto
              (shield crypto c shield_request).0.note_store
              (leaves ++ (commitment crypto shielded_note ∷ []))
      unfolding run_action new_leaves Counted succeeded
      stored_note leaves mocked h =
          let ran = run_action-IsStore crypto (do_shield shield_request) c leaves tt h in
          let e = shield_answer c shield_request mocked refl in rw (e) at ran

      -- On a mock chain with the mock verifier and the mock prover, a shield whose ciphertext
      -- hash is not zero, and whose amount fits into the balance, succeeds: the balance grows by
      -- the amount and the commitment of the note is the next leaf of the tree.
      pub shield-Shielded :
          (leaves : List Fr)
          → IsMock c
          → IsStore crypto c.note_store leaves
          → shielded_output.1 ≢ 0
          → total (unspent_notes w.notes shielded_note.asset_id) + amount < 2 ^ 64
          → Shielded leaves
      shield-Shielded leaves mocked h hashed room =
          let ran = shield_ran mocked hashed in
          record {
            answered = rw (ran) refl;
            credited = rw (ran) (balance-add_note shielded_note (next_tx_sig c).1 room);
            stored = rw (ran) (stored_note leaves mocked h);
          }
