-- ===== src/Client/Chain.antt =====
-- client/src/mock.rs: `MockNullifierSet` and `MockChain`, which runs the requests of the wallets.
pub mod Effects
pub mod DoubleSpend
pub mod Accepted
pub mod Ledger
pub mod Signatures
use solana_masp.Prelude.{
  ℕ, zero, suc, ◌+◌, ◌/◌, ◌%◌, Bool, true, false, ◌||◌, not, Option, none, some, List, [], ◌∷◌,
  ◌++◌, Bytes, length, drop, map, ltb, leb, ◌==◌, if◌then◌else◌,
}
use solana_masp.Client.Outcome.{
  Outcome, raised, done, ◌>>=◌, ProofSystemError, NullifierError, already_spent, ChainError,
  double_spend, invalid_anchor, invalid_proof, transaction_failed, chain_panicked,
}
use solana_masp.Client.Hash.{Fr, Crypto}
use solana_masp.Client.Note.{compute_asset_id, recipient_to_u64_limbs_le}
use solana_masp.Client.Requests.{
  PublicInputs, shield_public, transfer_public, unshield_public, OutputCiphertextData,
  ShieldRequest, TransferOutput, TransferRequest, UnshieldRequest, output_commitments_array,
  enabled_nullifiers, enabled_output_commitments, new_ciphertext_data,
}
use solana_masp.Client.Store.{
  MockStore, mark, contains, current_root, store_ciphertext, insert_note_commitment, insert_output,
}

-- `dyn ProofVerifier`
pub record ProofVerifier : Type 0 where
  pub verify_local : PublicInputs → Bytes → Outcome ProofSystemError Bool
  pub verify_on_chain : PublicInputs → Bytes → Outcome ProofSystemError Bool

pub data ProofVerificationMode : Type 0 where
  local on_chain : ProofVerificationMode

-- The nullifier set is the test of its members.
pub record MockChain : Type 0 where
  pub note_store : MockStore
  pub nullifier_set : Fr → Bool
  pub anchor_history : List Fr
  pub max_anchors : ℕ
  pub tx_counter : ℕ
  pub verifier : ProofVerifier
  pub verify_mode : ProofVerificationMode

-- The state after a call, and what the call returns
abbrev pub Ran : Type 0 → Type 0
Ran A = MockChain × Outcome ChainError A

-- `?`: what was changed before an error stays changed.
unfoldable pub and_then : {A B : Type 0} → Ran A → (A → MockChain → Ran B) → Ran B
and_then (c, raised e) next = (c, raised e)
and_then (c, done v) next = next v c

unfoldable pub new_chain : MockStore → ℕ → ProofVerifier → ProofVerificationMode → MockChain
unfolding current_root
new_chain note_store max_anchors verifier verify_mode = record {
  note_store = note_store;
  nullifier_set = λ _. false;
  anchor_history = current_root note_store ∷ [];
  max_anchors = max_anchors;
  tx_counter = 0;
  verifier = verifier;
  verify_mode = verify_mode;
}

-- `MockNullifierSet::insert`
unfoldable pub insert_into_set : (Fr → Bool) → Fr → Outcome NullifierError (Fr → Bool)
unfolding mark
insert_into_set set nf = if set nf then raised already_spent else done (mark set nf)

-- The decimal digits of a number; one of fuel for each is enough.
unfoldable pub digits : (fuel n : ℕ) → Bytes
digits zero n = []
digits (suc fuel) n =
    let rest = digits fuel (n / 10) in
    if ltb n 10 then (48 + n) ∷ [] else rest ++ ((48 + n % 10) ∷ [])

-- `format!("mock_tx_{}", n)`
unfoldable pub mock_tx : ℕ → Bytes
unfolding digits
mock_tx n = 109 ∷ 111 ∷ 99 ∷ 107 ∷ 95 ∷ 116 ∷ 120 ∷ 95 ∷ digits (suc n) n

unfoldable pub next_tx_sig : MockChain → MockChain × Bytes
unfolding mock_tx
next_tx_sig c =
    let tx_counter = c.tx_counter + 1 in (record c { tx_counter = tx_counter }, mock_tx tx_counter)

unfoldable pub last_is : List Fr → Fr → Bool
last_is [] x = false
last_is (y ∷ []) x = y == x
last_is (y ∷ z ∷ ys) x = last_is (z ∷ ys) x

-- `update_anchor_history`: a root that is the last one already is not repeated.
unfoldable pub next_anchors : List Fr → ℕ → Fr → List Fr
unfolding last_is
next_anchors history max_anchors root =
    let pushed = history ++ (root ∷ []) in
    if last_is history root
    then history
    else if ltb max_anchors (length pushed)
    then drop 1 pushed
    else pushed

unfoldable pub update_anchor_history : MockChain → MockChain
unfolding current_root next_anchors
update_anchor_history c = record c {
  anchor_history = next_anchors c.anchor_history c.max_anchors (current_root c.note_store);
}

unfoldable pub is_valid_anchor : MockChain → Fr → Bool
unfolding current_root contains
is_valid_anchor c anchor = (anchor == current_root c.note_store) || contains c.anchor_history anchor

unfoldable pub is_nullifier_spent : MockChain → Fr → Bool
is_nullifier_spent c nf = c.nullifier_set nf

unfoldable pub batch_check_nullifiers : MockChain → List Fr → List Bool
batch_check_nullifiers c nullifiers = map c.nullifier_set nullifiers

unfoldable pub insert_nullifier : MockChain → Fr → Ran Bytes
unfolding insert_into_set next_tx_sig
insert_nullifier c nf = elim (insert_into_set c.nullifier_set nf) [
  | raised e ↦ (c, raised double_spend)
  | done set ↦
      let stepped = next_tx_sig (record c { nullifier_set = set }) in (stepped.0, done stepped.1)
]

-- The loop of `transfer` on the enabled nullifiers, which leaves those before a spent one marked
unfoldable pub insert_nullifiers : List Fr → MockChain → Ran (Unit {0})
unfolding insert_nullifier
insert_nullifiers [] c = (c, done tt)
insert_nullifiers (nf ∷ nullifiers) c =
    if nf == 0
    then insert_nullifiers nullifiers c
    else and_then (insert_nullifier c nf) (λ sig. insert_nullifiers nullifiers)

-- `verify_local` or `verify_on_chain`, by the mode
unfoldable pub verify : MockChain → PublicInputs → Bytes → Outcome ChainError Bool
verify c public_inputs proof =
    let checked : Outcome ProofSystemError Bool = elim c.verify_mode [
      | local ↦ c.verifier.verify_local public_inputs proof
      | on_chain ↦ c.verifier.verify_on_chain public_inputs proof
    ] in
    elim checked [ raised e ↦ raised transaction_failed | done verified ↦ done verified ]

-- `if !test { return Err(error) }`, then the rest of the call
unfoldable pub ensure : {A : Type 0} → Bool → ChainError → MockChain → Ran A → Ran A
ensure false error c rest = (c, raised error)
ensure true error c rest = rest

-- `if !ok { return Err(InvalidProof) }`, then the rest of the call
unfoldable pub when_verified : {A : Type 0} → MockChain → Outcome ChainError Bool → Ran A → Ran A
when_verified c (raised e) rest = (c, raised e)
when_verified c (done false) rest = (c, raised invalid_proof)
when_verified c (done true) rest = rest

-- The loop of `post_ciphertexts`
unfoldable pub store_ciphertexts : MockStore → Bytes → ℕ → List OutputCiphertextData → MockStore
unfolding store_ciphertext
store_ciphertexts s tx_sig i [] = s
store_ciphertexts s tx_sig i (o ∷ outputs) =
    store_ciphertexts (store_ciphertext s tx_sig i o.ciphertext o.ephemeral_key o.ct_hash) tx_sig
      (i + 1) outputs

unfoldable pub post_ciphertexts : MockChain → List OutputCiphertextData → Ran (Bytes × List Fr)
unfolding next_tx_sig store_ciphertexts
post_ciphertexts c outputs =
    let stepped = next_tx_sig c in
    let c' = stepped.0 in
    (
      record c' { note_store = store_ciphertexts c'.note_store stepped.1 0 outputs },
      done (stepped.1, map (λ o. o.ct_hash) outputs),
    )

module _ (crypto : Crypto) where
  -- `match (&ciphertext, &ephemeral_key)`
  unfoldable pub ciphertext_data : Option Bytes → Option Bytes → Option OutputCiphertextData
  unfolding new_ciphertext_data
  ciphertext_data (some ct) (some epk) = some (new_ciphertext_data crypto ct epk)
  ciphertext_data (some ct) none = none
  ciphertext_data none epk = none

  unfoldable pub chain_insert_commitment : MockChain → Fr → Ran (Bytes × Fr)
  unfolding next_tx_sig insert_note_commitment update_anchor_history
  chain_insert_commitment c commitment =
      let stepped = next_tx_sig c in
      let c' = stepped.0 in
      let inserted = insert_note_commitment crypto c'.note_store commitment stepped.1 in
      (update_anchor_history (record c' { note_store = inserted.0 }), done (stepped.1, commitment))

  unfoldable pub shield : MockChain → ShieldRequest → Ran (Bytes × Fr)
  unfolding next_tx_sig verify ciphertext_data insert_output update_anchor_history
  shield c request =
      let stepped = next_tx_sig c in
      let c' = stepped.0 in
      let public_inputs = shield_public (record {
        new_commitment = request.commitment;
        public_asset_id = compute_asset_id crypto request.token_address;
        public_amount = request.amount;
        ct_hash = request.ct_hash;
      }) in
      let ct_data = ciphertext_data request.ciphertext request.ephemeral_key in
      let inserted = insert_output crypto c'.note_store request.commitment stepped.1 ct_data in
      when_verified c' (verify c' public_inputs request.shield_proof) (
        update_anchor_history (record c' { note_store = inserted.0 }),
        done (stepped.1, request.commitment),
      )

  -- The loop of `transfer` on the outputs
  unfoldable pub insert_outputs : MockStore → Bytes → List TransferOutput → MockStore
  unfolding ciphertext_data insert_output
  insert_outputs s tx_sig [] = s
  insert_outputs s tx_sig (o ∷ outputs) =
      let ct_data = ciphertext_data o.ciphertext o.ephemeral_key in
      let s' =
        if o.commitment == 0 then s else (insert_output crypto s o.commitment tx_sig ct_data).0 in
      insert_outputs s' tx_sig outputs

  -- `transfer` after the nullifiers
  unfoldable pub finish_transfer : MockChain → TransferRequest → Ran (Bytes × List Fr)
  unfolding next_tx_sig insert_outputs update_anchor_history enabled_output_commitments
  finish_transfer c request =
      let stepped = next_tx_sig c in
      let c' = stepped.0 in
      (
        update_anchor_history
            (record c' { note_store = insert_outputs c'.note_store stepped.1 request.outputs }),
        (if ltb (length request.outputs) request.output_count
            then raised chain_panicked
            else done (stepped.1, enabled_output_commitments request)),
      )

  unfoldable pub transfer : MockChain → TransferRequest → Ran (Bytes × List Fr)
  unfolding is_valid_anchor verify insert_nullifiers finish_transfer output_commitments_array
      enabled_nullifiers
  transfer c request =
      let public_inputs = transfer_public (record {
        anchor = request.anchor;
        nullifiers = request.nullifiers;
        output_commitments = output_commitments_array request;
        input_count = request.input_count;
        output_count = request.output_count;
        ct_hashes = request.ct_hashes;
        tx_binding = request.tx_binding;
      }) in
      ensure (is_valid_anchor c request.anchor) invalid_anchor c (
        when_verified c (verify c public_inputs request.spend_proof) (
          ensure (leb request.input_count (length request.nullifiers)) chain_panicked c (
            and_then (insert_nullifiers (enabled_nullifiers request) c)
              (λ _ c'. finish_transfer c' request))))

  unfoldable pub unshield : MockChain → UnshieldRequest → Ran Bytes
  unfolding is_valid_anchor verify insert_nullifier
  unshield c request =
      let public_inputs = unshield_public (record {
        anchor = request.anchor;
        nullifier = request.nullifier;
        tx_binding = request.tx_binding;
        public_amount = request.amount;
        public_recipient_limbs = recipient_to_u64_limbs_le request.recipient;
        public_asset_id = compute_asset_id crypto request.token_address;
      }) in
      ensure (is_valid_anchor c request.anchor) invalid_anchor c (
        when_verified c (verify c public_inputs request.spend_proof)
          (insert_nullifier c request.nullifier))
