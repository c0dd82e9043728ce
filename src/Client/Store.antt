-- ===== src/Client/Store.antt =====
-- client/src/mock.rs: `MockStore`, the tree of commitments with what an indexer keeps beside it.
pub mod Insertion
pub mod Witnesses
pub mod Anchors
use solana_masp.Prelude.{
  ℕ, zero, suc, ◌+◌, Bool, true, false, ◌&&◌, ◌||◌, Option, none, some, List, [], ◌∷◌, ◌++◌, Bytes,
  bytes_eq, length, drop, get_elem?, ltb, leb, ◌==◌, if◌then◌else◌,
}
use solana_masp.Client.Outcome.{
  Outcome, raised, done, StoreError, not_found, NullifierError, already_spent,
}
use solana_masp.Client.Hash.{Fr, Crypto}
use solana_masp.Client.MerkleTree.{
  Nodes, no_nodes, put_node, get_node, siblings, path_indices, empty_levels, update_path,
}
use solana_masp.Client.Requests.{
  MembershipWitness, merkle_path, OutputCiphertext, OutputCiphertextData,
}

abbrev pub anchor_history_size : ℕ
anchor_history_size = 16

pub record StoredCiphertext : Type 0 where
  pub ciphertext : Bytes
  pub ephemeral_key : Bytes
  pub ct_hash : Fr

-- `MockStoreInner`: a `HashMap` is a function of the key, and a `HashSet` a test.
pub record MockStore : Type 0 where
  pub depth : ℕ
  pub nodes : Nodes
  pub commitments : Fr → Option ℕ
  pub leaf_count : ℕ
  pub empty_nodes : List Fr
  pub ciphertexts : List OutputCiphertext
  pub tx_log : Bytes → Option (List Fr)
  pub posted_ciphertexts : Bytes → ℕ → Option StoredCiphertext
  pub ct_hash_index : Fr → Option (Bytes × ℕ)
  pub anchor_history : List Fr
  pub nullifiers : Fr → Bool

-- `HashMap::insert` on a numeric key, and `HashSet::insert`
unfoldable pub put {ℓ} : {A : Type ℓ} → (ℕ → Option A) → ℕ → A → ℕ → Option A
put m key value k = if k == key then some value else m k

unfoldable pub mark : (ℕ → Bool) → ℕ → ℕ → Bool
mark set key k = if k == key then true else set k

unfoldable pub contains : List Fr → Fr → Bool
contains [] x = false
contains (y ∷ ys) x = (y == x) || contains ys x

-- `entry(tx_sig).or_default().push(commitment)`
unfoldable pub log_commitment : (Bytes → Option (List Fr)) → Bytes → Fr → Bytes → Option (List Fr)
log_commitment log tx_sig commitment key =
    if bytes_eq key tx_sig
    then some ((elim (log tx_sig) [ none ↦ [] | some logged ↦ logged ]) ++ (commitment ∷ []))
    else log key

-- The ring of recent anchors
unfoldable pub push_anchor : List Fr → Fr → List Fr
push_anchor history root =
    (if leb anchor_history_size (length history) then drop 1 history else history) ++ (root ∷ [])

unfoldable pub current_root : MockStore → Fr
unfolding get_node
current_root s = get_node s.nodes s.empty_nodes s.depth 0

unfoldable pub is_valid_anchor_sync : MockStore → Fr → Bool
unfolding contains
is_valid_anchor_sync s anchor = contains s.anchor_history anchor

unfoldable pub is_nullifier_spent_sync : MockStore → Fr → Bool
is_nullifier_spent_sync s nf = s.nullifiers nf

unfoldable pub insert_nullifier_sync : MockStore → Fr → Outcome NullifierError MockStore
unfolding mark
insert_nullifier_sync s nf =
    if s.nullifiers nf
    then raised already_spent
    else done (record s { nullifiers = mark s.nullifiers nf })

unfoldable pub sync_leaf_count : MockStore → ℕ → MockStore
sync_leaf_count s on_chain_leaf_count =
    if ltb s.leaf_count on_chain_leaf_count
    then record s { leaf_count = on_chain_leaf_count }
    else s

unfoldable pub get_leaf_index : MockStore → Fr → Option ℕ
get_leaf_index s commitment = s.commitments commitment

unfoldable pub exists : MockStore → Fr → Bool
exists s commitment = elim (s.commitments commitment) [ some k ↦ true | none ↦ false ]

-- `get_merkle_path`, and the witness that it makes
unfoldable pub get_witness : MockStore → Fr → Outcome StoreError MembershipWitness
unfolding siblings path_indices get_node
get_witness s commitment = elim (s.commitments commitment) [
  | none ↦ raised not_found
  | some leaf_index ↦ done (
      merkle_path (siblings s.nodes s.empty_nodes s.depth 0 leaf_index)
        (path_indices s.depth leaf_index) (get_node s.nodes s.empty_nodes s.depth 0))
]

unfoldable pub store_ciphertext :
    MockStore
    → (tx_sig : Bytes) (output_index : ℕ) (ciphertext ephemeral_key : Bytes) (ct_hash : Fr)
    → MockStore
unfolding put
store_ciphertext s tx_sig output_index ciphertext ephemeral_key ct_hash =
    let stored : StoredCiphertext = record {
      ciphertext = ciphertext;
      ephemeral_key = ephemeral_key;
      ct_hash = ct_hash;
    } in
    record s {
      posted_ciphertexts = λ sig index.
          if bytes_eq sig tx_sig && (index == output_index)
          then some stored
          else s.posted_ciphertexts sig index;
      ct_hash_index = put s.ct_hash_index ct_hash (tx_sig, output_index);
    }

unfoldable pub get_ciphertext_for_output : MockStore → Bytes → ℕ → Option (Bytes × Bytes × Fr)
get_ciphertext_for_output s tx_sig output_index = elim (s.posted_ciphertexts tx_sig output_index) [
  | none ↦ none
  | some stored ↦ some (stored.ciphertext, stored.ephemeral_key, stored.ct_hash)
]

unfoldable pub get_ciphertext_by_hash : MockStore → Fr → Option (Bytes × ℕ × Bytes × Bytes)
get_ciphertext_by_hash s ct_hash = elim (s.ct_hash_index ct_hash) [
  | none ↦ none
  | some (tx_sig, output_index) ↦ elim (s.posted_ciphertexts tx_sig output_index) [
    | none ↦ none
    | some stored ↦ some (tx_sig, output_index, stored.ciphertext, stored.ephemeral_key)
  ]
]

-- The filter of `scan_outputs_since`, which drops what comes before `tx` and one output of it
unfoldable pub outputs_after : Bytes → List OutputCiphertext → List OutputCiphertext
outputs_after tx [] = []
outputs_after tx (o ∷ outputs) = if bytes_eq o.tx_sig tx then outputs else outputs_after tx outputs

unfoldable pub scan_outputs_since : MockStore → Option Bytes → List OutputCiphertext
unfolding outputs_after
scan_outputs_since s none = s.ciphertexts
scan_outputs_since s (some tx) = outputs_after tx s.ciphertexts

unfoldable pub get_commitments_for_tx : MockStore → Bytes → Option (List Fr)
get_commitments_for_tx s tx_sig = s.tx_log tx_sig

module _ (crypto : Crypto) where
  -- `MockStore::new`
  unfoldable pub new_store : (depth : ℕ) → MockStore
  unfolding empty_levels no_nodes get_node
  new_store depth =
      let empty_nodes = empty_levels crypto depth 0 in
      record {
        depth = depth;
        nodes = no_nodes;
        commitments = λ _. none;
        leaf_count = 0;
        empty_nodes = empty_nodes;
        ciphertexts = [];
        tx_log = λ _. none;
        posted_ciphertexts = λ _ _. none;
        ct_hash_index = λ _. none;
        anchor_history = get_node no_nodes empty_nodes depth 0 ∷ [];
        nullifiers = λ _. false;
      }

  -- The new store, the leaf's index and the new root
  unfoldable pub insert_internal : MockStore → Fr → (tx_sig : Bytes) → MockStore × ℕ × Fr
  unfolding put_node update_path put log_commitment get_node push_anchor
  insert_internal s commitment tx_sig =
      let leaf_index = s.leaf_count in
      let nodes =
        update_path crypto s.empty_nodes s.depth 0 leaf_index
          (put_node s.nodes 0 leaf_index commitment) in
      let new_root = get_node nodes s.empty_nodes s.depth 0 in
      (
        record s {
          nodes = nodes;
          commitments = put s.commitments commitment leaf_index;
          tx_log = log_commitment s.tx_log tx_sig commitment;
          leaf_count = s.leaf_count + 1;
          anchor_history = push_anchor s.anchor_history new_root;
        },
        leaf_index,
        new_root,
      )

  unfoldable pub insert_note_commitment : MockStore → Fr → Bytes → MockStore × ℕ
  unfolding insert_internal
  insert_note_commitment s commitment tx_sig =
      let inserted = insert_internal s commitment tx_sig in (inserted.0, inserted.1)

  unfoldable pub insert_output :
      MockStore → Fr → Bytes → Option OutputCiphertextData → MockStore × ℕ
  unfolding insert_note_commitment
  insert_output s commitment tx_sig none = insert_note_commitment s commitment tx_sig
  insert_output s commitment tx_sig (some ct_data) =
      let inserted = insert_note_commitment s commitment tx_sig in
      let output : OutputCiphertext = record {
        commitment = commitment;
        ciphertext = ct_data.ciphertext;
        ephemeral_key = ct_data.ephemeral_key;
        tx_sig = tx_sig;
        committed_ct_hash = some ct_data.ct_hash;
      } in
      let s' = inserted.0 in
      (record s' { ciphertexts = s'.ciphertexts ++ (output ∷ []) }, inserted.1)
