-- ===== src/Tests/World.antt =====
-- Concrete builds on the concrete runtime, with fixed layouts for the codecs.
use solana_masp.Prelude.{
  ℕ, ◌%◌, ◌^◌, ◌≡◌, arith, Bool, true, false, [], ◌∷◌, ◌++◌, Bytes, bytes_eq, bytes_eq_iff, length,
  take, drop, slice, replicate, to_le_bytes, from_le_bytes, if◌then◌else◌, ◌==◌, inl, inr,
  Bool-cases,
}
use solana_masp.Runtime.{Result, ok, err, ok-injective, borsh_io_error, Borsh}
use solana_masp.Protocol.{TransferData}
use solana_masp.Masp.Inputs.Fields.{concat, read_fields}
use solana_masp.Masp.State.{TreeState}
use solana_masp.Masp.Verify.{ProofSystem}
use solana_masp.Masp.Build.{Build}
use solana_masp.Masp.Build.Laws.{RuntimeLaws, ReadsTreeState}
use solana_masp.Masp.Proofs.{RunsVerifier}
use solana_masp.Tests.Runtime.{
  key, verifier_id, toy_core, toy_vks, toy_host, toy_creates, toy_keeps, verifier-runs,
}

-- The codecs
abbrev pub bool_byte : Bool → ℕ
bool_byte true = 1
bool_byte false = 0

unfoldable pub tree_to_vec : TreeState → Bytes
unfolding to_le_bytes concat
tree_to_vec s =
    s.version
    ∷ (s.current_root
        ++ (to_le_bytes 8 s.leaf_count
            ++ (concat s.anchor_history
                ++ (s.anchor_history_index ∷ (s.authority ++ (bool_byte s.paused ∷ s.reserved))))))

abbrev first : Bytes → ℕ
first [] = 0
first (b ∷ bs) = b

unfoldable pub tree_from_slice : Bytes → Result TreeState
unfolding from_le_bytes read_fields
tree_from_slice b =
    if length b == 651
    then ok (record {
      version = first b;
      current_root = slice 1 32 b;
      leaf_count = from_le_bytes (slice 33 8 b) % 2 ^ 64;
      anchor_history = read_fields 16 41 b;
      anchor_history_index = first (drop 553 b);
      authority = slice 554 32 b;
      paused = first (drop 586 b) == 1;
      reserved = drop 587 b;
    })
    else err borsh_io_error

unfoldable pub toy_tree_codec : Borsh TreeState
unfolding tree_to_vec tree_from_slice
toy_tree_codec = record { try_from_slice = tree_from_slice; to_vec = tree_to_vec }

toy_reads : ReadsTreeState toy_tree_codec
unfolding toy_tree_codec tree_from_slice
toy_reads = record {
  not_from_empty = λ s h. cc h;
  leaf_count = λ b s h. elim (Bool-cases (length b == 651)) [
    | inl sized ↦ let e = ok-injective (rw sized at h) in rw (← e) (omega arith)
    | inr other ↦ cc (rw other at h)
  ];
}

abbrev pub refuses : {A : Type 0} → (A → Bytes) → Borsh A
refuses to_vec = record { try_from_slice = λ b. err borsh_io_error; to_vec = to_vec }

unfoldable pub toy_transfer_codec : Borsh TransferData
unfolding read_fields concat
toy_transfer_codec = record {
  try_from_slice = λ b. ok (record {
    anchor = slice 0 32 b;
    nullifiers = read_fields 3 32 b;
    output_commitments = read_fields 3 128 b;
    input_count = first (drop 224 b);
    output_count = first (drop 225 b);
    ct_hashes = read_fields 3 226 b;
    tx_binding = slice 322 32 b;
  });
  to_vec = λ d.
      d.anchor
      ++ (concat d.nullifiers
          ++ (concat d.output_commitments
              ++ (d.input_count ∷ d.output_count ∷ (concat d.ct_hashes ++ d.tx_binding))));
}

unfoldable pub toy_build : ProofSystem → Build
toy_build system = record {
  host = toy_host;
  keccak = λ b. key (length b % 256);
  proof_system = system;
  local_testing = true;
  tree_codec = toy_tree_codec;
  nullifier_codec = refuses (λ n. n.version ∷ (n.nullifier ++ replicate 8 0));
  shield_codec = record {
    try_from_slice =
        λ b. ok (record { commitment = key 0; asset_id = key 0; amount = 0; ct_hash = key 0 });
    to_vec = λ d. [];
  };
  transfer_codec = toy_transfer_codec;
  unshield_codec = record {
    try_from_slice = λ b. ok (record {
      anchor = key 0;
      nullifier = key 0;
      tx_binding = key 0;
      amount = 0;
      recipient_limbs = 0 ∷ 0 ∷ 0 ∷ 0 ∷ [];
      asset_id = key 0;
    });
    to_vec = λ d. [];
  };
  update_root_codec = record {
    try_from_slice =
        λ b. ok (record { new_root = take 32 b; expected_leaf_count = first (drop 32 b) });
    to_vec = λ d. d.new_root ++ (d.expected_leaf_count ∷ []);
  };
}

pub toy_laws : (system : ProofSystem) → RuntimeLaws (toy_build system)
unfolding toy_build
toy_laws system = record { creates = toy_creates; readonly = toy_keeps; tree_codec = toy_reads }

pub toy_runs : (system : ProofSystem) → RunsVerifier (toy_build system) toy_core toy_vks verifier_id
unfolding toy_build toy_host
toy_runs system = record {
  runs = λ ix infos seeds l l' same h.
      let called : bytes_eq ix.program_id verifier_id ≡ true =
        (bytes_eq_iff ix.program_id verifier_id).1 same in
      verifier-runs ix.accounts ix.payload l (rw called at h);
}
