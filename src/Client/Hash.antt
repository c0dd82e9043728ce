-- ===== src/Client/Hash.antt =====
-- client/src/hash.rs and client/src/types.rs: field elements and hashes.
use solana_masp.Prelude.{
  ℕ, zero, suc, ◌+◌, ◌*◌, ◌%◌, ◌^◌, List, [], ◌∷◌, ◌++◌, Bytes, length, take, drop, ◌==◌,
  if◌then◌else◌, to_be_bytes, from_be_bytes, from_le_bytes,
}
use solana_masp.Protocol.Domain.{DomainTag, as_u64, merkle_node, ciphertext}

-- The orders of BN254's scalar field and of its base field, which is Grumpkin's scalar field.
abbrev pub modulus : ℕ
modulus = 21888242871839275222246405745257275088548364400416034343698204186575808495617

abbrev pub grumpkin_modulus : ℕ
grumpkin_modulus = 21888242871839275222246405745257275088696311157297823662689037894645226208583

-- A field element is its representative below the order. `Fr::from(n)` of a u64 is `n`.
abbrev pub Fr : Type 0
Fr = ℕ

pub record SpongeState : Type 0 where
  pub s0 : Fr
  pub s1 : Fr
  pub s2 : Fr
  pub s3 : Fr

pub record Affine : Type 0 where
  pub x : ℕ
  pub y : ℕ

-- The third-party cryptography: `poseidon2_t4::permutation` and the Grumpkin curve.
pub record Crypto : Type 0 where
  pub permutation : SpongeState → SpongeState
  pub generator : Affine
  pub mul : Affine → ℕ → Affine

-- `DomainTagExt::to_field`
unfoldable pub to_field : DomainTag → Fr
unfolding as_u64
to_field t = as_u64 t

module _ (crypto : Crypto) where
  -- `perform_duplex`: the cache, which has at most three elements, is added to the state.
  unfoldable pub perform_duplex : SpongeState → List Fr → SpongeState
  perform_duplex s [] = crypto.permutation s
  perform_duplex s (a ∷ []) = crypto.permutation (record s { s0 = (s.s0 + a) % modulus })
  perform_duplex s (a ∷ b ∷ []) =
      crypto.permutation (record s { s0 = (s.s0 + a) % modulus; s1 = (s.s1 + b) % modulus })
  perform_duplex s (a ∷ b ∷ c ∷ _) =
      crypto.permutation (record s {
        s0 = (s.s0 + a) % modulus;
        s1 = (s.s1 + b) % modulus;
        s2 = (s.s2 + c) % modulus;
      })

  -- One element: it goes to the cache, which a full cache empties into the state first.
  unfoldable pub absorb : SpongeState → List Fr → Fr → SpongeState × List Fr
  unfolding perform_duplex
  absorb s cache x =
      if length cache == 3 then (perform_duplex s cache, x ∷ []) else (s, cache ++ (x ∷ []))

  unfoldable pub absorb_all : SpongeState → List Fr → List Fr → SpongeState × List Fr
  unfolding absorb
  absorb_all s cache [] = (s, cache)
  absorb_all s cache (x ∷ xs) = let next = absorb s cache x in absorb_all next.0 next.1 xs

  -- The code asserts that `message_size` is at most the number of inputs; every call passes it.
  unfoldable pub poseidon2_hash_noir : List Fr → ℕ → Fr
  unfolding absorb_all
  poseidon2_hash_noir inputs message_size =
      let iv = message_size * 2 ^ 64 % modulus in
      let start : SpongeState = record { s0 = 0; s1 = 0; s2 = 0; s3 = iv } in
      let read = absorb_all start [] (take message_size inputs) in
      let closed = if message_size == length inputs then read else absorb read.0 read.1 1 in
      (perform_duplex closed.0 closed.1).s0

  unfoldable pub merkle_hash : Fr → Fr → Fr
  unfolding to_field
  merkle_hash left right = poseidon2_hash_noir (to_field merkle_node ∷ left ∷ right ∷ []) 3

  -- The chunks of 31 bytes, each as a number; `fuel` is the length, of which each chunk takes 31.
  unfoldable pub chunk_fields : (fuel : ℕ) → Bytes → List Fr
  unfolding from_le_bytes
  chunk_fields zero bytes = []
  chunk_fields (suc fuel) [] = []
  chunk_fields (suc fuel) (b ∷ bytes) =
      let rest = chunk_fields fuel (drop 31 (b ∷ bytes)) in
      from_le_bytes (take 31 (b ∷ bytes)) % modulus ∷ rest

  unfoldable pub ciphertext_hash : Bytes → Fr
  unfolding to_field chunk_fields
  ciphertext_hash bytes =
      let inputs = to_field ciphertext ∷ length bytes ∷ chunk_fields (length bytes) bytes in
      poseidon2_hash_noir inputs (length inputs)

-- 32 bytes, big-endian
unfoldable pub field_to_bytes : Fr → Bytes
unfolding to_be_bytes
field_to_bytes f = to_be_bytes 32 f

unfoldable pub field_from_bytes : Bytes → Fr
unfolding from_be_bytes
field_from_bytes bytes = from_be_bytes bytes % modulus
