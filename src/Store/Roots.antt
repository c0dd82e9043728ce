-- ===== src/Store/Roots.antt =====
-- The naive root of the store: every bit of it is a parity of the commitments.
use solana_masp.Prelude.{
  ℕ, zero, suc, ◌+◌, ◌/◌, ◌%◌, ◌<◌, ◌≤◌, ◌≡◌, refl, ap, ◌∙◌, true, false, List, [], ◌∷◌, Bytes, set,
  length, length-set, arith, ltb, leb, replicate,
}
use solana_masp.Runtime.{Pubkey, Result, ok, ◌>>=◌}
use solana_masp.Store.{
  StoreState, new_store_state, xor_bits, xor_bytes, insert_leaf, update_root, is_full, max_leaves,
  anchor_history_size,
}

-- Bit `i` of a number, and byte `j` of an array
unfoldable pub bit : ℕ → ℕ → ℕ
bit zero n = n % 2
bit (suc i) n = bit i (n / 2)

unfoldable pub byte : ℕ → Bytes → ℕ
byte j [] = 0
byte zero (b ∷ bs) = b
byte (suc j) (b ∷ bs) = byte j bs

-- How many of the arrays have bit `i` of byte `j` set
unfoldable pub ones : (j i : ℕ) → List Bytes → ℕ
ones j i [] = 0
ones j i (c ∷ cs) = bit i (byte j c) + ones j i cs

abbrev pub AreArrays : List Bytes → Type 0
AreArrays [] = Unit
AreArrays (c ∷ cs) = (length c ≡ 32) × AreArrays cs

bit_small : (i n : ℕ) → bit i n < 2
unfolding bit
bit_small zero n = omega arith
bit_small (suc i) n = bit_small i (n / 2)

bit_zero : (i : ℕ) → bit i 0 ≡ 0
unfolding bit
bit_zero zero = refl
bit_zero (suc i) = bit_zero i

bit-xor_bits : (w i a b : ℕ) → i < w → bit i (xor_bits w a b) ≡ (bit i a + bit i b) % 2
unfolding bit xor_bits
bit-xor_bits zero i a b h = absurd (omega arith)
bit-xor_bits (suc w) zero a b h = omega arith
bit-xor_bits (suc w) (suc i) a b h =
    let half : xor_bits (suc w) a b / 2 ≡ xor_bits w (a / 2) (b / 2) = omega arith in
    ap (bit i) half ∙ bit-xor_bits w i (a / 2) (b / 2) (omega arith)

byte-xor_bytes :
    (j : ℕ) (r c : Bytes)
    → j < length r
    → length c ≡ length r
    → byte j (xor_bytes r c) ≡ xor_bits 8 (byte j r) (byte j c)
unfolding byte xor_bytes
byte-xor_bytes j [] c h e = absurd (omega arith)
byte-xor_bytes j (x ∷ r) [] h e = absurd (omega arith)
byte-xor_bytes zero (x ∷ r) (y ∷ c) h e = refl
byte-xor_bytes (suc j) (x ∷ r) (y ∷ c) h e = byte-xor_bytes j r c (omega arith) (omega arith)

length-xor_bytes : (r c : Bytes) → length c ≡ length r → length (xor_bytes r c) ≡ length r
unfolding xor_bytes
length-xor_bytes [] c e = refl
length-xor_bytes (x ∷ r) [] e = absurd (omega arith)
length-xor_bytes (x ∷ r) (y ∷ c) e = omega (arith, length-xor_bytes r c (omega arith))

-- The root after a sequence of commitments.
abbrev pub mix : List Bytes → Bytes → Bytes
mix [] r = r
mix (c ∷ cs) r = mix cs (xor_bytes r c)

mix-ones :
    (j i : ℕ) (cs : List Bytes) (r : Bytes)
    → j < 32
    → i < 8
    → AreArrays cs
    → length r ≡ 32
    → bit i (byte j (mix cs r)) ≡ (bit i (byte j r) + ones j i cs) % 2
unfolding ones
mix-ones j i [] r hj hi arrays sized = omega (arith, bit_small i (byte j r))
mix-ones j i (c ∷ cs) r hj hi arrays sized =
    let same : length c ≡ length r = omega (arith, arrays.0) in
    let later =
      mix-ones j i cs (xor_bytes r c) hj hi arrays.1 (length-xor_bytes r c same ∙ sized) in
    let mixed =
      ap (bit i) (byte-xor_bytes j r c (omega arith) same)
      ∙ bit-xor_bits 8 i (byte j r) (byte j c) hi in
    omega (arith, later, mixed)

byte_zeros : (j n : ℕ) → byte j (replicate n 0) ≡ 0
unfolding byte
byte_zeros j zero = refl
byte_zeros zero (suc n) = refl
byte_zeros (suc j) (suc n) = byte_zeros j n

abbrev pub insert_all : List Bytes → StoreState → Result StoreState
insert_all [] s = ok s
insert_all (c ∷ cs) s = insert_leaf s c >>= insert_all cs

-- A state that `StoreState::new` makes, and every later one: the ring has its size, the index is in it.
pub record IsWellFormed (s : StoreState) : Type 0 where
  pub ring : length s.anchor_history ≡ anchor_history_size
  pub in_ring : s.anchor_history_index < anchor_history_size

insert_leaf-ok :
    (c : Bytes) (s : StoreState)
    → IsWellFormed s
    → s.leaf_count < max_leaves
    → (s' : StoreState) × (insert_leaf s c ≡ ok s')
      × IsWellFormed s'
      × (s'.current_root ≡ xor_bytes s.current_root c)
      × (s'.leaf_count ≡ s.leaf_count + 1)
unfolding insert_leaf update_root is_full ◌>>=◌
insert_leaf-ok c s w room =
    let t₁ : leb max_leaves s.leaf_count ≡ false = ground arith in
    let t₂ : ltb s.anchor_history_index (length s.anchor_history) ≡ true =
      rw w.ring (let h = w.in_ring in ground arith) in
    let index = (s.anchor_history_index + 1) % anchor_history_size % 256 in
    let size = length-set s.anchor_history s.anchor_history_index s.current_root ∙ w.ring in
    let s' : StoreState = record s {
      anchor_history = set s.anchor_history s.anchor_history_index s.current_root;
      anchor_history_index = index;
      current_root = xor_bytes s.current_root c;
      leaf_count = s.leaf_count + 1;
    } in
    (s', rw (t₁, t₂) refl, record { ring = size; in_ring = omega arith }, refl, refl)

-- Commitments that fit into the tree are all inserted.
insert_all-ok :
    (cs : List Bytes) (s : StoreState)
    → IsWellFormed s
    → s.leaf_count + length cs ≤ max_leaves
    → (s' : StoreState) × (insert_all cs s ≡ ok s')
      × IsWellFormed s'
      × (s'.current_root ≡ mix cs s.current_root)
      × (s'.leaf_count ≡ s.leaf_count + length cs)
unfolding ◌>>=◌
insert_all-ok [] s w fits = (s, refl, w, refl, omega arith)
insert_all-ok (c ∷ cs) s w fits =
    let (s₁, first, w₁, root₁, count₁) = insert_leaf-ok c s w (omega arith) in
    let (s₂, others, w₂, root₂, count₂) = insert_all-ok cs s₁ w₁ (omega arith) in
    (s₂, rw first others, w₂, root₂ ∙ ap (mix cs) root₁, omega arith)

-- A new store accepts commitments of 32 bytes that fit into its tree; it counts them, and each bit
-- of its root is set exactly when an odd number of them have it set.
pub insert_all-ones :
    (authority : Pubkey) (cs : List Bytes) (j i : ℕ)
    → length cs ≤ max_leaves
    → AreArrays cs
    → j < 32
    → i < 8
    → (s : StoreState) × (insert_all cs (new_store_state authority) ≡ ok s)
      × (s.leaf_count ≡ length cs)
      × (bit i (byte j s.current_root) ≡ ones j i cs % 2)
unfolding new_store_state
insert_all-ones authority cs j i fits arrays hj hi =
    let new = new_store_state authority in
    let well : IsWellFormed new = record { ring = refl; in_ring = omega arith } in
    let (s, runs, _, root, count) = insert_all-ok cs new well (omega arith) in
    let parity = mix-ones j i cs (replicate 32 0) hj hi arrays refl in
    let start = ap (bit i) (byte_zeros j 32) ∙ bit_zero i in
    let last = ap (λ r. bit i (byte j r)) root in
    (s, runs, omega (arith, count), omega (arith, parity, start, last))
