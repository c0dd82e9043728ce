-- ===== src/Masp/Inputs/Fields.antt =====
-- A public input is a field of 32 bytes, big-endian; numbers stand in its last bytes.
use mathlib.Core.List.{append_assoc}
use solana_masp.Prelude.{
  ℕ, zero, suc, ◌+◌, ◌*◌, ◌^◌, ◌<◌, ◌≡◌, refl, ap, List, [], ◌∷◌, ◌++◌, Bytes, arith, length, take,
  drop, slice, replicate, to_be_bytes, from_be_bytes, take-append_left, drop-append_left,
  length-append, drop-drop, ap₂, take_all, from_be_bytes-to_be_bytes, length-to_be_bytes,
}

-- `let mut bytes = [0u8; 32]; bytes[24..32].copy_from_slice(&n.to_be_bytes())`
unfoldable pub u64_field : ℕ → Bytes
u64_field n = replicate 24 0 ++ to_be_bytes 8 n

-- `u64::from_be_bytes(bytes[24..32])`
unfoldable pub field_u64 : Bytes → ℕ
field_u64 bytes = from_be_bytes (slice 24 8 bytes)

unfoldable pub u32_field : ℕ → Bytes
u32_field n = replicate 28 0 ++ to_be_bytes 4 n

unfoldable pub field_u32 : Bytes → ℕ
field_u32 bytes = from_be_bytes (slice 28 4 bytes)

-- The next `n` fields from an offset, which moves by 32 for each.
unfoldable pub read_fields : ℕ → ℕ → Bytes → List Bytes
read_fields zero offset bytes = []
read_fields (suc n) offset bytes = slice offset 32 bytes ∷ read_fields n (offset + 32) bytes

-- The fields one after the other.
unfoldable pub concat : List Bytes → Bytes
concat [] = []
concat (f ∷ fs) = f ++ concat fs

-- Every field has 32 bytes.
abbrev pub AreFields : List Bytes → Type 0
AreFields [] = Unit
AreFields (f ∷ fs) = (length f ≡ 32) × AreFields fs

pub field_u64-u64_field : (n : ℕ) → n < 2 ^ 64 → field_u64 (u64_field n) ≡ n
unfolding field_u64 u64_field
field_u64-u64_field n h =
    let e : take 8 (to_be_bytes 8 n) ≡ to_be_bytes 8 n =
      rw (length-to_be_bytes 8 n) at (take_all (to_be_bytes 8 n)) in
    rw e (from_be_bytes-to_be_bytes 8 n h)

pub field_u32-u32_field : (n : ℕ) → n < 2 ^ 32 → field_u32 (u32_field n) ≡ n
unfolding field_u32 u32_field
field_u32-u32_field n h =
    let e : take 4 (to_be_bytes 4 n) ≡ to_be_bytes 4 n =
      rw (length-to_be_bytes 4 n) at (take_all (to_be_bytes 4 n)) in
    rw e (from_be_bytes-to_be_bytes 4 n h)

pub length-u64_field : (n : ℕ) → length (u64_field n) ≡ 32
unfolding u64_field
length-u64_field n = omega (arith, length-to_be_bytes 8 n)

pub length-u32_field : (n : ℕ) → length (u32_field n) ≡ 32
unfolding u32_field
length-u32_field n = omega (arith, length-to_be_bytes 4 n)

pub length-concat : (fs : List Bytes) → AreFields fs → length (concat fs) ≡ length fs * 32
unfolding concat
length-concat [] h = omega arith
length-concat (f ∷ fs) h = omega (arith, length-append f (concat fs), length-concat fs h.1, h.0)

pub concat-append : (fs gs : List Bytes) → concat (fs ++ gs) ≡ concat fs ++ concat gs
unfolding concat
concat-append [] gs = refl
concat-append (f ∷ fs) gs = rw append_assoc (ap (λ t. f ++ t) (concat-append fs gs))

-- A read position: the bytes from `n` on are `f` and then `rest`.
module _ (n : ℕ) (bytes f rest : Bytes) (here : drop n bytes ≡ f ++ rest) where
  pub slice_here : {m : ℕ} → length f ≡ m → slice n m bytes ≡ f
  slice_here e = rw (here, ← e) (take-append_left f rest)

  pub drop_next : {m : ℕ} → length f ≡ m → drop (n + m) bytes ≡ rest
  drop_next {m} e = rw (← drop-drop m n bytes, here, ← e) (drop-append_left f rest)

-- The fields at a read position.
pub read_fields_here :
    (k n : ℕ) (bytes : Bytes) (fs : List Bytes) (rest : Bytes)
    → drop n bytes ≡ concat fs ++ rest
    → AreFields fs
    → length fs ≡ k
    → read_fields k n bytes ≡ fs
unfolding read_fields concat
read_fields_here zero n bytes [] rest here h e = refl
read_fields_here zero n bytes (f ∷ fs) rest here h e = absurd (omega arith)
read_fields_here (suc k) n bytes [] rest here h e = absurd (omega arith)
read_fields_here (suc k) n bytes (f ∷ fs) rest here h e =
    let at : drop n bytes ≡ f ++ (concat fs ++ rest) = rw append_assoc at here in
    ap₂ (λ x xs. x ∷ xs) (slice_here n bytes f (concat fs ++ rest) at h.0)
      (read_fields_here k (n + 32) bytes fs rest (drop_next n bytes f (concat fs ++ rest) at h.0)
        h.1 (omega arith))
