-- ===== src/Client/Note/RoundTrip.antt =====
-- Notes and recipients survive their encodings.
use solana_masp.Prelude.{
  ℕ, zero, suc, ◌*◌, ◌^◌, ◌<◌, ◌≡◌, refl, ap₂, ◌∙◌, [], ◌∷◌, ◌++◌, Bytes, IsBytes, arith, length,
  take, drop, to_le_bytes, from_le_bytes, take-append-drop, length-take_of_le, length-drop,
  to_le_bytes-from_le_bytes, from_be_bytes-to_be_bytes,
}
use solana_masp.Client.Hash.{Fr, modulus, field_to_bytes, field_from_bytes}
use solana_masp.Client.Note.{
  Note, to_plaintext, from_plaintext, to_limbs, recipient_to_u64_limbs_le,
  recipient_from_u64_limbs_le,
}

-- What the Rust types say of a note
pub record IsNote (n : Note) : Type 0 where
  pub asset_id : n.asset_id < modulus
  pub amount : n.amount < 2 ^ 64
  pub recipient : n.recipient < modulus
  pub diversifier_index : n.diversifier_index < 2 ^ 64
  pub nullifier_nonce : n.nullifier_nonce < modulus
  pub note_randomness : n.note_randomness < modulus

pub field_from_bytes-field_to_bytes :
    (f : Fr) → f < modulus → field_from_bytes (field_to_bytes f) ≡ f
unfolding field_from_bytes field_to_bytes
field_from_bytes-field_to_bytes f h =
    rw (from_be_bytes-to_be_bytes 32 f (omega arith)) (omega arith)

-- A note whose fields are below the modulus and whose integers have 64 bits is read back from
-- its plaintext.
pub from_plaintext-to_plaintext : (n : Note) → IsNote n → from_plaintext (to_plaintext n) ≡ n
unfolding from_plaintext to_plaintext
from_plaintext-to_plaintext n h =
    rw
      (
        field_from_bytes-field_to_bytes n.asset_id h.asset_id,
        field_from_bytes-field_to_bytes n.recipient h.recipient,
        field_from_bytes-field_to_bytes n.nullifier_nonce h.nullifier_nonce,
        field_from_bytes-field_to_bytes n.note_randomness h.note_randomness,
      )
      refl

IsBytes-take : (n : ℕ) (bs : Bytes) → IsBytes bs → IsBytes (take n bs)
IsBytes-take zero bs h = tt
IsBytes-take (suc n) [] h = tt
IsBytes-take (suc n) (b ∷ bs) h = (h.0, IsBytes-take n bs h.1)

IsBytes-drop : (n : ℕ) (bs : Bytes) → IsBytes bs → IsBytes (drop n bs)
IsBytes-drop zero bs h = h
IsBytes-drop (suc n) [] h = tt
IsBytes-drop (suc n) (b ∷ bs) h = IsBytes-drop n bs h.1

from_limbs-to_limbs :
    (n : ℕ) (bs : Bytes)
    → IsBytes bs
    → length bs ≡ n * 8
    → recipient_from_u64_limbs_le (to_limbs n bs) ≡ bs
unfolding recipient_from_u64_limbs_le to_limbs
from_limbs-to_limbs zero [] h sized = refl
from_limbs-to_limbs zero (b ∷ bs) h sized = absurd (omega arith)
from_limbs-to_limbs (suc n) bs h sized =
    let eight : length (take 8 bs) ≡ 8 = length-take_of_le 8 bs (omega arith) in
    let front : to_le_bytes 8 (from_le_bytes (take 8 bs)) ≡ take 8 bs =
      rw eight at (to_le_bytes-from_le_bytes (take 8 bs) (IsBytes-take 8 bs h)) in
    let rest =
      from_limbs-to_limbs n (drop 8 bs) (IsBytes-drop 8 bs h) (omega (arith, length-drop 8 bs)) in
    ap₂ (λ p q. p ++ q) front rest ∙ take-append-drop 8 bs

-- The 32 bytes of a recipient are read back from its limbs.
pub recipient_from_u64_limbs_le-recipient_to_u64_limbs_le :
    (recipient : Bytes)
    → IsBytes recipient
    → length recipient ≡ 32
    → recipient_from_u64_limbs_le (recipient_to_u64_limbs_le recipient) ≡ recipient
unfolding recipient_to_u64_limbs_le
recipient_from_u64_limbs_le-recipient_to_u64_limbs_le recipient h sized =
    from_limbs-to_limbs 4 recipient h sized
