-- ===== src/Protocol/Domain.antt =====
-- masp-protocol/src/domain.rs: the tag that is the first input of every hash.
use solana_masp.Prelude.{
  ℕ, List, [], ◌∷◌, get_elem?, ◌^◌, ◌<◌, ◌≡◌, refl, sym, ap, ◌∙◌, arith, Option, none, some, ◌++◌,
  Bytes, replicate, drop, to_be_bytes, from_be_bytes, from_be_bytes-to_be_bytes,
}

pub data DomainTag : Type 0 where
  note_commitment nullifier asset_id ciphertext transaction_binding nullifier_nonce : DomainTag
  merkle_node incoming_viewing_key authorization_secret nullifier_secret : DomainTag
  outgoing_viewing_key outgoing_ciphertext_key : DomainTag

-- `DomainTag::as_u64`
unfoldable pub as_u64 : DomainTag → ℕ
as_u64 note_commitment = 1
as_u64 nullifier = 2
as_u64 asset_id = 3
as_u64 ciphertext = 4
as_u64 transaction_binding = 5
as_u64 nullifier_nonce = 6
as_u64 merkle_node = 7
as_u64 incoming_viewing_key = 8
as_u64 authorization_secret = 9
as_u64 nullifier_secret = 10
as_u64 outgoing_viewing_key = 11
as_u64 outgoing_ciphertext_key = 12

-- `DomainTag::to_be_bytes`: the tag in the last eight of 32 bytes.
unfoldable pub tag_bytes : DomainTag → Bytes
unfolding as_u64
tag_bytes t = replicate 24 0 ++ to_be_bytes 8 (as_u64 t)

-- The tags by their numbers, and `none` for 0
abbrev tags : List (Option DomainTag)
tags =
    none
    ∷ some note_commitment
    ∷ some nullifier
    ∷ some asset_id
    ∷ some ciphertext
    ∷ some transaction_binding
    ∷ some nullifier_nonce
    ∷ some merkle_node
    ∷ some incoming_viewing_key
    ∷ some authorization_secret
    ∷ some nullifier_secret
    ∷ some outgoing_viewing_key
    ∷ some outgoing_ciphertext_key
    ∷ []

numbered : (t : DomainTag) → (get_elem? tags (as_u64 t) ≡ some (some t)) × (as_u64 t < 2 ^ 64)
unfolding as_u64
numbered note_commitment = (refl, omega arith)
numbered nullifier = (refl, omega arith)
numbered asset_id = (refl, omega arith)
numbered ciphertext = (refl, omega arith)
numbered transaction_binding = (refl, omega arith)
numbered nullifier_nonce = (refl, omega arith)
numbered merkle_node = (refl, omega arith)
numbered incoming_viewing_key = (refl, omega arith)
numbered authorization_secret = (refl, omega arith)
numbered nullifier_secret = (refl, omega arith)
numbered outgoing_viewing_key = (refl, omega arith)
numbered outgoing_ciphertext_key = (refl, omega arith)

-- Tags with the same 32 bytes are the same tag.
pub tag_bytes-injective : (a b : DomainTag) → tag_bytes a ≡ tag_bytes b → a ≡ b
unfolding tag_bytes
tag_bytes-injective a b same =
    let tail : to_be_bytes 8 (as_u64 a) ≡ to_be_bytes 8 (as_u64 b) = ap (drop 24) same in
    let number : as_u64 a ≡ as_u64 b =
      sym (from_be_bytes-to_be_bytes 8 (as_u64 a) (numbered a).1)
      ∙ ap from_be_bytes tail
      ∙ from_be_bytes-to_be_bytes 8 (as_u64 b) (numbered b).1 in
    let e : some (some a) ≡ some (some b) =
      sym (numbered a).0 ∙ ap (get_elem? tags) number ∙ (numbered b).0 in
    cc e
