-- ===== src/Masp/Inputs/Layout.antt =====
-- The shape of a proof buffer and of its public inputs: widths and counts.
use solana_masp.Prelude.{
  ℕ, suc, ◌+◌, ◌*◌, ◌^◌, ◌<◌, ◌≡◌, refl, ap, ap₂, List, [], ◌∷◌, ◌++◌, Bytes, arith, length, drop,
  map, length-append, drop-append_left, ltb, false,
}
use solana_masp.Masp.Inputs.{
  ShieldInputs, shield_public_inputs, TransferInputs, transfer_public_inputs, UnshieldInputs,
  unshield_public_inputs, buffer_header_size, transfer_pi_count, unshield_pi_count,
}
use solana_masp.Masp.Inputs.Fields.{
  concat, AreFields, u64_field, field_u64, length-u64_field, length-u32_field, field_u64-u64_field,
  length-concat,
}

-- A proof buffer: header, public inputs, and whatever follows.
abbrev pub buffer : Bytes → List Bytes → Bytes → Bytes
buffer header pis rest = header ++ (concat pis ++ rest)

-- What the Rust types say of the inputs.
pub record ShieldFits (i : ShieldInputs) : Type 0 where
  pub commitment : length i.commitment ≡ 32
  pub asset_id : length i.asset_id ≡ 32
  pub amount : i.amount < 2 ^ 64
  pub ct_hash : length i.ct_hash ≡ 32

pub record TransferFits (i : TransferInputs) : Type 0 where
  pub anchor : length i.anchor ≡ 32
  pub nullifiers : AreFields i.nullifiers
  pub three_nullifiers : length i.nullifiers ≡ 3
  pub output_commitments : AreFields i.output_commitments
  pub three_outputs : length i.output_commitments ≡ 3
  pub input_count : i.input_count < 2 ^ 32
  pub output_count : i.output_count < 2 ^ 32
  pub ct_hashes : AreFields i.ct_hashes
  pub three_hashes : length i.ct_hashes ≡ 3
  pub tx_binding : length i.tx_binding ≡ 32

abbrev pub AreU64 : List ℕ → Type 0
AreU64 [] = Unit
AreU64 (n ∷ ns) = (n < 2 ^ 64) × AreU64 ns

pub record UnshieldFits (i : UnshieldInputs) : Type 0 where
  pub anchor : length i.anchor ≡ 32
  pub nullifier : length i.nullifier ≡ 32
  pub tx_binding : length i.tx_binding ≡ 32
  pub amount : i.amount < 2 ^ 64
  pub recipient_limbs : AreU64 i.recipient_limbs
  pub four_limbs : length i.recipient_limbs ≡ 4
  pub asset_id : length i.asset_id ≡ 32

AreFields-append : (fs gs : List Bytes) → AreFields fs → AreFields gs → AreFields (fs ++ gs)
AreFields-append [] gs h k = k
AreFields-append (f ∷ fs) gs h k = (h.0, AreFields-append fs gs h.1 k)

pub AreFields-limbs : (ns : List ℕ) → AreFields (map u64_field ns)
AreFields-limbs [] = tt
AreFields-limbs (n ∷ ns) = (length-u64_field n, AreFields-limbs ns)

pub length-limbs : (ns : List ℕ) → length (map u64_field ns) ≡ length ns
length-limbs [] = refl
length-limbs (n ∷ ns) = ap suc (length-limbs ns)

pub limbs_read : (ns : List ℕ) → AreU64 ns → map field_u64 (map u64_field ns) ≡ ns
limbs_read [] h = refl
limbs_read (n ∷ ns) h = ap₂ (λ x xs. x ∷ xs) (field_u64-u64_field n h.0) (limbs_read ns h.1)

pub length-fields :
    (fs : List Bytes) {k : ℕ} → AreFields fs → length fs ≡ k → length (concat fs) ≡ k * 32
length-fields fs h e = rw (length-concat fs h, e)

pub shield_fields : (i : ShieldInputs) → ShieldFits i → AreFields (shield_public_inputs i)
unfolding shield_public_inputs
shield_fields i h = (h.commitment, (h.asset_id, (length-u64_field i.amount, (h.ct_hash, tt))))

pub transfer_fields : (i : TransferInputs) → TransferFits i → AreFields (transfer_public_inputs i)
unfolding transfer_public_inputs
transfer_fields i h =
    let inputs = length-u32_field i.input_count in
    let outputs = length-u32_field i.output_count in
    let tail = AreFields-append i.ct_hashes _ h.ct_hashes (h.tx_binding, tt) in
    (
      h.anchor,
      AreFields-append i.nullifiers _ h.nullifiers
          (AreFields-append i.output_commitments _ h.output_commitments (inputs, (outputs, tail))),
    )

pub unshield_fields : (i : UnshieldInputs) → UnshieldFits i → AreFields (unshield_public_inputs i)
unfolding unshield_public_inputs
unshield_fields i h =
    let limbs = AreFields-limbs i.recipient_limbs in
    let tail = AreFields-append (map u64_field i.recipient_limbs) _ limbs (h.asset_id, tt) in
    (h.anchor, (h.nullifier, (h.tx_binding, (length-u64_field i.amount, tail))))

pub length-transfer_public_inputs :
    (i : TransferInputs) → TransferFits i → length (transfer_public_inputs i) ≡ transfer_pi_count
unfolding transfer_public_inputs
length-transfer_public_inputs i h =
    simp length-append (omega (arith, h.three_nullifiers, h.three_outputs, h.three_hashes))

pub length-unshield_public_inputs :
    (i : UnshieldInputs) → UnshieldFits i → length (unshield_public_inputs i) ≡ unshield_pi_count
unfolding unshield_public_inputs
length-unshield_public_inputs i h =
    simp length-append (omega (arith, length-limbs i.recipient_limbs, h.four_limbs))

module _ (header rest : Bytes) (sized : length header ≡ buffer_header_size) where
  pub buffer_start : (pis : List Bytes) → drop 5 (buffer header pis rest) ≡ concat pis ++ rest
  buffer_start pis = rw (← sized) (drop-append_left header (concat pis ++ rest))

  pub buffer_room :
      (pis : List Bytes) {k : ℕ}
      → AreFields pis
      → length pis ≡ k
      → ltb (length (buffer header pis rest)) (buffer_header_size + k * 32) ≡ false
  buffer_room pis {k} h e =
      let size : length (buffer header pis rest) ≡ 5 + (k * 32 + length rest) =
        rw (length-append, length-append, length-concat pis h, e, sized) in
      ground arith
