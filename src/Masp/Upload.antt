-- ===== src/Masp/Upload.antt =====
-- UploadChunk: chunks that follow each other are one chunk.
use mathlib.Core.List.{append_assoc}
use solana_masp.Prelude.{
  List, ◌≢◌, get_elem?, some, ==_iff, ℕ, suc, ◌+◌, ◌/◌, ◌%◌, ◌≤◌, ◌<◌, ◌≡◌, if◌then◌else◌, refl,
  sym, ap, ap₂, ◌∙◌, false, [], ◌∷◌, ◌++◌, Bytes, arith, length, take, drop, leb, ◌==◌,
  length-append, length-take_of_le, take-append_left, drop-append_left, drop-drop, inl, inr,
  Bool-cases, leb→le,
}
use solana_masp.Runtime.{
  AccountInfo, Ledger, Pubkey, with_ok, ok-injective, ok_or-eq-ok, require-eq-ok, set_data_ne,
  ProgramError, panicked, invalid_instruction_data, ok, err, ◌>>=◌,
}
use solana_masp.Masp.Error.{into, already_initialized}
use solana_masp.Masp.Instructions.{process_upload_chunk, copy_at, write_chunk}
use solana_masp.Masp.Setup.{length-copy_at}

module _ (o : ℕ) (c d r : Bytes) (room : o + length c ≤ length r) where
  front : Bytes
  front = take o r ++ c

  length-front : length front ≡ o + length c
  unfolding front
  length-front = omega (arith, length-append (take o r) c, length-take_of_le o r (omega arith))

  split : copy_at o c r ≡ front ++ drop (o + length c) r
  unfolding copy_at front
  split = rw append_assoc refl

  copy_at-append : copy_at (o + length c) d (copy_at o c r) ≡ copy_at o (c ++ d) r
  copy_at-append =
      let before : take (o + length c) (copy_at o c r) ≡ front =
        rw (split, ← length-front) (take-append_left front _) in
      let after : drop (o + length c) (copy_at o c r) ≡ drop (o + length c) r =
        rw split (rw length-front at (drop-append_left front (drop (o + length c) r))) in
      let both : length (c ++ d) ≡ length c + length d = length-append c d in
      let rest : drop (o + length c + length d) (copy_at o c r) ≡ drop (o + length (c ++ d)) r =
        sym (drop-drop (length d) (o + length c) (copy_at o c r))
        ∙ ap (drop (length d)) after
        ∙ drop-drop (length d) (o + length c) r
        ∙ ap (λ k. drop k r) (omega arith) in
      unfold copy_at front in
      ap₂ (λ p q. p ++ (d ++ q)) before rest ∙ rw (append_assoc, append_assoc) refl

copy_at-header :
    (o : ℕ) (c : Bytes) (x₀ x₁ x₂ x₃ x₄ : ℕ) (r : Bytes)
    → copy_at (5 + o) c (x₀ ∷ x₁ ∷ x₂ ∷ x₃ ∷ x₄ ∷ r) ≡ x₀ ∷ x₁ ∷ x₂ ∷ x₃ ∷ x₄ ∷ copy_at o c r
unfolding copy_at
copy_at-header o c x₀ x₁ x₂ x₃ x₄ r =
    let e : 5 + o ≡ suc (suc (suc (suc (suc o)))) = omega arith in
    let f : 5 + o + length c ≡ suc (suc (suc (suc (suc (o + length c))))) = omega arith in
    ap₂ (λ p q. p ++ (c ++ q)) (ap (λ k. take k (x₀ ∷ x₁ ∷ x₂ ∷ x₃ ∷ x₄ ∷ r)) e)
      (ap (λ k. drop k (x₀ ∷ x₁ ∷ x₂ ∷ x₃ ∷ x₄ ∷ r)) f)

-- UploadChunk on a buffer that has a header.
write_chunk-header :
    (o : ℕ) (c : Bytes) (x₀ x₁ x₂ x₃ x₄ : ℕ) (r : Bytes)
    → write_chunk o c (x₀ ∷ x₁ ∷ x₂ ∷ x₃ ∷ x₄ ∷ r) ≡ (
        if x₀ == 0
        then if leb (o + length c) (length r)
          then ok (x₀ ∷ x₁ ∷ (o + length c) % 256 ∷ (o + length c) / 256 % 256 ∷ x₄ ∷ copy_at o c r)
          else err invalid_instruction_data
        else err (into already_initialized))
unfolding write_chunk ◌>>=◌
write_chunk-header o c x₀ x₁ x₂ x₃ x₄ r =
    let e : leb (5 + o + length c) (suc (suc (suc (suc (suc (length r))))))
        ≡ leb (o + length c) (length r) =
      ground arith in
    elim (Bool-cases (x₀ == 0)) [
      | inl started ↦ elim (Bool-cases (leb (o + length c) (length r))) [
        | inl fits ↦ rw (started, e, fits, copy_at-header o c x₀ x₁ x₂ x₃ x₄ r) refl
        | inr full ↦ rw (started, e, full) refl
      ]
      | inr done ↦ rw done refl
    ]

-- A buffer without a header is refused, whatever the chunk.
write_chunk-short :
    (b : Bytes)
    → length b < 5
    → (e : ProgramError) × ((o : ℕ) (c : Bytes) → write_chunk o c b ≡ err e)
unfolding write_chunk ◌>>=◌
write_chunk-short [] short = (panicked, λ o c. refl)
write_chunk-short (x ∷ b) short = elim (Bool-cases (x == 0)) [
  | inl started ↦ (
    invalid_instruction_data,
    λ o c.
        let full : leb (5 + o + length c) (length (x ∷ b)) ≡ false = ground arith in
        rw (started, full) refl,
  )
  | inr done ↦ (into already_initialized, λ o c. rw done refl)
]

short_append :
    (o : ℕ) (c d b : Bytes)
    → length b < 5
    → (write_chunk o c b >>= write_chunk (o + length c) d) ≡ write_chunk o (c ++ d) b
unfolding ◌>>=◌
short_append o c d b short =
    let (e, refused) = write_chunk-short b short in rw (refused o c) (sym (refused o (c ++ d)))

-- UploadChunk of two chunks, the second where the first ends, is UploadChunk of both at once: the
-- same bytes and the same header, or the same error.
pub write_chunk-append :
    (o : ℕ) (c d b : Bytes)
    → (write_chunk o c b >>= write_chunk (o + length c) d) ≡ write_chunk o (c ++ d) b
unfolding ◌>>=◌
write_chunk-append o c d (x₀ ∷ x₁ ∷ x₂ ∷ x₃ ∷ x₄ ∷ r) =
    let len : length (c ++ d) ≡ length c + length d = length-append c d in
    elim (Bool-cases (x₀ == 0)) [
      | inl started ↦ elim (Bool-cases (leb (o + length c) (length r))) [
        | inl fits ↦
            let room : o + length c ≤ length r = leb→le _ _ fits in
            let both : o + length c + length d ≡ o + length (c ++ d) = omega (arith, len) in
            let same : length (copy_at o c r) ≡ length r = length-copy_at o c r room in
            rw (write_chunk-header, started, fits, write_chunk-header, started, same, both)
              (rw (copy_at-append o c d r room, write_chunk-header o (c ++ d), started) refl)
        | inr full ↦
            let full' : leb (o + length (c ++ d)) (length r) ≡ false = ground (arith, len) in
            rw (write_chunk-header, write_chunk-header, started, full, full') refl
      ]
      | inr done ↦ rw (write_chunk-header, write_chunk-header, done) refl
    ]
write_chunk-append o c d b = short_append o c d b (omega arith)

-- UploadChunk changes no account whose data starts with another byte than 0, such as the tree state
-- and the nullifiers, whose version is 1.
pub process_upload_chunk-kept :
    (accounts : List AccountInfo) (ix_data : Bytes) (l : Ledger) {l' : Ledger} (k : Pubkey) (b : ℕ)
    → get_elem? (l k).bytes 0 ≡ some b
    → b ≢ 0
    → process_upload_chunk accounts ix_data l ≡ ok l'
    → l' k ≡ l k
unfolding process_upload_chunk write_chunk
process_upload_chunk-kept accounts ix_data l k b starts other h = with_ok _ _ h λ n _ h₁.
    with_ok _ _ h₁ λ _ _ h₂. with_ok _ _ h₂ λ updated written h₃.
      with_ok _ _ written λ status at w₁. with_ok _ _ w₁ λ _ zero_byte _.
        let done = sym (ok-injective h₃) in
        let found = ok_or-eq-ok _ _ at in
        let is_zero : status ≡ 0 = (==_iff _ _).0 (require-eq-ok _ _ zero_byte) in
        let apart : n.0.key ≢ k =
          λ e. let at_k = rw e at found in other (cc (at_k, starts, is_zero)) in
        ap (λ (t : Ledger). t k) done ∙ set_data_ne n.0.key k updated l apart
