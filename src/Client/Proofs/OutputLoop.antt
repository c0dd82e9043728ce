-- ===== src/Client/Proofs/OutputLoop.antt =====
-- The loops on the outputs: what they accept, and that the sum cannot overflow.
use solana_masp.Prelude.{
  ℕ, ◌+◌, ◌*◌, ◌^◌, ◌<◌, ◌≡◌, ◌≢◌, ◌↔◌, inl, inr, refl, ap, true, false, List, [], ◌∷◌, Bool-cases,
  arith, if◌then◌else◌, length,
}
use solana_masp.Client.Outcome.{done}
use solana_masp.Client.Hash.{Fr, Crypto}
use solana_masp.Client.Note.{Note, commitment, derive_output_nonce_nm}
use solana_masp.Client.Requests.{OutputSlot}
use solana_masp.Client.Proofs.{
  checked_add_u128, add_amount, check_output, check_outputs, check_ct_hashes,
}

-- The amounts of the enabled slots
unfoldable pub output_sum : List OutputSlot → ℕ
output_sum [] = 0
output_sum (s ∷ slots) = (if s.enabled then s.note.amount else 0) + output_sum slots

abbrev pub NoteAmountsFit : List OutputSlot → Type 0
NoteAmountsFit [] = Unit {0}
NoteAmountsFit (s ∷ slots) = (s.note.amount < 2 ^ 64) × NoteAmountsFit slots

-- An enabled output has a ciphertext hash, and only such an output.
abbrev pub HashesHold : List OutputSlot → List Fr → Type 0
HashesHold [] ct_hashes = Unit {0}
HashesHold (slot ∷ slots) [] = Unit {0}
HashesHold (slot ∷ slots) (h ∷ ct_hashes) =
    (slot.enabled ≡ true → h ≢ 0) × (slot.enabled ≡ false → h ≡ 0) × HashesHold slots ct_hashes

pub check_ct_hashes-HashesHold :
    (slots : List OutputSlot) (ct_hashes : List Fr)
    → (check_ct_hashes slots ct_hashes ≡ done tt) ↔ HashesHold slots ct_hashes
unfolding check_ct_hashes
check_ct_hashes-HashesHold [] ct_hashes = (λ _. tt, λ _. refl)
check_ct_hashes-HashesHold (slot ∷ slots) [] = (λ _. tt, λ _. refl)
check_ct_hashes-HashesHold (slot ∷ slots) (h ∷ ct_hashes) =
    let rest = check_ct_hashes-HashesHold slots ct_hashes in
    elim (Bool-cases slot.enabled) [
      | inl on ↦ (
        λ e. (λ _. ground arith, λ off. cc, rest.0 (ground arith)),
        λ hold. let later = rest.1 hold.2 in let here = hold.0 on in ground arith,
      )
      | inr off ↦ (
        λ e. (λ on. cc, λ _. ground arith, rest.0 (ground arith)),
        λ hold. let later = rest.1 hold.2 in let here = hold.1 off in ground arith,
      )
    ]

module _ (crypto : Crypto) (tx_binding asset : Fr) where
  pub record OutputStatement (j : ℕ) (note : Note) (cm : Fr) : Type 0 where
    pub committed : commitment crypto note ≡ cm
    pub nonce : note.nullifier_nonce ≡ derive_output_nonce_nm crypto tx_binding j
    pub same_asset : note.asset_id ≡ asset

  check_output-OutputStatement :
      (j : ℕ) (note : Note) (cm : Fr)
      → (check_output crypto tx_binding asset j note cm ≡ done tt) ↔ OutputStatement j note cm
  unfolding check_output
  check_output-OutputStatement j note cm = (sound, complete)
    where
      sound : check_output crypto tx_binding asset j note cm ≡ done tt → OutputStatement j note cm
      sound h = record { committed = ground arith; nonce = ground arith; same_asset = ground arith }

      complete :
          OutputStatement j note cm → check_output crypto tx_binding asset j note cm ≡ done tt
      complete h = ground (arith, h.committed, h.nonce, h.same_asset)

  abbrev pub OutputsHold : ℕ → List OutputSlot → List Fr → Type 0
  OutputsHold j [] commitments = Unit {0}
  OutputsHold j (slot ∷ slots) [] = Unit {0}
  OutputsHold j (slot ∷ slots) (cm ∷ commitments) =
      (slot.enabled ≡ true → OutputStatement j slot.note cm)
      × (slot.enabled ≡ false → cm ≡ 0)
      × OutputsHold (j + 1) slots commitments

  pub check_outputs-done :
      (j : ℕ) (slots : List OutputSlot) (commitments : List Fr) (sum total : ℕ)
      → length slots ≡ length commitments
      → check_outputs crypto tx_binding asset j slots commitments sum ≡ done total
      → (total ≡ sum + output_sum slots) × OutputsHold j slots commitments
  unfolding check_outputs output_sum add_amount checked_add_u128
  check_outputs-done j [] commitments sum total sized h = (ground arith, tt)
  check_outputs-done j (slot ∷ slots) [] sum total sized h = absurd (omega arith)
  check_outputs-done j (slot ∷ slots) (cm ∷ commitments) sum total sized h =
      elim (Bool-cases slot.enabled) [
        | inl on ↦
            let accepted : check_output crypto tx_binding asset j slot.note cm ≡ done tt =
              ground arith in
            let rest : check_outputs crypto tx_binding asset (j + 1) slots commitments
                  (sum + slot.note.amount)
                ≡ done total =
              ground arith in
            let (added, hold) =
              check_outputs-done (j + 1) slots commitments (sum + slot.note.amount) total
                (omega arith) rest in
            (
              rw (on) (omega arith),
              (λ _. (check_output-OutputStatement j slot.note cm).0 accepted, λ off. cc, hold),
            )
        | inr off ↦
            let rest : check_outputs crypto tx_binding asset (j + 1) slots commitments sum
                ≡ done total =
              ground arith in
            let zeroed : cm ≡ 0 = ground arith in
            let (added, hold) =
              check_outputs-done (j + 1) slots commitments sum total (omega arith) rest in
            (rw (off) (omega arith), (λ on. cc, λ _. zeroed, hold))
      ]

  pub check_outputs-OutputsHold :
      (j : ℕ) (slots : List OutputSlot) (commitments : List Fr) (sum : ℕ)
      → length slots ≡ length commitments
      → NoteAmountsFit slots
      → sum + length slots * 2 ^ 64 < 2 ^ 128
      → OutputsHold j slots commitments
      → check_outputs crypto tx_binding asset j slots commitments sum
        ≡ done (sum + output_sum slots)
  unfolding check_outputs output_sum add_amount checked_add_u128
  check_outputs-OutputsHold j [] commitments sum sized fit room hold = ap done (omega arith)
  check_outputs-OutputsHold j (slot ∷ slots) [] sum sized fit room hold = absurd (omega arith)
  check_outputs-OutputsHold j (slot ∷ slots) (cm ∷ commitments) sum sized fit room hold =
      elim (Bool-cases slot.enabled) [
        | inl on ↦
            let accepted = (check_output-OutputStatement j slot.note cm).1 (hold.0 on) in
            let rest =
              check_outputs-OutputsHold (j + 1) slots commitments (sum + slot.note.amount)
                (omega arith) fit.1 (omega arith) hold.2 in
            let room : sum + slot.note.amount < 2 ^ 128 = omega arith in ground arith
        | inr off ↦
            let zeroed = hold.1 off in
            let rest =
              check_outputs-OutputsHold (j + 1) slots commitments sum (omega arith) fit.1
                (omega arith) hold.2 in
            ground arith
      ]
