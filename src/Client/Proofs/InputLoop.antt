-- ===== src/Client/Proofs/InputLoop.antt =====
-- The loop on the inputs: what it accepts, and that its sum cannot overflow.
use solana_masp.Prelude.{
  ℕ, ◌+◌, ◌*◌, ◌^◌, ◌<◌, ◌≡◌, ◌⊎◌, inl, inr, refl, sym, ap, ap₂, ◌∙◌, true, false, List, [], ◌∷◌,
  Option, none, some, Bool-cases, arith, if◌then◌else◌, length,
}
use solana_masp.Client.Outcome.{done}
use solana_masp.Client.Hash.{Fr, Crypto}
use solana_masp.Client.Requests.{InputSlot, count_inputs}
use solana_masp.Client.Proofs.{checked_add_u128, check_input, check_asset, add_amount, check_inputs}
use solana_masp.Client.Proofs.Inputs.{InputStatement, check_input-InputStatement}

-- The amounts of the enabled slots
unfoldable pub input_sum : List InputSlot → ℕ
input_sum [] = 0
input_sum (s ∷ slots) = (if s.enabled then s.note_amount else 0) + input_sum slots

-- The asset of the first enabled slot, unless one is known
unfoldable pub first_asset : Option Fr → List InputSlot → Option Fr
first_asset (some a) slots = some a
first_asset none [] = none
first_asset none (s ∷ slots) = if s.enabled then some s.note_asset_id else first_asset none slots

some_inj : {a b : Fr} → some a ≡ some b → a ≡ b
some_inj h = cc

first_asset_off :
    (slot : InputSlot) (slots : List InputSlot)
    → slot.enabled ≡ false
    → (asset : Option Fr) → first_asset asset (slot ∷ slots) ≡ first_asset asset slots
unfolding first_asset
first_asset_off slot slots off none = rw (off) refl
first_asset_off slot [] off (some a) = refl
first_asset_off slot (s ∷ slots) off (some a) = refl

first_asset_on :
    (slot : InputSlot) (slots : List InputSlot)
    → slot.enabled ≡ true
    → (asset : Option Fr) → (asset ≡ none) ⊎ (asset ≡ some slot.note_asset_id)
    → first_asset asset (slot ∷ slots) ≡ some slot.note_asset_id
unfolding first_asset
first_asset_on slot slots on none known = rw (on) refl
first_asset_on slot slots on (some a) (inl e) = cc
first_asset_on slot slots on (some a) (inr e) = e

count_off :
    (slot : InputSlot) (slots : List InputSlot)
    → slot.enabled ≡ false
    → 0 < count_inputs (slot ∷ slots)
    → 0 < count_inputs slots
unfolding count_inputs
count_off slot slots off h = ground arith

pub first_asset-count_inputs :
    (slots : List InputSlot) (a : Fr) → first_asset none slots ≡ some a → 0 < count_inputs slots
unfolding first_asset count_inputs
first_asset-count_inputs [] a h = cc
first_asset-count_inputs (s ∷ slots) a h = elim (Bool-cases s.enabled) [
  | inl on ↦ rw (on) (omega arith)
  | inr off ↦
      let rest : 0 < count_inputs slots =
        first_asset-count_inputs slots a (sym (first_asset_off s slots off none) ∙ h) in
      rw (off) (omega arith)
]

-- `amount: u64`
abbrev pub AmountsFit : List InputSlot → Type 0
AmountsFit [] = Unit {0}
AmountsFit (s ∷ slots) = (s.note_amount < 2 ^ 64) × AmountsFit slots

add_amount-done : (sum amount total : ℕ) → add_amount sum amount ≡ done total → total ≡ sum + amount
unfolding add_amount checked_add_u128
add_amount-done sum amount total h = ground arith

add_amount_fits :
    (sum amount : ℕ) → sum + amount < 2 ^ 128 → add_amount sum amount ≡ done (sum + amount)
unfolding add_amount checked_add_u128
add_amount_fits sum amount h = ground arith

module _ (crypto : Crypto) where
  pub record EnabledInput (anchor asset : Fr) (slot : InputSlot) (nf : Fr) : Type 0 where
    pub spends : InputStatement crypto anchor slot nf
    pub same_asset : slot.note_asset_id ≡ asset

  abbrev pub InputsHold : (anchor asset : Fr) → List InputSlot → List Fr → Type 0
  InputsHold anchor asset [] nullifiers = Unit {0}
  InputsHold anchor asset (slot ∷ slots) [] = Unit {0}
  InputsHold anchor asset (slot ∷ slots) (nf ∷ nullifiers) =
      (slot.enabled ≡ true → EnabledInput anchor asset slot nf)
      × (slot.enabled ≡ false → nf ≡ 0)
      × InputsHold anchor asset slots nullifiers

  module _ (anchor : Fr) (slot : InputSlot) (slots : List InputSlot) (nf : Fr)
      (nullifiers : List Fr) (on : slot.enabled ≡ true) where
    -- One turn on an enabled slot, forwards and backwards
    enabled_step :
        (asset : Option Fr) (sum : ℕ) (r : Option Fr × ℕ)
        → check_inputs crypto anchor (slot ∷ slots) (nf ∷ nullifiers) asset sum ≡ done r
        → (check_input crypto anchor slot nf ≡ done tt)
          × (check_inputs crypto anchor slots nullifiers
                (some slot.note_asset_id)
                (sum + slot.note_amount)
              ≡ done r)
          × (first_asset asset (slot ∷ slots) ≡ some slot.note_asset_id)
    unfolding check_inputs first_asset check_asset add_amount checked_add_u128
    enabled_step none sum r h = (ground arith, ground arith, ground arith)
    enabled_step (some a) sum r h =
        let same : a ≡ slot.note_asset_id = ground arith in
        (ground arith, ground arith, ap some same)

    step_enabled :
        (asset : Option Fr) (sum : ℕ)
        → (asset ≡ none) ⊎ (asset ≡ some slot.note_asset_id)
        → sum + slot.note_amount < 2 ^ 128
        → check_input crypto anchor slot nf ≡ done tt
        → check_inputs crypto anchor (slot ∷ slots) (nf ∷ nullifiers) asset sum
          ≡ check_inputs crypto anchor slots nullifiers
              (some slot.note_asset_id)
              (sum + slot.note_amount)
    unfolding check_inputs check_asset add_amount checked_add_u128
    step_enabled asset sum (inl e) fits accepted = ground arith
    step_enabled asset sum (inr e) fits accepted = ground arith

  step_disabled :
      (anchor : Fr) (slot : InputSlot) (slots : List InputSlot) (nf : Fr) (nullifiers : List Fr)
      → slot.enabled ≡ false
      → (asset : Option Fr) (sum : ℕ) → nf ≡ 0
      → check_inputs crypto anchor (slot ∷ slots) (nf ∷ nullifiers) asset sum
        ≡ check_inputs crypto anchor slots nullifiers asset sum
  unfolding check_inputs
  step_disabled anchor slot slots nf nullifiers off asset sum zeroed = ground arith

  pub check_inputs-done :
      (anchor : Fr) (slots : List InputSlot) (nullifiers : List Fr) (asset : Option Fr) (sum : ℕ)
      (final : Option Fr) (total : ℕ)
      → length slots ≡ length nullifiers
      → check_inputs crypto anchor slots nullifiers asset sum ≡ done (final, total)
      → (final ≡ first_asset asset slots)
        × (total ≡ sum + input_sum slots)
        × ((a : Fr) → final ≡ some a → InputsHold anchor a slots nullifiers)
  unfolding check_inputs input_sum first_asset
  check_inputs-done anchor [] nullifiers none sum final total sized h =
      (ground arith, ground arith, λ a e. tt)
  check_inputs-done anchor [] nullifiers (some x) sum final total sized h =
      (ground arith, ground arith, λ a e. tt)
  check_inputs-done anchor (slot ∷ slots) [] asset sum final total sized h = absurd (omega arith)
  check_inputs-done anchor (slot ∷ slots) (nf ∷ nullifiers) asset sum final total sized h =
      elim (Bool-cases slot.enabled) [
        | inl on ↦
            let (accepted, rest, first) =
              enabled_step anchor slot slots nf nullifiers on asset sum _ h in
            let (last, added, hold) =
              check_inputs-done anchor slots nullifiers (some slot.note_asset_id)
                (sum + slot.note_amount) final total (omega arith) rest in
            (
              last ∙ sym first,
              rw (on) (omega arith),
              λ a e. (
                λ _. record {
                  spends = (check_input-InputStatement crypto anchor slot nf).0 accepted;
                  same_asset = some_inj (sym last ∙ e);
                },
                λ off. cc,
                hold a e,
              ),
            )
        | inr off ↦
            let rest : check_inputs crypto anchor slots nullifiers asset sum ≡ done (final, total) =
              ground arith in
            let zeroed : nf ≡ 0 = ground arith in
            let (last, added, hold) =
              check_inputs-done anchor slots nullifiers asset sum final total (omega arith) rest in
            (
              last ∙ sym (first_asset_off slot slots off asset),
              rw (off) (omega arith),
              λ a e. (λ on. cc, λ _. zeroed, hold a e),
            )
      ]

  pub first_asset-InputsHold :
      (anchor a : Fr) (slots : List InputSlot) (nullifiers : List Fr)
      → length slots ≡ length nullifiers
      → 0 < count_inputs slots
      → InputsHold anchor a slots nullifiers
      → first_asset none slots ≡ some a
  unfolding first_asset count_inputs
  first_asset-InputsHold anchor a [] nullifiers sized some_on hold = absurd (omega arith)
  first_asset-InputsHold anchor a (slot ∷ slots) [] sized some_on hold = absurd (omega arith)
  first_asset-InputsHold anchor a (slot ∷ slots) (nf ∷ nullifiers) sized some_on hold =
      elim (Bool-cases slot.enabled) [
        | inl on ↦ rw (on) (ap some (hold.0 on).same_asset)
        | inr off ↦
            let more : 0 < count_inputs slots = count_off slot slots off some_on in
            rw (off) (first_asset-InputsHold anchor a slots nullifiers (omega arith) more hold.2)
      ]

  -- Sums of three `u64` fit in a `u128`.
  pub check_inputs-InputsHold :
      (anchor a : Fr) (slots : List InputSlot) (nullifiers : List Fr) (asset : Option Fr) (sum : ℕ)
      → length slots ≡ length nullifiers
      → AmountsFit slots
      → sum + length slots * 2 ^ 64 < 2 ^ 128
      → InputsHold anchor a slots nullifiers
      → (asset ≡ none) ⊎ (asset ≡ some a)
      → check_inputs crypto anchor slots nullifiers asset sum
        ≡ done (first_asset asset slots, sum + input_sum slots)
  unfolding check_inputs input_sum first_asset
  check_inputs-InputsHold anchor a [] nullifiers asset sum sized fit room hold (inl e) =
      rw (e) (ap done (ap₂ (λ p q. (p, q)) refl (omega arith)))
  check_inputs-InputsHold anchor a [] nullifiers asset sum sized fit room hold (inr e) =
      rw (e) (ap done (ap₂ (λ p q. (p, q)) refl (omega arith)))
  check_inputs-InputsHold anchor a (slot ∷ slots) [] asset sum sized fit room hold known =
      absurd (omega arith)
  check_inputs-InputsHold anchor a (slot ∷ slots) (nf ∷ nullifiers) asset sum sized fit room hold
        known =
      elim (Bool-cases slot.enabled) [
        | inl on ↦
            let this = hold.0 on in
            let known' : (asset ≡ none) ⊎ (asset ≡ some slot.note_asset_id) = elim known [
              | inl e ↦ inl e
              | inr e ↦ inr (e ∙ sym (ap some this.same_asset))
            ] in
            step_enabled anchor slot slots nf nullifiers on asset sum known' (omega arith)
              ((check_input-InputStatement crypto anchor slot nf).1 this.spends)
            ∙ check_inputs-InputsHold anchor a slots nullifiers (some slot.note_asset_id)
                (sum + slot.note_amount) (omega arith) fit.1 (omega arith) hold.2
                (inr (ap some this.same_asset))
            ∙ ap₂ (λ p q. done (p, q)) (sym (first_asset_on slot slots on asset known'))
                (rw (on) (omega arith))
        | inr off ↦
            let rest =
              check_inputs-InputsHold anchor a slots nullifiers asset sum (omega arith) fit.1
                (omega arith) hold.2 known in
            let zeroed = hold.1 off in
            step_disabled anchor slot slots nf nullifiers off asset sum zeroed
            ∙ rest
            ∙ ap₂ (λ p q. done (p, q)) (sym (first_asset_off slot slots off asset))
                (rw (off) (omega arith))
      ]
