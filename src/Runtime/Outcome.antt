-- ===== src/Runtime/Outcome.antt =====
-- What a handler returns (`ProgramResult`, `Result<T, ProgramError>`), and `?` as a bind.
use solana_masp.Prelude.{
  ℕ, ◌≡◌, refl, ap, ◌∙◌, ◌⊎◌, inl, inr, Bool, true, false, Option, none, some,
}

-- The members of `solana_program::program_error::ProgramError` that the programs raise. `panicked`
-- stands for a Rust panic (an index or a slice out of range), which aborts the instruction too.
pub data ProgramError : Type 0 where
  missing_required_signature invalid_instruction_data invalid_account_data : ProgramError
  invalid_argument incorrect_program_id illegal_owner : ProgramError
  not_enough_account_keys borsh_io_error panicked : ProgramError
  custom : ℕ → ProgramError

pub data Result {ℓ} (T : Type ℓ) : Type ℓ where
  err : (raised : ProgramError) → Result T
  ok : (value : T) → Result T

-- `?`. It stays shut, so that a proof can take a successful chain apart step by step.
infixl 5 ◌>>=◌
unfoldable pub ◌>>=◌ {ℓ κ} :
    {T : Type ℓ} {U : Type κ} (m : Result T) (next : T → Result U) → Result U
(err raised) >>= next = err raised
(ok value) >>= next = next value

-- `if !test { return Err(raised) }`
abbrev pub require : (test : Bool) (raised : ProgramError) → Result (Unit {0})
require false raised = err raised
require true raised = ok tt

-- A check, then the rest of the handler
infixl 5 ◌>>◌
abbrev pub ◌>>◌ {κ} : {U : Type κ} (check : Result (Unit {0})) (rest : Result U) → Result U
check >> rest = check >>= λ _. rest

abbrev pub ok_or {ℓ} : {A : Type ℓ} → Option A → ProgramError → Result A
ok_or none e = err e
ok_or (some a) e = ok a

pub Result-cases {ℓ} :
    {A : Type ℓ} (r : Result A) → ((a : A) × (r ≡ ok a)) ⊎ ((e : ProgramError) × (r ≡ err e))
Result-cases (ok a) = inl (a, refl)
Result-cases (err e) = inr (e, refl)

-- A chain that succeeds: its first step succeeded, and so did what follows on the value.
pub >>=-eq-ok {ℓ κ} :
    {T : Type ℓ} {U : Type κ} (m : Result T) (next : T → Result U) {u : U}
    → (m >>= next) ≡ ok u
    → (value : T) × (m ≡ ok value) × (next value ≡ ok u)
unfolding ◌>>=◌
>>=-eq-ok (err raised) next succeeded = cc
>>=-eq-ok (ok value) next succeeded = (value, refl, succeeded)

-- And back: a step that succeeds hands its value to what follows.
pub bind_ok {ℓ κ} :
    {T : Type ℓ} {U : Type κ} (m : Result T) (next : T → Result U) {value : T} {r : Result U}
    → m ≡ ok value
    → next value ≡ r
    → (m >>= next) ≡ r
unfolding ◌>>=◌
bind_ok m next e rest = ap (λ t. t >>= next) e ∙ rest

pub require_ok {κ} :
    {U : Type κ} (test : Bool) (raised : ProgramError) (rest : Result U) {r : Result U}
    → test ≡ true
    → rest ≡ r
    → (require test raised >> rest) ≡ r
unfolding ◌>>=◌
require_ok test raised rest e follows = ap (λ b. require b raised >> rest) e ∙ follows

-- A successful chain, handed to what follows.
pub with_ok {ℓ κ μ} :
    {A : Type ℓ} {B : Type κ} {C : Type μ} (m : Result A) (f : A → Result B) {b : B}
    → (m >>= f) ≡ ok b
    → ((a : A) → m ≡ ok a → f a ≡ ok b → C)
    → C
with_ok m f h k = let (a, e, rest) = >>=-eq-ok m f h in k a e rest

pub require-eq-ok : (b : Bool) (e : ProgramError) {u : Unit {0}} → require b e ≡ ok u → b ≡ true
require-eq-ok true e h = refl
require-eq-ok false e h = cc

-- `.map_err(|_| e)`
abbrev pub or_else {ℓ} : {A : Type ℓ} → Result A → ProgramError → Result A
or_else (ok a) e = ok a
or_else (err _) e = err e

pub ok-injective {ℓ} : {A : Type ℓ} {a b : A} → ok a ≡ ok b → a ≡ b
ok-injective h = cc

pub ok_or-eq-ok {ℓ} :
    {A : Type ℓ} (o : Option A) (e : ProgramError) {a : A} → ok_or o e ≡ ok a → o ≡ some a
ok_or-eq-ok none e h = cc
ok_or-eq-ok (some a) e h = ap some (ok-injective h)

pub or_else-ok {ℓ} :
    {A : Type ℓ} (r : Result A) (e : ProgramError) {a : A} → or_else r e ≡ ok a → r ≡ ok a
or_else-ok (ok a) e h = h
or_else-ok (err x) e h = cc
