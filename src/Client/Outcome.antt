-- ===== src/Client/Outcome.antt =====
-- Rust's `Result` with an error type of its own for each trait, and client/src/traits.rs: the errors.
use solana_masp.Prelude.{ℕ, ◌≡◌, refl, ◌⊎◌, inl, inr}

pub data Outcome {ℓ κ} (E : Type ℓ) (T : Type κ) : Type (ℓ ⊔ κ) where
  raised : (error : E) → Outcome E T
  done : (value : T) → Outcome E T

-- `?`
infixl 5 ◌>>=◌
abbrev pub ◌>>=◌ {ℓ κ μ} :
    {E : Type ℓ} {T : Type κ} {U : Type μ} → Outcome E T → (T → Outcome E U) → Outcome E U
(raised e) >>= next = raised e
(done v) >>= next = next v

pub Outcome-cases {ℓ κ} :
    {E : Type ℓ} {T : Type κ} (r : Outcome E T)
    → ((v : T) × (r ≡ done v)) ⊎ ((e : E) × (r ≡ raised e))
Outcome-cases (raised e) = inr (e, refl)
Outcome-cases (done v) = inl (v, refl)

-- A chain that succeeds: its first step succeeded, and what follows on the value did.
pub with_done {ℓ κ μ ν} :
    {E : Type ℓ} {T : Type κ} {U : Type μ} {C : Type ν} (m : Outcome E T) (f : T → Outcome E U)
    {u : U}
    → (m >>= f) ≡ done u
    → ((v : T) → m ≡ done v → f v ≡ done u → C)
    → C
with_done (raised e) f h k = cc
with_done (done v) f h k = k v refl h

-- The errors that carry a text carry none here.
pub data ProofSystemError : Type 0 where
  proving_failed verification_failed invalid_public_inputs circuit_error : ProofSystemError
  not_implemented : ProofSystemError

pub data StoreError : Type 0 where
  not_found connection_error backend_error : StoreError

pub data NullifierError : Type 0 where
  already_spent nullifier_connection nullifier_backend : NullifierError

pub data ChainError : Type 0 where
  double_spend invalid_anchor invalid_proof insufficient_funds transaction_failed : ChainError
  chain_connection other : ChainError
  -- A Rust panic (a slice out of range)
  chain_panicked : ChainError

pub data IndexerError : Type 0 where
  indexer_not_found indexer_connection : IndexerError

-- `ClientError`; `client_panicked` stands for an `expect` on an error.
pub data ClientError : Type 0 where
  store_error : StoreError → ClientError
  indexer_error : IndexerError → ClientError
  chain_error : ChainError → ClientError
  proof_error : ProofSystemError → ClientError
  note_not_found note_already_spent commitment_not_found client_panicked : ClientError
  insufficient_balance : (have need : ℕ) → ClientError

-- `?` on an error of another type, by `From`
abbrev pub map_err {ℓ κ μ} :
    {E : Type ℓ} {F : Type κ} {T : Type μ} → (E → F) → Outcome E T → Outcome F T
map_err f (raised e) = raised (f e)
map_err f (done v) = done v
