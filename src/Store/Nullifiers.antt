-- ===== src/Store/Nullifiers.antt =====
-- A nullifier is inserted into the store once.
use mathlib.Core.Path.{subst}
use solana_masp.Prelude.{
  ℕ, ◌≡◌, ◌≢◌, refl, sym, ap, ◌∙◌, true, false, List, [], ◌∷◌, Bytes, bytes_eq→eq, length,
  length-replicate, inl, inr, Bool-cases, ◌==◌,
}
use solana_masp.Runtime.{
  ok, err, with_ok, or_else-ok, ok-injective, require-eq-ok, AccountInfo, Ledger, Pubkey,
  Result-cases,
}
use solana_masp.Masp.Stores.{is_empty, create_account_instruction as masp_create}
use solana_masp.Masp.Build.Laws.{CreatesAccounts}
use solana_masp.Masp.Growth.{
  Grows, Grows-refl, Grows-trans, serialize-Grows, serialize-length, length-is_empty,
}
use solana_masp.Masp.Setup.{created-Grows}
use solana_masp.Masp.Transactions.{Tx}
use solana_masp.Store.{
  StoreBuild, create_account_instruction, nullifier_account_size, nullifier_seed,
  process_initialize, process_insert_commitment, process_insert_nullifier, process_instruction,
}

-- Both programs send the System program the same bytes, so that one law speaks of both.
creates_same :
    (payer to : Pubkey) (lamports space : ℕ) (owner : Pubkey)
    → create_account_instruction payer to lamports space owner
      ≡ masp_create payer to lamports space owner
unfolding create_account_instruction masp_create
creates_same payer to lamports space owner = refl

-- The ledger after a transaction; an error leaves it as it was.
unfoldable pub submit : StoreBuild → Pubkey → Tx → Ledger → Ledger
submit build program_id tx l =
    elim (process_instruction build program_id tx.accounts tx.payload l) [ ok l' ↦ l' | err e ↦ l ]

unfoldable pub submit_all : StoreBuild → Pubkey → List Tx → Ledger → Ledger
submit_all build program_id [] l = l
submit_all build program_id (tx ∷ txs) l =
    submit_all build program_id txs (submit build program_id tx l)

module _ (build : StoreBuild) (creates : CreatesAccounts build.host) (program_id : Pubkey) where
  made-Grows :
      (payer to : Pubkey) (lamports space : ℕ) (owner : Pubkey) (infos : List AccountInfo)
      (seeds : List (List Bytes)) (l l' : Ledger)
      → build.host.invoke_signed
          (create_account_instruction payer to lamports space owner)
          infos
          seeds
          l
        ≡ ok l'
      → Grows l l'
  made-Grows payer to lamports space owner infos seeds l l' h =
      created-Grows build.host creates payer to lamports space owner infos seeds l l'
        (rw (creates_same payer to lamports space owner) at h)

  process_initialize-Grows :
      (accounts : List AccountInfo) (ix_data : Bytes) (l : Ledger) {l' : Ledger}
      → process_initialize build program_id accounts ix_data l ≡ ok l'
      → Grows l l'
  unfolding process_initialize
  process_initialize-Grows accounts ix_data l h = with_ok _ _ h λ n₁ _ h₁. with_ok _ _ h₁ λ n₂ _ h₂.
      with_ok _ _ h₂ λ n₃ _ h₃. with_ok _ _ h₃ λ _ _ h₄. with_ok _ _ h₄ λ _ _ h₅.
        with_ok _ _ h₅ λ _ _ h₆. with_ok _ _ h₆ λ lamports _ h₇.
          with_ok _ _ h₇ λ created made written.
            Grows-trans (made-Grows _ _ lamports _ _ _ _ l created made)
              (serialize-Grows n₂.0.key _ created written)

  process_insert_commitment-Grows :
      (accounts : List AccountInfo) (ix_data : Bytes) (l : Ledger) {l' : Ledger}
      → process_insert_commitment build program_id accounts ix_data l ≡ ok l'
      → Grows l l'
  unfolding process_insert_commitment
  process_insert_commitment-Grows accounts ix_data l h = with_ok _ _ h λ n₁ _ h₁.
      with_ok _ _ h₁ λ n₂ _ h₂. with_ok _ _ h₂ λ _ _ h₃. with_ok _ _ h₃ λ _ _ h₄.
        with_ok _ _ h₄ λ _ _ h₅.
          with_ok _ _ h₅
            λ _ _ h₆. with_ok _ _ h₆ λ _ _ written. serialize-Grows n₂.0.key _ l written

  -- Where the store keeps a nullifier
  abbrev pub nullifier_pda : Bytes → Pubkey
  nullifier_pda nullifier =
      (build.host.find_program_address (nullifier_seed ∷ nullifier ∷ []) program_id).0

  -- What a successful InsertNullifier of `nullifier` did
  pub record Inserted (nullifier : Bytes) (l l' : Ledger) : Type 0 where
    pub fresh : is_empty (l (nullifier_pda nullifier)).bytes ≡ true
    pub filled : is_empty (l' (nullifier_pda nullifier)).bytes ≡ false
    pub grows : Grows l l'

  process_insert_nullifier-Inserted :
      (accounts : List AccountInfo) (ix_data : Bytes) (l : Ledger) {l' : Ledger}
      → process_insert_nullifier build program_id accounts ix_data l ≡ ok l'
      → (nullifier : Bytes) × (build.insert_nullifier_codec.try_from_slice ix_data ≡ ok nullifier)
        × Inserted nullifier l l'
  unfolding process_insert_nullifier
  process_insert_nullifier-Inserted accounts ix_data l {l'} h = with_ok _ _ h λ n₁ _ h₁.
      with_ok _ _ h₁ λ n₂ _ h₂. with_ok _ _ h₂ λ n₃ _ h₃. with_ok _ _ h₃ λ nullifier parsed h₄.
        with_ok _ _ h₄ λ _ _ h₅. with_ok _ _ h₅ λ _ at_pda h₆. with_ok _ _ h₆ λ _ empty h₇.
          with_ok _ _ h₇ λ lamports _ h₈. with_ok _ _ h₈ λ created made written.
            let e : n₂.0.key ≡ nullifier_pda nullifier =
              bytes_eq→eq _ _ (require-eq-ok _ _ at_pda) in
            let (_, zeros, _) =
              creates.created _ _ lamports nullifier_account_size _ _ _ l created (
                rw (creates_same n₁.0.key n₂.0.key lamports nullifier_account_size program_id) at
                  made) in
            let size = serialize-length n₂.0.key _ created written ∙ ap length zeros in
            let filled : is_empty (l' n₂.0.key).bytes ≡ false =
              length-is_empty (l' n₂.0.key).bytes 40 (size ∙ length-replicate {A = ℕ} 41 0) in
            (
              nullifier,
              or_else-ok _ _ parsed,
              record {
                fresh = subst (λ k. is_empty (l k).bytes ≡ true) e (require-eq-ok _ _ empty);
                filled = subst (λ k. is_empty (l' k).bytes ≡ false) e filled;
                grows =
                    Grows-trans (made-Grows _ _ lamports _ _ _ _ l created made)
                      (serialize-Grows n₂.0.key _ created written);
              },
            )

  process_instruction-Grows :
      (accounts : List AccountInfo) (payload : Bytes) (l : Ledger) {l' : Ledger}
      → process_instruction build program_id accounts payload l ≡ ok l'
      → Grows l l'
  unfolding process_instruction
  process_instruction-Grows accounts [] l h = cc
  process_instruction-Grows accounts (d ∷ payload) l h = elim (Bool-cases (d == 0)) [
    | inl e ↦ process_initialize-Grows accounts payload l (rw (e) at h)
    | inr n₀ ↦ elim (Bool-cases (d == 1)) [
      | inl e ↦ process_insert_commitment-Grows accounts payload l (rw (n₀, e) at h)
      | inr n₁ ↦ elim (Bool-cases (d == 2)) [
        | inl e ↦
            (process_insert_nullifier-Inserted accounts payload l (rw (n₀, n₁, e) at h)).2.grows
        | inr n₂ ↦ cc (rw (n₀, n₁, n₂) at h)
      ]
    ]
  ]

  submit-Grows : (tx : Tx) (l : Ledger) → Grows l (submit build program_id tx l)
  unfolding submit
  submit-Grows tx l =
      elim (Result-cases (process_instruction build program_id tx.accounts tx.payload l)) [
        | inl (l', accepted) ↦
            rw (submit, accepted) (process_instruction-Grows tx.accounts tx.payload l accepted)
        | inr (e, rejected) ↦ rw (submit, rejected) (Grows-refl l)
      ]

  submit_all-Grows : (txs : List Tx) (l : Ledger) → Grows l (submit_all build program_id txs l)
  unfolding submit_all
  submit_all-Grows [] l = Grows-refl l
  submit_all-Grows (tx ∷ txs) l =
      Grows-trans (submit-Grows tx l) (submit_all-Grows txs (submit build program_id tx l))

  -- When CreateAccount behaves as documented: after an InsertNullifier that the store accepted and
  -- any transactions sent to it, accepted or not, no InsertNullifier of the same nullifier is
  -- accepted.
  pub insert_nullifier_once :
      (accounts accounts' : List AccountInfo) (ix_data ix_data' nullifier : Bytes) (txs : List Tx)
      (l : Ledger) {l' : Ledger} (l'' : Ledger)
      → build.insert_nullifier_codec.try_from_slice ix_data ≡ ok nullifier
      → build.insert_nullifier_codec.try_from_slice ix_data' ≡ ok nullifier
      → process_instruction build program_id accounts (2 ∷ ix_data) l ≡ ok l'
      → process_instruction build program_id accounts'
          (2 ∷ ix_data')
          (submit_all build program_id txs l')
        ≢ ok l''
  unfolding process_instruction
  insert_nullifier_once accounts accounts' ix_data ix_data' nullifier txs l {l'} l'' parsed parsed'
        first second =
      let (n, at, one) = process_insert_nullifier-Inserted accounts ix_data l first in
      let later = submit_all build program_id txs l' in
      let (n', at', two) = process_insert_nullifier-Inserted accounts' ix_data' later second in
      let e : n ≡ nullifier = ok-injective (sym at ∙ parsed) in
      let e' : n' ≡ nullifier = ok-injective (sym at' ∙ parsed') in
      let filled = subst (λ k. is_empty (l' (nullifier_pda k)).bytes ≡ false) e one.filled in
      let fresh = subst (λ k. is_empty (later (nullifier_pda k)).bytes ≡ true) e' two.fresh in
      let still = (submit_all-Grows txs l').keeps _ filled in cc (still, fresh)
