-- ===== src/Masp/Spent.antt =====
-- Sequences of transactions: what was spent stays spent, and nothing is spent twice.
use mathlib.Core.Path.{subst}
use solana_masp.Prelude.{
  sym, Bool, ◌≡◌, ◌≢◌, true, false, List, [], ◌∷◌, Bytes, inl, inr, ◌==◌, if◌then◌else◌, ◌&&◌,
}
use solana_masp.Runtime.{Result, ok, ok-injective, Result-cases, AccountInfo, Ledger, Pubkey}
use solana_masp.Masp.Stores.{is_empty}
use solana_masp.Masp.Build.{Build}
use solana_masp.Masp.Build.Laws.{RuntimeLaws}
use solana_masp.Masp.Instructions.{process_post_ciphertexts}
use solana_masp.Masp.Entry.{
  process_instruction, ix_initialize, ix_init_proof_buffer, ix_upload_chunk, ix_shield, ix_transfer,
  ix_unshield, ix_update_root, ix_post_ciphertexts,
}
use solana_masp.Masp.Growth.{Grows, Grows-refl, Grows-trans}
use solana_masp.Masp.Nullifiers.{All, nullifier_pda, Marked-Grows}
use solana_masp.Masp.Transfer.{process_transfer_effect}
use solana_masp.Masp.Unshield.{process_unshield_effect}
use solana_masp.Masp.Shield.{process_shield-Grows}
use solana_masp.Masp.Setup.{
  process_initialize-Grows, process_init_proof_buffer-Grows, process_upload_chunk-Grows,
  process_update_root-Grows,
}
use solana_masp.Masp.Transactions.{
  Tx, submit, submit_all, AcceptedSpend, by_transfer, by_unshield, transfer_nullifiers-run,
  unshield_nullifiers-run,
}

-- Of two lists of nullifiers, no account of the first is an account of the second.
abbrev pub AreApart : (Bytes → Pubkey) → List Bytes → List Bytes → Type 0
AreApart pda [] ms = Unit
AreApart pda (n ∷ ns) ms = All (λ m. pda n ≢ pda m) ms × AreApart pda ns ms

apart_of :
    (pda : Bytes → Pubkey) (n : Bytes) (ms : List Bytes) (l : Ledger)
    → is_empty (l (pda n)).bytes ≡ false
    → All (λ m. is_empty (l (pda m)).bytes ≡ true) ms
    → All (λ m. pda n ≢ pda m) ms
apart_of pda n [] l spent fresh = tt
apart_of pda n (m ∷ ms) l spent fresh =
    (λ e. cc (rw e at spent, fresh.0), apart_of pda n ms l spent fresh.1)

spent-fresh-apart :
    (pda : Bytes → Pubkey) (ns ms : List Bytes) {l l' : Ledger}
    → Grows l l'
    → All (λ n. is_empty (l (pda n)).bytes ≡ false) ns
    → All (λ m. is_empty (l' (pda m)).bytes ≡ true) ms
    → AreApart pda ns ms
spent-fresh-apart pda [] ms grows spent fresh = tt
spent-fresh-apart pda (n ∷ ns) ms {l} {l'} grows spent fresh = (
  apart_of pda n ms l' (grows.keeps (pda n) spent.0) fresh,
  spent-fresh-apart pda ns ms grows spent.1 fresh,
)

with_if {ℓ κ} :
    {A : Type ℓ} {C : Type κ} (b : Bool) (x y : Result A) {r : Result A}
    → (if b then x else y) ≡ r
    → (x ≡ r → C)
    → (y ≡ r → C)
    → C
with_if true x y h f g = f h
with_if false x y h f g = g h

module _ (build : Build) (laws : RuntimeLaws build) (program_id : Pubkey) where
  -- Under the laws of the runtime, no instruction that the program accepts takes all the data out of an account that has some.
  pub process_instruction-Grows :
      (accounts : List AccountInfo) (payload : Bytes) (l : Ledger) {l' : Ledger}
      → process_instruction build program_id accounts payload l ≡ ok l'
      → Grows l l'
  unfolding process_instruction process_post_ciphertexts
  process_instruction-Grows accounts [] l h = cc
  process_instruction-Grows accounts (d ∷ p) l h =
      with_if (d == ix_initialize) _ _ h
        (process_initialize-Grows build laws program_id accounts p l)
        λ h₁.
          with_if (d == ix_init_proof_buffer) _ _ h₁
            (process_init_proof_buffer-Grows build laws program_id accounts p l)
            λ h₂.
              with_if (d == ix_upload_chunk) _ _ h₂ (process_upload_chunk-Grows accounts p l) λ h₃.
                with_if (d == ix_shield) _ _ h₃
                  (process_shield-Grows build laws program_id accounts p l)
                  λ h₄.
                    with_if (d == ix_transfer) _ _ h₄
                      (λ h₅.
                        (process_transfer_effect build laws program_id accounts p l h₅).1.grows)
                      λ h₅.
                        with_if (d == ix_unshield) _ _ h₅
                          (λ h₆.
                            Marked-Grows
                              (process_unshield_effect build laws program_id accounts p l h₆).2)
                          λ h₆.
                            with_if (build.local_testing && d == ix_update_root) _ _ h₆
                              (process_update_root-Grows build laws program_id accounts p l)
                              λ h₇.
                                with_if (d == ix_post_ciphertexts) _ _ h₇
                                  (λ h₈. rw (← ok-injective h₈) (Grows-refl l)) λ h₈. cc

  submit-Grows : (tx : Tx) (l : Ledger) → Grows l (submit build program_id tx l)
  unfolding submit
  submit-Grows tx l =
      elim (Result-cases (process_instruction build program_id tx.accounts tx.payload l)) [
        | inl accepted ↦
            rw (accepted.1, submit) (process_instruction-Grows tx.accounts tx.payload l accepted.1)
        | inr rejected ↦ rw (rejected.1, submit) (Grows-refl l)
      ]

  pub submit_all-Grows : (txs : List Tx) (l : Ledger) → Grows l (submit_all build program_id txs l)
  unfolding submit_all
  submit_all-Grows [] l = Grows-refl l
  submit_all-Grows (tx ∷ txs) l =
      Grows-trans (submit-Grows tx l) (submit_all-Grows txs (submit build program_id tx l))

  abbrev pub IsSpent : Bytes → Ledger → Type 0
  IsSpent n l = is_empty (l (nullifier_pda build program_id n)).bytes ≡ false

  abbrev pub IsUnspent : Bytes → Ledger → Type 0
  IsUnspent n l = is_empty (l (nullifier_pda build program_id n)).bytes ≡ true

  -- A spend finds its nullifiers unspent, and leaves them spent.
  pub AcceptedSpend-marks :
      {l l' : Ledger} {ns : List Bytes}
      → AcceptedSpend build program_id l l' ns
      → All (λ n. IsUnspent n l) ns × All (λ n. IsSpent n l') ns
  AcceptedSpend-marks {l} (by_transfer accounts ix_data {l'} accepted) =
      let (run, effect) =
        process_transfer_effect build laws program_id accounts ix_data l accepted in
      subst (λ ns. All (λ n. IsUnspent n l) ns × All (λ n. IsSpent n l') ns)
        (sym (transfer_nullifiers-run build program_id accounts ix_data l l' run))
        (effect.fresh, effect.spent)
  AcceptedSpend-marks {l} (by_unshield accounts ix_data {l'} accepted) =
      let (run, _, marked) =
        process_unshield_effect build laws program_id accounts ix_data l accepted in
      subst (λ ns. All (λ n. IsUnspent n l) ns × All (λ n. IsSpent n l') ns)
        (sym (unshield_nullifiers-run build program_id accounts ix_data l l' run))
        ((marked.fresh, tt), (marked.spent, tt))

  -- No double spend: under the laws of the runtime, after an accepted spend and any sequence of transactions, accepted or not, the
  -- nullifiers of another accepted spend have other accounts than those of the first.
  pub no_double_spend :
      {l₁ l₂ l₃ : Ledger} {ns ms : List Bytes} (txs : List Tx)
      → AcceptedSpend build program_id l₁ l₂ ns
      → AcceptedSpend build program_id (submit_all build program_id txs l₂) l₃ ms
      → AreApart (nullifier_pda build program_id) ns ms
  no_double_spend {l₂ = l₂} {ns} {ms} txs first second =
      spent-fresh-apart (nullifier_pda build program_id) ns ms (submit_all-Grows txs l₂)
        (AcceptedSpend-marks first).1 (AcceptedSpend-marks second).0
