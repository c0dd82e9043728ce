-- ===== src/Masp/Nullifiers.antt =====
-- What marking nullifiers as spent does to the ledger.
use solana_masp.Prelude.{
  ℕ, zero, suc, ◌≤◌, ◌≡◌, ◌≢◌, refl, ap, ◌∙◌, true, false, List, [], ◌∷◌, Bytes, bytes_eq,
  bytes_eq→eq, arith, length, length-replicate, inl, inr, Bool-cases,
}
use solana_masp.Runtime.{
  ok, >>=-eq-ok, ok-injective, require-eq-ok, AccountInfo, Ledger, Pubkey, serialize, Host, Borsh,
  Account,
}
use solana_masp.Masp.State.{zero32, new_nullifier_account, nullifier_account_size, NullifierAccount}
use solana_masp.Masp.Stores.{
  create_account_instruction, nullifier_seed, is_empty, derive_pda, insert_nullifier,
}
use solana_masp.Masp.Build.{Build}
use solana_masp.Masp.Build.Laws.{CreatesAccounts}
use solana_masp.Masp.Instructions.{mark_nullifiers}
use solana_masp.Masp.Growth.{
  Grows, Grows-refl, Grows-trans, length-is_empty, serialize-length, serialize-other, not_same,
}

-- Marking one nullifier: its account had no data and has some afterwards, and the data of all
-- other accounts is as before.
pub record Marked (l l' : Ledger) (k : Pubkey) : Type 0 where
  pub fresh : is_empty (l k).bytes ≡ true
  pub spent : is_empty (l' k).bytes ≡ false
  pub others : (j : Pubkey) → k ≢ j → (l' j).bytes ≡ (l j).bytes

module _ (host : Host) (codec : Borsh NullifierAccount) (laws : CreatesAccounts host) where
  insert_nullifier-ok :
      (authority nullifier_pda system_program : AccountInfo) (nullifier : Bytes)
      (program_id : Pubkey) (l : Ledger) {l' : Ledger}
      → insert_nullifier host codec authority nullifier_pda system_program nullifier program_id l
        ≡ ok l'
      → let (expected, bump) = derive_pda host codec nullifier program_id in
        (lamports : ℕ) × (created : Ledger) × (bytes_eq nullifier_pda.key expected ≡ true)
        × (is_empty (l nullifier_pda.key).bytes ≡ true)
        × (host.invoke_signed
              (create_account_instruction authority.key nullifier_pda.key lamports
                nullifier_account_size program_id)
              (authority ∷ nullifier_pda ∷ system_program ∷ [])
              ((nullifier_seed ∷ nullifier ∷ (bump ∷ []) ∷ []) ∷ [])
              l
            ≡ ok created)
        × (serialize nullifier_pda.key (codec.to_vec (new_nullifier_account nullifier 0)) created
            ≡ ok l')
  unfolding insert_nullifier
  insert_nullifier-ok authority nullifier_pda system_program nullifier program_id l h =
      let (u₁, e₁, h₁) = >>=-eq-ok _ _ h in
      let (u₂, e₂, h₂) = >>=-eq-ok _ _ h₁ in
      let (lamports, e₃, h₃) = >>=-eq-ok _ _ h₂ in
      let (created, e₄, h₄) = >>=-eq-ok _ _ h₃ in
      (lamports, created, require-eq-ok _ _ e₁, require-eq-ok _ _ e₂, e₄, h₄)

  pub insert_nullifier-Marked :
      (authority nullifier_pda system_program : AccountInfo) (nullifier : Bytes)
      (program_id : Pubkey) (l : Ledger) {l' : Ledger}
      → insert_nullifier host codec authority nullifier_pda system_program nullifier program_id l
        ≡ ok l'
      → (nullifier_pda.key ≡ (derive_pda host codec nullifier program_id).0)
        × Marked l l' nullifier_pda.key
  insert_nullifier-Marked authority nullifier_pda system_program nullifier program_id l h =
      let (lamports, created, at_pda, fresh, made, written) =
        insert_nullifier-ok authority nullifier_pda system_program nullifier program_id l h in
      let k = nullifier_pda.key in
      let (_, zeros, others) =
        laws.created authority.key k lamports nullifier_account_size program_id _ _ l created
          made in
      let size = serialize-length k _ created written ∙ ap length zeros in
      (
        bytes_eq→eq _ _ at_pda,
        record {
          fresh = fresh;
          spent = length-is_empty _ 40 (size ∙ length-replicate {A = ℕ} 41 0);
          others = λ j ne.
              ap (λ (a : Account). a.bytes) (serialize-other k j _ created written ne)
              ∙ others j ne;
        },
      )

pub Marked-Grows : {l l' : Ledger} {k : Pubkey} → Marked l l' k → Grows l l'
Marked-Grows {l} {l'} {k} m = record {
  keeps = λ j some_data. elim (Bool-cases (bytes_eq k j)) [
    | inl same ↦ rw (bytes_eq→eq k j same) at m.spent
    | inr other ↦ rw (m.others j (λ e. not_same e other)) some_data
  ];
}

abbrev pub All {ℓ κ} : {A : Type ℓ} → (A → Type κ) → List A → Type κ
All P [] = Unit
All P (x ∷ xs) = P x × All P xs

-- The nullifiers among the first `n` that are not zero.
abbrev pub enabled : ℕ → List Bytes → List Bytes
enabled zero ns = []
enabled (suc n) [] = []
enabled (suc n) (x ∷ xs) =
    let rest = enabled n xs in elim (bytes_eq x zero32) [ true ↦ rest | false ↦ x ∷ rest ]

module _ (pda : Bytes → Pubkey) where
  abbrev pub AreDistinct : List Bytes → Type 0
  AreDistinct [] = Unit
  AreDistinct (x ∷ xs) = All (λ y. pda x ≢ pda y) xs × AreDistinct xs

  -- The accounts of these nullifiers are distinct, had no data before and have some afterwards; no
  -- other account's data changed.
  pub record AllMarked (ns : List Bytes) (l l' : Ledger) : Type 0 where
    pub fresh : All (λ n. is_empty (l (pda n)).bytes ≡ true) ns
    pub spent : All (λ n. is_empty (l' (pda n)).bytes ≡ false) ns
    pub distinct : AreDistinct ns
    pub grows : Grows l l'
    pub others : (j : Pubkey) → All (λ n. pda n ≢ j) ns → (l' j).bytes ≡ (l j).bytes

  pub AllMarked-nil : (l : Ledger) → AllMarked [] l l
  AllMarked-nil l = record {
    fresh = tt;
    spent = tt;
    distinct = tt;
    grows = Grows-refl l;
    others = λ j h. refl;
  }

  -- What is still fresh after an account was marked is another account, fresh before.
  fresh_elsewhere :
      (k : Pubkey) (ns : List Bytes) {l m : Ledger}
      → Marked l m k
      → All (λ n. is_empty (m (pda n)).bytes ≡ true) ns
      → All (λ n. k ≢ pda n) ns × All (λ n. is_empty (l (pda n)).bytes ≡ true) ns
  fresh_elsewhere k [] marked h = (tt, tt)
  fresh_elsewhere k (n ∷ ns) {l} {m} marked h =
      let ne : k ≢ pda n = λ e. cc (rw e at marked.spent, h.0) in
      let (nes, rest) = fresh_elsewhere k ns marked h.1 in
      ((ne, nes), (rw (← marked.others (pda n) ne) h.0, rest))

  pub AllMarked-cons :
      (n : Bytes) (ns : List Bytes) {l m l' : Ledger}
      → Marked l m (pda n)
      → AllMarked ns m l'
      → AllMarked (n ∷ ns) l l'
  AllMarked-cons n ns marked h =
      let (nes, rest) = fresh_elsewhere (pda n) ns marked h.fresh in
      record {
        fresh = (marked.fresh, rest);
        spent = (h.grows.keeps (pda n) marked.spent, h.spent);
        distinct = (nes, h.distinct);
        grows = Grows-trans (Marked-Grows marked) h.grows;
        others = λ j apart. h.others j apart.1 ∙ marked.others j apart.0;
      }

-- The account of a nullifier.
abbrev pub nullifier_pda : Build → Pubkey → Bytes → Pubkey
nullifier_pda build program_id n = (derive_pda build.host build.nullifier_codec n program_id).0

module _ (build : Build) (laws : CreatesAccounts build.host) where
  -- The loop over the nullifiers marks the enabled ones among the first `n`, and `n` is in range.
  pub mark_nullifiers-AllMarked :
      (n : ℕ) (nullifiers : List Bytes) (authority system_program : AccountInfo)
      (program_id : Pubkey) (accounts : List AccountInfo) (l : Ledger) {l' : Ledger}
      → mark_nullifiers build n nullifiers authority system_program program_id accounts l ≡ ok l'
      → (n ≤ length nullifiers)
        × AllMarked (nullifier_pda build program_id) (enabled n nullifiers) l l'
  unfolding mark_nullifiers
  mark_nullifiers-AllMarked zero ns a s p accounts l h =
      (omega arith, rw (← ok-injective h) (AllMarked-nil (nullifier_pda build p) l))
  mark_nullifiers-AllMarked (suc n) [] a s p accounts l h = cc
  mark_nullifiers-AllMarked (suc n) (x ∷ ns) a s p accounts l h =
      elim (Bool-cases (bytes_eq x zero32)) [
        | inl z ↦
            let (len, rest) =
              mark_nullifiers-AllMarked n ns a s p accounts l (rw (z, mark_nullifiers) at h) in
            (omega arith, rw (z, enabled) rest)
        | inr nz ↦
            let (next, e₁, h₁) = >>=-eq-ok _ _ (rw (nz, mark_nullifiers) at h) in
            let (m, e₂, h₂) = >>=-eq-ok _ _ h₁ in
            let (len, rest) = mark_nullifiers-AllMarked n ns a s p next.1 m h₂ in
            let (at_pda, marked) =
              insert_nullifier-Marked build.host build.nullifier_codec laws a next.0 s x p l e₂ in
            (
              omega arith,
              rw (nz, enabled)
                  (AllMarked-cons (nullifier_pda build p) x (enabled n ns) (rw at_pda at marked)
                    rest),
            )
      ]
