-- ===== src/Masp/Growth.antt =====
-- Accounts that have data keep some: `serialize` and the order of ledgers that it respects.
use solana_masp.Prelude.{
  ℕ, suc, ◌≤◌, ◌≡◌, ◌≢◌, refl, true, false, [], ◌∷◌, ◌++◌, Bytes, bytes_eq, bytes_eq→eq,
  bytes_eq_iff, arith, length, drop, length-append, length-drop, inl, inr, Bool-cases,
}
use solana_masp.Runtime.{ok, Ledger, Pubkey, serialize, set_data, set_data_self, set_data_ne}
use solana_masp.Masp.Stores.{is_empty}

-- No account that has data loses all of it.
pub record Grows (l l' : Ledger) : Type 0 where
  pub keeps : (k : Pubkey) → is_empty (l k).bytes ≡ false → is_empty (l' k).bytes ≡ false

pub Grows-refl : (l : Ledger) → Grows l l
Grows-refl l = record { keeps = λ k h. h }

pub Grows-trans : {l m n : Ledger} → Grows l m → Grows m n → Grows l n
Grows-trans a b = record { keeps = λ k h. b.keeps k (a.keeps k h) }

pub is_empty-length : (b : Bytes) → is_empty b ≡ true → length b ≡ 0
unfolding is_empty
is_empty-length [] h = refl
is_empty-length (x ∷ b) h = cc

pub length-is_empty : (b : Bytes) (n : ℕ) → length b ≡ suc n → is_empty b ≡ false
unfolding is_empty
length-is_empty [] n h = absurd (omega arith)
length-is_empty (x ∷ b) n h = refl

-- Of two data of one length both or neither are empty.
pub not_empty : (a b : Bytes) → length b ≡ length a → is_empty a ≡ false → is_empty b ≡ false
unfolding is_empty
not_empty [] b e h = cc
not_empty (x ∷ a) [] e h = absurd (omega arith)
not_empty (x ∷ a) (y ∷ b) e h = refl

-- A successful write by `serialize`, taken apart.
pub serialize-ok :
    (k : Pubkey) (encoded : Bytes) (l : Ledger) {l' : Ledger}
    → serialize k encoded l ≡ ok l'
    → (length encoded ≤ length (l k).bytes)
      × (set_data k (encoded ++ drop (length encoded) (l k).bytes) l ≡ l')
unfolding serialize
serialize-ok k encoded l h = (ground arith, ground arith)

-- It keeps the length of the data, and touches one account.
pub serialize-length :
    (k : Pubkey) (encoded : Bytes) (l : Ledger) {l' : Ledger}
    → serialize k encoded l ≡ ok l'
    → length (l' k).bytes ≡ length (l k).bytes
serialize-length k encoded l h =
    let (fits, e) = serialize-ok k encoded l h in
    let old = (l k).bytes in
    let new = encoded ++ drop (length encoded) old in
    rw (← e, set_data_self k new l)
      (omega (
        arith,
        length-append encoded (drop (length encoded) old),
        length-drop (length encoded) old,
      ))

pub serialize-other :
    (k j : Pubkey) (encoded : Bytes) (l : Ledger) {l' : Ledger}
    → serialize k encoded l ≡ ok l'
    → k ≢ j
    → l' j ≡ l j
serialize-other k j encoded l h ne =
    let (_, e) = serialize-ok k encoded l h in rw (← e) (set_data_ne k j _ l ne)

pub not_same : {k j : Pubkey} → k ≡ j → bytes_eq k j ≡ false → ⊥
not_same {k} {j} e other = cc ((bytes_eq_iff k j).1 e)

pub serialize-Grows :
    (k : Pubkey) (encoded : Bytes) (l : Ledger) {l' : Ledger}
    → serialize k encoded l ≡ ok l'
    → Grows l l'
serialize-Grows k encoded l {l'} h = record {
  keeps = λ j some_data. elim (Bool-cases (bytes_eq k j)) [
    | inl same ↦
        let e : k ≡ j = bytes_eq→eq k j same in
        let len : length (l' j).bytes ≡ length (l j).bytes =
          rw e at (serialize-length k encoded l h) in
        not_empty (l j).bytes (l' j).bytes len some_data
    | inr other ↦ rw (serialize-other k j encoded l h (λ e. not_same e other)) some_data
  ];
}

pub is_empty-nil : (b : Bytes) → is_empty b ≡ true → b ≡ []
unfolding is_empty
is_empty-nil [] h = refl
is_empty-nil (x ∷ b) h = cc
