-- ===== src/Masp/Setup.antt =====
-- Initialize, InitProofBuffer, UploadChunk and UpdateRoot: none of them empties an account.
use solana_masp.Prelude.{
  ℕ, ◌+◌, ◌≤◌, ◌≡◌, sym, ap, ◌∙◌, false, List, [], ◌∷◌, ◌++◌, Bytes, bytes_eq, bytes_eq→eq, arith,
  length, take, drop, set, length-append, length-drop, length-take_of_le, length-set, inl, inr,
  Bool-cases, leb→le,
}
use solana_masp.Runtime.{
  ok, with_ok, ok-injective, require-eq-ok, AccountInfo, Ledger, Pubkey, set_data, set_data_self,
  set_data_ne, Host,
}
use solana_masp.Masp.Stores.{is_empty, create_account_instruction}
use solana_masp.Masp.Build.{Build}
use solana_masp.Masp.Build.Laws.{RuntimeLaws, CreatesAccounts}
use solana_masp.Masp.Instructions.{
  process_initialize, process_init_proof_buffer, process_update_root, process_upload_chunk,
  write_header, write_chunk, copy_at,
}
use solana_masp.Masp.Growth.{Grows, Grows-trans, not_empty, not_same, serialize-Grows}

-- A write that leaves some data in the account.
set_data-Grows :
    (k : Pubkey) (d : Bytes) (l : Ledger)
    → (is_empty (l k).bytes ≡ false → is_empty d ≡ false)
    → Grows l (set_data k d l)
set_data-Grows k d l h = record {
  keeps = λ j some_data. elim (Bool-cases (bytes_eq k j)) [
    | inl same ↦
        let e : k ≡ j = bytes_eq→eq k j same in
        rw (← e, set_data_self k d l) (h (rw (← e) at some_data))
    | inr other ↦ rw (set_data_ne k j d l (λ e. not_same e other)) some_data
  ];
}

pub created-Grows :
    (host : Host) (laws : CreatesAccounts host) (payer to : Pubkey) (lamports space : ℕ)
    (owner : Pubkey) (infos : List AccountInfo) (seeds : List (List Bytes)) (l l' : Ledger)
    → host.invoke_signed (create_account_instruction payer to lamports space owner) infos seeds l
      ≡ ok l'
    → Grows l l'
unfolding is_empty
created-Grows host laws payer to lamports space owner infos seeds l l' h =
    let (empty, _, others) = laws.created payer to lamports space owner infos seeds l l' h in
    record {
      keeps = λ j some_data. elim (Bool-cases (bytes_eq to j)) [
        | inl same ↦
            let e : to ≡ j = bytes_eq→eq to j same in
            let none : (l j).bytes ≡ [] = rw e at empty in cc (rw none at some_data)
        | inr other ↦ rw (others j (λ e. not_same e other)) some_data
      ];
    }

pub length-copy_at :
    (start : ℕ) (chunk b : Bytes)
    → start + length chunk ≤ length b
    → length (copy_at start chunk b) ≡ length b
unfolding copy_at
length-copy_at start chunk b room = omega (
  arith,
  length-append (take start b) (chunk ++ drop (start + length chunk) b),
  length-append chunk (drop (start + length chunk) b),
  length-take_of_le start b (omega arith),
  length-drop (start + length chunk) b,
)

-- A chunk that is accepted leaves the length of the buffer as it was.
pub length-write_chunk :
    (offset : ℕ) (chunk b : Bytes) {b' : Bytes}
    → write_chunk offset chunk b ≡ ok b'
    → length b' ≡ length b
unfolding write_chunk
length-write_chunk offset chunk b h = with_ok _ _ h λ _ _ h₁. with_ok _ _ h₁ λ _ _ h₂.
    with_ok _ _ h₂ λ _ fits h₃.
      let room : 5 + offset + length chunk ≤ length b = leb→le _ _ (require-eq-ok _ _ fits) in
      let written = copy_at (5 + offset) chunk b in
      ap length (sym (ok-injective h₃))
      ∙ length-set (set written 2 _) 3 _
      ∙ length-set written 2 _
      ∙ length-copy_at (5 + offset) chunk b room

pub process_upload_chunk-Grows :
    (accounts : List AccountInfo) (ix_data : Bytes) (l : Ledger) {l' : Ledger}
    → process_upload_chunk accounts ix_data l ≡ ok l'
    → Grows l l'
unfolding process_upload_chunk
process_upload_chunk-Grows accounts ix_data l h = with_ok _ _ h λ n _ h₁. with_ok _ _ h₁ λ _ _ h₂.
    with_ok _ _ h₂ λ b written h₃. rw (← ok-injective h₃) (
      set_data-Grows n.0.key b l (not_empty (l n.0.key).bytes b (length-write_chunk _ _ _ written)))

write_header-not_empty :
    (circuit pi_count : ℕ) (b : Bytes) {b' : Bytes}
    → write_header circuit pi_count b ≡ ok b'
    → is_empty b' ≡ false
unfolding write_header is_empty
write_header-not_empty circuit pi_count (x₀ ∷ x₁ ∷ x₂ ∷ x₃ ∷ x₄ ∷ b) h = rw (← ok-injective h)
write_header-not_empty circuit pi_count _ h = cc

module _ (build : Build) (laws : RuntimeLaws build) where
  pub process_initialize-Grows :
      (program_id : Pubkey) (accounts : List AccountInfo) (ix_data : Bytes) (l : Ledger)
      {l' : Ledger}
      → process_initialize build program_id accounts ix_data l ≡ ok l'
      → Grows l l'
  unfolding process_initialize
  process_initialize-Grows program_id accounts ix_data l h = with_ok _ _ h λ n₁ _ h₁.
      with_ok _ _ h₁ λ n₂ _ h₂. with_ok _ _ h₂ λ n₃ _ h₃. with_ok _ _ h₃ λ _ _ h₄.
        with_ok _ _ h₄ λ _ _ h₅. with_ok _ _ h₅ λ _ _ h₆. with_ok _ _ h₆ λ lamports _ h₇.
          with_ok _ _ h₇ λ created made written.
            Grows-trans (created-Grows build.host laws.creates _ _ lamports _ _ _ _ l created made)
              (serialize-Grows n₂.0.key _ created written)

  pub process_init_proof_buffer-Grows :
      (program_id : Pubkey) (accounts : List AccountInfo) (ix_data : Bytes) (l : Ledger)
      {l' : Ledger}
      → process_init_proof_buffer build program_id accounts ix_data l ≡ ok l'
      → Grows l l'
  unfolding process_init_proof_buffer
  process_init_proof_buffer-Grows program_id accounts ix_data l h = with_ok _ _ h λ n₁ _ h₁.
      with_ok _ _ h₁ λ n₂ _ h₂. with_ok _ _ h₂ λ n₃ _ h₃. with_ok _ _ h₃ λ _ _ h₄.
        with_ok _ _ h₄ λ _ _ h₅. with_ok _ _ h₅ λ circuit _ h₆. with_ok _ _ h₆ λ pi_count _ h₇.
          with_ok _ _ h₇ λ _ _ h₈. with_ok _ _ h₈ λ lamports _ h₉.
            with_ok _ _ h₉ λ created made h₁₀. with_ok _ _ h₁₀ λ b headed h₁₁.
              Grows-trans
                (created-Grows build.host laws.creates _ _ lamports _ _ _ _ l created made)
                (rw (← ok-injective h₁₁) (
                  set_data-Grows n₂.0.key b created
                    (λ _. write_header-not_empty circuit pi_count _ headed)))

  pub process_update_root-Grows :
      (program_id : Pubkey) (accounts : List AccountInfo) (ix_data : Bytes) (l : Ledger)
      {l' : Ledger}
      → process_update_root build program_id accounts ix_data l ≡ ok l'
      → Grows l l'
  unfolding process_update_root
  process_update_root-Grows program_id accounts ix_data l h = with_ok _ _ h λ n₁ _ h₁.
      with_ok _ _ h₁ λ n₂ _ h₂. with_ok _ _ h₂ λ payload _ h₃. with_ok _ _ h₃ λ _ _ h₄.
        with_ok _ _ h₄ λ _ _ h₅. with_ok _ _ h₅ λ state _ h₆. with_ok _ _ h₆ λ _ _ h₇.
          with_ok _ _ h₇
            λ _ _ h₈. with_ok _ _ h₈ λ updated _ written. serialize-Grows n₂.0.key _ l written
