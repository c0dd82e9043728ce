-- ===== src/Tests/Runtime.antt =====
-- A concrete runtime: addresses are cut out of their seeds, the System program creates accounts, and
-- the verifier runs on a toy proof system.
use solana_masp.Prelude.{
  ℕ, ◌%◌, ◌^◌, ◌≡◌, ◌≢◌, refl, sym, ap, ◌∙◌, arith, Bool, false, some, List, [], ◌∷◌, ◌++◌, map,
  Bytes, bytes_eq, bytes_eq_refl, ==_iff, bytes_ne, length, take, drop, slice, replicate,
  to_le_bytes, from_le_bytes, if◌then◌else◌, ◌==◌, inl, inr, Bool-cases,
}
use solana_masp.Runtime.{
  Result, ok, err, with_ok, ok-injective, invalid_argument, invalid_account_data, Host, AccountMeta,
  Ledger, Pubkey,
}
use solana_masp.Masp.Inputs.Fields.{concat}
use solana_masp.Masp.Stores.{create_account_instruction, is_empty}
use solana_masp.Masp.Build.Laws.{CreatesAccounts, KeepsReadonly, AreReadonly}
use solana_masp.Masp.Growth.{is_empty-nil}
use solana_masp.Masp.Proofs.{as_info}
use solana_masp.Verifier.{UltraplonkCore, EmbeddedVks, process_verify}
use solana_masp.Verifier

-- A 32-byte string that starts with `n`
abbrev pub key : ℕ → Bytes
key n = n ∷ replicate 31 0

abbrev pub verifier_id : Pubkey
verifier_id = key 77

-- A proof is valid when its first byte is the number of public inputs.
abbrev pub starts_with : Bytes → ℕ → Bool
starts_with [] n = false
starts_with (b ∷ bs) n = b == n

abbrev pub toy_core : UltraplonkCore
toy_core = record {
  VerificationKey = Bytes;
  Proof = Bytes;
  FrLimbs = Bytes;
  ProofEvaluationsLimbs = List Bytes;
  vk_from_onchain_bytes = λ b. some b;
  proof_from_bytes = λ b. some b;
  from_raw_bytes = λ b. b;
  from_all_evaluations = λ ls. ls;
  verify = λ vk proof pis. some (starts_with proof (length pis));
  verify_with_public_inputs_limbs = λ vk proof pis ls. some (starts_with proof (length pis));
  verify_with_public_inputs_limbs_and_evals =
      λ vk proof pis ls es. some (starts_with proof (length pis));
}

abbrev pub toy_vks : EmbeddedVks
toy_vks = record { vk_shield = 0 ∷ []; vk_transfer = 1 ∷ []; vk_unshield = 2 ∷ [] }

-- The System program: CreateAccount with its two writable accounts.
unfoldable pub create : Pubkey → Bytes → Ledger → Result Ledger
unfolding is_empty from_le_bytes
create to payload l =
    if is_empty (l to).bytes
    then ok (λ j.
      if bytes_eq to j
      then record {
        owner = drop 20 payload;
        bytes = replicate (from_le_bytes (slice 12 8 payload)) 0;
      }
      else l j)
    else err invalid_account_data

unfoldable pub system : List AccountMeta → Bytes → Ledger → Result Ledger
system (from ∷ to ∷ []) payload l =
    if to.is_writable then create to.pubkey payload l else err invalid_argument
system _ payload l = err invalid_argument

-- The verifier, called to verify
unfoldable pub verifier : List AccountMeta → Bytes → Ledger → Result Ledger
verifier metas [] l = err invalid_argument
verifier metas (p ∷ ps) l =
    if p == 2
    then process_verify toy_core toy_vks (map as_info metas) ps l
    else err invalid_argument

unfoldable pub toy_host : Host
unfolding concat
toy_host = record {
  find_program_address = λ seeds program_id. (take 32 (concat seeds ++ program_id), 255);
  minimum_balance = λ n. ok n;
  invoke_signed = λ ix infos seeds l.
      if bytes_eq ix.program_id verifier_id
      then verifier ix.accounts ix.payload l
      else system ix.accounts ix.payload l;
}

space_field : (n : ℕ) → from_le_bytes (to_le_bytes 8 n) ≡ n % 2 ^ 64
unfolding from_le_bytes to_le_bytes
space_field n = omega arith

create-ok :
    (to : Pubkey) (payload : Bytes) (l : Ledger) {l' : Ledger}
    → create to payload l ≡ ok l'
    → ((l to).bytes ≡ [])
      × ((l' to).bytes ≡ replicate (from_le_bytes (slice 12 8 payload)) 0)
      × ((j : Pubkey) → to ≢ j → (l' j).bytes ≡ (l j).bytes)
unfolding create
create-ok to payload l {l'} h = elim (Bool-cases (is_empty (l to).bytes)) [
  | inl empty ↦
      let e = sym (ok-injective (rw empty at h)) in
      (
        is_empty-nil (l to).bytes empty,
        rw (e, bytes_eq_refl to) refl,
        λ j apart. rw (e, bytes_ne to j apart) refl,
      )
  | inr full ↦ cc (rw full at h)
]

pub toy_creates : CreatesAccounts toy_host
unfolding toy_host system create_account_instruction to_le_bytes bytes_eq
toy_creates = record {
  created = λ payer to lamports space owner infos seeds l l' h.
      let payload = (create_account_instruction payer to lamports space owner).payload in
      let (empty, zeros, others) = create-ok to payload l h in
      (empty, zeros ∙ ap (λ n. replicate n 0) (space_field space), others);
}

system-keeps :
    (metas : List AccountMeta) (payload : Bytes) (l : Ledger) {l' : Ledger}
    → AreReadonly metas
    → system metas payload l ≡ ok l'
    → l' ≡ l
unfolding system
system-keeps [] payload l readonly h = cc
system-keeps (from ∷ []) payload l readonly h = cc
system-keeps (from ∷ to ∷ []) payload l readonly h = cc (rw (readonly.1.0) at h)
system-keeps (from ∷ to ∷ other ∷ metas) payload l readonly h = cc

verifier-keeps :
    (metas : List AccountMeta) (payload : Bytes) (l : Ledger) {l' : Ledger}
    → verifier metas payload l ≡ ok l'
    → l' ≡ l
unfolding verifier process_verify
verifier-keeps metas [] l h = cc
verifier-keeps metas (p ∷ ps) l h = elim (Bool-cases (p == 2)) [
  | inl verify ↦
      with_ok _ _ (rw verify at h)
        λ _ _ h₁. with_ok _ _ h₁ λ _ _ h₂. with_ok _ _ h₂ λ _ _ h₃. sym (ok-injective h₃)
  | inr other ↦ cc (rw other at h)
]

pub toy_keeps : KeepsReadonly toy_host
unfolding toy_host
toy_keeps = record {
  kept = λ ix infos seeds l l' readonly h. elim (Bool-cases (bytes_eq ix.program_id verifier_id)) [
    | inl called ↦ verifier-keeps ix.accounts ix.payload l (rw called at h)
    | inr other ↦ system-keeps ix.accounts ix.payload l readonly (rw other at h)
  ];
}

pub verifier-runs :
    (metas : List AccountMeta) (payload : Bytes) (l : Ledger) {l' : Ledger}
    → verifier metas payload l ≡ ok l'
    → Verifier.process_instruction toy_core toy_vks verifier_id (map as_info metas) payload l
      ≡ ok l'
unfolding verifier Verifier.process_instruction
verifier-runs metas [] l h = cc
verifier-runs metas (p ∷ ps) l h = elim (Bool-cases (p == 2)) [
  | inl verify ↦ let e : p ≡ 2 = (==_iff p 2).0 verify in rw e (rw verify at h)
  | inr other ↦ cc (rw other at h)
]
