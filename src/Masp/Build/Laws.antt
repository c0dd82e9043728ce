-- ===== src/Masp/Build/Laws.antt =====
-- What the program relies on in the Solana runtime.
use solana_masp.Prelude.{ℕ, ◌%◌, ◌^◌, ◌<◌, ◌≡◌, ◌≢◌, false, List, [], ◌∷◌, Bytes, replicate}
use solana_masp.Runtime.{ok, Host, AccountInfo, AccountMeta, Ledger, Pubkey, Instruction, Borsh}
use solana_masp.Masp.State.{TreeState}
use solana_masp.Masp.Build.{Build}
use solana_masp.Masp.Stores.{create_account_instruction}

abbrev pub AreReadonly : List AccountMeta → Type 0
AreReadonly [] = Unit
AreReadonly (m ∷ ms) = (m.is_writable ≡ false) × AreReadonly ms

-- The System program's CreateAccount fails on an account that has data; otherwise it gives the
-- account `space` zero bytes (a u64 in the instruction) and leaves the data of every other account alone.
pub record CreatesAccounts (host : Host) : Type 0 where
  pub created :
      (payer to : Pubkey) (lamports space : ℕ) (owner : Pubkey) (infos : List AccountInfo)
      (seeds : List (List Bytes)) (l l' : Ledger)
      → host.invoke_signed (create_account_instruction payer to lamports space owner) infos seeds l
        ≡ ok l'
      → ((l to).bytes ≡ [])
        × ((l' to).bytes ≡ replicate (space % 2 ^ 64) 0)
        × ((j : Pubkey) → to ≢ j → (l' j).bytes ≡ (l j).bytes)

-- A call to which every account is passed read-only changes no account.
pub record KeepsReadonly (host : Host) : Type 0 where
  pub kept :
      (ix : Instruction) (infos : List AccountInfo) (seeds : List (List Bytes)) (l l' : Ledger)
      → AreReadonly ix.accounts
      → host.invoke_signed ix infos seeds l ≡ ok l'
      → l' ≡ l

-- What Borsh reads as a tree state is not empty, and its leaf count is a u64.
pub record ReadsTreeState (codec : Borsh TreeState) : Type 0 where
  pub not_from_empty : (s : TreeState) → codec.try_from_slice [] ≢ ok s
  pub leaf_count :
      (b : Bytes) (s : TreeState) → codec.try_from_slice b ≡ ok s → s.leaf_count < 2 ^ 64

-- All of it, for one build.
pub record RuntimeLaws (build : Build) : Type 0 where
  pub creates : CreatesAccounts build.host
  pub readonly : KeepsReadonly build.host
  pub tree_codec : ReadsTreeState build.tree_codec
