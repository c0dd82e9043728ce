-- ===== src/Runtime/Accounts.antt =====
-- The accounts that an instruction reads and writes: `AccountInfo`, and the ledger that holds what
-- the `RefCell` in it points to. Two infos with one key share their data, as on chain.
use solana_masp.Prelude.{
  ◌≡◌, ◌≢◌, ap, Bool, List, [], ◌∷◌, ◌++◌, Bytes, bytes_eq, bytes_eq_refl, bytes_ne, arith,
  if◌then◌else◌, leb, drop, length,
}
use solana_masp.Runtime.Outcome.{
  ok-injective, Result, ok, err, not_enough_account_keys, borsh_io_error,
}

abbrev pub Pubkey : Type 0
Pubkey = Bytes

-- An account that was never created has no data.
pub record Account : Type 0 where
  pub owner : Pubkey
  pub bytes : Bytes

abbrev pub Ledger : Type 0
Ledger = Pubkey → Account

pub record AccountInfo : Type 0 where
  pub key : Pubkey
  pub is_signer : Bool
  pub is_writable : Bool

pub record AccountMeta : Type 0 where
  pub pubkey : Pubkey
  pub is_signer : Bool
  pub is_writable : Bool

pub record Instruction : Type 0 where
  pub program_id : Pubkey
  pub accounts : List AccountMeta
  pub payload : Bytes

unfoldable pub next_account_info : List AccountInfo → Result (AccountInfo × List AccountInfo)
next_account_info [] = err not_enough_account_keys
next_account_info (a ∷ rest) = ok (a, rest)

-- What the account's data becomes, all other accounts left alone.
unfoldable pub set_data : Pubkey → Bytes → Ledger → Ledger
set_data k d l j = if bytes_eq k j then record { owner = (l j).owner; bytes = d } else l j

-- `value.serialize(&mut *account.try_borrow_mut_data()?)?`: the encoding goes to the front of the
-- data, and an account that is too small is an I/O error.
unfoldable pub serialize : Pubkey → Bytes → Ledger → Result Ledger
serialize k encoded l =
    if leb (length encoded) (length (l k).bytes)
    then ok (set_data k (encoded ++ drop (length encoded) (l k).bytes) l)
    else err borsh_io_error

pub set_data_self : (k : Pubkey) (d : Bytes) (l : Ledger) → (set_data k d l k).bytes ≡ d
unfolding set_data
set_data_self k d l = ground (arith, bytes_eq_refl k)

pub set_data_ne : (k j : Pubkey) (d : Bytes) (l : Ledger) → k ≢ j → set_data k d l j ≡ l j
unfolding set_data
set_data_ne k j d l h = ground (arith, bytes_ne k j h)

-- A key's data, after a write to some key.
pub set_data-bytes :
    (k j : Pubkey) (d : Bytes) (l : Ledger)
    → (set_data k d l j).bytes ≡ (if bytes_eq k j then d else (l j).bytes)
unfolding set_data
set_data-bytes k j d l = ground arith

pub next_account_info-ok :
    (accounts : List AccountInfo) {next : AccountInfo × List AccountInfo}
    → next_account_info accounts ≡ ok next
    → accounts ≡ next.0 ∷ next.1
unfolding next_account_info
next_account_info-ok [] h = cc
next_account_info-ok (a ∷ rest) {next} h =
    ap (λ (r : AccountInfo × List AccountInfo). r.0 ∷ r.1) (ok-injective h)
