-- ===== src/Client/Scanning.antt =====
-- client/src/traits.rs: `scan_outputs_paginated`, `get_witnesses` and the bytes that are posted.
use solana_masp.Prelude.{
  ℕ, Bool, true, false, Option, none, some, List, [], ◌∷◌, ◌++◌, Bytes, take, length, ltb,
  if◌then◌else◌,
}
use solana_masp.Client.Outcome.{Outcome, done, ◌>>=◌, StoreError, IndexerError}
use solana_masp.Client.Hash.{Fr}
use solana_masp.Client.Requests.{MembershipWitness, OutputCiphertext, OutputCiphertextData}

pub record ScanParams : Type 0 where
  pub since_tx : Option Bytes
  pub limit : Option ℕ

pub record ScanResult : Type 0 where
  pub outputs : List OutputCiphertext
  pub last_tx_sig : Option Bytes
  pub has_more : Bool

unfoldable pub last_sig : List OutputCiphertext → Option Bytes
last_sig [] = none
last_sig (o ∷ []) = some o.tx_sig
last_sig (o ∷ p ∷ outputs) = last_sig (p ∷ outputs)

-- What the limit leaves of the outputs, and whether there are more
unfoldable pub limited : Option ℕ → List OutputCiphertext → List OutputCiphertext × Bool
limited none outputs = (outputs, false)
limited (some limit) outputs =
    if ltb limit (length outputs) then (take limit outputs, true) else (outputs, false)

unfoldable pub scan_outputs_paginated :
    (scan_outputs_since : Option Bytes → Outcome IndexerError (List OutputCiphertext))
    → ScanParams
    → Outcome IndexerError ScanResult
unfolding limited last_sig
scan_outputs_paginated scan_outputs_since params = scan_outputs_since params.since_tx >>= λ scanned.
    let page = limited params.limit scanned in
    done (record { outputs = page.0; last_tx_sig = last_sig page.0; has_more = page.1 })

-- `get_witnesses`, which stops at the first error
unfoldable pub get_witnesses :
    (get_witness : Fr → Outcome StoreError MembershipWitness)
    → List Fr
    → Outcome StoreError (List MembershipWitness)
get_witnesses get_witness [] = done []
get_witnesses get_witness (cm ∷ commitments) = get_witness cm >>= λ w.
    get_witnesses get_witness commitments >>= λ witnesses. done (w ∷ witnesses)

unfoldable pub posting_bytes : OutputCiphertextData → Bytes
posting_bytes o = o.ephemeral_key ++ o.ciphertext
