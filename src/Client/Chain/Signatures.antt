-- ===== src/Client/Chain/Signatures.antt =====
-- The chain's transaction signatures name their transactions.
use solana_masp.Prelude.{
  ℕ, zero, suc, ◌+◌, ◌-◌, ◌*◌, ◌/◌, ◌%◌, ◌<◌, ◌≤◌, ◌≡◌, ◌≢◌, refl, sym, ap, ◌∙◌, inl, inr, Bool,
  true, false, ◌==◌, List, [], ◌∷◌, ◌++◌, Bytes, drop, ltb, arith, Bool-cases,
}
use solana_masp.Client.Outcome.{Outcome, raised, done, ChainError}
use solana_masp.Client.Hash.{Fr, Crypto}
use solana_masp.Client.Requests.{enabled_nullifiers}
use solana_masp.Client.Chain.{
  MockChain, Ran, digits, mock_tx, next_tx_sig, and_then, ensure, when_verified, insert_into_set,
  insert_nullifier, insert_nullifiers, update_anchor_history, post_ciphertexts,
  chain_insert_commitment, shield, finish_transfer, transfer, unshield,
}
use solana_masp.Client.Chain.DoubleSpend.{
  Action, do_shield, do_transfer, do_unshield, do_post, do_insert_commitment, do_insert_nullifier,
  run_action, run_actions,
}

-- The number that decimal digits stand for
decode : ℕ → Bytes → ℕ
decode acc [] = acc
decode acc (d ∷ ds) = decode (acc * 10 + (d - 48)) ds

decode-append :
    (acc : ℕ) (ds : Bytes) (d : ℕ) → decode acc (ds ++ (d ∷ [])) ≡ decode acc ds * 10 + (d - 48)
unfolding decode
decode-append acc [] d = refl
decode-append acc (x ∷ ds) d = decode-append (acc * 10 + (x - 48)) ds d

decode-digits : (fuel n : ℕ) → n < fuel → decode 0 (digits fuel n) ≡ n
unfolding decode digits
decode-digits zero n h = absurd (omega arith)
decode-digits (suc fuel) n h = elim (Bool-cases (ltb n 10)) [
  | inl e ↦ rw (e) (omega arith)
  | inr e ↦
      let big : 9 < n = ground arith in
      let rest = decode-digits fuel (n / 10) (omega arith) in
      rw (e) (decode-append 0 (digits fuel (n / 10)) (48 + n % 10) ∙ omega (arith, rest))
]

mock_tx-injective : (m n : ℕ) → mock_tx m ≡ mock_tx n → m ≡ n
unfolding mock_tx
mock_tx-injective m n h =
    sym (decode-digits (suc m) m (omega arith))
    ∙ ap (λ sig. decode 0 (drop 8 sig)) h
    ∙ decode-digits (suc n) n (omega arith)

-- What a call does to the counter: it is `n` at least afterwards.
module _ (n : ℕ) where
  abbrev Drawn : MockChain → Type 0
  Drawn c = n ≤ c.tx_counter

  record DrawnAfter {A : Type 0} (ran : Ran A) : Type 0 where
    pub after : Drawn ran.0

  and_then-Drawn :
      {A B : Type 0} (ran : Ran A) (next : A → MockChain → Ran B)
      → DrawnAfter ran
      → ((v : A) (c : MockChain) → Drawn c → DrawnAfter (next v c))
      → DrawnAfter (and_then ran next)
  unfolding and_then
  and_then-Drawn (c, raised e) next h keep = record { after = h.after }
  and_then-Drawn (c, done v) next h keep = keep v c h.after

  when_verified-Drawn :
      {A : Type 0} (c : MockChain) (v : Outcome ChainError Bool) (rest : Ran A)
      → Drawn c
      → DrawnAfter rest
      → DrawnAfter (when_verified c v rest)
  unfolding when_verified
  when_verified-Drawn c (raised e) rest h h' = record { after = h }
  when_verified-Drawn c (done false) rest h h' = record { after = h }
  when_verified-Drawn c (done true) rest h h' = h'

  ensure-Drawn :
      {A : Type 0} (test : Bool) (e : ChainError) (c : MockChain) (rest : Ran A)
      → Drawn c
      → DrawnAfter rest
      → DrawnAfter (ensure test e c rest)
  unfolding ensure
  ensure-Drawn false e c rest h h' = record { after = h }
  ensure-Drawn true e c rest h h' = h'

  insert_nullifier-Drawn : (c : MockChain) (x : Fr) → Drawn c → DrawnAfter (insert_nullifier c x)
  unfolding insert_nullifier insert_into_set next_tx_sig
  insert_nullifier-Drawn c x h = record { after = ground arith }

  insert_nullifiers-Drawn :
      (xs : List Fr) (c : MockChain) → Drawn c → DrawnAfter (insert_nullifiers xs c)
  unfolding insert_nullifiers
  insert_nullifiers-Drawn [] c h = record { after = h }
  insert_nullifiers-Drawn (x ∷ xs) c h = elim (Bool-cases (x == 0)) [
    | inl e ↦ rw (insert_nullifiers, e) (insert_nullifiers-Drawn xs c h)
    | inr e ↦
        rw (insert_nullifiers, e)
          (and_then-Drawn (insert_nullifier c x) (λ sig. insert_nullifiers xs)
            (insert_nullifier-Drawn c x h) (λ sig c' h'. insert_nullifiers-Drawn xs c' h'))
  ]

  module _ (crypto : Crypto) where
    run_action-Drawn : (a : Action) (c : MockChain) → Drawn c → Drawn (run_action crypto a c).0
    unfolding run_action shield transfer finish_transfer unshield post_ciphertexts
        chain_insert_commitment next_tx_sig update_anchor_history
    run_action-Drawn (do_shield r) c h =
        (when_verified-Drawn _ _ _ (omega (arith, h)) (record { after = omega (arith, h) })).after
    run_action-Drawn (do_transfer r) c h =
        (ensure-Drawn _ _ _ _ h (
          when_verified-Drawn _ _ _ h (
            ensure-Drawn _ _ _ _ h (
              and_then-Drawn _ _ (insert_nullifiers-Drawn (enabled_nullifiers r) c h)
                (λ v c' h'. record { after = omega (arith, h') }))))).after
    run_action-Drawn (do_unshield r) c h =
        (ensure-Drawn _ _ _ _ h
          (when_verified-Drawn _ _ _ h (insert_nullifier-Drawn c r.nullifier h))).after
    run_action-Drawn (do_post os) c h = omega (arith, h)
    run_action-Drawn (do_insert_commitment cm) c h = omega (arith, h)
    run_action-Drawn (do_insert_nullifier x) c h = (insert_nullifier-Drawn c x h).after

    run_actions-Drawn :
        (actions : List Action) (c : MockChain) → Drawn c → Drawn (run_actions crypto actions c)
    unfolding run_actions
    run_actions-Drawn [] c h = h
    run_actions-Drawn (a ∷ actions) c h =
        run_actions-Drawn actions (run_action crypto a c).0 (run_action-Drawn a c h)

-- A signature that the chain has drawn is not drawn again, whatever runs on the chain in between:
-- the counter never goes back and its digits are read back. The counter's 64 bits are taken as
-- enough.
pub next_tx_sig_fresh :
    (crypto : Crypto) (c : MockChain) (between : List Action)
    → (next_tx_sig (run_actions crypto between (next_tx_sig c).0)).1 ≢ (next_tx_sig c).1
unfolding next_tx_sig
next_tx_sig_fresh crypto c between same =
    let later = run_actions crypto between (next_tx_sig c).0 in
    let kept : c.tx_counter + 1 ≤ later.tx_counter =
      run_actions-Drawn (c.tx_counter + 1) crypto between (next_tx_sig c).0 (omega arith) in
    let e = mock_tx-injective (later.tx_counter + 1) (c.tx_counter + 1) same in
    absurd (omega (arith, kept, e))
