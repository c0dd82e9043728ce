-- ===== src/Client/Chain/DoubleSpend.antt =====
-- A nullifier is revealed by one accepted action at most.
use solana_masp.Prelude.{
  ◌≡◌, Bool, true, false, not, ◌&&◌, List, [], ◌∷◌, ◌==◌, arith, if◌then◌else◌,
}
use solana_masp.Client.Outcome.{Outcome, raised, done, ChainError}
use solana_masp.Client.Hash.{Fr, Crypto}
use solana_masp.Client.Requests.{
  OutputCiphertextData, ShieldRequest, TransferRequest, UnshieldRequest, enabled_nullifiers,
}
use solana_masp.Client.Store.{mark, contains}
use solana_masp.Client.Chain.{
  MockChain, Ran, and_then, ensure, insert_into_set, insert_nullifier, insert_nullifiers,
  next_tx_sig, update_anchor_history, when_verified, post_ciphertexts, chain_insert_commitment,
  shield, finish_transfer, transfer, unshield,
}

-- A call of the trait `Chain` that changes the state
pub data Action : Type 0 where
  do_shield : ShieldRequest → Action
  do_transfer : TransferRequest → Action
  do_unshield : UnshieldRequest → Action
  do_post : List OutputCiphertextData → Action
  do_insert_commitment : Fr → Action
  do_insert_nullifier : Fr → Action

unfoldable pub succeeded : {A : Type 0} → Outcome ChainError A → Bool
succeeded (raised e) = false
succeeded (done v) = true

-- The nullifiers that an action reveals; the dummies of a transfer are 0.
unfoldable pub reveals : Action → Fr → Bool
reveals (do_transfer r) nf = not (nf == 0) && contains (enabled_nullifiers r) nf
reveals (do_unshield r) nf = r.nullifier == nf
reveals (do_insert_nullifier x) nf = x == nf
reveals (do_shield r) nf = false
reveals (do_post os) nf = false
reveals (do_insert_commitment cm) nf = false

-- A nullifier stays in the set.
module _ (nf : Fr) where
  abbrev pub Spent : MockChain → Type 0
  Spent c = c.nullifier_set nf ≡ true

  -- What holds after a call
  pub record SpentAfter {A : Type 0} (ran : Ran A) : Type 0 where
    pub after : Spent ran.0

  and_then-Spent :
      {A B : Type 0} (ran : Ran A) (next : A → MockChain → Ran B)
      → SpentAfter ran
      → ((v : A) (c : MockChain) → Spent c → SpentAfter (next v c))
      → SpentAfter (and_then ran next)
  unfolding and_then
  and_then-Spent (c, raised e) next h keep = record { after = h.after }
  and_then-Spent (c, done v) next h keep = keep v c h.after

  if-Spent :
      {A : Type 0} (b : Bool) (x y : Ran A)
      → SpentAfter x
      → SpentAfter y
      → SpentAfter (if b then x else y)
  if-Spent true x y h h' = h
  if-Spent false x y h h' = h'

  when_verified-Spent :
      {A : Type 0} (c : MockChain) (v : Outcome ChainError Bool) (rest : Ran A)
      → Spent c
      → SpentAfter rest
      → SpentAfter (when_verified c v rest)
  unfolding when_verified
  when_verified-Spent c (raised e) rest h h' = record { after = h }
  when_verified-Spent c (done false) rest h h' = record { after = h }
  when_verified-Spent c (done true) rest h h' = h'

  ensure-Spent :
      {A : Type 0} (test : Bool) (e : ChainError) (c : MockChain) (rest : Ran A)
      → Spent c
      → SpentAfter rest
      → SpentAfter (ensure test e c rest)
  unfolding ensure
  ensure-Spent false e c rest h h' = record { after = h }
  ensure-Spent true e c rest h h' = h'

  pub insert_nullifier-Spent :
      (c : MockChain) (x : Fr) → Spent c → SpentAfter (insert_nullifier c x)
  unfolding insert_nullifier insert_into_set next_tx_sig mark
  insert_nullifier-Spent c x h = record { after = ground arith }

  pub insert_nullifiers-Spent :
      (xs : List Fr) (c : MockChain) → Spent c → SpentAfter (insert_nullifiers xs c)
  unfolding insert_nullifiers
  insert_nullifiers-Spent [] c h = record { after = h }
  insert_nullifiers-Spent (x ∷ xs) c h =
      if-Spent _ _ _ (insert_nullifiers-Spent xs c h)
        (and_then-Spent _ _ (insert_nullifier-Spent c x h) (λ sig. insert_nullifiers-Spent xs))

-- The state after an action, and whether the chain accepted it
module _ (crypto : Crypto) where
  unfoldable pub run_action : Action → MockChain → MockChain × Bool
  unfolding succeeded
  run_action (do_shield r) c = let ran = shield crypto c r in (ran.0, succeeded ran.1)
  run_action (do_transfer r) c = let ran = transfer crypto c r in (ran.0, succeeded ran.1)
  run_action (do_unshield r) c = let ran = unshield crypto c r in (ran.0, succeeded ran.1)
  run_action (do_post os) c = let ran = post_ciphertexts c os in (ran.0, succeeded ran.1)
  run_action (do_insert_commitment cm) c =
      let ran = chain_insert_commitment crypto c cm in (ran.0, succeeded ran.1)
  run_action (do_insert_nullifier x) c = let ran = insert_nullifier c x in (ran.0, succeeded ran.1)

  unfoldable pub run_actions : List Action → MockChain → MockChain
  run_actions [] c = c
  run_actions (a ∷ actions) c = run_actions actions (run_action a c).0

  transfer-Spent :
      (nf : Fr) (c : MockChain) (r : TransferRequest)
      → Spent nf c
      → SpentAfter nf (transfer crypto c r)
  unfolding transfer finish_transfer next_tx_sig update_anchor_history
  transfer-Spent nf c r h = ensure-Spent nf _ _ _ _ h (
      when_verified-Spent nf _ _ _ h (
        ensure-Spent nf _ _ _ _ h (
          and_then-Spent nf _ _ (insert_nullifiers-Spent nf (enabled_nullifiers r) c h)
            (λ v c' h'. record { after = h' }))))

  unshield-Spent :
      (nf : Fr) (c : MockChain) (r : UnshieldRequest)
      → Spent nf c
      → SpentAfter nf (unshield crypto c r)
  unfolding unshield
  unshield-Spent nf c r h =
      ensure-Spent nf _ _ _ _ h
        (when_verified-Spent nf _ _ _ h (insert_nullifier-Spent nf c r.nullifier h))

  shield-Spent :
      (nf : Fr) (c : MockChain) (r : ShieldRequest) → Spent nf c → SpentAfter nf (shield crypto c r)
  unfolding shield next_tx_sig update_anchor_history
  shield-Spent nf c r h = when_verified-Spent nf _ _ _ h (record { after = h })

  run_action-Spent :
      (nf : Fr) (a : Action) (c : MockChain) → Spent nf c → Spent nf (run_action a c).0
  unfolding run_action post_ciphertexts chain_insert_commitment next_tx_sig update_anchor_history
  run_action-Spent nf (do_shield r) c h = (shield-Spent nf c r h).after
  run_action-Spent nf (do_transfer r) c h = (transfer-Spent nf c r h).after
  run_action-Spent nf (do_unshield r) c h = (unshield-Spent nf c r h).after
  run_action-Spent nf (do_post os) c h = h
  run_action-Spent nf (do_insert_commitment cm) c h = h
  run_action-Spent nf (do_insert_nullifier x) c h = (insert_nullifier-Spent nf c x h).after

  pub run_actions-Spent :
      (nf : Fr) (actions : List Action) (c : MockChain)
      → Spent nf c
      → Spent nf (run_actions actions c)
  unfolding run_actions
  run_actions-Spent nf [] c h = h
  run_actions-Spent nf (a ∷ actions) c h =
      run_actions-Spent nf actions (run_action a c).0 (run_action-Spent nf a c h)
