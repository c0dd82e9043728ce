-- ===== src/Client/Store/Anchors.antt =====
-- The ring of recent anchors.
use solana_masp.Prelude.{
  ℕ, ◌+◌, ◌<◌, ◌≡◌, inl, inr, refl, ap, ◌∙◌, true, List, [], ◌∷◌, ◌++◌, Bytes, length, drop, leb,
  arith, length-append, Bool-cases, if◌then◌else◌,
}
use mathlib.Core.List.{append_assoc}
use solana_masp.Client.Hash.{Fr, Crypto}
use solana_masp.Client.Store.{
  MockStore, contains, push_anchor, anchor_history_size, is_valid_anchor_sync, insert_internal,
}
use solana_masp.Client.Store.Witnesses.{insert_all}

-- `root` is in the history, with `age` roots after it.
pub record AnchorAt (history : List Fr) (root : Fr) (age : ℕ) : Type 0 where
  pub older : List Fr
  pub newer : List Fr
  pub split : history ≡ older ++ (root ∷ newer)
  pub aged : length newer ≡ age

contains-AnchorAt :
    (older : List Fr) (root : Fr) (newer : List Fr) → contains (older ++ (root ∷ newer)) root ≡ true
unfolding contains
contains-AnchorAt [] root newer = ground arith
contains-AnchorAt (x ∷ older) root newer =
    let rest = contains-AnchorAt older root newer in ground arith

push_anchor-newest : (history : List Fr) (root : Fr) → AnchorAt (push_anchor history root) root 0
unfolding push_anchor
push_anchor-newest history root = record { older = _; newer = []; split = refl; aged = refl }

-- A full ring loses its oldest root, which is not a young one.
drop_oldest :
    (older : List Fr) (root : Fr) (newer : List Fr)
    → length newer + 1 < anchor_history_size
    → (older' : List Fr) × ((if leb anchor_history_size (length (older ++ (root ∷ newer)))
          then drop 1 (older ++ (root ∷ newer))
          else older ++ (root ∷ newer))
        ≡ older' ++ (root ∷ newer))
drop_oldest [] root newer young = ([], ground arith)
drop_oldest (x ∷ older) root newer young =
    elim (Bool-cases (leb anchor_history_size (length (x ∷ (older ++ (root ∷ newer)))))) [
      | inl e ↦ (older, rw (e) refl)
      | inr e ↦ (x ∷ older, rw (e) refl)
    ]

push_anchor-AnchorAt :
    (history : List Fr) (root new : Fr) (age : ℕ)
    → age + 1 < anchor_history_size
    → AnchorAt history root age
    → AnchorAt (push_anchor history new) root (age + 1)
unfolding push_anchor
push_anchor-AnchorAt history root new age young h =
    let kept = drop_oldest h.older root h.newer (omega (arith, h.aged)) in
    record {
      older = kept.0;
      newer = h.newer ++ (new ∷ []);
      split =
          ap (λ l. push_anchor l new) h.split
          ∙ ap (λ l. l ++ (new ∷ [])) kept.1
          ∙ append_assoc kept.0 (root ∷ h.newer) (new ∷ []);
      aged = omega (arith, h.aged, length-append h.newer (new ∷ []));
    }

module _ (crypto : Crypto) where
  insert_all-AnchorAt :
      (later : List Fr) (s : MockStore) (tx_sig : Bytes) (root : Fr) (age : ℕ)
      → age + length later < anchor_history_size
      → AnchorAt s.anchor_history root age
      → contains (insert_all crypto s later tx_sig).anchor_history root ≡ true
  unfolding insert_all insert_internal
  insert_all-AnchorAt [] s tx_sig root age young h =
      ap (λ history. contains history root) h.split ∙ contains-AnchorAt h.older root h.newer
  insert_all-AnchorAt (c ∷ later) s tx_sig root age young h =
      insert_all-AnchorAt later (insert_internal crypto s c tx_sig).0 tx_sig root (age + 1)
        (omega arith) (push_anchor-AnchorAt s.anchor_history root _ age (omega arith) h)

  -- The root after an insertion stays a valid anchor while fewer than sixteen further
  -- commitments are inserted.
  pub is_valid_anchor_sync-insert_all :
      (s : MockStore) (c : Fr) (later : List Fr) (tx_sig : Bytes)
      → length later < anchor_history_size
      → is_valid_anchor_sync
          (insert_all crypto (insert_internal crypto s c tx_sig).0 later tx_sig)
          (insert_internal crypto s c tx_sig).2
        ≡ true
  unfolding is_valid_anchor_sync insert_internal
  is_valid_anchor_sync-insert_all s c later tx_sig few =
      insert_all-AnchorAt later (insert_internal crypto s c tx_sig).0 tx_sig _ 0 (omega arith)
        (push_anchor-newest s.anchor_history _)
