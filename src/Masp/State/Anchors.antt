-- ===== src/Masp/State/Anchors.antt =====
-- The ring buffer of roots refines a list of the most recent roots, newest first.
use solana_masp.Prelude.{
  ℕ, zero, suc, ◌+◌, ◌-◌, ◌%◌, ◌≤◌, ◌<◌, ◌≡◌, refl, ap, sym, ◌∙◌, ◌||◌, List, [], ◌∷◌, ◌++◌,
  reverse, Bytes, arith, length, take, drop, set, take-append_left, take_all, drop_all,
  length-append, length-take_of_le, length-drop, take-append-drop, length-set, Bool-cases, inl, inr,
  ◌==◌,
}
use mathlib.Core.List.{reverse-append, reverse-cons, append_assoc, append-nil}
use solana_masp.Runtime.{ok}
use solana_masp.Masp.State.{
  TreeState, anchor_history_size, in_history, is_valid_anchor, update_root,
}

-- The roots that the state accepts, newest first: the current one, then the ring read backwards
-- from the slot that was written last.
unfoldable pub recent : TreeState → List Bytes
recent s =
    s.current_root
    ∷ (reverse (take s.anchor_history_index s.anchor_history)
        ++ reverse (drop s.anchor_history_index s.anchor_history))

pub record IsWellFormed (s : TreeState) : Type 0 where
  pub slots : length s.anchor_history ≡ anchor_history_size
  pub index_in_range : s.anchor_history_index < anchor_history_size

take-set :
    (h : List Bytes) (i : ℕ) (r : Bytes)
    → i < length h
    → take (suc i) (set h i r) ≡ take i h ++ r ∷ []
take-set [] i r p = elim p [ ]
take-set (x ∷ h) zero r p = refl
take-set (x ∷ h) (suc i) r p = ap (λ t. x ∷ t) (take-set h i r (omega arith))

drop-set : (h : List Bytes) (i : ℕ) (r : Bytes) → drop (suc i) (set h i r) ≡ drop (suc i) h
drop-set [] i r = refl
drop-set (x ∷ h) zero r = refl
drop-set (x ∷ h) (suc i) r = drop-set h i r

drop_slot : (h : List Bytes) (i : ℕ) → i < length h → (x : Bytes) × (drop i h ≡ x ∷ drop (suc i) h)
drop_slot [] i p = elim p [ ]
drop_slot (x ∷ h) zero p = (x, refl)
drop_slot (x ∷ h) (suc i) p = drop_slot h i (omega arith)

take_all_but_last :
    (xs : List Bytes) (x : Bytes) (n : ℕ) → length xs ≡ n → take n (xs ++ x ∷ []) ≡ xs
take_all_but_last xs x n e = rw (← e) (take-append_left xs (x ∷ []))

take-take : (n m : ℕ) (xs : List Bytes) → n ≤ m → take n (take m xs) ≡ take n xs
take-take zero m xs p = refl
take-take (suc n) zero xs p = elim p [ ]
take-take (suc n) (suc m) [] p = refl
take-take (suc n) (suc m) (x ∷ xs) p = ap (λ t. x ∷ t) (take-take n m xs (omega arith))

pub take-append-take :
    (n m : ℕ) (xs ys : List Bytes)
    → n ≤ length xs + m
    → take n (xs ++ take m ys) ≡ take n (xs ++ ys)
take-append-take n m [] ys p = take-take n m ys (omega arith)
take-append-take zero m (x ∷ xs) ys p = refl
take-append-take (suc n) m (x ∷ xs) ys p =
    ap (λ t. x ∷ t) (take-append-take n m xs ys (omega arith))

-- The ring read backwards from slot `i`.
abbrev ring : List Bytes → ℕ → List Bytes
ring h i = reverse (take i h) ++ reverse (drop i h)

-- Writing slot `i` puts the new root first and forgets the oldest one.
ring-set :
    (h : List Bytes) (i : ℕ) (r : Bytes)
    → i < length h
    → ring (set h i r) (suc i) ≡ r ∷ (reverse (take i h) ++ reverse (drop (suc i) h))
ring-set h i r p = rw (take-set h i r p, drop-set h i r, reverse-append)

ring_wraps : (h : List Bytes) → ring h (length h) ≡ ring h 0
ring_wraps h = rw (take_all h, drop_all h) (append-nil (reverse h))

ring_oldest :
    (h : List Bytes) (i : ℕ)
    → i < length h
    → (x : Bytes) × (ring h i ≡ (reverse (take i h) ++ reverse (drop (suc i) h)) ++ x ∷ [])
ring_oldest h i p = let (x, e) = drop_slot h i p in (x, rw (e, reverse-cons, ← append_assoc))

length-reverse : (xs : List Bytes) → length (reverse xs) ≡ length xs
length-reverse [] = refl
length-reverse (x ∷ xs) = rw (reverse-cons, length-append) (omega (arith, length-reverse xs))

length-kept :
    (h : List Bytes) (i : ℕ)
    → i < length h
    → length (reverse (take i h) ++ reverse (drop (suc i) h)) ≡ length h - 1
length-kept h i p =
    rw
      (
        length-append,
        length-reverse,
        length-reverse,
        length-take_of_le i h (omega arith),
        length-drop,
      )
      (omega arith)

-- Where the next slot is: the one after, or the first one again.
ring-next :
    (h : List Bytes) (i : ℕ)
    → length h ≡ anchor_history_size
    → i < anchor_history_size
    → ring h ((i + 1) % anchor_history_size % 256) ≡ ring h (suc i)
ring-next h i e p = elim (Bool-cases (i == 15)) [
  | inl last ↦
      let wrap : (i + 1) % anchor_history_size % 256 ≡ 0 = ground arith in
      let end : suc i ≡ length h = ground arith in rw (wrap, end) (sym (ring_wraps h))
  | inr more ↦ let step : (i + 1) % anchor_history_size % 256 ≡ suc i = ground arith in rw step
]

-- A write and the step to the next slot: the new root goes first, and the oldest one is forgotten.
ring-push :
    (h : List Bytes) (i : ℕ) (r : Bytes)
    → length h ≡ anchor_history_size
    → i < anchor_history_size
    → ring (set h i r) ((i + 1) % anchor_history_size % 256)
      ≡ take anchor_history_size (r ∷ ring h i)
ring-push h i r e p =
    let (x, oldest) = ring_oldest h i (omega arith) in
    let kept = reverse (take i h) ++ reverse (drop (suc i) h) in
    let count : length kept ≡ 15 = omega (arith, length-kept h i (omega arith)) in
    ring-next (set h i r) i (length-set h i r ∙ e) p
    ∙ ring-set h i r (omega arith)
    ∙ rw oldest (ap (λ t. r ∷ t) (sym (take_all_but_last kept x 15 count)))

pub length-recent : (s : TreeState) → IsWellFormed s → length (recent s) ≡ anchor_history_size + 1
unfolding recent
length-recent s w =
    let i = s.anchor_history_index in
    let h = s.anchor_history in
    ap suc (
      length-append (reverse (take i h)) (reverse (drop i h))
      ∙ omega (
        arith,
        length-reverse (take i h),
        length-reverse (drop i h),
        length-take_of_le i h (ground arith),
        length-drop i h,
        w.slots,
      ))

-- One update of a well-formed state succeeds, and on the list of recent roots it is: put the new
-- root first and keep sixteen of the others.
pub update_root-recent :
    (s : TreeState) (r : Bytes)
    → IsWellFormed s
    → (s' : TreeState) × (update_root s r ≡ ok s')
      × IsWellFormed s'
      × (recent s' ≡ r ∷ take anchor_history_size (recent s))
unfolding update_root recent
update_root-recent s r w = (
  next,
  ground arith,
  ground (arith, length-set s.anchor_history s.anchor_history_index s.current_root),
  ap (λ t. r ∷ t)
      (ring-push s.anchor_history s.anchor_history_index s.current_root w.slots w.index_in_range),
)
  where
    next : TreeState
    next = record s {
      anchor_history = set s.anchor_history s.anchor_history_index s.current_root;
      anchor_history_index = (s.anchor_history_index + 1) % anchor_history_size % 256;
      current_root = r;
    }

in_history-append :
    (a : Bytes) (xs ys : List Bytes)
    → in_history a (xs ++ ys) ≡ (in_history a xs || in_history a ys)
unfolding in_history
in_history-append a [] ys = refl
in_history-append a (x ∷ xs) ys = ground (arith, in_history-append a xs ys)

in_history-reverse : (a : Bytes) (xs : List Bytes) → in_history a (reverse xs) ≡ in_history a xs
in_history-reverse a [] = refl
in_history-reverse a (x ∷ xs) =
    rw (reverse-cons, in_history-append, in_history-reverse a xs)
      (unfold in_history in ground arith)

in_history-ring : (a : Bytes) (h : List Bytes) (i : ℕ) → in_history a (ring h i) ≡ in_history a h
in_history-ring a h i =
    let parts : in_history a h ≡ (in_history a (take i h) || in_history a (drop i h)) =
      rw take-append-drop at (in_history-append a (take i h) (drop i h)) in
    rw (in_history-append, in_history-reverse, in_history-reverse) (sym parts)

-- The program's test of an anchor is membership among the recent roots.
pub is_valid_anchor-recent :
    (s : TreeState) (a : Bytes) → is_valid_anchor s a ≡ in_history a (recent s)
unfolding is_valid_anchor recent
is_valid_anchor-recent s a =
    ground (arith, in_history-ring a s.anchor_history s.anchor_history_index)
