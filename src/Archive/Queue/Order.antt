-- ===== src/Archive/Queue/Order.antt =====
-- Which rows a dequeue selects, and in what order.
use mathlib.Core.List.{Perm}
use mathlib.Core.List.Perm
use arc_relay.Prelude.{
  ℕ, zero, suc, ◌≤◌, ◌<◌, ◌≡◌, refl, inl, inr, List, [], ◌∷◌, ◌++◌, true, false, arith, length,
  take, drop, keep, All, Bool-cases, Bool, not, ◌⊎◌, ap, if-elim,
}
use arc_relay.Archive.Queue.{
  Item, is_before, insert, sort, is_due, select_due, pending, hold, Status, is_pending,
}

-- The WHERE and ORDER BY of DequeueDue on two rows.
abbrev pub IsDue : ℕ → Item → Type 0
IsDue now r = (r.status ≡ pending) × (r.next_attempt_at ≤ now)

abbrev pub IsEarlier : Item → Item → Type 0
IsEarlier a b =
    (a.next_attempt_at < b.next_attempt_at)
    ⊎ ((a.next_attempt_at ≡ b.next_attempt_at) × (a.created_at ≤ b.created_at))

abbrev pub IsSorted : List Item → Type 0
IsSorted [] = Unit {0}
IsSorted (x ∷ xs) = All (IsEarlier x) xs × IsSorted xs

IsEarlier-trans : (a b c : Item) → IsEarlier a b → IsEarlier b c → IsEarlier a c
IsEarlier-trans a b c h k = ground arith

is_before-IsEarlier : (a b : Item) → is_before a b ≡ true → IsEarlier a b
is_before-IsEarlier a b h = ground arith

is_before_total : (a b : Item) → is_before a b ≡ false → IsEarlier b a
is_before_total a b h = ground arith

after-All :
    (a b : Item) (xs : List Item) → IsEarlier a b → All (IsEarlier b) xs → All (IsEarlier a) xs
after-All a b [] h k = tt
after-All a b (x ∷ xs) h k = (IsEarlier-trans a b x h k.0, after-All a b xs h k.1)

insert-All :
    (a r : Item) (xs : List Item)
    → IsEarlier a r
    → All (IsEarlier a) xs
    → All (IsEarlier a) (insert r xs)
unfolding insert
insert-All a r [] h k = (h, tt)
insert-All a r (x ∷ xs) h k = elim (Bool-cases (is_before r x)) [
  | inl e ↦ rw e (h, k)
  | inr e ↦ rw e (k.0, insert-All a r xs h k.1)
]

insert-IsSorted : (r : Item) (xs : List Item) → IsSorted xs → IsSorted (insert r xs)
unfolding insert
insert-IsSorted r [] s = (tt, tt)
insert-IsSorted r (x ∷ xs) s = elim (Bool-cases (is_before r x)) [
  | inl e ↦ let first = is_before-IsEarlier r x e in rw e ((first, after-All r x xs first s.0), s)
  | inr e ↦ rw e (insert-All x r xs (is_before_total r x e) s.0, insert-IsSorted r xs s.1)
]

insert-perm : (r : Item) (xs : List Item) → Perm (insert r xs) (r ∷ xs)
unfolding insert
insert-perm r [] = Perm.refl (r ∷ [])
insert-perm r (x ∷ xs) = elim (Bool-cases (is_before r x)) [
  | inl e ↦ rw e (Perm.refl (r ∷ x ∷ xs))
  | inr e ↦ rw e (Perm.trans (Perm.cons x (insert-perm r xs)) (Perm.swap r x xs))
]

sort-IsSorted : (xs : List Item) → IsSorted (sort xs)
unfolding sort
sort-IsSorted [] = tt
sort-IsSorted (x ∷ xs) = insert-IsSorted x (sort xs) (sort-IsSorted xs)

sort-perm : (xs : List Item) → Perm (sort xs) xs
unfolding sort
sort-perm [] = Perm.refl []
sort-perm (x ∷ xs) = Perm.trans (insert-perm x (sort xs)) (Perm.cons x (sort-perm xs))

take-append-drop : (n : ℕ) (xs : List Item) → take n xs ++ drop n xs ≡ xs
take-append-drop zero xs = refl
take-append-drop (suc n) [] = refl
take-append-drop (suc n) (x ∷ xs) = rw (take-append-drop n xs)

length-take-le : (n : ℕ) (xs : List Item) → length (take n xs) ≤ n
length-take-le zero xs = omega arith
length-take-le (suc n) [] = omega arith
length-take-le (suc n) (x ∷ xs) = omega (arith, length-take-le n xs)

short-take : (n : ℕ) (xs : List Item) → length (take n xs) < n → drop n xs ≡ []
short-take zero xs h = absurd (omega arith)
short-take (suc n) [] h = refl
short-take (suc n) (x ∷ xs) h = short-take n xs (omega arith)

keep-perm : (p : Item → Bool) (xs : List Item) → Perm (keep p xs ++ keep (λ x. not (p x)) xs) xs
keep-perm p [] = Perm.refl []
keep-perm p (x ∷ xs) = elim (Bool-cases (p x)) [
  | inl e ↦ rw e (Perm.cons x (keep-perm p xs))
  | inr e ↦
      rw e (
        Perm.trans (middle x (keep p xs) (keep (λ y. not (p y)) xs)) (Perm.cons x (keep-perm p xs)))
]
  where
    middle : (y : Item) (ys zs : List Item) → Perm (ys ++ y ∷ zs) (y ∷ ys ++ zs)
    middle y [] zs = Perm.refl (y ∷ zs)
    middle y (w ∷ ys) zs = Perm.trans (Perm.cons w (middle y ys zs)) (Perm.swap y w (ys ++ zs))

pending_eq : (s : Status) → is_pending s ≡ true → s ≡ pending
pending_eq pending h = refl
pending_eq hold h = cc

is_due-IsDue : (now : ℕ) (r : Item) → is_due now r ≡ true → IsDue now r
is_due-IsDue now r e = ground (arith, pending_eq r.status)

IsDue-is_due : (now : ℕ) (r : Item) → IsDue now r → is_due now r ≡ true
IsDue-is_due now r (p, le) =
    let waits : is_pending r.status ≡ true = ap is_pending p in ground arith

keep-IsDue : (now : ℕ) (xs : List Item) → All (IsDue now) (keep (is_due now) xs)
keep-IsDue now [] = tt
keep-IsDue now (x ∷ xs) = elim (Bool-cases (is_due now x)) [
  | inl e ↦ rw e (is_due-IsDue now x e, keep-IsDue now xs)
  | inr e ↦ rw e (keep-IsDue now xs)
]

keep-others :
    (now : ℕ) (xs : List Item) → All (λ r. ¬ IsDue now r) (keep (λ r. not (is_due now r)) xs)
keep-others now [] = tt
keep-others now (x ∷ xs) = elim (Bool-cases (is_due now x)) [
  | inl e ↦ rw e (keep-others now xs)
  | inr e ↦ rw e ((λ h. let due = IsDue-is_due now x h in cc), keep-others now xs)
]

insert-IsDue :
    (now : ℕ) (r : Item) (xs : List Item)
    → IsDue now r
    → All (IsDue now) xs
    → All (IsDue now) (insert r xs)
unfolding insert
insert-IsDue now r [] d h = (d, tt)
insert-IsDue now r (x ∷ xs) d h =
    if-elim (All (IsDue now)) (is_before r x) _ _ (d, h) (h.0, insert-IsDue now r xs d h.1)

sort-IsDue : (now : ℕ) (xs : List Item) → All (IsDue now) xs → All (IsDue now) (sort xs)
unfolding sort
sort-IsDue now [] h = h
sort-IsDue now (x ∷ xs) h = insert-IsDue now x (sort xs) h.0 (sort-IsDue now xs h.1)

-- The table is made up of the rows selected for delivery, some rest and others, each row once: the
-- selected rows and the rest are pending and their time has come, which is true of none of the others.
-- The selected rows and then the rest are in the order of their next attempt and, where that is the
-- same, of their creation; there are at most `limit` selected rows, and a rest only if there are that
-- many.
pub select_due-earliest :
    (now limit : ℕ) (table : List Item)
    → let selected = select_due now limit table in
      (rest others : List Item) × Perm (selected ++ rest ++ others) table
      × All (IsDue now) (selected ++ rest)
      × All (λ r. ¬ IsDue now r) others
      × IsSorted (selected ++ rest)
      × (length selected ≤ limit)
      × (length selected < limit → rest ≡ [])
unfolding select_due
select_due-earliest now limit table =
    let due = sort (keep (is_due now) table) in
    let others = keep (λ r. not (is_due now r)) table in
    (
      drop limit due,
      others,
      rw (take-append-drop limit due) (
          Perm.trans (Perm.append_right others (sort-perm (keep (is_due now) table)))
            (keep-perm (is_due now) table)),
      rw (take-append-drop limit due)
          (sort-IsDue now (keep (is_due now) table) (keep-IsDue now table)),
      keep-others now table,
      rw (take-append-drop limit due) (sort-IsSorted (keep (is_due now) table)),
      length-take-le limit due,
      short-take limit due,
    )
