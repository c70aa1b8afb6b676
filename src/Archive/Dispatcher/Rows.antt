-- ===== src/Archive/Dispatcher/Rows.antt =====
-- Rows of the queue table under the operations of a delivery attempt.
use arc_relay.Prelude.{
  sym, subst, ◌⊎◌, keep, if-elim, ℕ, ◌≡◌, refl, ◌∙◌, inl, inr, String, List, [], ◌∷◌, Bool, Option,
  none, some, arith, if◌then◌else◌, str_eq, eq_iff, Bool-cases,
}
use arc_relay.Prelude.Text.{Text}
use arc_relay.Archive.Queue.{Item, update_where, mark_delivered, reschedule, mark_hold}

-- The table's row with an id.
abbrev pub row : String → List Item → Option Item
row id [] = none
row id (r ∷ rs) = if str_eq r.id id then some r else row id rs

-- The row is there, with the payload of `p`.
abbrev pub Holds : String → Text → List Item → Type 0
Holds id p table = (r : Item) × (row id table ≡ some r) × (r.payload ≡ p)

-- An update that leaves ids and payloads alone.
pub record IsQuiet (f : Item → Item) : Type 0 where
  pub same_id : (r : Item) → (f r).id ≡ r.id
  pub same_payload : (r : Item) → (f r).payload ≡ r.payload

pub update_where-Holds :
    (p : Item → Bool) (f : Item → Item) (id : String) (payload : Text) (table : List Item)
    → IsQuiet f
    → Holds id payload table
    → Holds id payload (update_where p f table)
unfolding update_where
update_where-Holds p f id payload [] q (r, e, same) = cc
update_where-Holds p f id payload (x ∷ xs) q (r, e, same) = elim (Bool-cases (p x)) [
  | inl hit ↦ elim (Bool-cases (str_eq x.id id)) [
    | inl here ↦ (f x, ground (arith, q.same_id x), q.same_payload x ∙ ground arith)
    | inr past ↦
        let (r', e', same') = update_where-Holds p f id payload xs q (r, ground arith, same) in
        (r', ground (arith, q.same_id x), same')
  ]
  | inr miss ↦ elim (Bool-cases (str_eq x.id id)) [
    | inl here ↦ (r, ground arith, same)
    | inr past ↦
        let (r', e', same') = update_where-Holds p f id payload xs q (r, ground arith, same) in
        (r', ground arith, same')
  ]
]

pub update_where-none :
    (p : Item → Bool) (f : Item → Item) (id : String) (table : List Item)
    → IsQuiet f
    → row id table ≡ none
    → row id (update_where p f table) ≡ none
unfolding update_where
update_where-none p f id [] q e = refl
update_where-none p f id (x ∷ xs) q e = ground (arith, q.same_id x, update_where-none p f id xs q)

pub mark_delivered-row :
    (id j : String) (table : List Item)
    → row j (mark_delivered id table) ≡ (if str_eq id j then none else row j table)
unfolding mark_delivered
mark_delivered-row id j [] = ground arith
mark_delivered-row id j (x ∷ xs) =
    ground (arith, mark_delivered-row id j xs, eq_iff id j, eq_iff x.id id, eq_iff x.id j)

pub reschedule-Holds :
    (now : ℕ) (j : String) (next : ℕ) (message : Text) (id : String) (payload : Text)
    (table : List Item)
    → Holds id payload table
    → Holds id payload (reschedule now j next message table)
unfolding reschedule
reschedule-Holds now j next message id payload table =
    update_where-Holds _ _ id payload table
      (record { same_id = λ r. refl; same_payload = λ r. refl })

pub mark_hold-Holds :
    (now : ℕ) (j : String) (message : Text) (id : String) (payload : Text) (table : List Item)
    → Holds id payload table
    → Holds id payload (mark_hold now j message table)
unfolding mark_hold
mark_hold-Holds now j message id payload table =
    update_where-Holds _ _ id payload table
      (record { same_id = λ r. refl; same_payload = λ r. refl })

pub reschedule-none :
    (now : ℕ) (j : String) (next : ℕ) (message : Text) (id : String) (table : List Item)
    → row id table ≡ none
    → row id (reschedule now j next message table) ≡ none
unfolding reschedule
reschedule-none now j next message id table =
    update_where-none _ _ id table (record { same_id = λ r. refl; same_payload = λ r. refl })

pub mark_hold-none :
    (now : ℕ) (j : String) (message : Text) (id : String) (table : List Item)
    → row id table ≡ none
    → row id (mark_hold now j message table) ≡ none
unfolding mark_hold
mark_hold-none now j message id table =
    update_where-none _ _ id table (record { same_id = λ r. refl; same_payload = λ r. refl })

-- The primary key: no row has the id of another.
abbrev pub IsKeyed : List Item → Type 0
IsKeyed [] = Unit
IsKeyed (r ∷ rs) = (row r.id rs ≡ none) × IsKeyed rs

pub keep-none :
    (q : Item → Bool) (id : String) (table : List Item)
    → row id table ≡ none
    → row id (keep q table) ≡ none
keep-none q id [] e = refl
keep-none q id (x ∷ xs) e = ground (arith, keep-none q id xs)

pub keep-IsKeyed : (q : Item → Bool) (table : List Item) → IsKeyed table → IsKeyed (keep q table)
keep-IsKeyed q [] k = tt
keep-IsKeyed q (x ∷ xs) k =
    if-elim IsKeyed (q x) _ _ (keep-none q x.id xs k.0, keep-IsKeyed q xs k.1)
      (keep-IsKeyed q xs k.1)

pub update_where-IsKeyed :
    (p : Item → Bool) (f : Item → Item) (table : List Item)
    → IsQuiet f
    → IsKeyed table
    → IsKeyed (update_where p f table)
unfolding update_where
update_where-IsKeyed p f [] q k = tt
update_where-IsKeyed p f (x ∷ xs) q k =
    if-elim (λ y. IsKeyed (y ∷ update_where p f xs)) (p x) _ _
      (
        subst (λ i. row i (update_where p f xs) ≡ none) (sym (q.same_id x))
            (update_where-none p f x.id xs q k.0),
        update_where-IsKeyed p f xs q k.1,
      )
      (update_where-none p f x.id xs q k.0, update_where-IsKeyed p f xs q k.1)

-- Where ids are not repeated, a row that is there stays when some rows are deleted, or is gone.
pub keep-Holds :
    (q : Item → Bool) (id : String) (payload : Text) (table : List Item)
    → IsKeyed table
    → Holds id payload table
    → Holds id payload (keep q table) ⊎ (row id (keep q table) ≡ none)
keep-Holds q id payload [] k h = inl h
keep-Holds q id payload (x ∷ xs) k (r, e, same) = elim (Bool-cases (str_eq x.id id)) [
  | inl here ↦
      let gone : row id xs ≡ none = subst (λ i. row i xs ≡ none) ((eq_iff x.id id).0 here) k.0 in
      elim (Bool-cases (q x)) [
        | inl kept ↦ rw kept (inl (r, ground arith, same))
        | inr dropped ↦ rw dropped (inr (keep-none q id xs gone))
      ]
  | inr past ↦
      let rest = keep-Holds q id payload xs k.1 (r, ground arith, same) in
      elim (Bool-cases (q x)) [ inl kept ↦ rw kept (rw past rest) | inr dropped ↦ rw dropped rest ]
]
