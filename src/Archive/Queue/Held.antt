-- ===== src/Archive/Queue/Held.antt =====
-- What the administrator's operations on the queue do to every row.
use arc_relay.Prelude.{
  ℕ, ◌≡◌, refl, List, [], ◌∷◌, false, arith, length, keep, str_eq, eq_iff, String, if◌then◌else◌,
}
use arc_relay.Prelude.Text.{Text}
use arc_relay.Archive.Queue.{
  Item, pending, hold, is_pending, is_hold, update_where, retry_held, rewrite_rows, status,
}

-- A row that a retry of held items leaves: due now, or as it was.
abbrev pub IsRetried : ℕ → Item → Item → Type 0
IsRetried now r r' =
    (r'.payload ≡ r.payload)
    × (r'.id ≡ r.id)
    × (r'.status ≡ pending)
    × (r.status ≡ hold → (r'.next_attempt_at ≡ now) × (r'.attempts ≡ 0))
    × (r.status ≡ pending → r' ≡ r)

-- Rows in step, one for one.
abbrev pub Pairwise : (Item → Item → Type 0) → List Item → List Item → Type 0
Pairwise P [] [] = Unit {0}
Pairwise P [] (y ∷ ys) = ⊥
Pairwise P (x ∷ xs) [] = ⊥
Pairwise P (x ∷ xs) (y ∷ ys) = P x y × Pairwise P xs ys

retry-row :
    (now : ℕ) (r : Item)
    → IsRetried now r (
        if is_hold r.status
        then record r { status = pending; next_attempt_at = now; attempts = 0 }
        else r)
retry-row now r = ground arith

retry_held-pairs :
    (now : ℕ) (table : List Item) → Pairwise (IsRetried now) table (retry_held now table)
unfolding retry_held update_where
retry_held-pairs now [] = tt
retry_held-pairs now (r ∷ rs) = (retry-row now r, retry_held-pairs now rs)

retry_held-counts :
    (now : ℕ) (table : List Item)
    → (length (keep (λ r. is_hold r.status) (retry_held now table)) ≡ 0)
      × (length (keep (λ r. is_pending r.status) (retry_held now table)) ≡ length table)
      × (length (retry_held now table) ≡ length table)
unfolding retry_held update_where
retry_held-counts now [] = (refl, refl, refl)
retry_held-counts now (r ∷ rs) = ground (arith, retry_held-counts now rs)

-- A retry of the held items leaves no row on hold and loses none: each held row is pending and due at
-- once with its attempts at 0, each pending row is as it was, and the counts for display say so.
pub retry_held-status :
    (now : ℕ) (table : List Item)
    → let after = status (retry_held now table) in
      Pairwise (IsRetried now) table (retry_held now table)
      × (after.hold_count ≡ 0)
      × (after.pending_count ≡ length table)
      × (after.total_count ≡ length table)
unfolding status
retry_held-status now table =
    let c = retry_held-counts now table in (retry_held-pairs now table, c.0, c.1, c.2)

abbrev pub IsRewritten : ℕ → String → String → Text → String → Item → Item → Type 0
IsRewritten now url auth_type stored header r r' =
    (r'.url ≡ url)
    × (r'.payload ≡ r.payload)
    × (r'.id ≡ r.id)
    × (r'.status ≡ r.status)
    × (r.url ≡ url → r' ≡ r)
    × (str_eq r.url url ≡ false
        → (r'.auth_type ≡ auth_type)
          × (r'.auth_value ≡ stored)
          × (r'.api_key_header ≡ header)
          × (r'.attempts ≡ 0)
          × (r'.next_attempt_at ≡ now))

-- After a rewrite every row, held or pending, points at the new URL with its payload and status kept;
-- those that pointed elsewhere have the new credentials and start over, and those that already
-- pointed there are untouched, old credentials included.
pub rewrite_rows-pairs :
    (now : ℕ) (url auth_type : String) (stored : Text) (header : String) (table : List Item)
    → Pairwise
        (IsRewritten now url auth_type stored header)
        table
        (rewrite_rows now url auth_type stored header table)
unfolding rewrite_rows update_where
rewrite_rows-pairs now url auth_type stored header [] = tt
rewrite_rows-pairs now url auth_type stored header (r ∷ rs) =
    (ground (arith, eq_iff r.url url), rewrite_rows-pairs now url auth_type stored header rs)
