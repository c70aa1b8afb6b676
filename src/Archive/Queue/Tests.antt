-- ===== src/Archive/Queue/Tests.antt =====
-- The queue table with three rows.
use mathlib.Core.List.{Perm}
use arc_relay.Prelude.{
  ℕ, ◌≤◌, ◌<◌, ◌≡◌, refl, inr, String, List, [], ◌∷◌, ◌++◌, map, none, some, length, All,
}
use arc_relay.Prelude.Text.{codes}
use arc_relay.Archive.Crypto.{ok, err, encrypt}
use arc_relay.Archive.Crypto.Tests.{keyed}
use arc_relay.Archive.Queue.{
  Item, Status, pending, hold, seal_auth, open_auth, enqueue, select_due, rewrite_rows,
  update_where,
}
use arc_relay.Archive.Queue.Order.{IsSorted, select_due-earliest, IsDue}
use arc_relay.Archive.Queue.Auth.{enqueue-stores}

abbrev pub item : String → ℕ → Status → ℕ → Item
item id created state next = record {
  id = id;
  server_id = "s";
  created_at = created;
  payload = codes "{}";
  url = "https://a";
  auth_type = "bearer";
  auth_value = codes "token";
  api_key_header = "";
  status = state;
  attempts = 2;
  next_attempt_at = next;
  last_attempt_at = none;
  last_error = none;
}

abbrev pub table : List Item
table = item "a" 1 pending 90 ∷ item "b" 2 hold 10 ∷ item "c" 3 pending 50 ∷ []

selected : map (λ r. r.id) (select_due 100 5 table) ≡ "c" ∷ "a" ∷ []
unfolding select_due
selected = refl

select_due-earliest_example :
    let selected = select_due 100 1 table in
    (rest others : List Item) × Perm (selected ++ rest ++ others) table
    × All (IsDue 100) (selected ++ rest)
    × All (λ r. ¬ IsDue 100 r) others
    × IsSorted (selected ++ rest)
    × (length selected ≤ 1)
    × (length selected < 1 → rest ≡ [])
select_due-earliest_example = select_due-earliest 100 1 table

abbrev stored : List Item
stored =
    table
    ++ record (item "d" 100 pending 100) { auth_value = codes "enc:#token"; attempts = 0 } ∷ []

accepted : enqueue (some keyed) (some []) 100 (item "d" 0 hold 0) table ≡ ok stored
unfolding enqueue seal_auth encrypt
accepted = refl

enqueue-stores_example :
    (r : Item) × (stored ≡ table ++ r ∷ [])
    × (r.id ≡ "d")
    × (r.payload ≡ codes "{}")
    × (r.url ≡ "https://a")
    × (r.status ≡ pending)
    × (r.next_attempt_at ≡ 100)
    × (r.attempts ≡ 0)
    × (open_auth (some keyed) r.auth_value ≡ ok (codes "token"))
enqueue-stores_example =
    enqueue-stores (some keyed) (some []) 100 (item "d" 0 hold 0) table stored (inr refl) accepted

duplicate :
    enqueue none none 100 (item "b" 0 pending 0) table
    ≡ err (codes "UNIQUE constraint failed: archive_queue.id")
unfolding enqueue seal_auth
duplicate = refl

rewritten :
    map (λ r. r.url) (rewrite_rows 100 "https://b" "none" [] "" table)
    ≡ "https://b" ∷ "https://b" ∷ "https://b" ∷ []
unfolding rewrite_rows update_where
rewritten = refl
