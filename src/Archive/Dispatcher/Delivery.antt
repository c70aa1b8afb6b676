-- ===== src/Archive/Dispatcher/Delivery.antt =====
-- The rows of the queue table over a run of the delivery loop.
use arc_relay.Archive.Dispatcher.Admin.{clears, Acted, table_after-Acted}
use arc_relay.Prelude.{
  ℕ, suc, ◌≡◌, refl, ◌⊎◌, inl, inr, String, List, [], ◌∷◌, ◌++◌, Bool, true, false, ◌&&◌, Option,
  none, arith, any, if◌then◌else◌, str_eq, eq_iff, Bool-cases, if-elim, ltb, subst, length,
  length-append, ◌<◌, ◌+◌,
}
use arc_relay.Prelude.Text.{Text}
use arc_relay.Archive.Crypto.{ConfigEncryptor, Result, ok, err}
use arc_relay.Archive.Queue.{
  Item, mark_hold, mark_delivered, reschedule, open_auth, open_rows, dequeue_due,
}
use arc_relay.Archive.Breaker.{check_breaker, is_transient}
use arc_relay.Archive.Dispatcher.{
  Reply, invalid_request, network_error, http, Attempt, Dispatcher, Sent, Drain, send_one,
  drain_step, drain_loop, drain_due, table_after,
}
use arc_relay.Archive.Dispatcher.Rows.{
  row, Holds, mark_delivered-row, reschedule-Holds, mark_hold-Holds, reschedule-none,
  mark_hold-none, IsKeyed, keep-IsKeyed, update_where-IsKeyed,
}

-- The endpoint answered below 300 for the item with this id.
abbrev pub was_delivered : String → List Sent → Bool
was_delivered id log = any (λ s. s.delivered && str_eq s.id id) log

mark_hold-IsKeyed :
    (now : ℕ) (id : String) (message : Text) (table : List Item)
    → IsKeyed table
    → IsKeyed (mark_hold now id message table)
unfolding mark_hold
mark_hold-IsKeyed now id message table =
    update_where-IsKeyed _ _ table (record { same_id = λ r. refl; same_payload = λ r. refl })

reschedule-IsKeyed :
    (now : ℕ) (id : String) (next : ℕ) (message : Text) (table : List Item)
    → IsKeyed table
    → IsKeyed (reschedule now id next message table)
unfolding reschedule
reschedule-IsKeyed now id next message table =
    update_where-IsKeyed _ _ table (record { same_id = λ r. refl; same_payload = λ r. refl })

mark_delivered-IsKeyed :
    (id : String) (table : List Item) → IsKeyed table → IsKeyed (mark_delivered id table)
unfolding mark_delivered
mark_delivered-IsKeyed id table = keep-IsKeyed _ table

-- One attempt keeps the row of every item but the one that it delivers, whose row it deletes.
record Attempted (item : Item) (table after : List Item) (delivered : Bool) : Type 0 where
  keeps :
      (id : String) (p : Text)
      → Holds id p table
      → Holds id p after ⊎ ((str_eq item.id id ≡ true) × (delivered ≡ true))
  adds_nothing : (id : String) → row id table ≡ none → row id after ≡ none
  deletes : delivered ≡ true → row item.id after ≡ none
  keyed : IsKeyed table → IsKeyed after

held-Attempted :
    (now : ℕ) (item : Item) (message : Text) (table : List Item)
    → Attempted item table (mark_hold now item.id message table) false
held-Attempted now item message table = record {
  keeps = λ id p h. inl (mark_hold-Holds now item.id message id p table h);
  adds_nothing = λ id. mark_hold-none now item.id message id table;
  deletes = λ e. cc;
  keyed = mark_hold-IsKeyed now item.id message table;
}

later-Attempted :
    (now : ℕ) (item : Item) (next : ℕ) (message : Text) (table : List Item)
    → Attempted item table (reschedule now item.id next message table) false
later-Attempted now item next message table = record {
  keeps = λ id p h. inl (reschedule-Holds now item.id next message id p table h);
  adds_nothing = λ id. reschedule-none now item.id next message id table;
  deletes = λ e. cc;
  keyed = reschedule-IsKeyed now item.id next message table;
}

delivered-Attempted :
    (item : Item) (table : List Item) → Attempted item table (mark_delivered item.id table) true
delivered-Attempted item table = record {
  keeps = λ id p h. elim (Bool-cases (str_eq item.id id)) [
    | inl same ↦ inr (same, refl)
    | inr other ↦ inl (h.0, rw (mark_delivered-row item.id id table) (rw other h.1), h.2)
  ];
  adds_nothing = λ id e. ground (arith, mark_delivered-row item.id id table);
  deletes = λ e. ground (arith, mark_delivered-row item.id item.id table, eq_iff item.id item.id);
  keyed = mark_delivered-IsKeyed item.id table;
}

send_one-Attempted :
    (now : ℕ) (item : Item) (reply : Reply) (table : List Item)
    → Attempted item table (send_one now item reply table).0 (send_one now item reply table).1
unfolding send_one
send_one-Attempted now item (invalid_request e) table = held-Attempted now item _ table
send_one-Attempted now item (network_error e) table = later-Attempted now item _ _ table
send_one-Attempted now item (http code) table = elim (Bool-cases (ltb code 300)) [
  | inl good ↦ rw good (delivered-Attempted item table)
  | inr bad ↦ elim (Bool-cases (is_transient code)) [
    | inl transient ↦ rw (bad, transient) (later-Attempted now item _ _ table)
    | inr permanent ↦ rw (bad, permanent) (held-Attempted now item _ table)
  ]
]

was_delivered-append :
    (id : String) (log : List Sent) (s : Sent)
    → was_delivered id (log ++ s ∷ [])
      ≡ (if was_delivered id log then true else s.delivered && str_eq s.id id)
was_delivered-append id [] s = ground arith
was_delivered-append id (x ∷ log) s = ground (arith, was_delivered-append id log s)

-- Around one of the first items that were sent, an administrator cleared the held rows.
abbrev pub IsCleared : (ℕ → Attempt) → List Sent → Type 0
IsCleared env log =
    (i : ℕ) × (i < length log)
    × ((clears (env i).meanwhile ≡ true) ⊎ (clears (env i).afterwards ≡ true))

-- Where an item of the table at the start is by now: still there, or gone from the table because it
-- was delivered or the held rows were cleared.
abbrev pub Accounted : (ℕ → Attempt) → String → Text → List Item → List Sent → Type 0
Accounted env id p table log =
    Holds id p table ⊎ (((was_delivered id log ≡ true) ⊎ IsCleared env log) × (row id table ≡ none))

record Kept (env : ℕ → Attempt) (i : ℕ) (id : String) (p : Text) (d : Drain) : Type 0 where
  keyed : IsKeyed d.table
  counted : length d.log ≡ i
  accounted : Accounted env id p d.table d.log

reason_later :
    (env : ℕ → Attempt) (id : String) (log : List Sent) (s : Sent)
    → (was_delivered id log ≡ true) ⊎ IsCleared env log
    → (was_delivered id (log ++ s ∷ []) ≡ true) ⊎ IsCleared env (log ++ s ∷ [])
reason_later env id log s (inl e) = inl (ground (arith, was_delivered-append id log s))
reason_later env id log s (inr (i, lt, c)) =
    inr (i, omega (arith, lt, length-append log (s ∷ [])), c)

drain_step-Kept :
    (env : ℕ → Attempt) (i : ℕ) (item : Item) (d : Drain) (id : String) (p : Text)
    → Kept env i id p d
    → Kept env (suc i) id p (drain_step (env i) item d).0
unfolding drain_step
drain_step-Kept env i item d id p h = record {
  keyed = after.keeps_keyed;
  counted = omega (arith, h.counted, more);
  accounted = elim h.accounted [
    | inr (why, gone) ↦ inr (
      reason_later env id d.log s why,
      after.adds_none id (sent.adds_nothing id (before.adds_none id gone)),
    )
    | inl held ↦ elim (before.stays id p held) [
      | inr (c, gone) ↦ inr (now_cleared (inl c), after.adds_none id (sent.adds_nothing id gone))
      | inl held' ↦ elim (sent.keeps id p held') [
        | inl still ↦ elim (after.stays id p still) [
          | inl there ↦ inl there
          | inr (c, gone) ↦ inr (now_cleared (inr c), gone)
        ]
        | inr (same, taken) ↦ inr (
          inl (ground (arith, was_delivered-append id d.log s)),
          after.adds_none id (
              subst (λ j. row j tables.0 ≡ none) ((eq_iff item.id id).0 same) (sent.deletes taken)),
        )
      ]
    ]
  ];
}
  where
    a : Attempt
    a = env i

    tables : List Item × Bool
    tables = send_one a.sent_at item a.reply (table_after a.meanwhile d.table)

    s : Sent
    s = record { id = item.id; delivered = tables.1 }

    before : Acted a.meanwhile d.table (table_after a.meanwhile d.table)
    before = table_after-Acted a.meanwhile d.table h.keyed

    sent : Attempted item (table_after a.meanwhile d.table) tables.0 tables.1
    sent = send_one-Attempted a.sent_at item a.reply (table_after a.meanwhile d.table)

    after : Acted a.afterwards tables.0 (table_after a.afterwards tables.0)
    after = table_after-Acted a.afterwards tables.0 (sent.keyed before.keeps_keyed)

    more : length (d.log ++ s ∷ []) ≡ length d.log + 1
    more = length-append d.log (s ∷ [])

    now_cleared :
        (clears a.meanwhile ≡ true) ⊎ (clears a.afterwards ≡ true)
        → (was_delivered id (d.log ++ s ∷ []) ≡ true) ⊎ IsCleared env (d.log ++ s ∷ [])
    now_cleared c = inr (i, omega (arith, h.counted, more), c)

drain_loop-Accounted :
    (env : ℕ → Attempt) (i : ℕ) (items : List Item) (d : Drain) (id : String) (p : Text)
    → Kept env i id p d
    → Accounted env id p (drain_loop env i items d).table (drain_loop env i items d).log
unfolding drain_loop
drain_loop-Accounted env i [] d id p h = h.accounted
drain_loop-Accounted env i (item ∷ items) d id p h =
    let step = drain_step-Kept env i item d id p h in
    let rest = drain_loop-Accounted env (suc i) items (drain_step (env i) item d).0 id p step in
    if-elim Good (env i).stopped _ _ h.accounted
      (if-elim Good (drain_step (env i) item d).1 _ _ rest step.accounted)
  where
    Good : Drain → Type 0
    Good d = Accounted env id p d.table d.log

open_rows-Accounted :
    (enc : Option ConfigEncryptor) (now : ℕ) (rows table : List Item) (id : String) (p : Text)
    → Holds id p table
    → Holds id p (open_rows enc now rows table).1
unfolding open_rows
open_rows-Accounted enc now [] table id p h = h
open_rows-Accounted enc now (r ∷ rs) table id p h =
    opened (open_auth enc r.auth_value) refl (open_rows-Accounted enc now rs table id p h) (λ e.
      open_rows-Accounted enc now rs (mark_hold now r.id e table) id p
        (mark_hold-Holds now r.id e id p table h))
  where
    opened :
        (o : Result Text)
        → open_auth enc r.auth_value ≡ o
        → Holds id p (open_rows enc now rs table).1
        → ((e : Text) → Holds id p (open_rows enc now rs (mark_hold now r.id e table)).1)
        → Holds id p (open_rows enc now (r ∷ rs) table).1
    opened (ok plain) e good bad = rw (e, open_rows) good
    opened (err message) e good bad = rw (e, open_rows) (bad _)

open_rows-IsKeyed :
    (enc : Option ConfigEncryptor) (now : ℕ) (rows table : List Item)
    → IsKeyed table
    → IsKeyed (open_rows enc now rows table).1
unfolding open_rows
open_rows-IsKeyed enc now [] table k = k
open_rows-IsKeyed enc now (r ∷ rs) table k =
    opened (open_auth enc r.auth_value) refl (open_rows-IsKeyed enc now rs table k) (λ e.
      open_rows-IsKeyed enc now rs (mark_hold now r.id e table)
        (mark_hold-IsKeyed now r.id e table k))
  where
    opened :
        (o : Result Text)
        → open_auth enc r.auth_value ≡ o
        → IsKeyed (open_rows enc now rs table).1
        → ((e : Text) → IsKeyed (open_rows enc now rs (mark_hold now r.id e table)).1)
        → IsKeyed (open_rows enc now (r ∷ rs) table).1
    opened (ok plain) e good bad = rw (e, open_rows) good
    opened (err message) e good bad = rw (e, open_rows) (bad _)

-- After a run of the delivery loop on a table whose ids are not repeated, whatever the endpoint, the
-- clock and the administrators do, each item of the queue is still in the table with its payload, or
-- its row is gone and either the endpoint took it in this run or an administrator cleared the held
-- rows around one of the items that were sent.
pub drain_due-Accounted :
    (now : ℕ) (env : ℕ → Attempt) (disp : Dispatcher) (id : String) (p : Text)
    → IsKeyed disp.table
    → Holds id p disp.table
    → let (after, log) = drain_due now env disp in Accounted env id p after.table log
unfolding drain_due dequeue_due
drain_due-Accounted now env disp id p k h = elim (Bool-cases (check_breaker now disp.breaker).1) [
  | inl go ↦ rw go (
      drain_loop-Accounted env 0 _ _ id p (record {
        keyed = open_rows-IsKeyed disp.encryptor now _ disp.table k;
        counted = refl;
        accounted = inl (open_rows-Accounted disp.encryptor now _ disp.table id p h);
      }))
  | inr paused ↦ rw paused (inl h)
]
