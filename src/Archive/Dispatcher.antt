-- ===== src/Archive/Dispatcher.antt =====
-- internal/middleware/archive_dispatcher.go: the delivery loop over the queue table and the breaker.
-- What the endpoint answers, the clock, the stop signal and what administrators do meanwhile are an
-- argument with one entry for each item of a batch; the headers of a request and the items that are
-- enqueued meanwhile are left out.
pub mod Rows
pub mod Admin
pub mod Delivery
pub mod Limits
mod Tests
use arc_relay.Prelude.{
  ℕ, suc, ◌+◌, String, List, [], ◌∷◌, ◌++◌, Bool, true, false, Option, none, some, ltb,
  if◌then◌else◌,
}
use arc_relay.Prelude.Text.{Text, codes, decimal}
use arc_relay.Archive.Crypto.{ConfigEncryptor}
use arc_relay.Archive.Queue.{
  Item, mark_delivered, reschedule, mark_hold, dequeue_due, retry_held, clear_held, rewrite_rows,
}
use arc_relay.Archive.Breaker.{
  Breaker, drain_batch_size, next_attempt_time, is_transient, check_breaker, after_send,
  reset_circuit, send_test_ok,
}

-- The request cannot be built, the exchange fails, or the endpoint answers with a status.
pub data Reply : Type 0 where
  invalid_request : Text → Reply
  network_error : Text → Reply
  http : ℕ → Reply

-- What administrators do to the queue and the breaker. RetryHeld is `held_retried` and then
-- `circuit_reset`; `rewritten` has the credentials as they are stored.
pub data Action : Type 0 where
  circuit_reset test_passed held_cleared : Action
  held_retried : ℕ → Action
  rewritten : ℕ → String → String → Text → String → Action

-- What happens around one item: `meanwhile` up to the write of its outcome, and `afterwards` between
-- that and the verdict of the breaker.
pub record Attempt : Type 0 where
  pub stopped : Bool
  pub reply : Reply
  pub sent_at : ℕ
  pub meanwhile : List Action
  pub afterwards : List Action
  pub judged_at : ℕ

pub record Dispatcher : Type 0 where
  pub encryptor : Option ConfigEncryptor
  pub table : List Item
  pub breaker : Breaker

-- An item that was sent, and whether it was delivered.
pub record Sent : Type 0 where
  pub id : String
  pub delivered : Bool

abbrev pub settle_http : ℕ → Item → ℕ → List Item → List Item × Bool
settle_http now item code table =
    if ltb code 300
    then (mark_delivered item.id table, true)
    else if is_transient code
    then (
      reschedule now item.id (next_attempt_time now item.attempts) (codes "HTTP " ++ decimal code)
          table,
      false,
    )
    else (mark_hold now item.id (codes "HTTP " ++ decimal code) table, false)

-- sendOne: the table after it, and whether the item was delivered.
unfoldable pub send_one : ℕ → Item → Reply → List Item → List Item × Bool
send_one now item (invalid_request e) table =
    (mark_hold now item.id (codes "invalid request: " ++ e) table, false)
send_one now item (network_error e) table = (
  reschedule now item.id (next_attempt_time now item.attempts) (codes "network error: " ++ e) table,
  false,
)
send_one now item (http code) table = settle_http now item code table

abbrev pub act_on_table : Action → List Item → List Item
act_on_table circuit_reset table = table
act_on_table test_passed table = table
act_on_table held_cleared table = clear_held table
act_on_table (held_retried now) table = retry_held now table
act_on_table (rewritten now url auth_type stored header) table =
    rewrite_rows now url auth_type stored header table

abbrev pub interfere : Action → Breaker → Breaker
interfere circuit_reset b = reset_circuit b
interfere test_passed b = send_test_ok b
interfere held_cleared b = b
interfere (held_retried now) b = b
interfere (rewritten now url auth_type stored header) b = b

abbrev pub table_after : List Action → List Item → List Item
table_after [] table = table
table_after (a ∷ actions) table = table_after actions (act_on_table a table)

abbrev pub breaker_after : List Action → Breaker → Breaker
breaker_after [] b = b
breaker_after (a ∷ actions) b = breaker_after actions (interfere a b)

-- The loop of drainDue over the items of a batch, with the items sent so far.
pub record Drain : Type 0 where
  pub table : List Item
  pub breaker : Breaker
  pub log : List Sent

-- One round: the drain after it, and whether the loop goes on.
unfoldable pub drain_step : Attempt → Item → Drain → Drain × Bool
drain_step a item d =
    let (table, ok) = send_one a.sent_at item a.reply (table_after a.meanwhile d.table) in
    let (breaker, more) =
      after_send ok a.judged_at
        (breaker_after a.afterwards (breaker_after a.meanwhile d.breaker)) in
    (
      record {
        table = table_after a.afterwards table;
        breaker = breaker;
        log = d.log ++ record { id = item.id; delivered = ok } ∷ [];
      },
      more,
    )

unfoldable pub drain_loop : (ℕ → Attempt) → ℕ → List Item → Drain → Drain
drain_loop env i [] d = d
drain_loop env i (item ∷ items) d =
    let (d', more) = drain_step (env i) item d in
    let rest = drain_loop env (suc i) items d' in
    if (env i).stopped then d else if more then rest else d'

abbrev pub drain_batch : Option ConfigEncryptor → ℕ → (ℕ → Attempt) → List Item → Breaker → Drain
drain_batch enc now env table breaker =
    let (items, table') = dequeue_due enc now drain_batch_size table in
    drain_loop env 0 items (record { table = table'; breaker = breaker; log = [] })

-- drainDue, at the time `now`.
unfoldable pub drain_due : ℕ → (ℕ → Attempt) → Dispatcher → Dispatcher × List Sent
drain_due now env disp =
    let (breaker, go) = check_breaker now disp.breaker in
    let d = drain_batch disp.encryptor now env disp.table breaker in
    if go
    then (record disp { table = d.table; breaker = d.breaker }, d.log)
    else (record disp { breaker = breaker }, [])

-- RetryHeld, which also resets the circuit.
unfoldable pub retry_all_held : ℕ → Dispatcher → Dispatcher
retry_all_held now disp = record disp {
  table = retry_held now disp.table;
  breaker = reset_circuit disp.breaker;
}
