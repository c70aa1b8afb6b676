-- ===== src/Archive/Dispatcher/Tests.antt =====
-- Runs of the delivery loop over three rows.
use arc_relay.Prelude.{
  ℕ, ◌≤◌, ◌≡◌, ◌≢◌, refl, String, [], ◌∷◌, map, false, none, arith, length, ◌==◌, if◌then◌else◌,
}
use arc_relay.Prelude.Text.{codes}
use arc_relay.Archive.Queue.Tests.{item, table}
use arc_relay.Archive.Queue.{
  pending, reschedule, open_auth, mark_delivered, update_where, open_rows, select_due, dequeue_due,
}
use arc_relay.Archive.Breaker.{
  closed, new_breaker, next_attempt_time, check_breaker, is_transient, after_send,
}
use arc_relay.Archive.Dispatcher.{
  Reply, network_error, http, Attempt, Dispatcher, drain_due, drain_step, drain_loop, send_one,
}
use arc_relay.Archive.Dispatcher.Delivery.{Accounted, drain_due-Accounted}
use arc_relay.Archive.Dispatcher.Limits.{drain_due-limit}

abbrev dispatcher : Dispatcher
dispatcher = record { encryptor = none; table = table; breaker = new_breaker }

abbrev attempt : Reply → Attempt
attempt reply = record {
  stopped = false;
  reply = reply;
  sent_at = 101;
  meanwhile = [];
  afterwards = [];
  judged_at = 102;
}

-- The first item is delivered, the others fail.
abbrev env : ℕ → Attempt
env i = if i == 0 then attempt (http 200) else attempt (http 503)

abbrev down : ℕ → Attempt
down i = attempt (network_error (codes "refused"))

remaining :
    map {B = String × ℕ} (λ r. (r.id, r.next_attempt_at)) (drain_due 100 env dispatcher).0.table
    ≡ ("a", 401) ∷ ("b", 10) ∷ []
unfolding drain_due check_breaker drain_loop dequeue_due open_rows select_due open_auth drain_step
    after_send send_one is_transient reschedule update_where mark_delivered next_attempt_time
remaining = refl

drain_due-Accounted_example :
    let (after, log) = drain_due 100 env dispatcher in
    Accounted env "c" (codes "{}") after.table log
drain_due-Accounted_example =
    drain_due-Accounted 100 env dispatcher "c" (codes "{}") (refl, (refl, (refl, tt)))
      (item "c" 3 pending 50, refl, refl)

drain_due-limit_example :
    let log = (drain_due 100 down dispatcher).1 in
    (length log ≤ 5) × (dispatcher.breaker.cb_state ≢ closed → length log ≤ 1)
drain_due-limit_example =
    drain_due-limit 100 down dispatcher
      (record { level = omega arith; few_fails = λ _. omega arith }) (λ i. refl)
      (λ i. (λ b. refl, λ b. refl))
