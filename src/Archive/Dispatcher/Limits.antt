-- ===== src/Archive/Dispatcher/Limits.antt =====
-- How much a run of the delivery loop sends.
use arc_relay.Prelude.{
  ℕ, suc, ◌+◌, ◌-◌, ◌≤◌, ◌<◌, ◌≡◌, refl, ◌≢◌, ◌⊎◌, inl, inr, List, [], ◌∷◌, Bool, true, false,
  arith, length, length-append, ltb, Bool-cases, ap, ◌∙◌,
}
use arc_relay.Archive.Queue.{Item, dequeue_due}
use arc_relay.Archive.Breaker.{
  Breaker, closed, open_, half_open, check_breaker, after_send, drain_batch_size,
}
use arc_relay.Archive.Breaker.Laws.{Inv}
use arc_relay.Archive.Dispatcher.{
  Reply, invalid_request, network_error, http, Action, table_after, breaker_after, Attempt,
  Dispatcher, Drain, send_one, drain_step, drain_loop, drain_due,
}

abbrev pub is_taken : Reply → Bool
is_taken (invalid_request e) = false
is_taken (network_error e) = false
is_taken (http code) = ltb code 300

send_one-fails :
    (now : ℕ) (item : Item) (reply : Reply) (table : List Item)
    → (send_one now item reply table).1 ≡ is_taken reply
unfolding send_one
send_one-fails now item (invalid_request e) table = refl
send_one-fails now item (network_error e) table = refl
send_one-fails now item (http code) table = ground arith

-- How many more sends a breaker lets fail.
abbrev pub allowance : Breaker → ℕ
allowance b = elim b.cb_state [ closed ↦ 5 - b.consecutive_fails | open_ ↦ 0 | half_open ↦ 1 ]

-- Nothing is done to the breaker around an item.
abbrev pub LeavesCircuit : List Action → Type 0
LeavesCircuit actions = (b : Breaker) → breaker_after actions b ≡ b

abbrev pub IsCalm : Attempt → Type 0
IsCalm a = LeavesCircuit a.meanwhile × LeavesCircuit a.afterwards

record Failing (env : ℕ → Attempt) : Type 0 where
  refused : (i : ℕ) → is_taken (env i).reply ≡ false
  calm : (i : ℕ) → IsCalm (env i)

-- The state in which the loop sends.
abbrev IsSending : Breaker → Type 0
IsSending b = ((b.cb_state ≡ closed) × (b.consecutive_fails < 5)) ⊎ (b.cb_state ≡ half_open)

failed_step :
    (a : Attempt) (item : Item) (d : Drain)
    → is_taken a.reply ≡ false
    → IsCalm a
    → IsSending d.breaker
    → let (t, more) = drain_step a item d in
      (length t.log ≡ length d.log + 1)
      × (1 ≤ allowance d.breaker)
      × (more ≡ true → IsSending t.breaker × (allowance t.breaker + 1 ≡ allowance d.breaker))
unfolding drain_step after_send
failed_step a item d refused calm sending =
    let same : breaker_after a.afterwards (breaker_after a.meanwhile d.breaker) ≡ d.breaker =
      ap (breaker_after a.afterwards) (calm.0 d.breaker) ∙ calm.1 d.breaker in
    rw same (
      ground (
        arith,
        send_one-fails a.sent_at item a.reply (table_after a.meanwhile d.table),
        length-append d.log (
            record {
              id = item.id;
              delivered = (send_one a.sent_at item a.reply (table_after a.meanwhile d.table)).1;
            }
            ∷ []),
      ))

drain_loop-limit :
    (env : ℕ → Attempt) (i : ℕ) (items : List Item) (d : Drain)
    → Failing env
    → IsSending d.breaker
    → length (drain_loop env i items d).log ≤ length d.log + allowance d.breaker
unfolding drain_loop
drain_loop-limit env i [] d f s = omega arith
drain_loop-limit env i (item ∷ items) d f s =
    let step = failed_step (env i) item d (f.refused i) (f.calm i) s in
    ground (
      arith,
      step,
      λ (go : (drain_step (env i) item d).1 ≡ true).
          drain_loop-limit env (suc i) items (drain_step (env i) item d).0 f (step.2 go).0,
    )

checked :
    (now : ℕ) (b : Breaker)
    → Inv b
    → (check_breaker now b).1 ≡ true
    → IsSending (check_breaker now b).0
      × (allowance (check_breaker now b).0 ≤ 5)
      × (b.cb_state ≢ closed → allowance (check_breaker now b).0 ≡ 1)
unfolding check_breaker
checked now b v go = ground arith

-- While the endpoint takes nothing and no administrator resets the circuit or tests it, a run of the delivery
-- loop makes at most five attempts, and a single one if the breaker was not closed when it began,
-- however many items are due.
pub drain_due-limit :
    (now : ℕ) (env : ℕ → Attempt) (disp : Dispatcher)
    → Inv disp.breaker
    → ((i : ℕ) → is_taken (env i).reply ≡ false)
    → ((i : ℕ) → IsCalm (env i))
    → let log = (drain_due now env disp).1 in
      (length log ≤ 5) × (disp.breaker.cb_state ≢ closed → length log ≤ 1)
unfolding drain_due
drain_due-limit now env disp v refused calm = elim (Bool-cases (check_breaker now disp.breaker).1) [
  | inl go ↦
      let c = checked now disp.breaker v go in
      let most =
        drain_loop-limit env 0 (dequeue_due disp.encryptor now drain_batch_size disp.table).0
          (record {
            table = (dequeue_due disp.encryptor now drain_batch_size disp.table).1;
            breaker = (check_breaker now disp.breaker).0;
            log = [];
          })
          (record { refused = refused; calm = calm }) c.0 in
      rw go (omega (arith, c.1), λ shut. omega (arith, c.2 shut))
  | inr paused ↦ rw paused (omega arith, λ shut. omega arith)
]
