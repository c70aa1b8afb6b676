-- ===== src/Archive/Breaker/Laws.antt =====
-- The breaker's states and the bounds of the schedule.
use arc_relay.Prelude.{
  ℕ, zero, suc, ◌+◌, ◌-◌, ◌≤◌, ◌<◌, ◌≡◌, refl, List, [], ◌∷◌, Bool, true, false, arith, ltb,
  if◌then◌else◌,
}
use native.Mathlib.Decide.{dec_le}
use arc_relay.Archive.Breaker.{
  Breaker, closed, open_, half_open, pause, check_breaker, after_send, reset_circuit, send_test_ok,
  next_attempt_time, cb_pause_durations, new_breaker, at_index, capped, backoff_schedule,
}

pub record Inv (b : Breaker) : Type 0 where
  pub level : b.cb_pause_level ≤ 2
  pub few_fails : b.cb_state ≡ closed → b.consecutive_fails < 5

-- What happens to the breaker, by the delivery loop or by an administrator.
pub data Event : Type 0 where
  checked : ℕ → Event
  sent : Bool → ℕ → Event
  reset tested : Event

unfoldable pub breaker_step : Breaker → Event → Breaker
breaker_step b (checked now) = (check_breaker now b).0
breaker_step b (sent ok now) = (after_send ok now b).0
breaker_step b reset = reset_circuit b
breaker_step b tested = send_test_ok b

unfoldable pub breaker_run : Breaker → List Event → Breaker
breaker_run b [] = b
breaker_run b (e ∷ es) = breaker_run (breaker_step b e) es

new_breaker-Inv : Inv new_breaker
new_breaker-Inv = record { level = omega arith; few_fails = λ _. omega arith }

pub step-Inv : (b : Breaker) (e : Event) → Inv b → Inv (breaker_step b e)
unfolding breaker_step check_breaker after_send reset_circuit send_test_ok
step-Inv b (checked now) v = ground arith
step-Inv b (sent true now) v = ground arith
step-Inv b (sent false now) v = ground arith
step-Inv b reset v = ground arith
step-Inv b tested v = ground arith

run-Inv : (b : Breaker) (es : List Event) → Inv b → Inv (breaker_run b es)
unfolding breaker_run
run-Inv b [] v = v
run-Inv b (e ∷ es) v = run-Inv (breaker_step b e) es (step-Inv b e v)

-- After any sequence of checks, sends, resets and tests, the pause level is an index of the pause
-- durations, and a closed breaker has seen fewer than five failures in a row.
pub breaker_run-bounds :
    (es : List Event)
    → let b = breaker_run new_breaker es in
      (b.cb_pause_level ≤ 2) × (b.cb_state ≡ closed → b.consecutive_fails < 5)
breaker_run-bounds es = let v = run-Inv new_breaker es new_breaker-Inv in (v.level, v.few_fails)

pause-pos : (b : Breaker) → 1 ≤ pause b
pause-pos b = go b.cb_pause_level
  where
    go : (level : ℕ) → 1 ≤ at_index cb_pause_durations (capped cb_pause_durations level)
    go zero = omega arith
    go (suc zero) = omega arith
    go (suc (suc zero)) = omega arith
    go (suc (suc (suc n))) = ground arith

check_late :
    (b : Breaker) (now : ℕ)
    → b.cb_state ≡ open_
    → b.cb_opened_at + pause b ≤ now
    → check_breaker now b ≡ (record b { cb_state = half_open }, true)
unfolding check_breaker
check_late b now h late = late_at (pause b) refl (omega arith)
  where
    late_at :
        (p : ℕ)
        → pause b ≡ p
        → p ≤ now - b.cb_opened_at
        → check_breaker now b ≡ (record b { cb_state = half_open }, true)
    late_at p e l = ground (arith, e)

check_early :
    (b : Breaker) (now : ℕ)
    → b.cb_state ≡ open_
    → now < b.cb_opened_at + pause b
    → check_breaker now b ≡ (b, false)
unfolding check_breaker
check_early b now h early = early_at (pause b) refl (omega (arith, pause-pos b))
  where
    early_at : (p : ℕ) → pause b ≡ p → now - b.cb_opened_at < p → check_breaker now b ≡ (b, false)
    early_at p e l = ground (arith, e)

-- An open breaker that is checked before its pause is over stays as it is and lets nothing through;
-- checked later it becomes half open and lets a probe through; if the probe then fails, it is open
-- again from that time, at the next pause level up to the last; if it succeeds, it is closed, at
-- the first level and with no failures counted.
pub open_breaker :
    (b : Breaker) (now later : ℕ)
    → b.cb_state ≡ open_
    → (now < b.cb_opened_at + pause b → check_breaker now b ≡ (b, false))
      × (b.cb_opened_at + pause b ≤ now
          → let (probing, go) = check_breaker now b in
            let (failed, more) = after_send false later probing in
            let (healed, more') = after_send true later probing in
            (go ≡ true)
            × (probing.cb_state ≡ half_open)
            × (failed.cb_state ≡ open_)
            × (failed.cb_opened_at ≡ later)
            × (more ≡ false)
            × (failed.cb_pause_level
                ≡ (if ltb b.cb_pause_level 2 then b.cb_pause_level + 1 else b.cb_pause_level))
            × (healed.cb_state ≡ closed)
            × (healed.cb_pause_level ≡ 0)
            × (healed.consecutive_fails ≡ 0))
unfolding check_breaker after_send
open_breaker b now later h =
    (check_early b now h, λ late. rw (check_late b now h late) (ground arith))

abbrev delay : ℕ → ℕ
delay a = at_index backoff_schedule (capped backoff_schedule (a + 1))

delay_cap : (a : ℕ) → 5 ≤ a → delay a ≡ 21_600
delay_cap a h = ground arith

delay_step : (a : ℕ) → (15 ≤ delay a) × (delay a ≤ delay (suc a)) × (delay a ≤ 21_600)
delay_step zero = omega arith
delay_step (suc zero) = omega arith
delay_step (suc (suc zero)) = omega arith
delay_step (suc (suc (suc zero))) = omega arith
delay_step (suc (suc (suc (suc zero)))) = omega arith
delay_step (suc (suc (suc (suc (suc a))))) =
    rw (delay_cap (suc (suc (suc (suc (suc a))))) (omega arith))
      (rw (delay_cap (suc (suc (suc (suc (suc (suc a)))))) (omega arith)) (omega arith))

delay_mono : (a b : ℕ) → a ≤ b → delay a ≤ delay b
delay_mono zero zero h = omega arith
delay_mono (suc a) zero h = absurd (omega arith)
delay_mono a (suc b) h = elim (dec_le a b) [
  | yes p ↦ omega (arith, delay_mono a b p, delay_step b)
  | no p ↦ let e : a ≡ suc b = omega arith in rw e (omega arith)
]

-- A retry is scheduled at least 15 seconds and at most six hours ahead, and never sooner after more
-- attempts.
pub next_attempt_time-bounds :
    (now a b : ℕ)
    → a ≤ b
    → (now + 15 ≤ next_attempt_time now a)
      × (next_attempt_time now a ≤ next_attempt_time now b)
      × (next_attempt_time now b ≤ now + 21_600)
unfolding next_attempt_time
next_attempt_time-bounds now a b h = omega (arith, delay_step a, delay_mono a b h, delay_step b)
