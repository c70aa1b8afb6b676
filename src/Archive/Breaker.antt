-- ===== src/Archive/Breaker.antt =====
-- The circuit breaker and the retry schedule of internal/middleware/archive_dispatcher.go. Times and
-- durations are seconds.
pub mod Laws
mod Tests
use arc_relay.Prelude.{
  ℕ, zero, suc, ◌+◌, ◌-◌, List, [], ◌∷◌, Bool, true, false, ◌||◌, Option, leb, ltb, ◌==◌,
  if◌then◌else◌, length,
}

abbrev pub backoff_schedule : List ℕ
backoff_schedule = 0 ∷ 15 ∷ 60 ∷ 300 ∷ 900 ∷ 3600 ∷ 21_600 ∷ []

abbrev pub cb_pause_durations : List ℕ
cb_pause_durations = 60 ∷ 300 ∷ 900 ∷ []

abbrev pub cb_fail_threshold : ℕ
cb_fail_threshold = 5

abbrev pub drain_batch_size : ℕ
drain_batch_size = 50

pub data CbState : Type 0 where
  closed open_ half_open : CbState

pub record Breaker : Type 0 where
  pub consecutive_fails : ℕ
  pub cb_state : CbState
  pub cb_opened_at : ℕ
  pub cb_pause_level : ℕ

-- A slice at an index that the code has brought into range.
abbrev pub at_index : List ℕ → ℕ → ℕ
at_index [] i = 0
at_index (x ∷ xs) zero = x
at_index (x ∷ xs) (suc i) = at_index xs i

abbrev pub capped : List ℕ → ℕ → ℕ
capped xs i = if leb (length xs) i then length xs - 1 else i

-- nextAttemptTime
unfoldable pub next_attempt_time : ℕ → ℕ → ℕ
next_attempt_time now current_attempts =
    now + at_index backoff_schedule (capped backoff_schedule (current_attempts + 1))

-- isTransient
unfoldable pub is_transient : ℕ → Bool
is_transient code = leb 500 code || code == 408 || code == 429

abbrev pub pause : Breaker → ℕ
pause b = at_index cb_pause_durations (capped cb_pause_durations b.cb_pause_level)

-- The start of drainDue: an open breaker whose pause is over is half open. The second part says
-- whether to go on. The clock is read when it is open only; elapsed time is not negative.
check_open : CbState → ℕ → Breaker → Breaker × Bool
check_open closed now b = (b, true)
check_open half_open now b = (b, true)
check_open open_ now b =
    if leb (pause b) (now - b.cb_opened_at)
    then (record b { cb_state = half_open }, true)
    else (b, false)

unfoldable pub check_breaker : ℕ → Breaker → Breaker × Bool
unfolding check_open
check_breaker now b = check_open b.cb_state now b

-- The part of the loop after sendOne, under the mutex. The second part says whether to go on.
after_success : CbState → Breaker → Breaker × Bool
after_success half_open b =
    (record b { consecutive_fails = 0; cb_state = closed; cb_pause_level = 0 }, true)
after_success _ b = (record b { consecutive_fails = 0 }, true)

after_failure : CbState → ℕ → Breaker → Breaker × Bool
after_failure half_open now b = (
  record b {
    consecutive_fails = b.consecutive_fails + 1;
    cb_state = open_;
    cb_opened_at = now;
    cb_pause_level =
        if ltb b.cb_pause_level (length cb_pause_durations - 1)
        then b.cb_pause_level + 1
        else b.cb_pause_level;
  },
  false,
)
after_failure _ now b =
    if leb cb_fail_threshold (b.consecutive_fails + 1)
    then (
      record b {
        consecutive_fails = b.consecutive_fails + 1;
        cb_state = open_;
        cb_opened_at = now;
      },
      false,
    )
    else (record b { consecutive_fails = b.consecutive_fails + 1 }, true)

unfoldable pub after_send : Bool → ℕ → Breaker → Breaker × Bool
unfolding after_success after_failure
after_send true now b = after_success b.cb_state b
after_send false now b = after_failure b.cb_state now b

-- ResetCircuit
unfoldable pub reset_circuit : Breaker → Breaker
reset_circuit b = record b { cb_state = closed; cb_pause_level = 0; consecutive_fails = 0 }

-- The end of SendTest after an answer below 300.
after_test : CbState → Breaker → Breaker
after_test closed b = b
after_test _ b = record b { cb_state = closed; cb_pause_level = 0; consecutive_fails = 0 }

unfoldable pub send_test_ok : Breaker → Breaker
unfolding after_test
send_test_ok b = after_test b.cb_state b

-- NewArchiveDispatcher
abbrev pub new_breaker : Breaker
new_breaker = record {
  consecutive_fails = 0;
  cb_state = closed;
  cb_opened_at = 0;
  cb_pause_level = 0;
}
