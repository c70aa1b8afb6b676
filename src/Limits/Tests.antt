-- ===== src/Limits/Tests.antt =====
-- Logins from one address, requests of a user, and a wait for a token.
use arc_relay.Prelude.{ℕ, ◌+◌, ◌*◌, ◌/◌, ◌≤◌, ◌≡◌, refl, List, [], ◌∷◌, true, false, some, arith}
use arc_relay.Prelude.Maps.{empty}
use arc_relay.Limits.{
  IpRateLimiter, Rate, TokenBucket, new_bucket, Round, cancelled, fired, wait_for_token,
  cleanup_users, begin_login, end_login, record_attempt, allow_user, cleanup, take_token, allow,
}
use arc_relay.Limits.Window.{
  arrived, answered, start, peak, failures, end_time, count, failures_limit, after, is_failure,
}
use arc_relay.Limits.Bucket.{requested, passed, elapsed, passed_limit, passes, served}
use arc_relay.Limits.Waiting.{wait_for_token-ends}

-- Two failures are allowed in 900 ticks. The third attempt arrives while the second is being checked.
abbrev login_limiter : IpRateLimiter
login_limiter = record { window = 900; max = 2 }

abbrev logins : List arc_relay.Limits.Window.Event
logins =
    arrived 1 "a"
    ∷ answered 1 "a" false
    ∷ arrived 1 "b"
    ∷ arrived 1 "a"
    ∷ arrived 1 "a"
    ∷ answered 1 "b" true
    ∷ answered 1 "a" false
    ∷ answered 1 "a" false
    ∷ arrived 1 "a"
    ∷ arc_relay.Limits.Window.swept 100
    ∷ arrived 900 "a"
    ∷ answered 1 "a" false
    ∷ []

checked_failures : failures login_limiter "a" 0 logins start ≡ 2 ∷ 7 ∷ 8 ∷ 1010 ∷ []
unfolding failures is_failure after begin_login end_login allow record_attempt cleanup
checked_failures = refl

at_once : peak login_limiter "a" 0 logins start ≡ 2
unfolding peak after begin_login end_login allow record_attempt cleanup
at_once = refl

failures_limit_example :
    count login_limiter
      (end_time login_limiter 0 logins)
      (failures login_limiter "a" 0 logins start)
    ≤ 3
failures_limit_example = failures_limit login_limiter 2 "a" 0 logins (omega (arith, at_once))

-- Two tokens at once, and one in ten ticks.
abbrev rate : Rate
rate = record { per_tick = 1; whole = 10; burst = 20 }

abbrev requests : List arc_relay.Limits.Bucket.Event
requests =
    requested 1 "u"
    ∷ requested 0 "u"
    ∷ requested 0 "u"
    ∷ requested 5 "v"
    ∷ requested 5 "u"
    ∷ arc_relay.Limits.Bucket.swept 25
    ∷ requested 0 "u"
    ∷ requested 0 "u"
    ∷ requested 0 "u"
    ∷ []

let_through : passed rate 20 "u" 0 requests empty ≡ 5
unfolding passed passes allow_user served cleanup_users
let_through = refl

passed_limit_example : passed rate 20 "u" 0 requests empty * 10 ≤ 20 + elapsed rate 20 requests * 1
passed_limit_example = passed_limit rate 20 (omega arith) "u" 0 requests

waited : wait_for_token rate (fired 1 ∷ []) 100 new_bucket ≡ some 111
unfolding wait_for_token take_token
waited = refl

wait_for_token-ends_example :
    (t : ℕ) × (wait_for_token rate (fired 1 ∷ []) 100 new_bucket ≡ some t) × (t ≤ 100 + 10 / 1 + 1)
wait_for_token-ends_example =
    wait_for_token-ends rate [] 100 1 new_bucket (omega arith) (omega arith) (omega arith)
