-- ===== src/Limits.antt =====
-- The rate limiters: ipRateLimiter of internal/web/handlers.go with the login handler over it, the
-- per-user buckets of internal/server/ratelimit.go, and the bucket over paid calls of
-- internal/memory/extractor/ratelimit.go. Times are ticks of a clock; tokens are counted in a part of
-- a token of which `whole` make one, so that a tick adds a whole number of them. The rounding of
-- floating point numbers is not modelled.
pub mod Window
pub mod Bucket
pub mod Waiting
mod Tests
use arc_relay.Prelude.{
  ℕ, zero, suc, ◌+◌, ◌-◌, ◌*◌, ◌/◌, String, List, [], ◌∷◌, ◌++◌, Bool, true, false, Option, none,
  some, not, ltb, leb, if◌then◌else◌, keep, length, str_eq,
}
use arc_relay.Prelude.Maps.{StrMap, update, delete}

-- ipRateLimiter: the attempts of an address within a sliding window.
pub record IpRateLimiter : Type 0 where
  pub window : ℕ
  pub max : ℕ

-- `t` is after the cutoff `now - window`.
abbrev pub is_recent : ℕ → ℕ → ℕ → Bool
is_recent window now t = ltb now (t + window)

abbrev pub or_none : Option (List ℕ) → List ℕ
or_none none = []
or_none (some ts) = ts

abbrev pub recent_of : IpRateLimiter → ℕ → StrMap (List ℕ) → String → List ℕ
recent_of rl now m ip = keep (is_recent rl.window now) (or_none (m ip))

-- allow and record.
unfoldable pub allow : IpRateLimiter → ℕ → String → StrMap (List ℕ) → StrMap (List ℕ) × Bool
allow rl now ip m =
    (update m ip (recent_of rl now m ip), ltb (length (recent_of rl now m ip)) rl.max)

unfoldable pub record_attempt : ℕ → String → StrMap (List ℕ) → StrMap (List ℕ)
record_attempt now ip m = update m ip (or_none (m ip) ++ now ∷ [])

-- One round of cleanup: an address without recent attempts is deleted.
abbrev pub some_unless_empty : List ℕ → Option (List ℕ)
some_unless_empty [] = none
some_unless_empty (t ∷ ts) = some (t ∷ ts)

abbrev pub trimmed : IpRateLimiter → ℕ → Option (List ℕ) → Option (List ℕ)
trimmed rl now none = none
trimmed rl now (some ts) = some_unless_empty (keep (is_recent rl.window now) ts)

unfoldable pub cleanup : IpRateLimiter → ℕ → StrMap (List ℕ) → StrMap (List ℕ)
cleanup rl now m ip = trimmed rl now (m ip)

-- handleLogin: an attempt that is allowed has its password checked, between which and the allowing
-- others get their turn, and is recorded if it fails. `checking` counts the attempts of an address
-- whose passwords are being checked.
pub record Logins : Type 0 where
  pub attempts : StrMap (List ℕ)
  pub checking : String → ℕ

abbrev pub set_count : (String → ℕ) → String → ℕ → String → ℕ
set_count f ip n j = if str_eq ip j then n else f j

unfoldable pub begin_login : IpRateLimiter → ℕ → String → Logins → Logins × Bool
begin_login rl now ip s =
    let (after, allowed) = allow rl now ip s.attempts in
    (
      record {
        attempts = after;
        checking = set_count s.checking ip (if allowed then suc (s.checking ip) else s.checking ip);
      },
      allowed,
    )

abbrev pub recorded : ℕ → String → Bool → StrMap (List ℕ) → StrMap (List ℕ)
recorded now ip false m = record_attempt now ip m
recorded now ip true m = m

abbrev pub finished : ℕ → ℕ → String → Bool → Logins → Logins
finished zero now ip valid s = s
finished (suc n) now ip valid s = record {
  attempts = recorded now ip valid s.attempts;
  checking = set_count s.checking ip n;
}

unfoldable pub end_login : ℕ → String → Bool → Logins → Logins
end_login now ip valid s = finished (s.checking ip) now ip valid s

-- A token bucket; `per_tick` is the rate and `burst` the size in parts of a token.
pub record Rate : Type 0 where
  pub per_tick : ℕ
  pub whole : ℕ
  pub burst : ℕ

pub record TokenBucket : Type 0 where
  pub tokens : ℕ
  pub last : Option ℕ

abbrev pub at_most : ℕ → ℕ → ℕ
at_most limit n = if ltb limit n then limit else n

-- refill: before the first call there is no last time and nothing accrues.
abbrev pub accrued : Rate → ℕ → ℕ → Option ℕ → ℕ
accrued r tokens now none = tokens
accrued r tokens now (some last) = at_most r.burst (tokens + (now - last) * r.per_tick)

abbrev pub refill : Rate → ℕ → TokenBucket → TokenBucket
refill r now b = record { tokens = accrued r b.tokens now b.last; last = some now }

-- take of the extractor: with a token, or with the time until the next one.
unfoldable pub take_token : Rate → ℕ → TokenBucket → TokenBucket × Option ℕ
take_token r now b =
    if leb r.whole (refill r now b).tokens
    then (record (refill r now b) { tokens = (refill r now b).tokens - r.whole }, none)
    else (refill r now b, some ((r.whole - (refill r now b).tokens) / r.per_tick))

-- The bucket of NewRateLimiter starts empty.
abbrev pub new_bucket : TokenBucket
new_bucket = record { tokens = 0; last = none }

-- What ends one round of waiting: the context, or the timer, so many ticks after it is due.
pub data Round : Type 0 where
  cancelled : Round
  fired : ℕ → Round

-- Wait. The answer is the time at which a token is taken, `none` if the context ends first or the
-- rounds are used up.
abbrev pub go_on : Option ℕ → ℕ → List Round → (ℕ → Option ℕ) → Option ℕ
go_on none now rounds next = some now
go_on (some wait) now [] next = none
go_on (some wait) now (cancelled ∷ rounds) next = none
go_on (some wait) now (fired delay ∷ rounds) next = next (now + wait + delay)

unfoldable pub wait_for_token : Rate → List Round → ℕ → TokenBucket → Option ℕ
wait_for_token r [] now b = go_on (take_token r now b).1 now [] (λ later. none)
wait_for_token r (round ∷ rounds) now b =
    let (after, wait) = take_token r now b in
    go_on wait now (round ∷ rounds) (λ later. wait_for_token r rounds later after)

-- The limiter of the server: a bucket for each user, full at first.
abbrev pub bucket_of : Rate → ℕ → Option TokenBucket → TokenBucket
bucket_of r now none = record { tokens = r.burst; last = some now }
bucket_of r now (some b) = b

abbrev pub spend : Rate → TokenBucket → TokenBucket × Bool
spend r b =
    if ltb b.tokens r.whole then (b, false) else (record b { tokens = b.tokens - r.whole }, true)

unfoldable pub allow_user : Rate → ℕ → String → StrMap TokenBucket → StrMap TokenBucket × Bool
allow_user r now user m =
    let (b, allowed) = spend r (refill r now (bucket_of r now (m user))) in
    (update m user b, allowed)

-- One round of cleanup: a bucket that was not used for `idle` ticks is deleted.
abbrev pub is_idle : ℕ → ℕ → Option ℕ → Bool
is_idle idle now none = true
is_idle idle now (some last) = ltb (last + idle) now

abbrev pub if_used : ℕ → ℕ → Option TokenBucket → Option TokenBucket
if_used idle now none = none
if_used idle now (some b) = if is_idle idle now b.last then none else some b

unfoldable pub cleanup_users : ℕ → ℕ → StrMap TokenBucket → StrMap TokenBucket
cleanup_users idle now m user = if_used idle now (m user)
