-- ===== src/Limits/Waiting.antt =====
-- Waiting for a token.
use native.Mathlib.Nat.{div-lt_iff_lt-mul, le-div_iff_mul-le, mul-le-mul_right, le_refl}
use arc_relay.Prelude.{
  ℕ, ◌+◌, ◌-◌, ◌*◌, ◌/◌, ◌≤◌, ◌<◌, ◌≡◌, refl, ap, ◌∙◌, inl, inr, List, [], ◌∷◌, true, false, Option,
  none, some, leb, arith, Bool-cases,
}
use arc_relay.Limits.{
  Rate, TokenBucket, at_most, accrued, refill, take_token, Round, fired, go_on, wait_for_token,
}

over_quotient : (x p : ℕ) → 1 ≤ p → x < (x / p + 1) * p
over_quotient x p h = (div-lt_iff_lt-mul {k = p} {x = x} {y = x / p + 1} h).0 (omega arith)

le-at_most : (limit n m : ℕ) → m ≤ limit → m ≤ n → m ≤ at_most limit n
le-at_most limit n m h k = ground arith

-- Enough accrues while the wait that `take_token` asks for passes, and one tick more.
enough :
    (r : Rate) (tokens now d : ℕ)
    → 1 ≤ r.per_tick
    → r.whole ≤ r.burst
    → 1 ≤ d
    → r.whole ≤ accrued r tokens (now + (r.whole - tokens) / r.per_tick + d) (some now)
enough r tokens now d p b h =
    let q = (r.whole - tokens) / r.per_tick in
    let elapsed : now + q + d - now ≡ q + d = omega arith in
    let more : (q + 1) * r.per_tick ≤ (q + d) * r.per_tick =
      mul-le-mul_right r.per_tick (omega arith) in
    let short : r.whole - tokens < (q + 1) * r.per_tick =
      over_quotient (r.whole - tokens) r.per_tick p in
    rw elapsed
      (le-at_most r.burst (tokens + (q + d) * r.per_tick) r.whole b (omega (arith, more, short)))

take-now :
    (r : Rate) (now : ℕ) (b : TokenBucket)
    → r.whole ≤ (refill r now b).tokens
    → (take_token r now b).1 ≡ none
unfolding take_token
take-now r now b h = let e : leb r.whole (refill r now b).tokens ≡ true = ground arith in rw e refl

abbrev due : Rate → ℕ → ℕ
due r tokens = (r.whole - tokens) / r.per_tick

take-later :
    (r : Rate) (now : ℕ) (b : TokenBucket)
    → leb r.whole (refill r now b).tokens ≡ false
    → take_token r now b ≡ (refill r now b, some (due r (refill r now b).tokens))
unfolding take_token
take-later r now b e = rw e refl

taken :
    (r : Rate) (rounds : List Round) (now : ℕ) (b : TokenBucket)
    → r.whole ≤ (refill r now b).tokens
    → wait_for_token r rounds now b ≡ some now
unfolding wait_for_token
taken r [] now b h = ap (λ w. go_on w now [] (λ later. none)) (take-now r now b h)
taken r (x ∷ rounds) now b h =
    ap
      (λ w.
        go_on w now (x ∷ rounds) (λ later. wait_for_token r rounds later (take_token r now b).0))
      (take-now r now b h)

-- No wait is longer than that for a whole token.
due-le : (r : Rate) (tokens : ℕ) → 1 ≤ r.per_tick → due r tokens ≤ r.whole / r.per_tick
due-le r tokens p =
    let fits : due r tokens * r.per_tick ≤ r.whole - tokens =
      (le-div_iff_mul-le {k = r.per_tick} {x = due r tokens} {y = r.whole - tokens} p).0
        (le_refl _) in
    (le-div_iff_mul-le {k = r.per_tick} {x = due r tokens} {y = r.whole} p).1 (omega (arith, fits))

-- Waiting ends: if the rate is not zero and the bucket holds a whole token, a caller whom nobody else
-- overtakes has a token after one timer at most, provided that the timer fires a tick or more after it is
-- due; the timer fires at the time given.
pub wait_for_token-ends :
    (r : Rate) (rounds : List Round) (now d : ℕ) (b : TokenBucket)
    → 1 ≤ r.per_tick
    → r.whole ≤ r.burst
    → 1 ≤ d
    → (t : ℕ) × (wait_for_token r (fired d ∷ rounds) now b ≡ some t)
      × (t ≤ now + r.whole / r.per_tick + d)
unfolding wait_for_token
wait_for_token-ends r rounds now d b p h k =
    elim (Bool-cases (leb r.whole (refill r now b).tokens)) [
      | inl e ↦ (now, taken r (fired d ∷ rounds) now b (ground (arith, e)), omega arith)
      | inr e ↦
          let tokens = (refill r now b).tokens in
          let later = now + due r tokens + d in
          (
            later,
            ap
                  (λ (x : TokenBucket × Option ℕ).
                    go_on x.1 now (fired d ∷ rounds) (λ t. wait_for_token r rounds t x.0))
                  (take-later r now b e)
                ∙ taken r rounds later (refill r now b) (enough r tokens now d p h k),
            omega (arith, due-le r tokens p),
          )
    ]
