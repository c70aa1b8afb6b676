-- ===== src/Limits/Bucket.antt =====
-- How many requests of a user the server lets through.
use native.Mathlib.Nat.{mul-le-mul_right, add-mul}
use arc_relay.Prelude.{
  ℕ, ◌+◌, ◌-◌, ◌*◌, ◌≤◌, ◌≡◌, refl, sym, ap, subst, inl, inr, String, List, [], ◌∷◌, Bool, false,
  ◌&&◌, Option, none, some, ltb, if◌then◌else◌, if-elim, str_eq, str_eq_self, eq_iff, arith,
  Bool-cases,
}
use arc_relay.Prelude.Maps.{StrMap, empty, update_self}
use arc_relay.Limits.{
  Rate, TokenBucket, accrued, refill, bucket_of, spend, allow_user, if_used, cleanup_users,
}

-- A request of a user, or a round of cleanup, so many ticks after what came before.
pub data Event : Type 0 where
  requested : ℕ → String → Event
  swept : ℕ → Event

abbrev pub gap : Event → ℕ
gap (requested d user) = d
gap (swept d) = d

module _ (r : Rate) (idle : ℕ) where
  unfoldable pub served : ℕ → Event → StrMap TokenBucket → StrMap TokenBucket
  served now (requested d user) m = (allow_user r now user m).0
  served now (swept d) m = cleanup_users idle now m

  unfoldable pub passes : String → ℕ → Event → StrMap TokenBucket → ℕ
  passes user now (requested d u) m = if str_eq u user && (allow_user r now u m).1 then 1 else 0
  passes user now (swept d) m = 0

  -- The requests of a user that get through, and the time that passes.
  unfoldable pub passed : String → ℕ → List Event → StrMap TokenBucket → ℕ
  passed user now [] m = 0
  passed user now (e ∷ es) m =
      passes user (now + gap e) e m + passed user (now + gap e) es (served (now + gap e) e m)

  unfoldable pub elapsed : List Event → ℕ
  elapsed [] = 0
  elapsed (e ∷ es) = gap e + elapsed es

  -- What a user could spend at once.
  abbrev potential : ℕ → Option TokenBucket → ℕ
  potential now none = r.burst
  potential now (some b) = accrued r b.tokens now b.last

  abbrev IsSome : ℕ → Option ℕ → Type 0
  IsSome now none = ⊥
  IsSome now (some last) = last ≤ now

  -- A bucket was filled at some time before.
  abbrev IsPast : ℕ → Option TokenBucket → Type 0
  IsPast now none = Unit
  IsPast now (some b) = IsSome now b.last

  accrued-later :
      (tokens now d : ℕ) (last : Option ℕ)
      → IsSome now last
      → accrued r tokens (now + d) last ≤ accrued r tokens now last + d * r.per_tick
  accrued-later tokens now d none h = absurd h
  accrued-later tokens now d (some last) h =
      let more : (now + d - last) * r.per_tick ≡ (now - last) * r.per_tick + d * r.per_tick =
        (let e : now + d - last ≡ (now - last) + d = omega arith in
          rw e (add-mul (now - last) d r.per_tick)) in
      ground (arith, more)

  potential-later :
      (now d : ℕ) (o : Option TokenBucket)
      → IsPast now o
      → potential (now + d) o ≤ potential now o + d * r.per_tick
  potential-later now d none h = omega arith
  potential-later now d (some b) h = accrued-later b.tokens now d b.last h

  IsSome-later : (now d : ℕ) (o : Option ℕ) → IsSome now o → IsSome (now + d) o
  IsSome-later now d none h = h
  IsSome-later now d (some last) h = omega (arith, h)

  IsPast-later : (now d : ℕ) (o : Option TokenBucket) → IsPast now o → IsPast (now + d) o
  IsPast-later now d none h = tt
  IsPast-later now d (some b) h = IsSome-later now d b.last h

  nothing-yet : (now : ℕ) → (now - now) * r.per_tick ≡ 0
  nothing-yet now = let e : now - now ≡ 0 = omega arith in rw e (omega arith)

  -- A refilled bucket holds no more than what could be spent.
  full :
      (now : ℕ) (o : Option TokenBucket)
      → (refill r now (bucket_of r now o)).tokens ≤ potential now o
  full now none = ground (arith, nothing-yet now)
  full now (some b) = omega arith

  abbrev cost : Bool → ℕ
  cost ok = if ok then 1 else 0

  spend-cost : (b : TokenBucket) → cost (spend r b).1 * r.whole + (spend r b).0.tokens ≤ b.tokens
  spend-cost b = ground arith

  spend-last : (b : TokenBucket) → (spend r b).0.last ≡ b.last
  spend-last b =
      if-elim (λ (x : TokenBucket × Bool). x.0.last ≡ b.last) (ltb b.tokens r.whole) _ _ refl refl

  fresh-potential :
      (now : ℕ) (b : TokenBucket) → b.last ≡ some now → potential now (some b) ≤ b.tokens
  fresh-potential now b h =
      subst (λ o. accrued r b.tokens now o ≤ b.tokens) (sym h) (ground (arith, nothing-yet now))

  -- A request of a user costs what it takes.
  own-cost :
      (now : ℕ) (user : String) (m : StrMap TokenBucket)
      → cost (allow_user r now user m).1 * r.whole
          + potential now ((allow_user r now user m).0 user)
        ≤ potential now (m user)
  unfolding allow_user
  own-cost now user m =
      let b = refill r now (bucket_of r now (m user)) in
      rw (update_self m user (spend r b).0) (
        omega (
          arith,
          spend-cost b,
          full now (m user),
          fresh-potential now (spend r b).0 (spend-last b),
        ))

  own-IsPast :
      (now : ℕ) (user : String) (m : StrMap TokenBucket)
      → IsPast now ((allow_user r now user m).0 user)
  unfolding allow_user
  own-IsPast now user m =
      let b = refill r now (bucket_of r now (m user)) in
      rw (update_self m user (spend r b).0) (subst (IsSome now) (sym (spend-last b)) (omega arith))

  other-bucket :
      (now : ℕ) (u user : String) (m : StrMap TokenBucket)
      → str_eq u user ≡ false
      → (allow_user r now u m).0 user ≡ m user
  unfolding allow_user
  other-bucket now u user m h =
      ap (λ b. if b then some (spend r (refill r now (bucket_of r now (m u)))).0 else m user) h

  module _ (enough : r.burst ≤ idle * r.per_tick) where
    -- Deleting an idle bucket gives its user nothing.
    swept-cost :
        (now : ℕ) (o : Option TokenBucket)
        → IsPast now o
        → (potential now (if_used idle now o) ≤ potential now o) × IsPast now (if_used idle now o)
    swept-cost now none h = (omega arith, tt)
    swept-cost now (some b) h = swept-some b.tokens b.last h
      where
        swept-some :
            (tokens : ℕ) (last : Option ℕ)
            → IsSome now last
            → (potential now (if_used idle now (some (record { tokens = tokens; last = last })))
                ≤ accrued r tokens now last)
              × IsPast now (if_used idle now (some (record { tokens = tokens; last = last })))
        swept-some tokens none h = absurd h
        swept-some tokens (some last) h = elim (Bool-cases (ltb (last + idle) now)) [
          | inr e ↦ rw e (omega arith, h)
          | inl e ↦
              let long : idle * r.per_tick ≤ (now - last) * r.per_tick =
                mul-le-mul_right r.per_tick (ground (arith, e)) in
              rw e (ground (arith, enough, long), tt)
        ]

    served-cost :
        (user : String) (now : ℕ) (e : Event) (m : StrMap TokenBucket)
        → IsPast now (m user)
        → (passes user now e m * r.whole + potential now (served now e m user)
            ≤ potential now (m user))
          × IsPast now (served now e m user)
    unfolding passes served cleanup_users
    served-cost user now (swept d) m h =
        let (less, past) = swept-cost now (m user) h in (omega (arith, less), past)
    served-cost user now (requested d u) m h = elim (Bool-cases (str_eq u user)) [
      | inr other ↦ rw (other, other-bucket now u user m other) (omega arith, h)
      | inl own ↦
          let same : u ≡ user = (eq_iff u user).0 own in
          subst
            (λ x.
              ((if str_eq x user && (allow_user r now x m).1 then 1 else 0) * r.whole
                  + potential now ((allow_user r now x m).0 user)
                ≤ potential now (m user))
              × IsPast now ((allow_user r now x m).0 user))
            (sym same) (rw (str_eq_self user) (own-cost now user m, own-IsPast now user m))
    ]

    passed-cost :
        (user : String) (now : ℕ) (es : List Event) (m : StrMap TokenBucket)
        → IsPast now (m user)
        → passed user now es m * r.whole ≤ potential now (m user) + elapsed es * r.per_tick
    unfolding passed elapsed
    passed-cost user now [] m h = omega arith
    passed-cost user now (e ∷ es) m h =
        let (cost_here, past) =
          served-cost user (now + gap e) e m (IsPast-later now (gap e) (m user) h) in
        let rest = passed-cost user (now + gap e) es (served (now + gap e) e m) past in
        rw
          (
            add-mul (passes user (now + gap e) e m)
                (passed user (now + gap e) es (served (now + gap e) e m)) r.whole,
            add-mul (gap e) (elapsed es) r.per_tick,
          )
          (omega (arith, cost_here, rest, potential-later now (gap e) (m user) h))

    -- Whoever makes requests and whenever idle buckets are deleted, a user gets through no more
    -- requests than the burst and what accrues in the time that passes, if a bucket fills up within
    -- the time after which it counts as idle.
    pub passed_limit :
        (user : String) (now : ℕ) (es : List Event)
        → passed user now es empty * r.whole ≤ r.burst + elapsed es * r.per_tick
    passed_limit user now es = passed-cost user now es empty tt
