-- ===== src/Limits/Window.antt =====
-- How many logins fail within a window.
use arc_relay.Prelude.{
  ℕ, zero, suc, ◌-◌, ◌+◌, ◌≤◌, ◌≡◌, refl, sym, ap, ◌∙◌, subst, inl, inr, String, List, [], ◌∷◌,
  ◌++◌, Bool, true, false, ◌&&◌, Option, none, some, not, ltb, if◌then◌else◌, keep, length, str_eq,
  eq_iff, arith, Bool-cases,
}
use arc_relay.Prelude.Maps.{empty, update_self}
use arc_relay.Limits.{
  IpRateLimiter, is_recent, or_none, recent_of, allow, record_attempt, cleanup, trimmed,
  some_unless_empty, Logins, begin_login, finished, end_login,
}

-- So many ticks after what came before, an attempt to log in arrives from an address, the password of
-- one that was let through has been checked, or stale entries are swept.
pub data Event : Type 0 where
  arrived : ℕ → String → Event
  answered : ℕ → String → Bool → Event
  swept : ℕ → Event

abbrev pub gap : Event → ℕ
gap (arrived d ip) = d
gap (answered d ip valid) = d
gap (swept d) = d

abbrev pub start : Logins
start = record { attempts = empty; checking = λ ip. 0 }

abbrev pub is_positive : ℕ → Bool
is_positive zero = false
is_positive (suc n) = true

abbrev pub larger : ℕ → ℕ → ℕ
larger a b = if ltb a b then b else a

module _ (rl : IpRateLimiter) where
  unfoldable pub after : ℕ → Event → Logins → Logins
  after now (arrived d ip) s = (begin_login rl now ip s).0
  after now (answered d ip valid) s = end_login now ip valid s
  after now (swept d) s = record s { attempts = cleanup rl now s.attempts }

  -- Whether the event is the end of an attempt from the address that fails.
  unfoldable pub is_failure : String → Event → Logins → Bool
  is_failure ip (arrived d i) s = false
  is_failure ip (answered d i valid) s = str_eq i ip && (not valid && is_positive (s.checking i))
  is_failure ip (swept d) s = false

  -- The times of the failures, the time of the last event, and the most attempts of the address that
  -- are being checked at once.
  unfoldable pub failures : String → ℕ → List Event → Logins → List ℕ
  failures ip now [] s = []
  failures ip now (e ∷ es) s =
      let rest = failures ip (now + gap e) es (after (now + gap e) e s) in
      if is_failure ip e s then (now + gap e) ∷ rest else rest

  unfoldable pub end_time : ℕ → List Event → ℕ
  end_time now [] = now
  end_time now (e ∷ es) = end_time (now + gap e) es

  unfoldable pub peak : String → ℕ → List Event → Logins → ℕ
  peak ip now [] s = s.checking ip
  peak ip now (e ∷ es) s =
      let rest = peak ip (now + gap e) es (after (now + gap e) e s) in larger (s.checking ip) rest

  abbrev pub count : ℕ → List ℕ → ℕ
  count now ts = length (keep (is_recent rl.window now) ts)

  count-append :
      (t x : ℕ) (xs : List ℕ)
      → count t (xs ++ x ∷ []) ≡ count t xs + (if is_recent rl.window t x then 1 else 0)
  count-append t x [] = ground arith
  count-append t x (y ∷ ys) = ground (arith, count-append t x ys)

  count-keep :
      (now t : ℕ) (xs : List ℕ) → now ≤ t → count t (keep (is_recent rl.window now) xs) ≡ count t xs
  count-keep now t [] h = refl
  count-keep now t (x ∷ xs) h = ground (arith, h, count-keep now t xs h)

  count-later : (now t : ℕ) (xs : List ℕ) → now ≤ t → count t xs ≤ count now xs
  count-later now t [] h = omega arith
  count-later now t (x ∷ xs) h = ground (arith, h, count-later now t xs h)

  or_none-some : (ts : List ℕ) → or_none (some_unless_empty ts) ≡ ts
  or_none-some [] = refl
  or_none-some (t ∷ ts) = refl

  swept-own :
      (now : ℕ) (o : Option (List ℕ))
      → or_none (trimmed rl now o) ≡ keep (is_recent rl.window now) (or_none o)
  swept-own now none = refl
  swept-own now (some ts) = or_none-some (keep (is_recent rl.window now) ts)

  -- The log of the failures agrees with the attempts that are kept, at any later time, and the
  -- failures to come are within the bound.
  record Agree (c : ℕ) (ip : String) (now : ℕ) (log : List ℕ) (s : Logins) : Type 0 where
    same : (t : ℕ) → now ≤ t → count t log ≡ count t (or_none (s.attempts ip))
    bound : count now log + s.checking ip ≤ rl.max + (c - 1)

  -- The log after an event.
  abbrev logged : String → ℕ → Event → Logins → List ℕ → List ℕ
  logged ip now e s log = if is_failure ip e s then log ++ now ∷ [] else log

  arrived-own :
      (c : ℕ) (ip : String) (now : ℕ) (log : List ℕ) (s : Logins)
      → Agree c ip now log s
      → (begin_login rl now ip s).0.checking ip ≤ c
      → Agree c ip now log (begin_login rl now ip s).0
  unfolding begin_login allow
  arrived-own c ip now log s h within =
      let recent : List ℕ = recent_of rl now s.attempts ip in
      let len : length recent ≡ count now log = sym (h.same now (omega arith)) in
      record {
        same = λ t le.
            h.same t le
            ∙ sym (count-keep now t (or_none (s.attempts ip)) le)
            ∙ sym (ap (λ o. count t (or_none o)) (update_self s.attempts ip recent));
        bound = ground (arith, h.bound, within, len, eq_iff ip ip);
      }

  finished-own :
      (c : ℕ) (k : ℕ) (ip : String) (now : ℕ) (valid : Bool) (log : List ℕ) (s : Logins)
      → s.checking ip ≡ k
      → Agree c ip now log s
      → Agree c ip now
          (if not valid && is_positive k then log ++ now ∷ [] else log)
          (finished k now ip valid s)
  unfolding record_attempt
  finished-own c zero ip now true log s e h = h
  finished-own c zero ip now false log s e h = h
  finished-own c (suc n) ip now true log s e h = record {
    same = h.same;
    bound = ground (arith, h.bound, e, eq_iff ip ip);
  }
  finished-own c (suc n) ip now false log s e h = record {
    same = λ t le.
        count-append t now log
        ∙ ap (λ x. x + (if is_recent rl.window t now then 1 else 0)) (h.same t le)
        ∙ sym (count-append t now (or_none (s.attempts ip)))
        ∙ sym (
            ap (λ o. count t (or_none o))
              (update_self s.attempts ip (or_none (s.attempts ip) ++ now ∷ [])));
    bound = ground (arith, h.bound, e, eq_iff ip ip, count-append now now log);
  }

  -- What an address does leaves the others alone.
  record Alone (ip : String) (s t : Logins) : Type 0 where
    attempts : t.attempts ip ≡ s.attempts ip
    checking : t.checking ip ≡ s.checking ip

  Alone-Agree :
      (c : ℕ) (ip : String) (now : ℕ) (log : List ℕ) (s t : Logins)
      → Alone ip s t
      → Agree c ip now log s
      → Agree c ip now log t
  Alone-Agree c ip now log s t a h = record {
    same = λ u le. h.same u le ∙ sym (ap (λ o. count u (or_none o)) a.attempts);
    bound = omega (arith, h.bound, a.checking);
  }

  arrived-Alone :
      (ip i : String) (now : ℕ) (s : Logins)
      → str_eq i ip ≡ false
      → Alone ip s (begin_login rl now i s).0
  unfolding begin_login allow
  arrived-Alone ip i now s e = record {
    attempts = ap (λ b. if b then some (recent_of rl now s.attempts i) else s.attempts ip) e;
    checking = ground arith;
  }

  finished-Alone :
      (ip i : String) (now k : ℕ) (valid : Bool) (s : Logins)
      → str_eq i ip ≡ false
      → Alone ip s (finished k now i valid s)
  unfolding record_attempt
  finished-Alone ip i now zero valid s e = record { attempts = refl; checking = refl }
  finished-Alone ip i now (suc n) true s e = record { attempts = refl; checking = ground arith }
  finished-Alone ip i now (suc n) false s e = record {
    attempts = ap (λ b. if b then some (or_none (s.attempts i) ++ now ∷ []) else s.attempts ip) e;
    checking = ground arith;
  }

  later-Agree :
      (c : ℕ) (ip : String) (now d : ℕ) (log : List ℕ) (s : Logins)
      → Agree c ip now log s
      → Agree c ip (now + d) log s
  later-Agree c ip now d log s h = record {
    same = λ t le. h.same t (omega (arith, le));
    bound = omega (arith, h.bound, count-later now (now + d) log (omega arith));
  }

  after-Agree :
      (c : ℕ) (ip : String) (now : ℕ) (e : Event) (log : List ℕ) (s : Logins)
      → Agree c ip now log s
      → (after now e s).checking ip ≤ c
      → Agree c ip now (logged ip now e s log) (after now e s)
  unfolding after is_failure cleanup end_login
  after-Agree c ip now (swept d) log s h within = record {
    same = λ t le.
        h.same t le
        ∙ sym (
            ap (count t) (swept-own now (s.attempts ip))
            ∙ count-keep now t (or_none (s.attempts ip)) le);
    bound = h.bound;
  }
  after-Agree c ip now (arrived d i) log s h within = elim (Bool-cases (str_eq i ip)) [
    | inr other ↦ Alone-Agree c ip now log s _ (arrived-Alone ip i now s other) h
    | inl own ↦
        let same : i ≡ ip = (eq_iff i ip).0 own in
        subst (λ x. Agree c ip now log (begin_login rl now x s).0) (sym same)
          (arrived-own c ip now log s h
            (subst (λ x. (begin_login rl now x s).0.checking ip ≤ c) same within))
  ]
  after-Agree c ip now (answered d i valid) log s h within = elim (Bool-cases (str_eq i ip)) [
    | inr other ↦
        subst
          (λ b.
            Agree c ip now
              (if b && (not valid && is_positive (s.checking i)) then log ++ now ∷ [] else log)
              (finished (s.checking i) now i valid s))
          (sym other)
          (Alone-Agree c ip now log s _ (finished-Alone ip i now (s.checking i) valid s other) h)
    | inl own ↦
        let same : i ≡ ip = (eq_iff i ip).0 own in
        subst
          (λ b.
            Agree c ip now
              (if b && (not valid && is_positive (s.checking i)) then log ++ now ∷ [] else log)
              (finished (s.checking i) now i valid s))
          (sym own)
          (subst
            (λ x.
              Agree c ip now
                (if not valid && is_positive (s.checking x) then log ++ now ∷ [] else log)
                (finished (s.checking x) now x valid s))
            (sym same) (finished-own c (s.checking ip) ip now valid log s refl h))
  ]

  append_assoc : (xs ys zs : List ℕ) → (xs ++ ys) ++ zs ≡ xs ++ (ys ++ zs)
  append_assoc [] ys zs = refl
  append_assoc (x ∷ xs) ys zs = ap (λ l. x ∷ l) (append_assoc xs ys zs)

  append_none : (xs : List ℕ) → xs ++ [] ≡ xs
  append_none [] = refl
  append_none (x ∷ xs) = ap (λ l. x ∷ l) (append_none xs)

  joined :
      (b : Bool) (t : ℕ) (log rest : List ℕ)
      → (if b then log ++ t ∷ [] else log) ++ rest ≡ log ++ (if b then t ∷ rest else rest)
  joined true t log rest = append_assoc log (t ∷ []) rest
  joined false t log rest = refl

  checking-le-peak :
      (ip : String) (now : ℕ) (es : List Event) (s : Logins) → s.checking ip ≤ peak ip now es s
  unfolding peak
  checking-le-peak ip now [] s = omega arith
  checking-le-peak ip now (e ∷ es) s = ground arith

  failures-bound :
      (c : ℕ) (ip : String) (now : ℕ) (es : List Event) (log : List ℕ) (s : Logins)
      → Agree c ip now log s
      → peak ip now es s ≤ c
      → count (end_time now es) (log ++ failures ip now es s) ≤ rl.max + (c - 1)
  unfolding end_time failures peak
  failures-bound c ip now [] log s h top = rw (append_none log) (omega (arith, h.bound))
  failures-bound c ip now (e ∷ es) log s h top =
      let later : ℕ = now + gap e in
      let rest : peak ip later es (after later e s) ≤ c = ground (arith, top) in
      let within : (after later e s).checking ip ≤ c =
        omega (arith, rest, checking-le-peak ip later es (after later e s)) in
      let next = after-Agree c ip later e log s (later-Agree c ip now (gap e) log s h) within in
      subst (λ l. count (end_time later es) l ≤ rl.max + (c - 1))
        (joined (is_failure ip e s) later log (failures ip later es (after later e s)))
        (failures-bound c ip later es (logged ip later e s log) (after later e s) next rest)

  -- Whatever attempts to log in arrive, in whatever order their passwords turn out right or wrong, and
  -- whenever stale entries are swept: where at most `c` attempts of one address are being checked at
  -- once, at most `max` of them, and `c - 1` more, fail within the window that ends with the last
  -- event. One at a time, this is `max`.
  pub failures_limit :
      (c : ℕ) (ip : String) (now : ℕ) (es : List Event)
      → peak ip now es start ≤ c
      → count (end_time now es) (failures ip now es start) ≤ rl.max + (c - 1)
  failures_limit c ip now es top =
      failures-bound c ip now es [] start (record { same = λ t le. refl; bound = omega arith }) top
