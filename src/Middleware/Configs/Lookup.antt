-- ===== src/Middleware/Configs/Lookup.antt =====
-- The rows that GetForServer reads, under one name.
use arc_relay.Prelude.{
  ◌≤◌, ◌≡◌, refl, sym, ap, ◌∙◌, subst, ◌⊎◌, inl, inr, String, List, [], ◌∷◌, Bool, true, false,
  ◌&&◌, ◌||◌, not, Option, none, some, keep, length, ltb, if◌then◌else◌, if-elim, str_eq, arith,
  All, Some, Bool-cases, Option-cases,
}
use arc_relay.Prelude.Maps.{empty, update}
use arc_relay.Middleware.Configs.{
  MiddlewareConfig, Found, note_row, scan_rows, place, ordered, found, is_global, is_for,
  is_global_of,
}

-- The row that a test on rows picks out, if it is the only one.
abbrev Only : (MiddlewareConfig → Bool) → Option MiddlewareConfig → List MiddlewareConfig → Type 0
Only q o = All (λ r. q r ≡ true → o ≡ some r)

abbrev pub pick : (MiddlewareConfig → Bool) → List MiddlewareConfig → Option MiddlewareConfig
pick q [] = none
pick q (r ∷ rs) = if q r then some r else pick q rs

abbrev Has : (MiddlewareConfig → Bool) → List MiddlewareConfig → Type 0
Has q = Some (λ r. q r ≡ true)

none-Only :
    (q : MiddlewareConfig → Bool) (o : Option MiddlewareConfig) (rs : List MiddlewareConfig)
    → length (keep q rs) ≤ 0
    → Only q o rs
none-Only q o [] h = tt
none-Only q o (r ∷ rs) h = elim (Bool-cases (q r)) [
  | inl e ↦ let none_left = h in absurd (ground arith)
  | inr e ↦ ((λ hit. let clash : true ≡ false = sym hit ∙ e in cc), none-Only q o rs (ground arith))
]

pick-Only :
    (q : MiddlewareConfig → Bool) (rs : List MiddlewareConfig)
    → length (keep q rs) ≤ 1
    → Only q (pick q rs) rs
pick-Only q [] h = tt
pick-Only q (r ∷ rs) h = elim (Bool-cases (q r)) [
  | inl e ↦
      subst (λ o. Only q o (r ∷ rs)) (sym (ap (λ b. if b then some r else pick q rs) e))
        (λ hit. refl, none-Only q (some r) rs (ground arith))
  | inr e ↦
      subst (λ o. Only q o (r ∷ rs)) (sym (ap (λ b. if b then some r else pick q rs) e))
        (λ hit. (let clash : true ≡ false = sym hit ∙ e in cc), pick-Only q rs (ground arith))
]

pick-Has :
    (q : MiddlewareConfig → Bool) (rs : List MiddlewareConfig) (r : MiddlewareConfig)
    → pick q rs ≡ some r
    → Has q rs
pick-Has q [] r h = cc
pick-Has q (x ∷ rs) r h = elim (Bool-cases (q x)) [
  | inl e ↦ inl e
  | inr e ↦ inr (pick-Has q rs r (ap (λ b. if b then some x else pick q rs) (sym e) ∙ h))
]

-- Both survive the query: its WHERE keeps the rows in question, its ORDER BY all.
keep-Only :
    (q t w : MiddlewareConfig → Bool) (o : Option MiddlewareConfig) (rs : List MiddlewareConfig)
    → ((r : MiddlewareConfig) → w r ≡ true → t r ≡ true → q r ≡ true)
    → Only q o rs
    → Only t o (keep w rs)
keep-Only q t w o [] sub h = tt
keep-Only q t w o (r ∷ rs) sub h = elim (Bool-cases (w r)) [
  | inl e ↦ rw e ((λ hit. h.0 (sub r e hit)), keep-Only q t w o rs sub h.1)
  | inr e ↦ rw e (keep-Only q t w o rs sub h.1)
]

keep-Has :
    (q t w : MiddlewareConfig → Bool) (rs : List MiddlewareConfig)
    → ((r : MiddlewareConfig) → q r ≡ true → (w r ≡ true) × (t r ≡ true))
    → Has q rs
    → Has t (keep w rs)
keep-Has q t w [] sub h = h
keep-Has q t w (r ∷ rs) sub (inl e) = rw ((sub r e).0) (inl (sub r e).1)
keep-Has q t w (r ∷ rs) sub (inr h) =
    if-elim (Has t) (w r) _ _ (inr (keep-Has q t w rs sub h)) (keep-Has q t w rs sub h)

place-Only :
    (q : MiddlewareConfig → Bool) (o : Option MiddlewareConfig) (r : MiddlewareConfig)
    (rs : List MiddlewareConfig)
    → Only q o (r ∷ rs)
    → Only q o (place r rs)
place-Only q o r [] h = h
place-Only q o r (x ∷ rs) h =
    if-elim (Only q o) (ltb x.priority r.priority) _ _ (h.1.0, place-Only q o r rs (h.0, h.1.1)) h

place-Has :
    (q : MiddlewareConfig → Bool) (r : MiddlewareConfig) (rs : List MiddlewareConfig)
    → (q r ≡ true) ⊎ Has q rs
    → Has q (place r rs)
place-Has q r [] h = h
place-Has q r (x ∷ rs) h =
    if-elim (Has q) (ltb x.priority r.priority) _ _
      (elim h [
        | inl e ↦ inr (place-Has q r rs (inl e))
        | inr (inl e) ↦ inl e
        | inr (inr e) ↦ inr (place-Has q r rs (inr e))
      ])
      h

ordered-Only :
    (q : MiddlewareConfig → Bool) (o : Option MiddlewareConfig) (rs : List MiddlewareConfig)
    → Only q o rs
    → Only q o (ordered rs)
ordered-Only q o [] h = h
ordered-Only q o (r ∷ rs) h = place-Only q o r (ordered rs) (h.0, ordered-Only q o rs h.1)

ordered-Has :
    (q : MiddlewareConfig → Bool) (rs : List MiddlewareConfig) → Has q rs → Has q (ordered rs)
ordered-Has q [] h = h
ordered-Has q (r ∷ rs) (inl e) = place-Has q r (ordered rs) (inl e)
ordered-Has q (r ∷ rs) (inr h) = place-Has q r (ordered rs) (inr (ordered-Has q rs h))

-- What the loop over the rows leaves under a name, in one of its maps: `at` reads it, and `q` is the
-- test of the rows that are written there.
module _ (at : Found → Option MiddlewareConfig) (q : MiddlewareConfig → Bool)
    (noted : (r : MiddlewareConfig) (f : Found)
      → at (note_row r f) ≡ (if q r then some r else at f))
    (o : Option MiddlewareConfig) where
  scan-kept :
      (rs : List MiddlewareConfig) (f : Found) → Only q o rs → at f ≡ o → at (scan_rows rs f) ≡ o
  scan-kept [] f h e = e
  scan-kept (r ∷ rs) f h e = scan-kept rs (note_row r f) h.1 (elim (Bool-cases (q r)) [
    | inl hit ↦ noted r f ∙ ap (λ b. if b then some r else at f) hit ∙ sym (h.0 hit)
    | inr miss ↦ noted r f ∙ ap (λ b. if b then some r else at f) miss ∙ e
  ])

  scan-found :
      (rs : List MiddlewareConfig) (f : Found) → Only q o rs → Has q rs → at (scan_rows rs f) ≡ o
  scan-found [] f h t = absurd t
  scan-found (r ∷ rs) f h (inl hit) =
      scan-kept rs (note_row r f) h.1
        (noted r f ∙ ap (λ b. if b then some r else at f) hit ∙ sym (h.0 hit))
  scan-found (r ∷ rs) f h (inr t) = scan-found rs (note_row r f) h.1 t

abbrev pub is_server_of : String → String → MiddlewareConfig → Bool
is_server_of server name r = is_for server r.server_id && str_eq r.middleware name

abbrev is_own_of : String → MiddlewareConfig → Bool
is_own_of name r = not (is_global r.server_id) && str_eq r.middleware name

noted-globals :
    (n : String) (r : MiddlewareConfig) (f : Found)
    → (note_row r f).globals n ≡ (if is_global_of n r then some r else f.globals n)
noted-globals n r f = go (is_global r.server_id)
  where
    go :
        (b : Bool)
        → (if b
              then record f { globals = update f.globals r.middleware r }
              else record f { servers = update f.servers r.middleware r }).globals
            n
          ≡ (if b && str_eq r.middleware n then some r else f.globals n)
    go true = refl
    go false = refl

noted-servers :
    (n : String) (r : MiddlewareConfig) (f : Found)
    → (note_row r f).servers n ≡ (if is_own_of n r then some r else f.servers n)
noted-servers n r f = go (is_global r.server_id)
  where
    go :
        (b : Bool)
        → (if b
              then record f { globals = update f.globals r.middleware r }
              else record f { servers = update f.servers r.middleware r }).servers
            n
          ≡ (if not b && str_eq r.middleware n then some r else f.servers n)
    go true = refl
    go false = refl

-- The rows that the query asks for.
abbrev asked : String → MiddlewareConfig → Bool
asked server r = is_global r.server_id || is_for server r.server_id

module _ (at : Found → Option MiddlewareConfig) (q t : MiddlewareConfig → Bool)
    (noted : (r : MiddlewareConfig) (f : Found)
      → at (note_row r f) ≡ (if t r then some r else at f))
    (server : String) (table : List MiddlewareConfig)
    (blank : at (record { globals = empty; servers = empty }) ≡ none) where
  found-pick :
      ((r : MiddlewareConfig) → asked server r ≡ true → t r ≡ true → q r ≡ true)
      → ((r : MiddlewareConfig) → q r ≡ true → (asked server r ≡ true) × (t r ≡ true))
      → length (keep q table) ≤ 1
      → at (found server table) ≡ pick q table
  unfolding found
  found-pick back forth one =
      let rows : List MiddlewareConfig = ordered (keep (asked server) table) in
      let only : Only t (pick q table) rows =
        ordered-Only t (pick q table) (keep (asked server) table)
          (keep-Only q t (asked server) (pick q table) table back (pick-Only q table one)) in
      elim (Option-cases (pick q table)) [
        | inl e ↦ scan-kept at t noted (pick q table) rows _ only (blank ∙ sym e)
        | inr (r, e) ↦ scan-found at t noted (pick q table) rows _ only (
            ordered-Has t (keep (asked server) table)
              (keep-Has q t (asked server) table forth (pick-Has q table r e)))
      ]

pub found-globals :
    (server n : String) (table : List MiddlewareConfig)
    → length (keep (is_global_of n) table) ≤ 1
    → (found server table).globals n ≡ pick (is_global_of n) table
found-globals server n table one =
    found-pick (λ f. f.globals n) (is_global_of n) (is_global_of n) (noted-globals n) server table
      refl (λ r a h. h) (λ r h. (ground arith, h)) one

pub found-servers :
    (server n : String) (table : List MiddlewareConfig)
    → length (keep (is_server_of server n) table) ≤ 1
    → (found server table).servers n ≡ pick (is_server_of server n) table
found-servers server n table one =
    found-pick (λ f. f.servers n) (is_server_of server n) (is_own_of n) (noted-servers n) server
      table refl (λ r a h. ground arith) (λ r h. own (str_eq r.middleware n) r.server_id h) one
  where
    own :
        (b : Bool) (s : Option String)
        → (is_for server s && b) ≡ true
        → ((is_global s || is_for server s) ≡ true) × ((not (is_global s) && b) ≡ true)
    own b none h = cc
    own b (some x) h = ground arith
