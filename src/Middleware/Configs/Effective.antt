-- ===== src/Middleware/Configs/Effective.antt =====
-- What is in force for a server, and in which order.
use mathlib.Core.List.{Perm}
use mathlib.Core.List.Perm
use arc_relay.Middleware.Configs.Lookup.{pick, is_server_of, found-globals, found-servers}
use arc_relay.Prelude.{
  ℕ, ◌≤◌, ◌≡◌, ◌↔◌, ◌⊎◌, inl, inr, String, List, [], ◌∷◌, some, ltb, arith, All, Some, Bool-cases,
  refl, sym, ap, ◌∙◌, subst, ◌++◌, Option, none, keep, length, Bool, true, false, if◌then◌else◌,
  str_eq, ◌||◌, eq_iff, ◌≢◌,
}
use arc_relay.Prelude.Maps.{StrMap}
use arc_relay.Middleware.Configs.{
  MiddlewareConfig, found, merged, collect, sink, sink_all, turned, get_for_server, is_global_of,
  overrides, inherit, config_or, consed,
}

abbrev pub Holds : MiddlewareConfig → List MiddlewareConfig → Type 0
Holds c = Some (λ x. x ≡ c)

-- Each row comes after rows of at most its priority.
abbrev pub IsAscending : List MiddlewareConfig → Type 0
IsAscending [] = Unit
IsAscending (c ∷ cs) = All (λ x. c.priority ≤ x.priority) cs × IsAscending cs

abbrev IsDescending : List MiddlewareConfig → Type 0
IsDescending [] = Unit
IsDescending (c ∷ cs) = All (λ x. x.priority ≤ c.priority) cs × IsDescending cs

sink-All :
    (k : ℕ) (c : MiddlewareConfig) (cs : List MiddlewareConfig)
    → c.priority ≤ k
    → All (λ x. x.priority ≤ k) cs
    → All (λ x. x.priority ≤ k) (sink c cs)
sink-All k c [] h t = (h, tt)
sink-All k c (x ∷ xs) h t = elim (Bool-cases (ltb c.priority x.priority)) [
  | inl e ↦ rw e (t.0, sink-All k c xs h t.1)
  | inr e ↦ rw e (h, t)
]

All-le :
    (j k : ℕ) (cs : List MiddlewareConfig)
    → j ≤ k
    → All (λ x. x.priority ≤ j) cs
    → All (λ x. x.priority ≤ k) cs
All-le j k [] h t = tt
All-le j k (c ∷ cs) h t = (omega (arith, h, t.0), All-le j k cs h t.1)

sink-IsDescending :
    (c : MiddlewareConfig) (cs : List MiddlewareConfig) → IsDescending cs → IsDescending (sink c cs)
sink-IsDescending c [] h = (tt, tt)
sink-IsDescending c (x ∷ xs) h = elim (Bool-cases (ltb c.priority x.priority)) [
  | inl e ↦ rw e (sink-All x.priority c xs (ground (arith, e)) h.0, sink-IsDescending c xs h.1)
  | inr e ↦ rw e ((ground (arith, e), All-le x.priority c.priority xs (ground (arith, e)) h.0), h)
]

sink_all-IsDescending :
    (cs sunk : List MiddlewareConfig) → IsDescending sunk → IsDescending (sink_all cs sunk)
sink_all-IsDescending [] sunk h = h
sink_all-IsDescending (c ∷ cs) sunk h =
    sink_all-IsDescending cs (sink c sunk) (sink-IsDescending c sunk h)

-- The entries of one list are below all of another.
abbrev AllBelow : List MiddlewareConfig → List MiddlewareConfig → Type 0
AllBelow xs ys = All (λ y. All (λ x. x.priority ≤ y.priority) xs) ys

AllBelow-tail :
    (x : MiddlewareConfig) (xs ys : List MiddlewareConfig) → AllBelow (x ∷ xs) ys → AllBelow xs ys
AllBelow-tail x xs [] h = tt
AllBelow-tail x xs (y ∷ ys) h = (h.0.1, AllBelow-tail x xs ys h.1)

AllBelow-head :
    (x : MiddlewareConfig) (xs ys : List MiddlewareConfig)
    → AllBelow (x ∷ xs) ys
    → All (λ y. x.priority ≤ y.priority) ys
AllBelow-head x xs [] h = tt
AllBelow-head x xs (y ∷ ys) h = (h.0.0, AllBelow-head x xs ys h.1)

turned-IsAscending :
    (xs acc : List MiddlewareConfig)
    → IsDescending xs
    → IsAscending acc
    → AllBelow xs acc
    → IsAscending (turned xs acc)
turned-IsAscending [] acc d a b = a
turned-IsAscending (x ∷ xs) acc d a b =
    turned-IsAscending xs (x ∷ acc) d.1 (AllBelow-head x xs acc b, a)
      (d.0, AllBelow-tail x xs acc b)

turned-perm : (xs acc : List MiddlewareConfig) → Perm (turned xs acc) (xs ++ acc)
turned-perm [] acc = Perm.refl acc
turned-perm (x ∷ xs) acc = Perm.trans (turned-perm xs (x ∷ acc)) (middle x xs acc)
  where
    middle :
        (y : MiddlewareConfig) (ys zs : List MiddlewareConfig) → Perm (ys ++ y ∷ zs) (y ∷ ys ++ zs)
    middle y [] zs = Perm.refl (y ∷ zs)
    middle y (w ∷ ys) zs = Perm.trans (Perm.cons w (middle y ys zs)) (Perm.swap y w (ys ++ zs))

sink-perm : (c : MiddlewareConfig) (xs : List MiddlewareConfig) → Perm (sink c xs) (c ∷ xs)
sink-perm c [] = Perm.refl (c ∷ [])
sink-perm c (x ∷ xs) = elim (Bool-cases (ltb c.priority x.priority)) [
  | inl e ↦ rw e (Perm.trans (Perm.cons x (sink-perm c xs)) (Perm.swap c x xs))
  | inr e ↦ rw e (Perm.refl (c ∷ x ∷ xs))
]

sink_all-perm : (xs sunk : List MiddlewareConfig) → Perm (sink_all xs sunk) (xs ++ sunk)
sink_all-perm [] sunk = Perm.refl sunk
sink_all-perm (x ∷ xs) sunk =
    Perm.trans (sink_all-perm xs (sink x sunk))
      (Perm.trans (Perm.append_left xs (sink-perm x sunk)) (middle x xs sunk))
  where
    middle :
        (y : MiddlewareConfig) (ys zs : List MiddlewareConfig) → Perm (ys ++ y ∷ zs) (y ∷ ys ++ zs)
    middle y [] zs = Perm.refl (y ∷ zs)
    middle y (w ∷ ys) zs = Perm.trans (Perm.cons w (middle y ys zs)) (Perm.swap y w (ys ++ zs))

append_none : (xs : List MiddlewareConfig) → xs ++ [] ≡ xs
append_none [] = refl
append_none (x ∷ xs) = ap (λ l. x ∷ l) (append_none xs)

sorted-perm : (xs : List MiddlewareConfig) → Perm (turned (sink_all xs []) []) xs
sorted-perm xs =
    subst (λ l. Perm (turned (sink_all xs []) []) l) (append_none xs)
      (Perm.trans
        (subst (λ l. Perm (turned (sink_all xs []) []) l) (append_none (sink_all xs []))
          (turned-perm (sink_all xs []) []))
        (sink_all-perm xs []))

abbrev Inherits : MiddlewareConfig → Option MiddlewareConfig → MiddlewareConfig → Type 0
Inherits r none c = c ≡ r
Inherits r (some g) c = c ≡ record r { config = g.config }

-- What the server's row and the global row of a name make together.
abbrev pub IsMerged : MiddlewareConfig → Option MiddlewareConfig → MiddlewareConfig → Type 0
IsMerged r g c =
    ((r.config ≢ "{}") × (r.config ≢ "") × (c ≡ r))
    ⊎ (((r.config ≡ "{}") ⊎ (r.config ≡ "")) × Inherits r g c)

-- The configuration that a name has for a server, from the rows of the table.
abbrev pub IsInForce : String → List MiddlewareConfig → String → MiddlewareConfig → Type 0
IsInForce server table n c =
    ((r : MiddlewareConfig) × (pick (is_server_of server n) table ≡ some r)
      × IsMerged r (pick (is_global_of n) table) c)
    ⊎ ((pick (is_server_of server n) table ≡ none)
        × (pick (is_global_of n) table ≡ some c)
        × (c.enabled ≡ true))

inherit-IsMerged : (g : Option MiddlewareConfig) (r : MiddlewareConfig) → IsMerged r g (inherit g r)
inherit-IsMerged g r = elim (Bool-cases (str_eq r.config "{}")) [
  | inl e ↦ rw e (inr (inl ((eq_iff r.config "{}").0 e), taken g))
  | inr e ↦ elim (Bool-cases (str_eq r.config "")) [
    | inl f ↦ rw (e, f) (inr (inr ((eq_iff r.config "").0 f), taken g))
    | inr f ↦
        rw (e, f)
          (inl (ground (arith, eq_iff r.config "{}"), ground (arith, eq_iff r.config ""), refl))
  ]
]
  where
    taken :
        (o : Option MiddlewareConfig) → Inherits r o (record r { config = config_or r.config o })
    taken none = refl
    taken (some d) = refl

Inherits-eq :
    (r c : MiddlewareConfig) (g : Option MiddlewareConfig)
    → Inherits r g c
    → record r { config = config_or r.config g } ≡ c
Inherits-eq r c none h = sym h
Inherits-eq r c (some d) h = sym h

IsMerged-inherit :
    (g : Option MiddlewareConfig) (r c : MiddlewareConfig) → IsMerged r g c → inherit g r ≡ c
IsMerged-inherit g r c (inl (a, b, e)) =
    let full : (str_eq r.config "{}" || str_eq r.config "") ≡ false =
      ground (arith, a, b, eq_iff r.config "{}", eq_iff r.config "") in
    ap (λ t. if t then record r { config = config_or r.config g } else r) full ∙ sym e
IsMerged-inherit g r c (inr (blank, h)) =
    let bare : (str_eq r.config "{}" || str_eq r.config "") ≡ true =
      ground (arith, blank, eq_iff r.config "{}", eq_iff r.config "") in
    ap (λ t. if t then record r { config = config_or r.config g } else r) bare ∙ Inherits-eq r c g h

-- Both directions of the merge, on the two rows.
abbrev IsEffective : Option MiddlewareConfig → Option MiddlewareConfig → MiddlewareConfig → Type 0
IsEffective g s c =
    ((r : MiddlewareConfig) × (s ≡ some r) × IsMerged r g c)
    ⊎ ((s ≡ none) × (g ≡ some c) × (c.enabled ≡ true))

some-inj : {a b : MiddlewareConfig} → some a ≡ some b → a ≡ b
some-inj h = cc

enabled_iff :
    (b : Bool) (d c : MiddlewareConfig)
    → d.enabled ≡ b
    → ((if b then some d else none) ≡ some c) ↔ IsEffective (some d) none c
enabled_iff true d c on = (
  λ h. inr (refl, h, subst (λ x. x.enabled ≡ true) (some-inj h) on),
  λ h. elim h [ inl (r, e, m) ↦ cc | inr (e, f, o) ↦ f ],
)
enabled_iff false d c off = (
  λ h. cc,
  λ h. elim h [
    | inl (r, e, m) ↦ cc
    | inr (e, f, on) ↦
        let clash : d.enabled ≡ true = subst (λ x. x.enabled ≡ true) (sym (some-inj f)) on in cc
  ],
)

overrides_iff :
    (g s : Option MiddlewareConfig) (c : MiddlewareConfig)
    → (overrides g s ≡ some c) ↔ IsEffective g s c
overrides_iff none none c = (λ h. cc, λ h. elim h [ inl (r, e, m) ↦ cc | inr (e, f, on) ↦ cc ])
overrides_iff (some d) none c = enabled_iff d.enabled d c refl
overrides_iff g (some r) c = (
  λ h. inl (r, refl, subst (IsMerged r g) (some-inj h) (inherit-IsMerged g r)),
  λ h. elim h [
    | inl (r', e, m) ↦
        ap some (IsMerged-inherit g r c (subst (λ x. IsMerged x g c) (sym (some-inj e)) m))
    | inr (e, f, on) ↦ cc
  ],
)

-- The values of a map under some keys.
abbrev pub with_value : Option MiddlewareConfig → List MiddlewareConfig → List MiddlewareConfig
with_value none cs = cs
with_value (some c) cs = c ∷ cs

abbrev pub values : StrMap MiddlewareConfig → List String → List MiddlewareConfig
values m [] = []
values m (n ∷ ns) = with_value (m n) (values m ns)

consed-eq :
    (o : Option MiddlewareConfig) (cs : List MiddlewareConfig) → consed o cs ≡ with_value o cs
consed-eq none cs = refl
consed-eq (some c) cs = refl

collect-values :
    (m : StrMap MiddlewareConfig) (names : List String) → collect m names ≡ values m names
collect-values m [] = refl
collect-values m (n ∷ ns) =
    consed-eq (m n) (collect m ns) ∙ ap (with_value (m n)) (collect-values m ns)

-- Where the table has at most one global row and at most one row of the server for each name, the
-- configurations for the server come in ascending priority, in whatever order Go walks the map, and are
-- one for each name walked that has one in force: the server's row, with the configuration of the
-- global row where its own is empty and there is a global row, and without a row of the server the
-- global row if it is enabled.
pub get_for_server_lem :
    (names : List String) (server : String) (table : List MiddlewareConfig)
    → ((n : String) → length (keep (is_global_of n) table) ≤ 1)
    → ((n : String) → length (keep (is_server_of server n) table) ≤ 1)
    → IsAscending (get_for_server names server table)
      × ((m : StrMap MiddlewareConfig) × Perm (get_for_server names server table) (values m names)
          × ((n : String) (c : MiddlewareConfig) → (m n ≡ some c) ↔ IsInForce server table n c))
unfolding get_for_server merged
get_for_server_lem names server table global own =
    let m : StrMap MiddlewareConfig = merged (found server table) in
    let all : List MiddlewareConfig = collect m names in
    (
      turned-IsAscending (sink_all all []) [] (sink_all-IsDescending all [] tt) tt tt,
      (
        m,
        subst (Perm (turned (sink_all all []) [])) (collect-values m names) (sorted-perm all),
        λ n c.
            subst
              (λ g.
                (merged (found server table) n ≡ some c)
                ↔ IsEffective g (pick (is_server_of server n) table) c)
              (found-globals server n table (global n))
              (subst
                (λ s.
                  (merged (found server table) n ≡ some c)
                  ↔ IsEffective ((found server table).globals n) s c)
                (found-servers server n table (own n))
                (overrides_iff ((found server table).globals n) ((found server table).servers n)
                  c)),
      ),
    )
