-- ===== src/Accounts/Roles.antt =====
-- The roles of users and their access levels, and what a user keeps who is no administrator any more.
use arc_relay.Prelude.{
  ◌≡◌, refl, sym, ap, ◌∙◌, inl, inr, String, List, [], ◌∷◌, Bool, true, ◌||◌, Option, none, some,
  if◌then◌else◌, if-elim, str_eq, eq_iff, arith, Bool-cases,
}
use arc_relay.Access.Tiers.{
  Permission, EndpointTier, check_access, check_endpoint_access, get_tier, Denial, requires_level,
}
use arc_relay.Accounts.{Account, has_id, first, get, update_where, user_of, update_role}
use arc_relay.Accounts.Run.{Op, run, no_rows}
use arc_relay.Accounts.Levels.{first-All, is_leveled, run-AreLeveled}

first-update :
    (id : String) (f : Account → Account) (us : List Account) (u : Account)
    → ((x : Account) → (f x).id ≡ x.id)
    → first (has_id id) us ≡ some u
    → first (has_id id) (update_where (has_id id) f us) ≡ some (f u)
first-update id f [] u kept h = cc
first-update id f (x ∷ xs) u kept h = elim (Bool-cases (has_id id x)) [
  | inl e ↦
      let same : some x ≡ some u =
        ap (λ b. if b then some x else first (has_id id) xs) (sym e) ∙ h in
      let found : has_id id (f x) ≡ true = ap (λ i. str_eq i id) (kept x) ∙ e in
      rw (e, found) (ap (λ o. elim o [ some z ↦ some (f z) | none ↦ none ]) same)
  | inr e ↦
      rw (e, e)
        (first-update id f xs u kept
          (ap (λ b. if b then some x else first (has_id id) xs) (sym e) ∙ h))
]

admin-reaches : (tier : String) → check_access "admin" tier ≡ true
unfolding check_access
admin-reaches tier = ground arith

module _ (sha256 : String → String) (bcrypt : String → String → Option String)
    (matches : String → String → Bool) where
  -- After any sequence of calls on an empty database, a user whose role is that of an administrator
  -- has the access level of one.
  pub run-leveled :
      (os : List Op) (id : String) (u : Account)
      → get (run sha256 bcrypt matches os no_rows) id ≡ some u
      → u.role ≡ "admin"
      → u.access_level ≡ "admin"
  unfolding get
  run-leveled os id u h r =
      let leveled : is_leveled u ≡ true =
        first-All (λ x. is_leveled x ≡ true) (has_id id) _ u
          (run-AreLeveled sha256 bcrypt matches os no_rows tt) h in
      ground (arith, leveled, r, eq_iff u.role "admin", eq_iff u.access_level "admin")

  -- An administrator who is made a plain user keeps access to every endpoint that is checked by its
  -- tier: the role changes, the access level does not.
  pub update_role-keeps_access :
      (os : List Op) (id : String) (u : Account) (perms : List Permission)
      (tiers : List EndpointTier) (server type name : String)
      → get (run sha256 bcrypt matches os no_rows) id ≡ some u
      → u.role ≡ "admin"
      → (get (update_role id "user" (run sha256 bcrypt matches os no_rows)) id
          ≡ some (record u { role = "user" }))
        × (check_endpoint_access true perms tiers
              (some (user_of (record u { role = "user" }) none))
              server
              type
              name
            ≡ none)
  unfolding get update_role check_endpoint_access check_access
  update_role-keeps_access os id u perms tiers server type name h r =
      let level = run-leveled os id u h r in
      (
        first-update id (λ x. record x { role = "user" }) _ u (λ x. refl) h,
        if-elim (λ (d : Option Denial). d ≡ none) (str_eq type "" || str_eq name "") none _ refl
            (ap (λ b. if b then none else some (requires_level (get_tier tiers server type name)))
              (ap (λ l. check_access l (get_tier tiers server type name)) level
                ∙ admin-reaches (get_tier tiers server type name))),
      )
