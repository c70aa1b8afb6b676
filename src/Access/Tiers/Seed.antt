-- ===== src/Access/Tiers/Seed.antt =====
-- What seeding a profile from a tier grants (SeedFromTier of internal/store/profiles.go).
use arc_relay.Prelude.{
  ◌≡◌, refl, ◌⊎◌, inl, inr, String, List, [], ◌∷◌, Bool, true, ◌&&◌, ◌||◌, some, arith, any, All,
  str_eq, eq_iff, Bool-cases,
}
use arc_relay.Access.Tiers.{
  EndpointTier, Permission, has_key, check_access, check_permission, add_permission, seed_rows,
  seed_from_tier,
}
use arc_relay.Access.Tiers.Check.{permits, check_permission-add}

abbrev pub IsTier : String → Type 0
IsTier t = (t ≡ "read") ⊎ ((t ≡ "write") ⊎ (t ≡ "admin"))

-- A row of the server with the key, whose tier passes the test.
abbrev pub grants : (String → Bool) → String → String → String → String → List EndpointTier → Bool
grants test server key_server type name =
    any (λ r. has_key key_server type name r && (str_eq r.server_id server && test r.access_tier))

-- The permission that a row of the server grants.
abbrev granted : String → String → EndpointTier → Permission
granted profile server r = record {
  profile_id = profile;
  server_id = server;
  endpoint_type = r.endpoint_type;
  endpoint_name = r.endpoint_name;
}

permits-granted :
    (test : String → Bool) (profile server : String) (r : EndpointTier) (q s type name : String)
    → (str_eq r.server_id server && test r.access_tier) ≡ true
    → permits (granted profile server r) q s type name ≡ (
        str_eq profile q
        && (has_key s type name r && (str_eq r.server_id server && test r.access_tier)))
unfolding permits
permits-granted test profile server r q s type name h =
    ground (arith, h, eq_iff r.server_id server, eq_iff r.server_id s, eq_iff server s)

seed_rows-grants :
    (test : String → Bool) (profile server : String) (rs : List EndpointTier)
    (perms : List Permission) (q s type name : String)
    → check_permission (seed_rows test profile server rs perms) q s type name ≡ (
        check_permission perms q s type name
        || (str_eq profile q && grants test server s type name rs))
unfolding seed_rows
seed_rows-grants test profile server [] perms q s type name = ground arith
seed_rows-grants test profile server (r ∷ rs) perms q s type name =
    elim (Bool-cases (str_eq r.server_id server && test r.access_tier)) [
      | inl e ↦
          rw
            (
              e,
              seed_rows-grants test profile server rs
                  (add_permission perms (granted profile server r)) q s type name,
              check_permission-add perms (granted profile server r) q s type name,
              permits-granted test profile server r q s type name e,
            )
            (ground (arith, e))
      | inr e ↦
          rw (e, seed_rows-grants test profile server rs perms q s type name) (ground (arith, e))
    ]

check_access-read : (t : String) → IsTier t → str_eq t "read" ≡ check_access "read" t
unfolding check_access
check_access-read t (inl h) = rw h
check_access-read t (inr (inl h)) = rw h
check_access-read t (inr (inr h)) = rw h

check_access-write :
    (t : String) → IsTier t → (str_eq t "read" || str_eq t "write") ≡ check_access "write" t
unfolding check_access
check_access-write t (inl h) = rw h
check_access-write t (inr (inl h)) = rw h
check_access-write t (inr (inr h)) = rw h

check_access-admin : (t : String) → IsTier t → true ≡ check_access "admin" t
unfolding check_access
check_access-admin t (inl h) = rw h
check_access-admin t (inr (inl h)) = rw h
check_access-admin t (inr (inr h)) = rw h

grants-rows :
    (f g : String → Bool) (server s type name : String) (rs : List EndpointTier)
    → ((t : String) → IsTier t → f t ≡ g t)
    → All (λ r. IsTier r.access_tier) rs
    → grants f server s type name rs ≡ grants g server s type name rs
grants-rows f g server s type name [] h rows = refl
grants-rows f g server s type name (r ∷ rs) h rows =
    rw (h r.access_tier rows.0, grants-rows f g server s type name rs h rows.1)

seed_rows-check_access :
    (test : String → Bool) (max_tier profile server : String) (tiers : List EndpointTier)
    (perms : List Permission)
    → ((t : String) → IsTier t → test t ≡ check_access max_tier t)
    → All (λ r. IsTier r.access_tier) tiers
    → (q s type name : String)
    → check_permission (seed_rows test profile server tiers perms) q s type name ≡ (
        check_permission perms q s type name
        || (str_eq profile q && grants (check_access max_tier) server s type name tiers))
seed_rows-check_access test max_tier profile server tiers perms f rows q s type name = rw (
  seed_rows-grants test profile server tiers perms q s type name,
  grants-rows test (check_access max_tier) server s type name tiers f rows,
)

-- Seeding a profile for one server succeeds for the tiers read, write and admin. Where every row
-- has one of the three tiers, the profile then has the permissions that it had, and one for each
-- endpoint of the server whose tier a user of the given level reaches; the permissions of other
-- profiles stay as they were.
pub seed_from_tier_lem :
    (profile server max_tier : String) (tiers : List EndpointTier) (perms : List Permission)
    → IsTier max_tier
    → All (λ r. IsTier r.access_tier) tiers
    → (seeded : List Permission) × (seed_from_tier profile server max_tier tiers perms
        ≡ some seeded)
      × ((q s type name : String)
          → check_permission seeded q s type name ≡ (
              check_permission perms q s type name
              || (str_eq profile q && grants (check_access max_tier) server s type name tiers)))
unfolding seed_from_tier
seed_from_tier_lem profile server max_tier tiers perms valid rows = elim valid [
  | inl h ↦
      rw h
        (_, refl, seed_rows-check_access _ "read" profile server tiers perms check_access-read rows)
  | inr (inl h) ↦
      rw h (
        _,
        refl,
        seed_rows-check_access _ "write" profile server tiers perms check_access-write rows,
      )
  | inr (inr h) ↦
      rw h (
        _,
        refl,
        seed_rows-check_access _ "admin" profile server tiers perms check_access-admin rows,
      )
]
