-- ===== src/Access/Tiers/Check.antt =====
-- Who gets through to an endpoint, by profile or by tier.
use arc_relay.Prelude.{
  ◌≡◌, ◌↔◌, ◌⊎◌, inl, inr, String, List, [], ◌∷◌, ◌++◌, Bool, true, false, ◌&&◌, ◌||◌, none, some,
  arith, any, str_eq, eq_iff, Bool-cases,
}
use arc_relay.Access.Tiers.{
  EndpointTier, User, Permission, get_tier, check_access, check_permission, add_permission,
  check_endpoint_access,
}

-- What the policy asks of a user that is no administrator.
abbrev pub IsAllowed :
    Bool → List Permission → List EndpointTier → User → String → String → String → Type 0
IsAllowed profiles perms tiers user server type name =
    ((profile : String) × (profiles ≡ true)
      × (user.profile_id ≡ some profile)
      × (check_permission perms profile server type name ≡ true))
    ⊎ (((profiles ≡ false) ⊎ (user.profile_id ≡ none))
        × (check_access user.access_level (get_tier tiers server type name) ≡ true))

-- A named endpoint is open to a user who is no administrator exactly when the user's profile, where
-- profiles are in use and the user has one, permits it, and otherwise when the user's level reaches
-- the endpoint's tier; administrators get through in any case.
pub check_endpoint_access_iff :
    (profiles : Bool) (perms : List Permission) (tiers : List EndpointTier) (user : User)
    (server type name : String)
    → str_eq type "" ≡ false
    → str_eq name "" ≡ false
    → (check_endpoint_access profiles perms tiers (some user) server type name ≡ none)
      ↔ ((user.role ≡ "admin") ⊎ IsAllowed profiles perms tiers user server type name)
unfolding check_endpoint_access
check_endpoint_access_iff profiles perms tiers user server type name t n =
    ground (arith, eq_iff user.role "admin")

unfoldable pub permits : Permission → String → String → String → String → Bool
permits p profile server type name =
    str_eq p.profile_id profile
    && (str_eq p.server_id server && (str_eq p.endpoint_type type && str_eq p.endpoint_name name))

any-append :
    (test : Permission → Bool) (ps : List Permission) (p : Permission)
    → any test (ps ++ p ∷ []) ≡ (any test ps || test p)
any-append test [] p = ground arith
any-append test (q ∷ ps) p = ground (arith, any-append test ps p)

permits-same :
    (perms : List Permission) (p : Permission) (profile server type name : String)
    → permits p profile server type name ≡ true
    → check_permission perms p.profile_id p.server_id p.endpoint_type p.endpoint_name
      ≡ check_permission perms profile server type name
unfolding permits
permits-same perms p profile server type name h = ground (
  arith,
  eq_iff p.profile_id profile,
  eq_iff p.server_id server,
  eq_iff p.endpoint_type type,
  eq_iff p.endpoint_name name,
)

-- INSERT OR IGNORE adds one permission and no other.
pub check_permission-add :
    (perms : List Permission) (p : Permission) (profile server type name : String)
    → check_permission (add_permission perms p) profile server type name
      ≡ (check_permission perms profile server type name || permits p profile server type name)
unfolding check_permission permits
check_permission-add perms p profile server type name =
    elim (Bool-cases
      (check_permission perms p.profile_id p.server_id p.endpoint_type p.endpoint_name)) [
        | inr e ↦ rw e (any-append (λ q. permits q profile server type name) perms p)
        | inl e ↦ elim (Bool-cases (permits p profile server type name)) [
          | inl h ↦ ground (arith, permits-same perms p profile server type name h, e, h)
          | inr h ↦ ground (arith, e, h)
        ]
      ]
