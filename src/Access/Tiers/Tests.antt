-- ===== src/Access/Tiers/Tests.antt =====
-- Tiers and permissions of a concrete server.
use arc_relay.Prelude.{
  ◌≡◌, refl, ◌↔◌, ◌⊎◌, inl, inr, String, List, [], ◌∷◌, Bool, true, false, ◌&&◌, ◌||◌, none, some,
  Some, str_eq, if◌then◌else◌,
}
use arc_relay.Access.Tiers.{
  EndpointTier, EndpointInfo, User, Permission, find_row, is_current, sync_after_enumerate,
  sync_rows, upsert, sync_row, check_access, check_permission, seed_from_tier, Denial,
  check_endpoint_access, get_tier,
}
use arc_relay.Access.Tiers.Sync.{IsClassified, sync_after_enumerate_lem}
use arc_relay.Access.Tiers.Check.{IsAllowed, check_endpoint_access_iff}
use arc_relay.Access.Tiers.Seed.{grants, seed_from_tier_lem}

abbrev row : String → String → String → Bool → EndpointTier
row server name tier auto = record {
  server_id = server;
  endpoint_type = "tool";
  endpoint_name = name;
  access_tier = tier;
  auto_classified = auto;
}

abbrev table : List EndpointTier
table =
    row "s" "drop" "read" false
    ∷ row "s" "gone" "write" true
    ∷ row "s" "get" "admin" true
    ∷ row "other" "gone" "admin" true
    ∷ []

abbrev endpoints : List EndpointInfo
endpoints =
    record { type = "tool"; name = "drop"; description = "" }
    ∷ record { type = "tool"; name = "get"; description = "" }
    ∷ record { type = "tool"; name = "new"; description = "" }
    ∷ []

abbrev classify : String → String → String → String
classify type name description = if str_eq name "get" then "read" else "admin"

synchronized :
    sync_after_enumerate classify "s" endpoints table
    ≡ row "s" "drop" "read" false
      ∷ row "s" "get" "read" true
      ∷ row "other" "gone" "admin" true
      ∷ row "s" "new" "admin" true
      ∷ []
unfolding sync_after_enumerate sync_rows sync_row upsert
synchronized = refl

sync_after_enumerate_lem_example :
    let after = sync_after_enumerate classify "s" endpoints table in
    (Some (λ ep. (ep.type ≡ "tool") × (ep.name ≡ "drop")) endpoints
      → ((r : EndpointTier)
          → find_row "s" "tool" "drop" table ≡ some r
          → r.auto_classified ≡ false
          → find_row "s" "tool" "drop" after ≡ some r)
        × ((r : EndpointTier) × (find_row "s" "tool" "drop" after ≡ some r)
            × ((r.auto_classified ≡ false) ⊎ IsClassified classify "tool" "drop" endpoints r)))
    × (is_current endpoints "tool" "drop" ≡ false → find_row "s" "tool" "drop" after ≡ none)
    × ((s : String)
        → str_eq s "s" ≡ false
        → find_row s "tool" "drop" after ≡ find_row s "tool" "drop" table)
sync_after_enumerate_lem_example =
    sync_after_enumerate_lem classify "s" endpoints table "tool" "drop"

abbrev user : User
user = record { id = "u"; role = "user"; access_level = "write"; profile_id = none }

refused :
    check_endpoint_access true [] table (some user) "other" "tool" "gone"
    ≡ some (Denial.requires_level "admin")
unfolding check_endpoint_access check_access get_tier
refused = refl

check_endpoint_access_iff_example :
    (check_endpoint_access true [] table (some user) "other" "tool" "gone" ≡ none)
    ↔ ((user.role ≡ "admin") ⊎ IsAllowed true [] table user "other" "tool" "gone")
check_endpoint_access_iff_example =
    check_endpoint_access_iff true [] table user "other" "tool" "gone" refl refl

seed_from_tier_lem_example :
    (seeded : List Permission) × (seed_from_tier "p" "s" "write" table [] ≡ some seeded)
    × ((q s type name : String)
        → check_permission seeded q s type name ≡ (
            check_permission [] q s type name
            || (str_eq "p" q && grants (check_access "write") "s" s type name table)))
seed_from_tier_lem_example =
    seed_from_tier_lem "p" "s" "write" table [] (inr (inl refl))
      (inl refl, (inr (inl refl), (inr (inr refl), (inr (inr refl), tt))))
