-- ===== src/Access/Tiers.antt =====
-- internal/store/access.go, the profile permissions of internal/store/profiles.go, and
-- checkEndpointAccess of internal/server/http.go.
pub mod Rows
pub mod Sync
pub mod Check
pub mod Seed
mod Tests
use Prim.Native.String.{◌++◌ as str_append}
use arc_relay.Prelude.{
  ℕ, String, List, [], ◌∷◌, ◌++◌, Bool, true, false, ◌&&◌, ◌||◌, Option, none, some, leb,
  if◌then◌else◌, any, keep, not, str_eq, map,
}

-- A row of endpoint_access_tiers. A tier is a text in the table.
pub record EndpointTier : Type 0 where
  pub server_id : String
  pub endpoint_type : String
  pub endpoint_name : String
  pub access_tier : String
  pub auto_classified : Bool

pub record EndpointInfo : Type 0 where
  pub type : String
  pub name : String
  pub description : String

-- The primary key (server_id, endpoint_type, endpoint_name).
abbrev pub has_key : String → String → String → EndpointTier → Bool
has_key server type name r =
    str_eq r.server_id server && (str_eq r.endpoint_type type && str_eq r.endpoint_name name)

abbrev pub find_row : String → String → String → List EndpointTier → Option EndpointTier
find_row server type name [] = none
find_row server type name (r ∷ rs) =
    if has_key server type name r then some r else find_row server type name rs

-- GetTier
unfoldable pub get_tier : List EndpointTier → String → String → String → String
get_tier table server type name = elim (find_row server type name table) [
  | none ↦ "write"
  | some r ↦ r.access_tier
]

-- INSERT … ON CONFLICT DO UPDATE of the first row with the key, by `f`; otherwise `r` is appended.
unfoldable pub upsert :
    String
    → String
    → String
    → (EndpointTier → EndpointTier)
    → EndpointTier
    → List EndpointTier
    → List EndpointTier
upsert server type name f r [] = r ∷ []
upsert server type name f r (x ∷ xs) =
    if has_key server type name x then f x ∷ xs else x ∷ upsert server type name f r xs

-- SetTier
unfoldable pub set_tier : String → String → String → String → List EndpointTier → List EndpointTier
set_tier server type name tier =
    upsert server type name (λ x. record x { access_tier = tier; auto_classified = false })
      (record {
        server_id = server;
        endpoint_type = type;
        endpoint_name = name;
        access_tier = tier;
        auto_classified = false;
      })

-- The upsert of SyncAfterEnumerate, whose update has `WHERE auto_classified = TRUE`.
unfoldable pub sync_row : String → EndpointInfo → String → List EndpointTier → List EndpointTier
sync_row server ep tier =
    upsert server ep.type ep.name
      (λ x. if x.auto_classified then record x { access_tier = tier } else x)
      (record {
        server_id = server;
        endpoint_type = ep.type;
        endpoint_name = ep.name;
        access_tier = tier;
        auto_classified = true;
      })

-- The loop over the endpoints; `classify` is the function that the caller passes.
unfoldable pub sync_rows :
    (String → String → String → String)
    → String
    → List EndpointInfo
    → List EndpointTier
    → List EndpointTier
sync_rows classify server [] table = table
sync_rows classify server (ep ∷ eps) table =
    sync_rows classify server eps
      (sync_row server ep (classify ep.type ep.name ep.description) table)

-- The key "type:name" of the set `current`.
abbrev pub join : String → String → String
join type name = str_append type (str_append ":" name)

abbrev pub is_current : List EndpointInfo → String → String → Bool
is_current eps type name = any (λ ep. str_eq (join ep.type ep.name) (join type name)) eps

-- SyncAfterEnumerate.
unfoldable pub sync_after_enumerate :
    (String → String → String → String)
    → String
    → List EndpointInfo
    → List EndpointTier
    → List EndpointTier
sync_after_enumerate classify server eps table =
    keep (λ r. not (str_eq r.server_id server) || is_current eps r.endpoint_type r.endpoint_name)
      (sync_rows classify server eps table)

-- tierLevel
abbrev pub tier_level : String → ℕ
tier_level tier =
    if str_eq tier "read"
    then 1
    else if str_eq tier "write"
    then 2
    else if str_eq tier "admin"
    then 3
    else 2

-- CheckAccess
unfoldable pub check_access : String → String → Bool
check_access user_level endpoint_tier = leb (tier_level endpoint_tier) (tier_level user_level)

pub record User : Type 0 where
  pub id : String
  pub role : String
  pub access_level : String
  pub profile_id : Option String

-- A row of profile_permissions.
pub record Permission : Type 0 where
  pub profile_id : String
  pub server_id : String
  pub endpoint_type : String
  pub endpoint_name : String

-- CheckPermission
unfoldable pub check_permission : List Permission → String → String → String → String → Bool
check_permission perms profile server type name =
    any
      (λ p.
        str_eq p.profile_id profile
        && (str_eq p.server_id server
            && (str_eq p.endpoint_type type && str_eq p.endpoint_name name)))
      perms

-- SeedFromTier: the rows that INSERT OR IGNORE adds for one server. `none` is an invalid tier.
abbrev pub tier_condition : String → Option (String → Bool)
tier_condition max_tier =
    if str_eq max_tier "read"
    then some (λ t. str_eq t "read")
    else if str_eq max_tier "write"
    then some (λ t. str_eq t "read" || str_eq t "write")
    else if str_eq max_tier "admin"
    then some (λ t. true)
    else none

abbrev pub add_permission : List Permission → Permission → List Permission
add_permission perms p =
    if check_permission perms p.profile_id p.server_id p.endpoint_type p.endpoint_name
    then perms
    else perms ++ p ∷ []

unfoldable pub seed_rows :
    (String → Bool) → String → String → List EndpointTier → List Permission → List Permission
seed_rows test profile server [] perms = perms
seed_rows test profile server (r ∷ rs) perms = seed_rows test profile server rs (
    if str_eq r.server_id server && test r.access_tier
    then add_permission perms (record {
      profile_id = profile;
      server_id = server;
      endpoint_type = r.endpoint_type;
      endpoint_name = r.endpoint_name;
    })
    else perms)

unfoldable pub seed_from_tier :
    String → String → String → List EndpointTier → List Permission → Option (List Permission)
seed_from_tier profile server max_tier tiers perms = elim (tier_condition max_tier) [
  | none ↦ none
  | some test ↦ some (seed_rows test profile server tiers perms)
]

-- Why a call is refused; `none` lets it through.
pub data Denial : Type 0 where
  not_permitted_by_profile : Denial
  requires_level : String → Denial

abbrev by_profile : Bool → Option Denial
by_profile true = none
by_profile false = some not_permitted_by_profile

abbrev by_tier : String → String → Option Denial
by_tier level tier = if check_access level tier then none else some (requires_level tier)

-- checkEndpointAccess after extractEndpointName; `profiles` says whether the server has a profile
-- store. A nil user is a request of the relay itself.
unfoldable pub check_endpoint_access :
    Bool
    → List Permission
    → List EndpointTier
    → Option User
    → String
    → String
    → String
    → Option Denial
check_endpoint_access profiles perms tiers none server type name = none
check_endpoint_access profiles perms tiers (some user) server type name =
    if str_eq user.role "admin"
    then none
    else if str_eq type "" || str_eq name ""
    then none
    else elim user.profile_id [
      | none ↦ by_tier user.access_level (get_tier tiers server type name)
      | some profile ↦
          if profiles
          then by_profile (check_permission perms profile server type name)
          else by_tier user.access_level (get_tier tiers server type name)
    ]
