-- ===== src/Accounts.antt =====
-- internal/store/users.go and internal/store/sessions.go: users, API keys and web sessions, and the
-- password handlers of internal/web/handlers.go over them. `sha256` is the hash of a key in hex,
-- `bcrypt` makes a password hash from a salt or refuses the password, `matches` compares one with a password. Times are
-- seconds. Names of keys and times that are only shown are left out.
pub mod Capabilities
pub mod Run
pub mod Levels
pub mod Roles
pub mod Keys
pub mod Sessions
mod Tests
use arc_relay.Prelude.{
  ℕ, ◌+◌, String, List, [], ◌∷◌, ◌++◌, Bool, true, false, ◌&&◌, ◌||◌, Option, none, some, not, ltb,
  if◌then◌else◌, any, keep, str_eq, map, length,
}
use arc_relay.Prelude.Text.{Text}
use arc_relay.Access.Tiers.{User}
use arc_relay.Accounts.Capabilities.{normalize_capabilities}

-- A row of users.
pub record Account : Type 0 where
  pub id : String
  pub username : String
  pub password_hash : String
  pub role : String
  pub access_level : String
  pub default_profile_id : Option String
  pub must_change_password : Bool

-- A row of api_keys. `capabilities` is `none` where the column does not decode.
pub record ApiKey : Type 0 where
  pub id : String
  pub user_id : String
  pub key_hash : String
  pub profile_id : Option String
  pub last_used : Option ℕ
  pub revoked : Bool
  pub capabilities : Option (List Text)

pub record Session : Type 0 where
  pub id : String
  pub user_id : String
  pub expires_at : ℕ

pub record Db : Type 0 where
  pub users : List Account
  pub keys : List ApiKey
  pub sessions : List Session

module _ {A : Type 0} where
  abbrev pub first : (A → Bool) → List A → Option A
  first p [] = none
  first p (x ∷ xs) = if p x then some x else first p xs

  abbrev pub update_where : (A → Bool) → (A → A) → List A → List A
  update_where p f [] = []
  update_where p f (x ∷ xs) = (if p x then f x else x) ∷ update_where p f xs

-- Get and GetByUsername.
abbrev pub has_id : String → Account → Bool
has_id id u = str_eq u.id id

unfoldable pub get : Db → String → Option Account
get db id = first (has_id id) db.users

unfoldable pub get_by_username : Db → String → Option Account
get_by_username db name = first (λ u. str_eq u.username name) db.users

-- The access level of a new user.
abbrev pub new_level : String → String → String
new_level role level =
    if str_eq role "admin" then "admin" else if str_eq level "" then "write" else level

-- The row violates the primary key or the unique user name.
abbrev pub is_taken : String → String → Account → Bool
is_taken id name u = str_eq u.id id || str_eq u.username name

-- Updates of one user.
abbrev pub with_user : String → (Account → Account) → Db → Db
with_user id f db = record db { users = update_where (has_id id) f db.users }

unfoldable pub update_profile : String → Option String → Db → Db
update_profile id profile = with_user id (λ u. record u { default_profile_id = profile })

-- UpdateRole with its two statements.
unfoldable pub update_role : String → String → Db → Db
update_role id role db =
    let after = with_user id (λ u. record u { role = role }) db in
    if str_eq role "admin"
    then with_user id (λ u. record u { access_level = "admin" }) after
    else after

unfoldable pub set_must_change_password : String → Bool → Db → Db
set_must_change_password id must = with_user id (λ u. record u { must_change_password = must })

-- Delete, with ON DELETE CASCADE of the keys and the sessions.
unfoldable pub delete_user : String → Db → Db
delete_user id db = record {
  users = keep (λ u. not (has_id id u)) db.users;
  keys = keep (λ k. not (str_eq k.user_id id)) db.keys;
  sessions = keep (λ s. not (str_eq s.user_id id)) db.sessions;
}

-- RevokeAPIKey
unfoldable pub revoke_api_key : String → Db → Db
revoke_api_key id db = record db {
  keys = update_where (λ k. str_eq k.id id) (λ k. record k { revoked = true }) db.keys;
}

-- The session store: Create (`none` if the id is taken or there is no such user), Get, Delete,
-- DeleteByUser and Cleanup.
unfoldable pub create_session : String → String → ℕ → Db → Option Db
create_session id user expires_at db =
    if any (λ s. str_eq s.id id) db.sessions || not (any (has_id user) db.users)
    then none
    else some (record db {
      sessions = record { id = id; user_id = user; expires_at = expires_at } ∷ db.sessions;
    })

-- The user as the handlers see it, with an effective profile.
abbrev pub user_of : Account → Option String → User
user_of u profile = record {
  id = u.id;
  role = u.role;
  access_level = u.access_level;
  profile_id = profile;
}

abbrev pub joined : Option Account → ℕ → Option (User × ℕ)
joined none expires_at = none
joined (some u) expires_at = some (user_of u u.default_profile_id, expires_at)

abbrev pub session_user : Db → Option Session → Option (User × ℕ)
session_user db none = none
session_user db (some s) = joined (get db s.user_id) s.expires_at

unfoldable pub get_session : ℕ → Db → String → Option (User × ℕ)
get_session now db id =
    session_user db (first (λ s. str_eq s.id id && ltb now s.expires_at) db.sessions)

unfoldable pub delete_session : String → Db → Db
delete_session id db = record db { sessions = keep (λ s. not (str_eq s.id id)) db.sessions }

unfoldable pub delete_by_user : String → Db → Db
delete_by_user user db = record db {
  sessions = keep (λ s. not (str_eq s.user_id user)) db.sessions;
}

unfoldable pub cleanup : ℕ → Db → Db
cleanup now db = record db { sessions = keep (λ s. not (ltb s.expires_at now)) db.sessions }

abbrev pub is_none : {A : Type 0} → Option A → Bool
is_none none = true
is_none (some a) = false

abbrev pub or_without : Db → Option Db → Db
or_without db none = db
or_without db (some after) = after

-- The effective profile: that of the key, else the user's default.
abbrev pub or_default : Option String → Option String → Option String
or_default (some p) default = some p
or_default none default = default

abbrev pub with_key : ApiKey → Option Account → Option (User × ApiKey)
with_key k none = none
with_key k (some u) = some (user_of u (or_default k.profile_id u.default_profile_id), k)

abbrev pub mark_key_used : ℕ → String → Db → Db
mark_key_used now h db = record db {
  keys = update_where (λ k. str_eq k.key_hash h) (λ k. record k { last_used = some now }) db.keys;
}

abbrev pub unless_revoked : ℕ → Db → Option ApiKey → Db × Option (User × ApiKey)
unless_revoked now db none = (db, none)
unless_revoked now db (some k) =
    if k.revoked
    then (db, none)
    else (mark_key_used now k.key_hash db, with_key k (get db k.user_id))

module _ (sha256 : String → String) where
  -- CreateAPIKey with the raw key and the id that are drawn; `none` if there is no such user.
  unfoldable pub create_api_key :
      String → String → String → Option String → List Text → Db → Option Db
  create_api_key raw id user profile capabilities db =
      if any (λ k. str_eq k.id id) db.keys || not (any (has_id user) db.users)
      then none
      else some (record db {
        keys =
            db.keys
            ++ record {
              id = id;
              user_id = user;
              key_hash = sha256 raw;
              profile_id = profile;
              last_used = none;
              revoked = false;
              capabilities = some (normalize_capabilities capabilities);
            }
              ∷ [];
      })

  -- ValidateAPIKey
  unfoldable pub validate_api_key : ℕ → String → Db → Db × Option (User × ApiKey)
  validate_api_key now raw db =
      unless_revoked now db (first (λ k. str_eq k.key_hash (sha256 raw)) db.keys)

abbrev pub raise_admins : List Account → List Account
raise_admins =
    update_where (λ u. str_eq u.role "admin" && not (str_eq u.access_level "admin"))
      (λ u. record u { access_level = "admin" })

abbrev pub unless_empty : Db → List Account → Option Db → Option Db
unless_empty db [] fresh = fresh
unless_empty db (u ∷ us) fresh = some (record db { users = raise_admins (u ∷ us) })

module _ (bcrypt : String → String → Option String) (matches : String → String → Bool) where
  -- CreateWithAccessLevel with the id and the salt that are drawn; a password that cannot be hashed
  -- makes no user.
  abbrev pub created :
      String → String → Option String → String → String → Option String → Db → Option Db
  created id name none role level profile db = none
  created id name (some hash) role level profile db =
      if any (is_taken id name) db.users
      then none
      else some (record db {
        users =
            db.users
            ++ record {
              id = id;
              username = name;
              password_hash = hash;
              role = role;
              access_level = new_level role level;
              default_profile_id = profile;
              must_change_password = false;
            }
              ∷ [];
      })

  unfoldable pub create_user :
      String → String → String → String → String → String → Option String → Db → Option Db
  create_user id salt name password role level profile db =
      created id name (bcrypt salt password) role level profile db

  abbrev pub if_matches : Option Account → String → Option Account
  if_matches none password = none
  if_matches (some u) password = if matches u.password_hash password then some u else none

  -- Authenticate
  unfoldable pub authenticate : Db → String → String → Option Account
  authenticate db name password = if_matches (get_by_username db name) password

  -- SetPassword, `none` for a password that cannot be hashed.
  abbrev pub hashed : Option String → String → Db → Option Db
  hashed none id db = none
  hashed (some hash) id db =
      some (with_user id (λ u. record u { password_hash = hash; must_change_password = false }) db)

  unfoldable pub set_password : String → String → String → Db → Option Db
  set_password salt id password db = hashed (bcrypt salt password) id db

  -- EnsureAdmin: the first start creates the admin user, later ones raise the admins' level.
  unfoldable pub ensure_admin : String → String → String → Db → Option Db
  ensure_admin id salt password db =
      unless_empty db db.users (create_user id salt "admin" password "admin" "" none db)

  -- handleUserResetPassword of an admin: the size is that of the new password in bytes.
  abbrev pub reset_with : String → Db → Option Db → Db
  reset_with id db none = db
  reset_with id db (some after) = delete_by_user id (set_must_change_password id true after)

  unfoldable pub reset_password : String → String → ℕ → String → Db → Db
  reset_password salt id size password db =
      if ltb size 8 || not (any (has_id id) db.users)
      then db
      else reset_with id db (set_password salt id password db)

  -- The account page for a user who is logged in: the new password is confirmed, the current one is
  -- asked for unless the change is forced, all sessions end, and a new one of thirty days begins.
  abbrev pub renewed : String → String → ℕ → Db → Db
  renewed session user now db = or_without db (create_session session user (now + 2592000) db)

  abbrev pub change_with : String → String → ℕ → Db → Option Db → Db
  change_with session user now db none = db
  change_with session user now db (some after) =
      renewed session user now (delete_by_user user after)

  unfoldable pub change_password :
      String → String → ℕ → Account → String → ℕ → String → String → Db → Db
  change_password salt session now user current size password confirm db =
      if not user.must_change_password && is_none (authenticate db user.username current)
      then db
      else if ltb size 8
      then db
      else if not (str_eq password confirm)
      then db
      else change_with session user.id now db (set_password salt user.id password db)
