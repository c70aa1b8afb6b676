-- ===== src/Accounts/Tests.antt =====
-- An administrator, a user, a key and two sessions.
use arc_relay.Prelude.{
  ◌≡◌, ◌≢◌, refl, ◌↔◌, ◌⊎◌, String, List, [], ◌∷◌, true, false, none, some, str_eq, Some,
  if◌then◌else◌, Option,
}
use arc_relay.Prelude.Text.{codes, trim_space}
use arc_relay.Access.Tiers.{check_endpoint_access}
use arc_relay.Accounts.{
  Account, ApiKey, Db, get, get_session, user_of, update_role, revoke_api_key, validate_api_key,
  change_password, delete_by_user, authenticate, create_api_key, create_user, set_password,
  get_by_username, create_session, ensure_admin,
}
use arc_relay.Accounts.Capabilities.{
  key_has_capability, normalize_capabilities, IsGranted, normalize_capabilities_iff,
}
use arc_relay.Accounts.Run.{
  Op, user_created, admin_ensured, key_created, key_validated, session_created, role_set, run, step,
  no_rows,
}
use arc_relay.Accounts.Roles.{run-leveled, update_role-keeps_access}
use arc_relay.Accounts.Keys.{IsOther, revoke_api_key-validate}
use arc_relay.Accounts.Sessions.{change_password-sessions}

abbrev identity : String → String
identity s = s

abbrev mix : String → String → Option String
mix salt password = if str_eq password "too long" then none else some password

abbrev calls : List Op
calls =
    admin_ensured "1" "salt" "secret"
    ∷ user_created "2" "salt" "u" "password" "user" "" (some "p")
    ∷ key_created "raw" "k" "2" none (codes " skills:write " ∷ codes "" ∷ codes "skills:write" ∷ [])
    ∷ session_created "s" "2" 100
    ∷ []

abbrev admin : Account
admin = record {
  id = "1";
  username = "admin";
  password_hash = "secret";
  role = "admin";
  access_level = "admin";
  default_profile_id = none;
  must_change_password = false;
}

abbrev user : Account
user = record {
  id = "2";
  username = "u";
  password_hash = "password";
  role = "user";
  access_level = "write";
  default_profile_id = some "p";
  must_change_password = false;
}

abbrev key : ApiKey
key = record {
  id = "k";
  user_id = "2";
  key_hash = "raw";
  profile_id = none;
  last_used = none;
  revoked = false;
  capabilities = some (codes "skills:write" ∷ []);
}

abbrev db : Db
db = record {
  users = admin ∷ user ∷ [];
  keys = key ∷ [];
  sessions = record { id = "s"; user_id = "2"; expires_at = 100 } ∷ [];
}

after_calls : run identity mix str_eq calls no_rows ≡ db
unfolding run step create_session create_api_key create_user ensure_admin normalize_capabilities
    trim_space
after_calls = refl

key_used : (validate_api_key identity 7 "raw" db).1 ≡ some (user_of user (some "p"), key)
unfolding validate_api_key get
key_used = refl

changed :
    (change_password mix str_eq "salt" "t" 7 user "password" 8 "password2" "password2" db).sessions
    ≡ record { id = "t"; user_id = "2"; expires_at = 2592007 } ∷ []
unfolding change_password authenticate get_by_username create_session delete_by_user set_password
changed = refl

unhashed : change_password mix str_eq "salt" "t" 7 user "password" 8 "too long" "too long" db ≡ db
unfolding change_password authenticate get_by_username set_password
unhashed = refl

refused : change_password mix str_eq "salt" "t" 7 user "wrong" 8 "password2" "password2" db ≡ db
unfolding change_password authenticate get_by_username
refused = refl

normalize_capabilities_iff_example :
    (key_has_capability
        (some (normalize_capabilities (codes " skills:write " ∷ codes "" ∷ [])))
        (codes "skills:publish")
      ≡ true)
    ↔ Some
        (λ c. (trim_space c ≢ []) × IsGranted (codes "skills:publish") (trim_space c))
        (codes " skills:write " ∷ codes "" ∷ [])
normalize_capabilities_iff_example =
    normalize_capabilities_iff (codes "skills:publish") (codes " skills:write " ∷ codes "" ∷ [])

admin_found : get (run identity mix str_eq calls no_rows) "1" ≡ some admin
unfolding get run step create_session create_api_key create_user ensure_admin
admin_found = refl

run-leveled_example : admin.access_level ≡ "admin"
run-leveled_example = run-leveled identity mix str_eq calls "1" admin admin_found refl

update_role-keeps_access_example :
    (get (update_role "1" "user" (run identity mix str_eq calls no_rows)) "1"
      ≡ some (record admin { role = "user" }))
    × (check_endpoint_access true [] []
          (some (user_of (record admin { role = "user" }) none))
          "s"
          "tool"
          "delete_all"
        ≡ none)
update_role-keeps_access_example =
    update_role-keeps_access identity mix str_eq calls "1" admin [] [] "s" "tool" "delete_all"
      admin_found refl

revoke_api_key-validate_example :
    IsOther "k"
      (validate_api_key identity 9 "raw" (
        run identity mix str_eq
          (key_validated 8 "raw" ∷ role_set "2" "admin" ∷ [])
          (revoke_api_key "k" db))).1
revoke_api_key-validate_example =
    revoke_api_key-validate identity mix str_eq "k" "raw" 9
      (key_validated 8 "raw" ∷ role_set "2" "admin" ∷ []) db (refl, (refl, tt))

abbrev new_id : String
new_id = "t"

new_session :
    get_session 8
      (change_password mix str_eq "salt" "t" 7 user "password" 8 "password2" "password2" db)
      "t"
    ≡ some (user_of user (some "p"), 2592007)
unfolding get_session change_password authenticate get_by_username create_session delete_by_user
    set_password get
new_session = refl

change_password-sessions_example :
    (change_password mix str_eq "salt" "t" 7 user "password" 8 "password2" "password2" db ≡ db)
    ⊎ ((user.id ≢ user.id) ⊎ (new_id ≡ new_id))
change_password-sessions_example =
    change_password-sessions mix str_eq "salt" "t" "password" "password2" "password2" "t" 7 8 8
      2592007 user (user_of user (some "p")) db new_session
