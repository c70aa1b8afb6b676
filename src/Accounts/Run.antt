-- ===== src/Accounts/Run.antt =====
-- Any sequence of calls on users, keys and sessions.
use arc_relay.Prelude.{ℕ, String, List, [], ◌∷◌, Bool, Option}
use arc_relay.Prelude.Text.{Text}
use arc_relay.Accounts.{
  Account, Db, create_user, update_profile, update_role, set_password, set_must_change_password,
  delete_user, ensure_admin, create_api_key, validate_api_key, revoke_api_key, create_session,
  delete_session, delete_by_user, cleanup, or_without, reset_password, change_password,
}

pub data Op : Type 0 where
  user_created : String → String → String → String → String → String → Option String → Op
  profile_set : String → Option String → Op
  role_set : String → String → Op
  password_set : String → String → String → Op
  change_forced : String → Bool → Op
  user_deleted : String → Op
  admin_ensured : String → String → String → Op
  key_created : String → String → String → Option String → List Text → Op
  key_validated : ℕ → String → Op
  key_revoked : String → Op
  session_created : String → String → ℕ → Op
  session_deleted : String → Op
  sessions_ended : String → Op
  cleaned : ℕ → Op
  password_reset : String → String → ℕ → String → Op
  password_changed : String → String → ℕ → Account → String → ℕ → String → String → Op

abbrev pub no_rows : Db
no_rows = record { users = []; keys = []; sessions = [] }

module _ (sha256 : String → String) (bcrypt : String → String → Option String)
    (matches : String → String → Bool) where
  unfoldable pub step : Op → Db → Db
  step (user_created id salt name password role level profile) db =
      or_without db (create_user bcrypt matches id salt name password role level profile db)
  step (profile_set id profile) db = update_profile id profile db
  step (role_set id role) db = update_role id role db
  step (password_set salt id password) db =
      or_without db (set_password bcrypt matches salt id password db)
  step (change_forced id must) db = set_must_change_password id must db
  step (user_deleted id) db = delete_user id db
  step (admin_ensured id salt password) db =
      or_without db (ensure_admin bcrypt matches id salt password db)
  step (key_created raw id user profile caps) db =
      or_without db (create_api_key sha256 raw id user profile caps db)
  step (key_validated now raw) db = (validate_api_key sha256 now raw db).0
  step (key_revoked id) db = revoke_api_key id db
  step (session_created id user expires_at) db =
      or_without db (create_session id user expires_at db)
  step (session_deleted id) db = delete_session id db
  step (sessions_ended user) db = delete_by_user user db
  step (cleaned now) db = cleanup now db
  step (password_reset salt id size password) db =
      reset_password bcrypt matches salt id size password db
  step (password_changed salt session now user current size password confirm) db =
      change_password bcrypt matches salt session now user current size password confirm db

  unfoldable pub run : List Op → Db → Db
  run [] db = db
  run (o ∷ os) db = run os (step o db)
