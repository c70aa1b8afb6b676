-- ===== src/Invites.antt =====
-- internal/store/invites.go: one-time invites. The table is a list of rows, `hash` is SHA-256 in hex, and
-- times are seconds. The fields that only a listing fills are left out, and so are errors of the
-- database but for a duplicate hash.
pub mod Redeem
mod Tests
use arc_relay.Prelude.{
  ℕ, suc, String, List, [], ◌∷◌, Bool, true, false, ◌&&◌, Option, none, some, ltb, if◌then◌else◌,
  not, any, keep, map, str_eq,
}

pub data Status : Type 0 where
  pending used expired : Status

pub record InviteToken : Type 0 where
  pub id : String
  pub token_hash : String
  pub role : String
  pub access_level : String
  pub profile_id : Option String
  pub created_by : String
  pub expires_at : ℕ
  pub used_at : Option ℕ
  pub redeemed_user_id : Option String
  pub status : Status

abbrev pub is_pending : Status → Bool
is_pending pending = true
is_pending _ = false

-- The level that an invite is created with.
abbrev pub level_for : String → String → String
level_for role level =
    if str_eq role "admin" then "admin" else if str_eq level "" then "write" else level

-- The condition `token_hash = ? AND status = 'pending' AND expires_at > ?`.
abbrev pub is_open : ℕ → String → InviteToken → Bool
is_open now h r = str_eq r.token_hash h && (is_pending r.status && ltb now r.expires_at)

abbrev pub has_hash : String → InviteToken → Bool
has_hash h r = str_eq r.token_hash h

abbrev pub first : (InviteToken → Bool) → List InviteToken → Option InviteToken
first p [] = none
first p (r ∷ rs) = if p r then some r else first p rs

unfoldable pub update_where :
    (InviteToken → Bool) → (InviteToken → InviteToken) → List InviteToken → List InviteToken
update_where p f [] = []
update_where p f (r ∷ rs) = (if p r then f r else r) ∷ update_where p f rs

module _ (hash : String → String) where
  -- CreateAccountInvite with the raw token and the id that it draws.
  unfoldable pub create_account_invite :
      String
      → String
      → String
      → String
      → Option String
      → String
      → ℕ
      → List InviteToken
      → Option (List InviteToken)
  create_account_invite raw id role level profile by expires_at table =
      if any (has_hash (hash raw)) table
      then none
      else some (
          record {
            id = id;
            token_hash = hash raw;
            role = role;
            access_level = level_for role level;
            profile_id = profile;
            created_by = by;
            expires_at = expires_at;
            used_at = none;
            redeemed_user_id = none;
            status = pending;
          }
          ∷ table)

  -- Peek
  unfoldable pub peek : ℕ → String → List InviteToken → Option InviteToken
  peek now raw table = first (is_open now (hash raw)) table

  abbrev pub mark_used : ℕ → String → List InviteToken → List InviteToken
  mark_used now raw =
      update_where (is_open now (hash raw)) (λ r. record r { status = used; used_at = some now })

  -- ValidateAndConsumeTx: no row that the update matches is no invite.
  unfoldable pub validate_and_consume :
      ℕ → String → List InviteToken → List InviteToken × Option InviteToken
  validate_and_consume now raw table =
      if any (is_open now (hash raw)) table
      then (mark_used now raw table, first (has_hash (hash raw)) (mark_used now raw table))
      else (table, none)

-- SetRedeemedUserTx, Delete and CleanupExpired.
unfoldable pub set_redeemed_user : String → String → List InviteToken → List InviteToken
set_redeemed_user id user =
    update_where (λ r. str_eq r.id id) (λ r. record r { redeemed_user_id = some user })

unfoldable pub delete_invite : String → List InviteToken → List InviteToken
delete_invite id = keep (λ r. not (str_eq r.id id))

unfoldable pub cleanup_expired : ℕ → List InviteToken → List InviteToken
cleanup_expired now =
    update_where (λ r. is_pending r.status && ltb r.expires_at now)
      (λ r. record r { status = expired })
