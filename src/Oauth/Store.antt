-- ===== src/Oauth/Store.antt =====
-- The state of the OAuth provider: the code store of internal/web/oauth_provider.go and the tables of
-- internal/store/oauth_clients.go and internal/store/oauth_tokens.go. Times are seconds.
use arc_relay.Prelude.{
  ℕ, String, List, [], ◌∷◌, Bool, Option, none, some, ltb, if◌then◌else◌, not, any, keep, str_eq,
}
use arc_relay.Prelude.Maps.{StrMap, delete}

pub record OAuthClient : Type 0 where
  pub client_secret_hash : String
  pub redirect_uris : List String
  pub token_endpoint_auth_method : String

pub record OAuthAuthCode : Type 0 where
  pub client_id : String
  pub user_id : String
  pub redirect_uri : String
  pub code_challenge : String
  pub scope : String
  pub resource : String
  pub expires_at : ℕ

-- A row of oauth_tokens or of oauth_refresh_tokens.
pub record TokenRow : Type 0 where
  pub token_hash : String
  pub user_id : String
  pub client_id : String
  pub scope : String
  pub resource : String
  pub expires_at : ℕ

pub record OAuthProvider : Type 0 where
  pub clients : StrMap OAuthClient
  pub codes : StrMap OAuthAuthCode
  pub tokens : List TokenRow
  pub refresh_tokens : List TokenRow

-- HasRedirectURI
abbrev pub has_redirect_uri : OAuthClient → String → Bool
has_redirect_uri c uri = any (λ registered. str_eq registered uri) c.redirect_uris

abbrev pub is_expired : ℕ → ℕ → Bool
is_expired now expires_at = ltb expires_at now

-- consume of the code store: the code is deleted in any case.
abbrev pub unexpired : ℕ → Option OAuthAuthCode → Option OAuthAuthCode
unexpired now none = none
unexpired now (some ac) = if is_expired now ac.expires_at then none else some ac

unfoldable pub consume_code : ℕ → String → OAuthProvider → OAuthProvider × Option OAuthAuthCode
consume_code now code p = (record p { codes = delete p.codes code }, unexpired now (p.codes code))

abbrev pub find_token : String → List TokenRow → Option TokenRow
find_token h [] = none
find_token h (r ∷ rs) = if str_eq r.token_hash h then some r else find_token h rs

-- Create of the token stores, whose primary key is the hash. `none` is an error.
abbrev pub unless_taken : TokenRow → List TokenRow → Option TokenRow → Option (List TokenRow)
unless_taken row rows none = some (row ∷ rows)
unless_taken row rows (some _) = none

abbrev pub create_token : TokenRow → List TokenRow → Option (List TokenRow)
create_token row rows = unless_taken row rows (find_token row.token_hash rows)

-- A consumed refresh token: its row is deleted, expired or not.
abbrev pub consume_row :
    ℕ → String → OAuthProvider → Option TokenRow → OAuthProvider × Option TokenRow
consume_row now token_hash p none = (p, none)
consume_row now token_hash p (some r) = (
  record p {
    refresh_tokens = keep (λ row. not (str_eq row.token_hash token_hash)) p.refresh_tokens;
  },
  if is_expired now r.expires_at then none else some r,
)

unfoldable pub consume_refresh_token : ℕ → String → OAuthProvider → OAuthProvider × Option TokenRow
consume_refresh_token now token_hash p =
    consume_row now token_hash p (find_token token_hash p.refresh_tokens)
