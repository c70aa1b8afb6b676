-- ===== src/Oauth/Handlers.antt =====
-- The handlers of internal/web/oauth_provider.go: the consent form, the code exchange and the refresh.
-- `hash` is SHA-256 in hex and `challenge` the PKCE code challenge; codes and tokens are drawn at
-- random, so they are arguments, with `none` where the source of randomness fails.
use arc_relay.Prelude.{
  ℕ, ◌+◌, String, List, Bool, true, false, ◌&&◌, ◌||◌, Option, none, some, if◌then◌else◌, not,
  str_eq,
}
use arc_relay.Prelude.Maps.{update}
use arc_relay.Oauth.Store.{
  OAuthClient, OAuthAuthCode, TokenRow, OAuthProvider, has_redirect_uri, is_expired, consume_code,
  find_token, create_token, consume_refresh_token,
}

pub data Response : Type 0 where
  invalid_request invalid_client invalid_grant server_error : Response
  issued : String → String → String → Response

-- What a token is issued for.
pub record Grant : Type 0 where
  pub user_id : String
  pub client_id : String
  pub scope : String
  pub resource : String

abbrev pub row_of : Grant → String → ℕ → TokenRow
row_of g token_hash expires_at = record {
  token_hash = token_hash;
  user_id = g.user_id;
  client_id = g.client_id;
  scope = g.scope;
  resource = g.resource;
  expires_at = expires_at;
}

abbrev pub one_hour : ℕ
one_hour = 3600

abbrev pub thirty_days : ℕ
thirty_days = 2_592_000

abbrev pub is_confidential : OAuthClient → Bool
is_confidential c = str_eq c.token_endpoint_auth_method "client_secret_post"

pub record TokenRequest : Type 0 where
  pub code : String
  pub redirect_uri : String
  pub client_id : String
  pub code_verifier : String
  pub client_secret : String

pub record RefreshRequest : Type 0 where
  pub refresh_token : String
  pub client_id : String

-- The raw access and refresh token that a request draws.
pub record Draw : Type 0 where
  pub now : ℕ
  pub access : String
  pub refresh : String

pub record AuthorizeRequest : Type 0 where
  pub user_id : String
  pub deny : Bool
  pub client_id : String
  pub redirect_uri : String
  pub code_challenge : String
  pub scope : String
  pub resource : String

pub data Authorized : Type 0 where
  unknown_application invalid_redirect access_denied internal_error : Authorized
  code_issued : String → Authorized

abbrev pub or_mcp : String → String
or_mcp scope = if str_eq scope "" then "mcp" else scope

-- create of the code store, for an approved request.
abbrev pub create_code :
    ℕ → Option String → AuthorizeRequest → OAuthProvider → OAuthProvider × Authorized
create_code now none r p = (p, internal_error)
create_code now (some code) r p = (
  record p {
    codes = update p.codes code (record {
      client_id = r.client_id;
      user_id = r.user_id;
      redirect_uri = r.redirect_uri;
      code_challenge = r.code_challenge;
      scope = or_mcp r.scope;
      resource = r.resource;
      expires_at = now + 300;
    });
  },
  code_issued code,
)

-- handleOAuthAuthorizePost for a user who is logged in, as far as the provider's state and the kind
-- of the answer go. `parses` says whether the registered redirect URI is a URL.
unfoldable pub authorize_client :
    (String → Bool)
    → ℕ
    → Option String
    → AuthorizeRequest
    → OAuthProvider
    → Option OAuthClient
    → OAuthProvider × Authorized
authorize_client parses now drawn r p none = (p, unknown_application)
authorize_client parses now drawn r p (some c) =
    if str_eq r.redirect_uri "" || not (has_redirect_uri c r.redirect_uri)
    then (p, invalid_redirect)
    else if not (parses r.redirect_uri)
    then (p, invalid_redirect)
    else if r.deny
    then (p, access_denied)
    else create_code now drawn r p

unfoldable pub authorize_post :
    (String → Bool)
    → ℕ
    → Option String
    → AuthorizeRequest
    → OAuthProvider
    → OAuthProvider × Authorized
authorize_post parses now drawn r p = authorize_client parses now drawn r p (p.clients r.client_id)

module _ (hash challenge : String → String) where
  -- ValidateSecret
  abbrev pub validate_secret : OAuthClient → String → Bool
  validate_secret c secret =
      if str_eq c.client_secret_hash "" then true else str_eq (hash secret) c.client_secret_hash

  -- mintAccessToken and mintRefreshToken one after the other. Where the second fails, the access token
  -- stays in its table.
  unfoldable pub after_refresh :
      Draw → Grant → OAuthProvider → Option (List TokenRow) → OAuthProvider × Response
  after_refresh d g p none = (p, server_error)
  after_refresh d g p (some rows) =
      (record p { refresh_tokens = rows }, issued d.access d.refresh g.scope)

  abbrev pub refresh_row : Draw → Grant → TokenRow
  refresh_row d g = row_of g (hash d.refresh) (d.now + thirty_days)

  unfoldable pub after_access :
      Draw → Grant → OAuthProvider → Option (List TokenRow) → OAuthProvider × Response
  after_access d g p none = (p, server_error)
  after_access d g p (some rows) =
      after_refresh d g (record p { tokens = rows })
        (create_token (refresh_row d g) p.refresh_tokens)

  abbrev pub access_row : Draw → Grant → TokenRow
  access_row d g = row_of g (hash d.access) (d.now + one_hour)

  unfoldable pub mint : Draw → Grant → OAuthProvider → OAuthProvider × Response
  mint d g p = after_access d g p (create_token (access_row d g) p.tokens)

  -- The checks on a consumed code.
  unfoldable pub redeem :
      TokenRequest → Draw → OAuthProvider → Option OAuthAuthCode → OAuthProvider × Response
  redeem r d p none = (p, invalid_grant)
  redeem r d p (some ac) =
      if not (str_eq ac.client_id r.client_id)
      then (p, invalid_grant)
      else if not (str_eq ac.redirect_uri r.redirect_uri)
      then (p, invalid_grant)
      else if not (str_eq (challenge r.code_verifier) ac.code_challenge)
      then (p, invalid_grant)
      else mint d
          (record {
            user_id = ac.user_id;
            client_id = r.client_id;
            scope = ac.scope;
            resource = ac.resource;
          })
          p

  -- handleTokenAuthorizationCode
  unfoldable pub exchange :
      TokenRequest → Draw → OAuthProvider → Option OAuthClient → OAuthProvider × Response
  exchange r d p none = (p, invalid_client)
  exchange r d p (some c) =
      if is_confidential c && not (validate_secret c r.client_secret)
      then (p, invalid_client)
      else redeem r d (consume_code d.now r.code p).0 (consume_code d.now r.code p).1

  unfoldable pub token_authorization_code :
      TokenRequest → Draw → OAuthProvider → OAuthProvider × Response
  token_authorization_code r d p =
      if str_eq r.code "" || str_eq r.client_id "" || str_eq r.code_verifier ""
      then (p, invalid_request)
      else exchange r d p (p.clients r.client_id)

  unfoldable pub rotate :
      RefreshRequest → Draw → OAuthProvider → Option TokenRow → OAuthProvider × Response
  rotate r d p none = (p, invalid_grant)
  rotate r d p (some rt) =
      if not (str_eq r.client_id "") && not (str_eq rt.client_id r.client_id)
      then (p, invalid_grant)
      else mint d
          (record {
            user_id = rt.user_id;
            client_id = rt.client_id;
            scope = rt.scope;
            resource = rt.resource;
          })
          p

  abbrev pub is_unknown_client : String → Option OAuthClient → Bool
  is_unknown_client id (some c) = false
  is_unknown_client id none = not (str_eq id "")

  -- handleTokenRefresh
  unfoldable pub token_refresh : RefreshRequest → Draw → OAuthProvider → OAuthProvider × Response
  token_refresh r d p =
      if str_eq r.refresh_token ""
      then (p, invalid_request)
      else if is_unknown_client r.client_id (p.clients r.client_id)
      then (p, invalid_client)
      else rotate r d (consume_refresh_token d.now (hash r.refresh_token) p).0
          (consume_refresh_token d.now (hash r.refresh_token) p).1

  abbrev pub user_of : ℕ → Option TokenRow → Option String
  user_of now none = none
  user_of now (some r) = if is_expired now r.expires_at then none else some r.user_id

  -- Validate of the token store, as far as the user's id.
  unfoldable pub validate : ℕ → String → OAuthProvider → Option String
  validate now raw p = user_of now (find_token (hash raw) p.tokens)
