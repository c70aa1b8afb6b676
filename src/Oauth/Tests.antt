-- ===== src/Oauth/Tests.antt =====
-- A code exchange and a refresh with toy functions in place of the hashes.
use arc_relay.Prelude.{
  ◌≤◌, ◌≡◌, refl, String, List, [], ◌∷◌, Bool, true, false, ◌&&◌, none, some, arith, not, All,
}
use arc_relay.Prelude.Maps.{StrMap, empty, update}
use arc_relay.Oauth.Store.{
  OAuthClient, OAuthAuthCode, OAuthProvider, consume_code, consume_refresh_token,
}
use arc_relay.Oauth.Handlers.{
  Draw, issued, TokenRequest, AuthorizeRequest, is_confidential, validate_secret,
  token_authorization_code, validate, after_refresh, rotate, authorize_client, redeem,
  authorize_post, token_refresh, after_access, mint, exchange,
}
use arc_relay.Oauth.Issue.{token_authorization_code-issued}
use arc_relay.Oauth.Grants.{
  Request, authorize, exchange_code, refresh, IsApproved, answer_all, answer_all-IsApproved, answer,
}

abbrev identity : String → String
identity s = s

abbrev client : OAuthClient
client = record {
  client_secret_hash = "secret";
  redirect_uris = "http://localhost/cb" ∷ [];
  token_endpoint_auth_method = "client_secret_post";
}

abbrev clients : StrMap OAuthClient
clients = update empty "app" client

abbrev approval : AuthorizeRequest
approval = record {
  user_id = "ann";
  deny = false;
  client_id = "app";
  redirect_uri = "http://localhost/cb";
  code_challenge = "verifier";
  scope = "";
  resource = "r";
}

abbrev token_request : TokenRequest
token_request = record {
  code = "c1";
  redirect_uri = "http://localhost/cb";
  client_id = "app";
  code_verifier = "verifier";
  client_secret = "secret";
}

abbrev draw : Draw
draw = record { now = 1100; access = "a1"; refresh = "r1" }

abbrev requests : List Request
requests =
    authorize 1000 (some "c1") approval
    ∷ exchange_code token_request draw
    ∷ refresh (record { refresh_token = "r1"; client_id = "" })
        (record { now = 2000; access = "a2"; refresh = "r2" })
    ∷ []

abbrev start : OAuthProvider
start = record { clients = clients; codes = empty; tokens = []; refresh_tokens = [] }

abbrev approved : OAuthProvider
approved = record start {
  codes = update empty "c1" (record {
    client_id = "app";
    user_id = "ann";
    redirect_uri = "http://localhost/cb";
    code_challenge = "verifier";
    scope = "mcp";
    resource = "r";
    expires_at = 1300;
  });
}

tokens_issued :
    (token_authorization_code identity identity token_request draw approved).1
    ≡ issued "a1" "r1" "mcp"
unfolding token_authorization_code exchange redeem consume_code mint after_access after_refresh
tokens_issued = refl

token_authorization_code-issued_example :
    (c : OAuthClient) × (ac : OAuthAuthCode) × (approved.clients "app" ≡ some c)
    × ((is_confidential c && not (validate_secret identity identity c "secret")) ≡ false)
    × (approved.codes "c1" ≡ some ac)
    × (1100 ≤ ac.expires_at)
    × (ac.client_id ≡ "app")
    × (ac.redirect_uri ≡ "http://localhost/cb")
    × ("verifier" ≡ ac.code_challenge)
    × ((token_authorization_code identity identity token_request draw approved).0.codes "c1" ≡ none)
    × (validate identity identity 4000 "a1"
          (token_authorization_code identity identity token_request draw approved).0
        ≡ some ac.user_id)
token_authorization_code-issued_example =
    token_authorization_code-issued identity identity token_request draw approved 4000 tokens_issued
      (omega arith)

abbrev parses : String → Bool
parses uri = true

rotated :
    validate identity identity 2100 "a2" (answer_all identity identity parses requests start)
    ≡ some "ann"
unfolding answer_all validate answer token_refresh token_authorization_code exchange authorize_post
    authorize_client redeem consume_code mint after_access after_refresh rotate
    consume_refresh_token
rotated = refl

answer_all-IsApproved_example :
    let p = answer_all identity identity parses requests start in
    All (λ r. IsApproved requests r.user_id r.client_id) p.tokens
    × All (λ r. IsApproved requests r.user_id r.client_id) p.refresh_tokens
answer_all-IsApproved_example = answer_all-IsApproved identity identity parses clients requests
