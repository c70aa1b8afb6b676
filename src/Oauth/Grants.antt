-- ===== src/Oauth/Grants.antt =====
-- Where tokens come from, over any sequence of requests.
use arc_relay.Prelude.{
  ℕ, ◌≡◌, refl, inl, inr, String, List, [], ◌∷◌, Bool, false, Option, All, Some,
}
use arc_relay.Prelude.Maps.{StrMap, empty}
use arc_relay.Oauth.Store.{OAuthClient, OAuthProvider}
use arc_relay.Oauth.Handlers.{
  Draw, TokenRequest, RefreshRequest, AuthorizeRequest, token_authorization_code, token_refresh,
  authorize_post,
}
use arc_relay.Oauth.Within.{
  Within, authorize_client-Within, token_authorization_code-Within, token_refresh-Within,
}

pub data Request : Type 0 where
  authorize : ℕ → Option String → AuthorizeRequest → Request
  exchange_code : TokenRequest → Draw → Request
  refresh : RefreshRequest → Draw → Request

-- The user lets the client act for him.
abbrev pub Approves : String → String → Request → Type 0
Approves user client (authorize now drawn r) =
    (r.user_id ≡ user) × (r.client_id ≡ client) × (r.deny ≡ false)
Approves user client (exchange_code r d) = ⊥
Approves user client (refresh r d) = ⊥

abbrev pub IsApproved : List Request → String → String → Type 0
IsApproved rs user client = Some (Approves user client) rs

module _ (hash challenge : String → String) (parses : String → Bool) where
  unfoldable pub answer : Request → OAuthProvider → OAuthProvider
  answer (authorize now drawn r) p = (authorize_post parses now drawn r p).0
  answer (exchange_code r d) p = (token_authorization_code hash challenge r d p).0
  answer (refresh r d) p = (token_refresh hash challenge r d p).0

  unfoldable pub answer_all : List Request → OAuthProvider → OAuthProvider
  answer_all [] p = p
  answer_all (q ∷ qs) p = answer_all qs (answer q p)

  answer-Within :
      (P : String → String → Type 0) (q : Request) (p : OAuthProvider)
      → ((u c : String) → Approves u c q → P u c)
      → Within P p
      → Within P (answer q p)
  unfolding answer authorize_post
  answer-Within P (authorize now drawn r) p new w =
      authorize_client-Within P parses now drawn r p _
        (λ agreed. new r.user_id r.client_id (refl, refl, agreed)) w
  answer-Within P (exchange_code r d) p new w =
      token_authorization_code-Within P hash challenge r d p w
  answer-Within P (refresh r d) p new w = token_refresh-Within P hash challenge r d p w

  answer_all-Within :
      (P : String → String → Type 0) (qs : List Request) (p : OAuthProvider)
      → ((u c : String) → IsApproved qs u c → P u c)
      → Within P p
      → Within P (answer_all qs p)
  unfolding answer_all
  answer_all-Within P [] p new w = w
  answer_all-Within P (q ∷ qs) p new w =
      answer_all-Within P qs (answer q p) (λ u c later. new u c (inr later))
        (answer-Within P q p (λ u c now. new u c (inl now)) w)

  -- Over any sequence of authorizations, code exchanges and refreshes, every access and refresh token
  -- that exists belongs to a user who approved the client it is bound to.
  pub answer_all-IsApproved :
      (clients : StrMap OAuthClient) (qs : List Request)
      → let p =
          answer_all qs
            (record { clients = clients; codes = empty; tokens = []; refresh_tokens = [] }) in
        All (λ r. IsApproved qs r.user_id r.client_id) p.tokens
        × All (λ r. IsApproved qs r.user_id r.client_id) p.refresh_tokens
  answer_all-IsApproved clients qs =
      let w =
        answer_all-Within (IsApproved qs) qs
          (record { clients = clients; codes = empty; tokens = []; refresh_tokens = [] })
          (λ u c h. h) (record { codes = λ c ac e. cc; tokens = tt; refresh_tokens = tt }) in
      (w.tokens, w.refresh_tokens)
