-- ===== src/Oauth/Issue.antt =====
-- When tokens are issued, and what they are good for.
use arc_relay.Prelude.{
  ℕ, ◌+◌, ◌≤◌, ◌≡◌, refl, ◌∙◌, inl, inr, String, List, ◌∷◌, false, ◌&&◌, ◌||◌, Option, none, some,
  arith, not, str_eq, eq_iff, str_eq_self, Bool-cases, Option-cases, ap,
}
use arc_relay.Prelude.Maps.{StrMap, delete_self}
use arc_relay.Oauth.Store.{
  OAuthClient, OAuthAuthCode, OAuthProvider, TokenRow, is_expired, consume_code, find_token,
  create_token, unexpired,
}
use arc_relay.Oauth.Handlers.{
  Draw, Grant, issued, TokenRequest, row_of, is_confidential, validate_secret, after_access,
  after_refresh, access_row, refresh_row, exchange, mint, redeem, token_authorization_code,
  validate, one_hour, thirty_days,
}

module _ (hash challenge : String → String) where
  -- What a provider keeps of another's state, but for the tokens that it adds.
  pub record Minted (d : Draw) (g : Grant) (p after : OAuthProvider) : Type 0 where
    pub same_clients : after.clients ≡ p.clients
    pub same_codes : after.codes ≡ p.codes
    pub access : after.tokens ≡ row_of g (hash d.access) (d.now + one_hour) ∷ p.tokens
    pub refresh :
        after.refresh_tokens ≡ row_of g (hash d.refresh) (d.now + thirty_days) ∷ p.refresh_tokens
    pub fresh : find_token (hash d.refresh) p.refresh_tokens ≡ none

  create_token-some :
      (row : TokenRow) (rows out : List TokenRow)
      → create_token row rows ≡ some out
      → (out ≡ row ∷ rows) × (find_token row.token_hash rows ≡ none)
  create_token-some row rows out h = elim (Option-cases (find_token row.token_hash rows)) [
    | inl e ↦ ground (arith, e)
    | inr (r, e) ↦ absurd (ground (arith, e))
  ]

  after_refresh-Minted :
      (d : Draw) (g : Grant) (p : OAuthProvider) (rows : List TokenRow) (o : Option (List TokenRow))
      {a b s : String}
      → rows ≡ access_row hash challenge d g ∷ p.tokens
      → create_token (refresh_row hash challenge d g) p.refresh_tokens ≡ o
      → (after_refresh hash challenge d g (record p { tokens = rows }) o).1 ≡ issued a b s
      → Minted d g p (after_refresh hash challenge d g (record p { tokens = rows }) o).0
  unfolding after_refresh
  after_refresh-Minted d g p rows none access e h = cc
  after_refresh-Minted d g p rows (some out) access e h =
      let c = create_token-some (refresh_row hash challenge d g) p.refresh_tokens out e in
      record { same_clients = refl; same_codes = refl; access = access; refresh = c.0; fresh = c.1 }

  after_access-Minted :
      (d : Draw) (g : Grant) (p : OAuthProvider) (o : Option (List TokenRow)) {a b s : String}
      → create_token (access_row hash challenge d g) p.tokens ≡ o
      → (after_access hash challenge d g p o).1 ≡ issued a b s
      → Minted d g p (after_access hash challenge d g p o).0
  unfolding after_access
  after_access-Minted d g p none e h = cc
  after_access-Minted d g p (some rows) e h =
      after_refresh-Minted d g p rows _
        (create_token-some (access_row hash challenge d g) p.tokens rows e).0 refl h

  pub mint-Minted :
      (d : Draw) (g : Grant) (p : OAuthProvider) {a b s : String}
      → (mint hash challenge d g p).1 ≡ issued a b s
      → Minted d g p (mint hash challenge d g p).0
  unfolding mint
  mint-Minted d g p h = after_access-Minted d g p _ refl h

  pub Minted-validate :
      (d : Draw) (g : Grant) (p after : OAuthProvider) (later : ℕ)
      → Minted d g p after
      → later ≤ d.now + one_hour
      → validate hash challenge later d.access after ≡ some g.user_id
  unfolding validate
  Minted-validate d g p after later m soon =
      rw (m.access, str_eq_self (hash d.access)) (ground arith)

  -- What an exchange that issues tokens has checked.
  record Redeemed (r : TokenRequest) (d : Draw) (p after : OAuthProvider) (ac : OAuthAuthCode)
      : Type 0 where
    client : ac.client_id ≡ r.client_id
    redirect : ac.redirect_uri ≡ r.redirect_uri
    proven : challenge r.code_verifier ≡ ac.code_challenge
    codes : after.codes ≡ p.codes
    valid :
        (later : ℕ)
        → later ≤ d.now + one_hour
        → validate hash challenge later d.access after ≡ some ac.user_id

  redeem-Redeemed :
      (r : TokenRequest) (d : Draw) (p : OAuthProvider) (ac : OAuthAuthCode) {a b s : String}
      → (redeem hash challenge r d p (some ac)).1 ≡ issued a b s
      → Redeemed r d p (redeem hash challenge r d p (some ac)).0 ac
  unfolding redeem
  redeem-Redeemed r d p ac h = elim (Bool-cases (str_eq ac.client_id r.client_id)) [
    | inr e ↦ absurd (ground (arith, e))
    | inl e ↦ elim (Bool-cases (str_eq ac.redirect_uri r.redirect_uri)) [
      | inr f ↦ absurd (ground (arith, e, f))
      | inl f ↦ elim (Bool-cases (str_eq (challenge r.code_verifier) ac.code_challenge)) [
        | inr g ↦ absurd (ground (arith, e, f, g))
        | inl g ↦
            let m =
              mint-Minted d
                (record {
                  user_id = ac.user_id;
                  client_id = r.client_id;
                  scope = ac.scope;
                  resource = ac.resource;
                })
                p (rw (e, f, g) at h) in
            rw (e, f, g)
              (record {
                client = (eq_iff ac.client_id r.client_id).0 e;
                redirect = (eq_iff ac.redirect_uri r.redirect_uri).0 f;
                proven = (eq_iff (challenge r.code_verifier) ac.code_challenge).0 g;
                codes = m.same_codes;
                valid = λ later soon. Minted-validate d _ p _ later m soon;
              })
      ]
    ]
  ]

  redeem-some :
      (r : TokenRequest) (d : Draw) (p : OAuthProvider) (o : Option OAuthAuthCode) {a b s : String}
      → (redeem hash challenge r d p o).1 ≡ issued a b s
      → (ac : OAuthAuthCode) × (o ≡ some ac) × Redeemed r d p (redeem hash challenge r d p o).0 ac
  unfolding redeem
  redeem-some r d p none h = cc
  redeem-some r d p (some ac) h = (ac, refl, redeem-Redeemed r d p ac h)

  unexpired-some :
      (now : ℕ) (o : Option OAuthAuthCode) (ac : OAuthAuthCode)
      → unexpired now o ≡ some ac
      → (o ≡ some ac) × (now ≤ ac.expires_at)
  unexpired-some now none ac h = cc
  unexpired-some now (some c) ac h = elim (Bool-cases (is_expired now c.expires_at)) [
    | inl e ↦ absurd (ground (arith, e))
    | inr e ↦
        let same : c ≡ ac = ground (arith, e) in
        (ap some same, ground (arith, e, ap (λ (x : OAuthAuthCode). x.expires_at) same))
  ]

  exchanged :
      (r : TokenRequest) (d : Draw) (p : OAuthProvider) (o : Option OAuthClient) {a b s : String}
      → (exchange hash challenge r d p o).1 ≡ issued a b s
      → (c : OAuthClient) × (ac : OAuthAuthCode) × (o ≡ some c)
        × ((is_confidential c && not (validate_secret hash challenge c r.client_secret)) ≡ false)
        × (p.codes r.code ≡ some ac)
        × (d.now ≤ ac.expires_at)
        × Redeemed r d (consume_code d.now r.code p).0 (exchange hash challenge r d p o).0 ac
  unfolding exchange consume_code
  exchanged r d p none h = cc
  exchanged r d p (some c) h =
      elim (Bool-cases
        (is_confidential c && not (validate_secret hash challenge c r.client_secret))) [
          | inl e ↦ absurd (ground (arith, e))
          | inr e ↦
              let (ac, found, ok) = redeem-some r d _ _ (rw e at h) in
              let u = unexpired-some d.now (p.codes r.code) ac found in
              (c, ac, refl, e, u.0, u.1, rw e ok)
        ]

  -- Tokens are issued for a code only to the client that the code was made for, with its secret where
  -- it has one, for a code that is known and not expired, to the redirect URI of the code and on a
  -- verifier that gives the code's challenge. The code is then gone, and for an hour the access
  -- token is good for the user who approved.
  pub token_authorization_code-issued :
      (r : TokenRequest) (d : Draw) (p : OAuthProvider) (later : ℕ) {a b s : String}
      → let (after, response) = token_authorization_code hash challenge r d p in
        response ≡ issued a b s
        → later ≤ d.now + one_hour
        → (c : OAuthClient) × (ac : OAuthAuthCode) × (p.clients r.client_id ≡ some c)
          × ((is_confidential c && not (validate_secret hash challenge c r.client_secret)) ≡ false)
          × (p.codes r.code ≡ some ac)
          × (d.now ≤ ac.expires_at)
          × (ac.client_id ≡ r.client_id)
          × (ac.redirect_uri ≡ r.redirect_uri)
          × (challenge r.code_verifier ≡ ac.code_challenge)
          × (after.codes r.code ≡ none)
          × (validate hash challenge later d.access after ≡ some ac.user_id)
  unfolding token_authorization_code consume_code
  token_authorization_code-issued r d p later h soon =
      elim (Bool-cases (str_eq r.code "" || str_eq r.client_id "" || str_eq r.code_verifier "")) [
        | inl e ↦ absurd (ground (arith, e))
        | inr e ↦
            let (c, ac, known, secret, stored, fresh, ok) = exchanged r d p _ (rw e at h) in
            rw e (
              c,
              ac,
              known,
              secret,
              stored,
              fresh,
              ok.client,
              ok.redirect,
              ok.proven,
              ap (λ (m : StrMap OAuthAuthCode). m r.code) ok.codes ∙ delete_self p.codes r.code,
              ok.valid later soon,
            )
      ]
