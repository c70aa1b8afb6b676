-- ===== src/Oauth/Within.antt =====
-- A predicate on the users and clients of codes and tokens, kept by every handler.
use arc_relay.Prelude.{
  ℕ, ◌≡◌, refl, subst, inl, inr, String, List, [], ◌∷◌, Bool, true, false, ◌&&◌, ◌||◌, Option, none,
  some, arith, if◌then◌else◌, not, str_eq, eq_iff, Bool-cases, Option-cases, All, keep,
}
use arc_relay.Oauth.Store.{
  OAuthClient, OAuthAuthCode, OAuthProvider, TokenRow, is_expired, consume_code, find_token,
  create_token, consume_row, consume_refresh_token, unexpired, has_redirect_uri,
}
use arc_relay.Oauth.Handlers.{
  invalid_request, invalid_client, invalid_grant, invalid_redirect, access_denied, Draw, Grant,
  Response, TokenRequest, RefreshRequest, AuthorizeRequest, Authorized, is_confidential,
  validate_secret, after_access, after_refresh, access_row, refresh_row, exchange, mint, redeem,
  token_authorization_code, rotate, is_unknown_client, token_refresh, create_code, authorize_client,
}

-- Every code and token stands for a user and a client of whom `P` holds.
pub record Within (P : String → String → Type 0) (p : OAuthProvider) : Type 0 where
  pub codes : (c : String) (ac : OAuthAuthCode) → p.codes c ≡ some ac → P ac.user_id ac.client_id
  pub tokens : All (λ r. P r.user_id r.client_id) p.tokens
  pub refresh_tokens : All (λ r. P r.user_id r.client_id) p.refresh_tokens

module _ (P : String → String → Type 0) where
  abbrev Owned : TokenRow → Type 0
  Owned r = P r.user_id r.client_id

  keep-Owned : (f : TokenRow → Bool) (rs : List TokenRow) → All Owned rs → All Owned (keep f rs)
  keep-Owned f [] h = tt
  keep-Owned f (r ∷ rs) h = elim (Bool-cases (f r)) [
    | inl e ↦ rw e (h.0, keep-Owned f rs h.1)
    | inr e ↦ rw e (keep-Owned f rs h.1)
  ]

  find_token-Owned :
      (h : String) (rs : List TokenRow) (r : TokenRow)
      → All Owned rs
      → find_token h rs ≡ some r
      → Owned r
  find_token-Owned h [] r all e = cc
  find_token-Owned h (x ∷ rs) r all e = elim (Bool-cases (str_eq x.token_hash h)) [
    | inl same ↦ let eq : x ≡ r = ground (arith, e, same) in subst Owned eq all.0
    | inr other ↦ find_token-Owned h rs r all.1 (ground (arith, e, other))
  ]

  create_token-Owned :
      (row : TokenRow) (rows out : List TokenRow)
      → Owned row
      → All Owned rows
      → create_token row rows ≡ some out
      → All Owned out
  create_token-Owned row rows out new old h = elim (Option-cases (find_token row.token_hash rows)) [
    | inl e ↦ let eq : row ∷ rows ≡ out = ground (arith, e, h) in subst (All Owned) eq (new, old)
    | inr (r, e) ↦ absurd (ground (arith, e))
  ]

  unexpired-Within :
      (now : ℕ) (code : String) (p : OAuthProvider) (ac : OAuthAuthCode)
      → Within P p
      → unexpired now (p.codes code) ≡ some ac
      → P ac.user_id ac.client_id
  unexpired-Within now code p ac w h = elim (Option-cases (p.codes code)) [
    | inl e ↦ absurd (ground (arith, e))
    | inr (c, e) ↦ elim (Bool-cases (is_expired now c.expires_at)) [
      | inl old ↦ absurd (ground (arith, e, old))
      | inr fresh ↦
          let same : c ≡ ac = ground (arith, e, fresh) in
          subst (λ (x : OAuthAuthCode). P x.user_id x.client_id) same (w.codes code c e)
    ]
  ]

  consume_code-Within :
      (now : ℕ) (code : String) (p : OAuthProvider)
      → Within P p
      → Within P (consume_code now code p).0
  unfolding consume_code
  consume_code-Within now code p w = record {
    codes = λ c ac e. elim (Bool-cases (str_eq code c)) [
      | inl same ↦ absurd (ground (arith, e, same))
      | inr other ↦ w.codes c ac (ground (arith, e, other))
    ];
    tokens = w.tokens;
    refresh_tokens = w.refresh_tokens;
  }

  create_code-Within :
      (now : ℕ) (drawn : Option String) (r : AuthorizeRequest) (p : OAuthProvider)
      → P r.user_id r.client_id
      → Within P p
      → Within P (create_code now drawn r p).0
  create_code-Within now none r p new w = w
  create_code-Within now (some code) r p new w = record {
    codes = λ c ac e. elim (Bool-cases (str_eq code c)) [
      | inl same ↦
          let user : r.user_id ≡ ac.user_id = ground (arith, e, same) in
          let client : r.client_id ≡ ac.client_id = ground (arith, e, same) in
          subst (λ u. P u ac.client_id) user (subst (P r.user_id) client new)
      | inr other ↦ w.codes c ac (ground (arith, e, other))
    ];
    tokens = w.tokens;
    refresh_tokens = w.refresh_tokens;
  }

  if-Within :
      (b : Bool) (x y : OAuthProvider × Authorized)
      → Within P x.0
      → (b ≡ false → Within P y.0)
      → Within P (if b then x else y).0
  if-Within true x y p q = p
  if-Within false x y p q = q refl

  pub authorize_client-Within :
      (parses : String → Bool) (now : ℕ) (drawn : Option String) (r : AuthorizeRequest)
      (p : OAuthProvider) (o : Option OAuthClient)
      → (r.deny ≡ false → P r.user_id r.client_id)
      → Within P p
      → Within P (authorize_client parses now drawn r p o).0
  unfolding authorize_client
  authorize_client-Within parses now drawn r p none new w = w
  authorize_client-Within parses now drawn r p (some c) new w =
      if-Within (str_eq r.redirect_uri "" || not (has_redirect_uri c r.redirect_uri))
        (p, invalid_redirect) _ w
        (λ _.
          if-Within (not (parses r.redirect_uri)) (p, invalid_redirect) _ w
            (λ _.
              if-Within r.deny (p, access_denied) _ w
                (λ agreed. create_code-Within now drawn r p (new agreed) w)))

  if-Response :
      (b : Bool) (x y : OAuthProvider × Response)
      → Within P x.0
      → Within P y.0
      → Within P (if b then x else y).0
  if-Response true x y p q = p
  if-Response false x y p q = q

  module _ (hash challenge : String → String) where
    consumed :
        (r : TokenRequest) (d : Draw) (p : OAuthProvider) (ac : OAuthAuthCode)
        → (consume_code d.now r.code p).1 ≡ some ac
        → unexpired d.now (p.codes r.code) ≡ some ac
    unfolding consume_code
    consumed r d p ac e = e

    after_refresh-Within :
        (d : Draw) (g : Grant) (p : OAuthProvider) (o : Option (List TokenRow))
        → P g.user_id g.client_id
        → Within P p
        → create_token (refresh_row hash challenge d g) p.refresh_tokens ≡ o
        → Within P (after_refresh hash challenge d g p o).0
    unfolding after_refresh
    after_refresh-Within d g p none new w e = w
    after_refresh-Within d g p (some rows) new w e = record {
      codes = w.codes;
      tokens = w.tokens;
      refresh_tokens = create_token-Owned _ p.refresh_tokens rows new w.refresh_tokens e;
    }

    after_access-Within :
        (d : Draw) (g : Grant) (p : OAuthProvider) (o : Option (List TokenRow))
        → P g.user_id g.client_id
        → Within P p
        → create_token (access_row hash challenge d g) p.tokens ≡ o
        → Within P (after_access hash challenge d g p o).0
    unfolding after_access
    after_access-Within d g p none new w e = w
    after_access-Within d g p (some rows) new w e =
        after_refresh-Within d g (record p { tokens = rows }) _ new
          (record {
            codes = w.codes;
            tokens = create_token-Owned _ p.tokens rows new w.tokens e;
            refresh_tokens = w.refresh_tokens;
          })
          refl

    mint-Within :
        (d : Draw) (g : Grant) (p : OAuthProvider)
        → P g.user_id g.client_id
        → Within P p
        → Within P (mint hash challenge d g p).0
    unfolding mint
    mint-Within d g p new w = after_access-Within d g p _ new w refl

    redeem-Within :
        (r : TokenRequest) (d : Draw) (p : OAuthProvider) (o : Option OAuthAuthCode)
        → ((ac : OAuthAuthCode) → o ≡ some ac → P ac.user_id ac.client_id)
        → Within P p
        → Within P (redeem hash challenge r d p o).0
    unfolding redeem
    redeem-Within r d p none new w = w
    redeem-Within r d p (some ac) new w = elim (Bool-cases (str_eq ac.client_id r.client_id)) [
      | inr e ↦ rw e w
      | inl e ↦ rw e (
          if-Response _ (p, invalid_grant) _ w
            (if-Response _ (p, invalid_grant) _ w
              (mint-Within d _ p
                (subst (P ac.user_id) ((eq_iff ac.client_id r.client_id).0 e) (new ac refl)) w)))
    ]

    exchange-Within :
        (r : TokenRequest) (d : Draw) (p : OAuthProvider) (o : Option OAuthClient)
        → Within P p
        → Within P (exchange hash challenge r d p o).0
    unfolding exchange
    exchange-Within r d p none w = w
    exchange-Within r d p (some c) w =
        if-Response (is_confidential c && not (validate_secret hash challenge c r.client_secret))
          (p, invalid_client) _ w
          (redeem-Within r d _ _
            (λ ac e. unexpired-Within d.now r.code p ac w (consumed r d p ac e))
            (consume_code-Within d.now r.code p w))

    pub token_authorization_code-Within :
        (r : TokenRequest) (d : Draw) (p : OAuthProvider)
        → Within P p
        → Within P (token_authorization_code hash challenge r d p).0
    unfolding token_authorization_code
    token_authorization_code-Within r d p w =
        if-Response (str_eq r.code "" || str_eq r.client_id "" || str_eq r.code_verifier "")
          (p, invalid_request) _ w (exchange-Within r d p _ w)

    rotate-Within :
        (r : RefreshRequest) (d : Draw) (p : OAuthProvider) (o : Option TokenRow)
        → ((rt : TokenRow) → o ≡ some rt → P rt.user_id rt.client_id)
        → Within P p
        → Within P (rotate hash challenge r d p o).0
    unfolding rotate
    rotate-Within r d p none new w = w
    rotate-Within r d p (some rt) new w =
        if-Response (not (str_eq r.client_id "") && not (str_eq rt.client_id r.client_id))
          (p, invalid_grant) _ w (mint-Within d _ p (new rt refl) w)

    consume_row-Within :
        (now : ℕ) (h : String) (p : OAuthProvider) (o : Option TokenRow)
        → Within P p
        → Within P (consume_row now h p o).0
    consume_row-Within now h p none w = w
    consume_row-Within now h p (some r) w = record {
      codes = w.codes;
      tokens = w.tokens;
      refresh_tokens = keep-Owned _ p.refresh_tokens w.refresh_tokens;
    }

    consume_row-Owned :
        (now : ℕ) (h : String) (p : OAuthProvider) (o : Option TokenRow) (rt : TokenRow)
        → ((r : TokenRow) → o ≡ some r → Owned r)
        → (consume_row now h p o).1 ≡ some rt
        → Owned rt
    consume_row-Owned now h p none rt own e = cc
    consume_row-Owned now h p (some r) rt own e = elim (Bool-cases (is_expired now r.expires_at)) [
      | inl old ↦ absurd (ground (arith, e, old))
      | inr fresh ↦ own rt (ground (arith, e, fresh))
    ]

    pub token_refresh-Within :
        (r : RefreshRequest) (d : Draw) (p : OAuthProvider)
        → Within P p
        → Within P (token_refresh hash challenge r d p).0
    unfolding token_refresh consume_refresh_token
    token_refresh-Within r d p w =
        if-Response (str_eq r.refresh_token "") (p, invalid_request) _ w
          (if-Response (is_unknown_client hash challenge r.client_id (p.clients r.client_id))
            (p, invalid_client) _ w
            (rotate-Within r d _ _
              (λ rt e.
                consume_row-Owned d.now (hash r.refresh_token) p _ rt
                  (λ x f.
                    find_token-Owned (hash r.refresh_token) p.refresh_tokens x w.refresh_tokens f)
                  e)
              (consume_row-Within d.now (hash r.refresh_token) p _ w)))
