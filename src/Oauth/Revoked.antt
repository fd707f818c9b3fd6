-- ===== src/Oauth/Revoked.antt =====
-- A revoked access token.
use safe4_arc_demo.Prelude.{
  ℕ, ◌≡◌, refl, ap, ◌∙◌, Option, none, some, Bool, false, List, [], ◌∷◌, arith, inl, inr,
  Bool-cases, ◌==◌, ==-refl, leb, not, ◌||◌, contains,
}
use safe4_arc_demo.Dict.{lookup, lookup-insert, lookup-adjust}
use safe4_arc_demo.Store.Oauth.{
  OauthClient, AuthorizationCode, AccessToken, RefreshToken, OauthTables, revoked_access,
  get_oauth_client, consume_oauth_authorization_code, consume_oauth_refresh_token,
  create_oauth_access_token, revoke_oauth_token,
}
use safe4_arc_demo.Oauth.{
  OauthSetup, OauthCall, authorize, token, revoke, AuthorizeRequest, TokenRequest, all_in,
  normalize_scope_string, active, store_code, authorize_scopes, authorize_client, oauth_authorize,
  issue_tokens, exchange_code, rotate, code_grant, refresh_grant, by_grant, token_client,
  oauth_token, oauth_revoke, GrantType, authorization_code, refresh_token, other_grant, serve_oauth,
  serve_calls, verify_pkce,
}

abbrev pub live : Option AccessToken → Bool
live none = false
live (some r) = not r.revoked

-- Whether the access token with the hash `k` is there and not revoked.
abbrev pub live_at : ℕ → OauthTables → Bool
live_at k t = live (lookup k t.access_tokens)

-- Whether the call draws an access token with the hash `k`.
abbrev draws_access? : OauthSetup → ℕ → OauthCall → Bool
draws_access? o k (authorize q) = false
draws_access? o k (token q) = o.hash_token q.new_access == k
draws_access? o k (revoke s) = false

abbrev pub draws_access : OauthSetup → ℕ → List (ℕ × OauthCall) → Bool
draws_access o k [] = false
draws_access o k ((_, c) ∷ rest) = draws_access? o k c || draws_access o k rest

module _ (o : OauthSetup) (k now : ℕ) where
  -- The row of the token is as it was.
  abbrev Same : OauthTables → OauthTables → Type 0
  Same t t' = lookup k t'.access_tokens ≡ lookup k t.access_tokens

  module _ (q : TokenRequest) (other : (o.hash_token q.new_access == k) ≡ false) where
    issue-Same :
        (subject : ℕ) (agent_id : Option ℕ) (scopes : List ℕ) (t : OauthTables)
        → Same t (issue_tokens o now q subject agent_id scopes t).1
    unfolding issue_tokens create_oauth_access_token
    issue-Same subject agent_id scopes t =
        rw (lookup-insert (o.hash_token q.new_access) k _ t.access_tokens, other) refl

    exchange-Same :
        (uri verifier : ℕ) (r : Option AuthorizationCode) (t : OauthTables)
        → Same t (exchange_code o now q uri verifier r t).1
    unfolding exchange_code
    exchange-Same uri verifier none t = refl
    exchange-Same uri verifier (some r) t =
        elim (Bool-cases (not (r.client_id == q.client_id) || not (r.redirect_uri == uri))) [
          | inl wrong ↦ rw wrong refl
          | inr right ↦ elim (Bool-cases (leb r.expires_at now)) [
            | inl late ↦ rw (right, late) refl
            | inr on_time ↦ elim (Bool-cases (not (verify_pkce o verifier r.code_challenge))) [
              | inl bad ↦ rw (right, on_time, bad) refl
              | inr good ↦ rw (right, on_time, good) (issue-Same r.subject r.agent_id r.scopes t)
            ]
          ]
        ]

    rotate-Same : (r : Option RefreshToken) (t : OauthTables) → Same t (rotate o now q r t).1
    unfolding rotate
    rotate-Same none t = refl
    rotate-Same (some r) t = elim (Bool-cases (not (r.client_id == q.client_id))) [
      | inl wrong ↦ rw wrong refl
      | inr right ↦ elim (Bool-cases (leb r.expires_at now)) [
        | inl late ↦ rw (right, late) refl
        | inr on_time ↦ rw (right, on_time) (issue-Same r.subject r.agent_id r.scopes t)
      ]
    ]

    code-Same :
        (code uri verifier : Option ℕ) (t : OauthTables)
        → Same t (code_grant o now q code uri verifier t).1
    code-Same (some code) (some uri) (some verifier) t =
        let c = consume_oauth_authorization_code (o.hash_token code) t.authorization_codes in
        exchange-Same uri verifier c.0 (record t { authorization_codes = c.1 })
    code-Same none uri verifier t = refl
    code-Same (some _) none verifier t = refl
    code-Same (some _) (some _) none t = refl

    refresh-Same : (r : Option ℕ) (t : OauthTables) → Same t (refresh_grant o now q r t).1
    refresh-Same none t = refl
    refresh-Same (some s) t =
        let c =
          consume_oauth_refresh_token (o.hash_token s) (o.hash_token q.new_refresh)
            t.refresh_tokens in
        rotate-Same c.0 (record t { refresh_tokens = c.1 })

    grant-Same : (g : GrantType) (t : OauthTables) → Same t (by_grant o now q g t).1
    grant-Same authorization_code t = code-Same q.code q.redirect_uri q.code_verifier t
    grant-Same refresh_token t = refresh-Same q.refresh t
    grant-Same other_grant t = refl

    client-Same : (c : Option OauthClient) (t : OauthTables) → Same t (token_client o now q c t).1
    client-Same none t = refl
    client-Same (some c) t = grant-Same q.grant_type t

    token-Same : (t : OauthTables) → Same t (oauth_token o now q t).1
    unfolding oauth_token
    token-Same t = client-Same (active (get_oauth_client q.client_id t.clients)) t

  scopes-Same :
      (q : AuthorizeRequest) (c : OauthClient) (asked : Option (List ℕ)) (t : OauthTables)
      → Same t (authorize_scopes o now q c asked t).1
  unfolding store_code
  scopes-Same q c none t = refl
  scopes-Same q c (some scopes) t = elim (Bool-cases (all_in scopes c.allowed_scopes)) [
    | inl within ↦ rw within refl
    | inr beyond ↦ rw beyond refl
  ]

  authorize-Same :
      (q : AuthorizeRequest) (c : Option OauthClient) (t : OauthTables)
      → Same t (authorize_client o now q c t).1
  authorize-Same q none t = refl
  authorize-Same q (some c) t = elim (Bool-cases (contains c.redirect_uris q.redirect_uri)) [
    | inl registered ↦ rw registered (scopes-Same q c (normalize_scope_string o q.scope) t)
    | inr foreign ↦ rw foreign refl
  ]

  serve-stays_dead :
      (c : OauthCall) (t : OauthTables)
      → draws_access? o k c ≡ false
      → live_at k t ≡ false
      → live_at k (serve_oauth o now c t).1 ≡ false
  unfolding serve_oauth oauth_authorize oauth_revoke revoke_oauth_token
  serve-stays_dead (authorize q) t h dead =
      ap live (authorize-Same q (active (get_oauth_client q.client_id t.clients)) t) ∙ dead
  serve-stays_dead (token q) t h dead = ap live (token-Same q h t) ∙ dead
  serve-stays_dead (revoke s) t h dead =
      ground (arith, lookup-adjust (o.hash_token s) k revoked_access t.access_tokens, dead)

calls-stay_dead :
    (o : OauthSetup) (k : ℕ) (calls : List (ℕ × OauthCall)) (t : OauthTables)
    → draws_access o k calls ≡ false
    → live_at k t ≡ false
    → live_at k (serve_calls o calls t) ≡ false
unfolding serve_calls
calls-stay_dead o k [] t h dead = dead
calls-stay_dead o k ((now, c) ∷ rest) t h dead =
    calls-stay_dead o k rest (serve_oauth o now c t).1 (ground (arith, h))
      (serve-stays_dead o k now c t (ground (arith, h)) dead)

revoke-dead :
    (o : OauthSetup) (s : ℕ) (t : OauthTables)
    → live_at (o.hash_token s) (oauth_revoke o s t).1 ≡ false
unfolding oauth_revoke revoke_oauth_token
revoke-dead o s t = ground (
  arith,
  lookup-adjust (o.hash_token s) (o.hash_token s) revoked_access t.access_tokens,
  ==-refl (o.hash_token s),
)

-- After a revocation of a token and any sequence of calls, none of which draws an access token of
-- the same hash, no access token that is not revoked has this hash.
pub revoked-stays_dead :
    (o : OauthSetup) (s : ℕ) (calls : List (ℕ × OauthCall)) (t : OauthTables)
    → draws_access o (o.hash_token s) calls ≡ false
    → live_at (o.hash_token s) (serve_calls o calls (oauth_revoke o s t).1) ≡ false
revoked-stays_dead o s calls t h =
    calls-stay_dead o (o.hash_token s) calls (oauth_revoke o s t).1 h (revoke-dead o s t)
