-- ===== src/Oauth/Once.antt =====
-- An authorization code and its exchange.
use safe4_arc_demo.Prelude.{
  ℕ, ◌+◌, ◌≤◌, ◌≡◌, refl, sym, ap, ◌∙◌, Option, none, some, Bool, true, false, List, [], ◌∷◌, arith,
  inl, inr, Bool-cases, ◌==◌, leb, not, ◌||◌, ◌&&◌, if◌then◌else◌, is_some, contains, ==→≡,
}
use safe4_arc_demo.Dict.{Dict, lookup, adjust, lookup-insert, lookup-adjust}
use safe4_arc_demo.Store.Oauth.{
  OauthClient, AuthorizationCode, RefreshToken, OauthTables, used_row,
  consume_oauth_authorization_code, consume_oauth_refresh_token, unused, get_oauth_client,
  create_oauth_authorization_code, revoke_oauth_token,
}
use safe4_arc_demo.Oauth.{
  OauthSetup, OauthAnswer, refused, authorized, issued, revocation, OauthCall, authorize, token,
  revoke, AuthorizeRequest, TokenRequest, all_in, normalize_scope_string, active, store_code,
  authorize_scopes, authorize_client, oauth_authorize, issue_tokens, exchange_code, rotate,
  code_grant, refresh_grant, by_grant, token_client, oauth_token, oauth_revoke, GrantType,
  authorization_code, refresh_token, other_grant, serve_oauth, verify_pkce,
}

abbrev usable : Option AuthorizationCode → Bool
usable none = false
usable (some r) = not r.used

abbrev is_issued : OauthAnswer → Bool
is_issued (refused _) = false
is_issued (authorized _ _ _) = false
is_issued (issued _ _ _ _) = true
is_issued (revocation _) = false

abbrev pub one_if : Bool → ℕ
one_if b = if b then 1 else 0

abbrev has_hash : OauthSetup → ℕ → Option ℕ → Bool
has_hash o k none = false
has_hash o k (some code) = o.hash_token code == k

-- Whether the grant is that of the code with the hash `k`.
abbrev of_code : OauthSetup → ℕ → GrantType → Option ℕ → Bool
of_code o k authorization_code code = has_hash o k code
of_code o k refresh_token code = false
of_code o k other_grant code = false

abbrev exchanges? : OauthSetup → ℕ → ℕ → OauthCall → OauthTables → Bool
exchanges? o k now (authorize q) t = false
exchanges? o k now (token q) t =
    of_code o k q.grant_type q.code && is_issued (oauth_token o now q t).0
exchanges? o k now (revoke s) t = false

-- How many of the calls exchange the code with the hash `k` for tokens.
unfoldable pub exchanges : OauthSetup → ℕ → List (ℕ × OauthCall) → OauthTables → ℕ
unfolding oauth_token serve_oauth
exchanges o k [] t = 0
exchanges o k ((now, c) ∷ rest) t =
    one_if (exchanges? o k now c t) + exchanges o k rest (serve_oauth o now c t).1

-- Whether the call draws a code with the hash `k`.
abbrev draws? : OauthSetup → ℕ → OauthCall → Bool
draws? o k (authorize q) = o.hash_token q.new_code == k
draws? o k (token q) = false
draws? o k (revoke s) = false

abbrev pub draws : OauthSetup → ℕ → List (ℕ × OauthCall) → Bool
draws o k [] = false
draws o k ((_, c) ∷ rest) = draws? o k c || draws o k rest

-- Whether the code with the hash `k` is there and unused.
abbrev pub usable_at : ℕ → OauthTables → Bool
usable_at k t = usable (lookup k t.authorization_codes)

usable-adjust :
    (k j : ℕ) (rows : Dict AuthorizationCode)
    → usable (lookup k (adjust j used_row rows)) ≡ (usable (lookup k rows) && not (j == k))
usable-adjust k j rows = ground (arith, lookup-adjust j k used_row rows)

is_some-unused : (r : Option AuthorizationCode) → is_some (unused r) ≡ usable r
is_some-unused none = refl
is_some-unused (some r) = ground arith

usable-consume :
    (k j : ℕ) (rows : Dict AuthorizationCode)
    → usable (lookup k (consume_oauth_authorization_code j rows).1)
      ≡ (usable (lookup k rows) && not (j == k))
unfolding consume_oauth_authorization_code
usable-consume k j rows = elim (Bool-cases (usable (lookup j rows))) [
  | inl ready ↦ rw (is_some-unused (lookup j rows) ∙ ready) (usable-adjust k j rows)
  | inr spent ↦ rw (is_some-unused (lookup j rows) ∙ spent) (elim (Bool-cases (j == k)) [
    | inl same ↦
        let at_k : usable (lookup k rows) ≡ false =
          ap (λ n. usable (lookup n rows)) (sym (==→≡ j k same)) ∙ spent in
        ground (arith, at_k)
    | inr other ↦ ground (arith, other)
  ])
]

found-consume :
    (j : ℕ) (rows : Dict AuthorizationCode)
    → is_some (consume_oauth_authorization_code j rows).0 ≡ usable (lookup j rows)
unfolding consume_oauth_authorization_code
found-consume j rows = is_some-unused (lookup j rows)

uses_up :
    (mine done found after before : Bool)
    → one_if done ≤ one_if found
    → after ≡ (before && not mine)
    → (mine ≡ true → found ≡ before)
    → one_if (mine && done) + one_if after ≤ one_if before
uses_up true done found after before le gone same = rw (gone, sym (same refl)) (ground (arith, le))
uses_up false done found after before le gone same = rw gone (ground arith)

module _ (o : OauthSetup) (k now : ℕ) where
  -- The calls that exchange no code leave the codes as they are.
  exchange-le :
      (q : TokenRequest) (uri verifier : ℕ) (r : Option AuthorizationCode) (t : OauthTables)
      → (one_if (is_issued (exchange_code o now q uri verifier r t).0) ≤ one_if (is_some r))
        × ((exchange_code o now q uri verifier r t).1.authorization_codes ≡ t.authorization_codes)
  unfolding exchange_code issue_tokens
  exchange-le q uri verifier none t = (omega arith, refl)
  exchange-le q uri verifier (some r) t =
      elim (Bool-cases (not (r.client_id == q.client_id) || not (r.redirect_uri == uri))) [
        | inl wrong ↦ rw wrong (omega arith, refl)
        | inr right ↦ elim (Bool-cases (leb r.expires_at now)) [
          | inl late ↦ rw (right, late) (omega arith, refl)
          | inr live ↦ elim (Bool-cases (not (verify_pkce o verifier r.code_challenge))) [
            | inl bad ↦ rw (right, live, bad) (omega arith, refl)
            | inr good ↦ rw (right, live, good) (omega arith, refl)
          ]
        ]
      ]

  rotate-codes :
      (q : TokenRequest) (r : Option RefreshToken) (t : OauthTables)
      → (rotate o now q r t).1.authorization_codes ≡ t.authorization_codes
  unfolding rotate issue_tokens
  rotate-codes q none t = refl
  rotate-codes q (some r) t = elim (Bool-cases (not (r.client_id == q.client_id))) [
    | inl wrong ↦ rw wrong refl
    | inr right ↦ elim (Bool-cases (leb r.expires_at now)) [
      | inl late ↦ rw (right, late) refl
      | inr live ↦ rw (right, live) refl
    ]
  ]

  -- An exchange of the code uses it up, and nothing makes it usable.
  abbrev UsesUp : Bool → OauthTables → OauthAnswer × OauthTables → Type 0
  UsesUp mine t r =
      one_if (mine && is_issued r.0) + one_if (usable_at k r.1) ≤ one_if (usable_at k t)

  code_grant-UsesUp :
      (q : TokenRequest) (code uri verifier : Option ℕ) (t : OauthTables)
      → UsesUp (has_hash o k code) t (code_grant o now q code uri verifier t)
  code_grant-UsesUp q none uri verifier t = omega arith
  code_grant-UsesUp q (some code) none verifier t = ground arith
  code_grant-UsesUp q (some code) (some uri) none t = ground arith
  code_grant-UsesUp q (some code) (some uri) (some verifier) t =
      let j = o.hash_token code in
      let rows = t.authorization_codes in
      let c = consume_oauth_authorization_code j rows in
      let t' : OauthTables = record t { authorization_codes = c.1 } in
      let h = exchange-le q uri verifier c.0 t' in
      uses_up (j == k) (is_issued (exchange_code o now q uri verifier c.0 t').0) (is_some c.0)
        (usable_at k (exchange_code o now q uri verifier c.0 t').1) (usable_at k t) h.0
        (ap (λ d. usable (lookup k d)) h.1 ∙ usable-consume k j rows)
        (λ same. found-consume j rows ∙ ap (λ n. usable (lookup n rows)) (==→≡ j k same))

  refresh_grant-UsesUp :
      (q : TokenRequest) (r : Option ℕ) (t : OauthTables)
      → UsesUp false t (refresh_grant o now q r t)
  refresh_grant-UsesUp q none t = omega arith
  refresh_grant-UsesUp q (some s) t =
      let c =
        consume_oauth_refresh_token (o.hash_token s) (o.hash_token q.new_refresh)
          t.refresh_tokens in
      rw (rotate-codes q c.0 (record t { refresh_tokens = c.1 })) (omega arith)

  grant-UsesUp :
      (q : TokenRequest) (g : GrantType) (t : OauthTables)
      → UsesUp (of_code o k g q.code) t (by_grant o now q g t)
  grant-UsesUp q authorization_code t = code_grant-UsesUp q q.code q.redirect_uri q.code_verifier t
  grant-UsesUp q refresh_token t = refresh_grant-UsesUp q q.refresh t
  grant-UsesUp q other_grant t = omega arith

  client-UsesUp :
      (q : TokenRequest) (c : Option OauthClient) (t : OauthTables)
      → UsesUp (of_code o k q.grant_type q.code) t (token_client o now q c t)
  client-UsesUp q none t = ground arith
  client-UsesUp q (some c) t = grant-UsesUp q q.grant_type t

  token-UsesUp :
      (q : TokenRequest) (t : OauthTables)
      → UsesUp (of_code o k q.grant_type q.code) t (oauth_token o now q t)
  unfolding oauth_token
  token-UsesUp q t = client-UsesUp q (active (get_oauth_client q.client_id t.clients)) t

  scopes-UsesUp :
      (q : AuthorizeRequest) (c : OauthClient) (asked : Option (List ℕ)) (t : OauthTables)
      → (o.hash_token q.new_code == k) ≡ false
      → UsesUp false t (authorize_scopes o now q c asked t)
  unfolding store_code create_oauth_authorization_code
  scopes-UsesUp q c none t other = omega arith
  scopes-UsesUp q c (some scopes) t other = elim (Bool-cases (all_in scopes c.allowed_scopes)) [
    | inl within ↦
        rw (within, lookup-insert (o.hash_token q.new_code) k _ t.authorization_codes, other)
          (omega arith)
    | inr beyond ↦ rw beyond (omega arith)
  ]

  authorize-UsesUp :
      (q : AuthorizeRequest) (c : Option OauthClient) (t : OauthTables)
      → (o.hash_token q.new_code == k) ≡ false
      → UsesUp false t (authorize_client o now q c t)
  authorize-UsesUp q none t other = omega arith
  authorize-UsesUp q (some c) t other =
      elim (Bool-cases (contains c.redirect_uris q.redirect_uri)) [
        | inl registered ↦
            rw registered (scopes-UsesUp q c (normalize_scope_string o q.scope) t other)
        | inr foreign ↦ rw foreign (omega arith)
      ]

  serve-UsesUp :
      (c : OauthCall) (t : OauthTables)
      → draws? o k c ≡ false
      → one_if (exchanges? o k now c t) + one_if (usable_at k (serve_oauth o now c t).1)
        ≤ one_if (usable_at k t)
  unfolding serve_oauth oauth_authorize oauth_revoke revoke_oauth_token
  serve-UsesUp (authorize q) t other =
      authorize-UsesUp q (active (get_oauth_client q.client_id t.clients)) t other
  serve-UsesUp (token q) t other = token-UsesUp q t
  serve-UsesUp (revoke s) t other = omega arith

-- Over any sequence of calls, at any times, of which none draws a code with the hash `k` anew, the
-- code with this hash is exchanged for tokens at most once, and never if it is missing or used at
-- the start.
pub exchanges-le :
    (o : OauthSetup) (k : ℕ) (calls : List (ℕ × OauthCall)) (t : OauthTables)
    → draws o k calls ≡ false
    → exchanges o k calls t ≤ one_if (usable_at k t)
unfolding exchanges
exchanges-le o k [] t h = omega arith
exchanges-le o k ((now, c) ∷ rest) t h = omega (
  arith,
  serve-UsesUp o k now c t (ground (arith, h)),
  exchanges-le o k rest (serve_oauth o now c t).1 (ground (arith, h)),
)
