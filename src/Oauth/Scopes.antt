-- ===== src/Oauth/Scopes.antt =====
-- What a granted scope rests on: the scopes that the client was registered with.
use safe4_arc_demo.Prelude.{
  ℕ, ◌≡◌, sym, ap, ◌∙◌, Option, none, some, true, false, List, [], ◌∷◌, arith, inl, inr, Bool-cases,
  ◌==◌, leb, not, ◌||◌, if◌then◌else◌, contains, is_some,
}
use safe4_arc_demo.Dict.{Dict, lookup, insert, adjust, lookup-insert, lookup-adjust, map_option}
use safe4_arc_demo.Store.Oauth.{
  OauthClient, AuthorizationCode, AccessToken, RefreshToken, OauthTables, used_row, replaced_row,
  revoked_access, revoked_refresh, consume_oauth_authorization_code, consume_oauth_refresh_token,
  unused, unrevoked, create_oauth_access_token, create_oauth_refresh_token, get_oauth_client,
  create_oauth_authorization_code, revoke_oauth_token,
}
use safe4_arc_demo.Oauth.{
  OauthSetup, OauthAnswer, OauthCall, authorize, token, revoke, AuthorizeRequest, TokenRequest,
  all_in, normalize_scope_string, active, store_code, authorize_scopes, authorize_client,
  oauth_authorize, issue_tokens, exchange_code, rotate, code_grant, refresh_grant, by_grant,
  token_client, oauth_token, oauth_revoke, GrantType, authorization_code, refresh_token,
  other_grant, serve_oauth, serve_calls, verify_pkce,
}

-- Every row of a table has a property.
module _ {V : Type 0} (P : V → Type 0) where
  abbrev pub Holds : Option V → Type 0
  Holds none = Unit
  Holds (some v) = P v

  abbrev pub Every : Dict V → Type 0
  Every rows = (k : ℕ) → Holds (lookup k rows)

  Every-insert : (k : ℕ) (v : V) (rows : Dict V) → P v → Every rows → Every (insert k v rows)
  Every-insert k v rows p all j = elim (Bool-cases (k == j)) [
    | inl same ↦ rw (lookup-insert k j v rows, same) p
    | inr other ↦ rw (lookup-insert k j v rows, other) (all j)
  ]

  Holds-map :
      (f : V → V) (o : Option V) → ((v : V) → P v → P (f v)) → Holds o → Holds (map_option f o)
  Holds-map f none keep h = h
  Holds-map f (some v) keep h = keep v h

  Every-adjust :
      (k : ℕ) (f : V → V) (rows : Dict V)
      → ((v : V) → P v → P (f v))
      → Every rows
      → Every (adjust k f rows)
  Every-adjust k f rows keep all j = elim (Bool-cases (k == j)) [
    | inl same ↦ rw (lookup-adjust k j f rows, same) (Holds-map f (lookup j rows) keep (all j))
    | inr other ↦ rw (lookup-adjust k j f rows, other) (all j)
  ]

-- The client may have every one of the scopes.
abbrev pub scopes_of : Option OauthClient → List ℕ
scopes_of none = []
scopes_of (some c) = c.allowed_scopes

abbrev pub MayHave : Dict OauthClient → ℕ → List ℕ → Type 0
MayHave clients id scopes = all_in scopes (scopes_of (lookup id clients)) ≡ true

abbrev pub ScopedCode : Dict OauthClient → AuthorizationCode → Type 0
ScopedCode clients r = MayHave clients r.client_id r.scopes

abbrev pub ScopedAccess : Dict OauthClient → AccessToken → Type 0
ScopedAccess clients r = MayHave clients r.client_id r.scopes

abbrev pub ScopedRefresh : Dict OauthClient → RefreshToken → Type 0
ScopedRefresh clients r = MayHave clients r.client_id r.scopes

-- The clients are these, and no code or token is for more than its client may have.
pub record IsScoped (clients : Dict OauthClient) (t : OauthTables) : Type 0 where
  pub registered : t.clients ≡ clients
  pub codes : Every (ScopedCode clients) t.authorization_codes
  pub access : Every (ScopedAccess clients) t.access_tokens
  pub refresh : Every (ScopedRefresh clients) t.refresh_tokens

module _ (clients : Dict OauthClient) (o : OauthSetup) (now : ℕ) where
  abbrev Keeps : OauthAnswer × OauthTables → Type 0
  Keeps r = IsScoped clients r.1

  issue-IsScoped :
      (q : TokenRequest) (subject : ℕ) (agent_id : Option ℕ) (scopes : List ℕ) (t : OauthTables)
      → MayHave clients q.client_id scopes
      → IsScoped clients t
      → Keeps (issue_tokens o now q subject agent_id scopes t)
  unfolding issue_tokens create_oauth_access_token create_oauth_refresh_token
  issue-IsScoped q subject agent_id scopes t may i = record {
    registered = i.registered;
    codes = i.codes;
    access = Every-insert (ScopedAccess clients) _ _ t.access_tokens may i.access;
    refresh = Every-insert (ScopedRefresh clients) _ _ t.refresh_tokens may i.refresh;
  }

  same_client :
      (a b : ℕ) (scopes : List ℕ)
      → not (a == b) ≡ false
      → MayHave clients a scopes
      → MayHave clients b scopes
  same_client a b scopes h may = let e : a ≡ b = ground (arith, h) in rw (sym e) may

  exchange-IsScoped :
      (q : TokenRequest) (uri verifier : ℕ) (r : Option AuthorizationCode) (t : OauthTables)
      → Holds (ScopedCode clients) r
      → IsScoped clients t
      → Keeps (exchange_code o now q uri verifier r t)
  unfolding exchange_code
  exchange-IsScoped q uri verifier none t may i = i
  exchange-IsScoped q uri verifier (some r) t may i =
      elim (Bool-cases (not (r.client_id == q.client_id) || not (r.redirect_uri == uri))) [
        | inl wrong ↦ rw wrong i
        | inr right ↦ elim (Bool-cases (leb r.expires_at now)) [
          | inl late ↦ rw (right, late) i
          | inr live ↦ elim (Bool-cases (not (verify_pkce o verifier r.code_challenge))) [
            | inl bad ↦ rw (right, live, bad) i
            | inr good ↦
                rw (right, live, good)
                  (issue-IsScoped q r.subject r.agent_id r.scopes t
                    (same_client r.client_id q.client_id r.scopes (ground (arith, right)) may) i)
          ]
        ]
      ]

  rotate-IsScoped :
      (q : TokenRequest) (r : Option RefreshToken) (t : OauthTables)
      → Holds (ScopedRefresh clients) r
      → IsScoped clients t
      → Keeps (rotate o now q r t)
  unfolding rotate
  rotate-IsScoped q none t may i = i
  rotate-IsScoped q (some r) t may i = elim (Bool-cases (not (r.client_id == q.client_id))) [
    | inl wrong ↦ rw wrong i
    | inr right ↦ elim (Bool-cases (leb r.expires_at now)) [
      | inl late ↦ rw (right, late) i
      | inr live ↦
          rw (right, live)
            (issue-IsScoped q r.subject r.agent_id r.scopes t
              (same_client r.client_id q.client_id r.scopes right may) i)
    ]
  ]

  Holds-unused :
      (r : Option AuthorizationCode)
      → Holds (ScopedCode clients) r
      → Holds (ScopedCode clients) (unused r)
  Holds-unused none h = h
  Holds-unused (some r) h = elim (Bool-cases r.used) [ inl u ↦ rw u _ | inr n ↦ rw n h ]

  Holds-unrevoked :
      (r : Option RefreshToken)
      → Holds (ScopedRefresh clients) r
      → Holds (ScopedRefresh clients) (unrevoked r)
  Holds-unrevoked none h = h
  Holds-unrevoked (some r) h = elim (Bool-cases r.revoked) [ inl u ↦ rw u _ | inr n ↦ rw n h ]

  code_grant-IsScoped :
      (q : TokenRequest) (code uri verifier : Option ℕ) (t : OauthTables)
      → IsScoped clients t
      → Keeps (code_grant o now q code uri verifier t)
  unfolding consume_oauth_authorization_code
  code_grant-IsScoped q (some code) (some uri) (some verifier) t i =
      let rows = t.authorization_codes in
      let k = o.hash_token code in
      let found = unused (lookup k rows) in
      let kept : Every (ScopedCode clients)
          (if is_some found then adjust k used_row rows else rows) =
        elim (Bool-cases (is_some found)) [
          | inl y ↦ rw y (Every-adjust (ScopedCode clients) k used_row rows (λ v h. h) i.codes)
          | inr n ↦ rw n i.codes
        ] in
      exchange-IsScoped q uri verifier found _ (Holds-unused (lookup k rows) (i.codes k))
        (record { registered = i.registered; codes = kept; access = i.access; refresh = i.refresh })
  code_grant-IsScoped q none uri verifier t i = i
  code_grant-IsScoped q (some _) none verifier t i = i
  code_grant-IsScoped q (some _) (some _) none t i = i

  refresh_grant-IsScoped :
      (q : TokenRequest) (r : Option ℕ) (t : OauthTables)
      → IsScoped clients t
      → Keeps (refresh_grant o now q r t)
  unfolding consume_oauth_refresh_token
  refresh_grant-IsScoped q none t i = i
  refresh_grant-IsScoped q (some s) t i =
      let rows = t.refresh_tokens in
      let k = o.hash_token s in
      let next = o.hash_token q.new_refresh in
      let found = unrevoked (lookup k rows) in
      let kept : Every (ScopedRefresh clients)
          (if is_some found then adjust k (replaced_row next) rows else rows) =
        elim (Bool-cases (is_some found)) [
          | inl y ↦
              rw y (
                Every-adjust (ScopedRefresh clients) k (replaced_row next) rows (λ v h. h)
                  i.refresh)
          | inr n ↦ rw n i.refresh
        ] in
      rotate-IsScoped q found _ (Holds-unrevoked (lookup k rows) (i.refresh k))
        (record { registered = i.registered; codes = i.codes; access = i.access; refresh = kept })

  grant-IsScoped :
      (q : TokenRequest) (g : GrantType) (t : OauthTables)
      → IsScoped clients t
      → Keeps (by_grant o now q g t)
  grant-IsScoped q authorization_code t i =
      code_grant-IsScoped q q.code q.redirect_uri q.code_verifier t i
  grant-IsScoped q refresh_token t i = refresh_grant-IsScoped q q.refresh t i
  grant-IsScoped q other_grant t i = i

  client-IsScoped :
      (q : TokenRequest) (c : Option OauthClient) (t : OauthTables)
      → IsScoped clients t
      → Keeps (token_client o now q c t)
  client-IsScoped q none t i = i
  client-IsScoped q (some c) t i = grant-IsScoped q q.grant_type t i

  token-IsScoped :
      (q : TokenRequest) (t : OauthTables) → IsScoped clients t → Keeps (oauth_token o now q t)
  unfolding oauth_token
  token-IsScoped q t i = client-IsScoped q (active (get_oauth_client q.client_id t.clients)) t i

  store_code-IsScoped :
      (q : AuthorizeRequest) (scopes : List ℕ) (t : OauthTables)
      → MayHave clients q.client_id scopes
      → IsScoped clients t
      → Keeps (store_code o now q scopes t)
  unfolding store_code create_oauth_authorization_code
  store_code-IsScoped q scopes t may i = record {
    registered = i.registered;
    codes = Every-insert (ScopedCode clients) _ _ t.authorization_codes may i.codes;
    access = i.access;
    refresh = i.refresh;
  }

  scopes-IsScoped :
      (q : AuthorizeRequest) (c : OauthClient) (asked : Option (List ℕ)) (t : OauthTables)
      → lookup q.client_id clients ≡ some c
      → IsScoped clients t
      → Keeps (authorize_scopes o now q c asked t)
  scopes-IsScoped q c none t known i = i
  scopes-IsScoped q c (some scopes) t known i = elim (Bool-cases (all_in scopes c.allowed_scopes)) [
    | inl within ↦
        rw within
          (store_code-IsScoped q scopes t (ap (λ x. all_in scopes (scopes_of x)) known ∙ within) i)
    | inr beyond ↦ rw beyond i
  ]

  asked-IsScoped :
      (q : AuthorizeRequest) (c : Option OauthClient) (t : OauthTables)
      → lookup q.client_id clients ≡ c
      → IsScoped clients t
      → Keeps (authorize_client o now q (active c) t)
  asked-IsScoped q none t known i = i
  asked-IsScoped q (some c) t known i = elim (Bool-cases c.is_active) [
    | inl on ↦ elim (Bool-cases (contains c.redirect_uris q.redirect_uri)) [
      | inl registered ↦
          rw (on, registered) (scopes-IsScoped q c (normalize_scope_string o q.scope) t known i)
      | inr foreign ↦ rw (on, foreign) i
    ]
    | inr off ↦ rw off i
  ]

  authorize-IsScoped :
      (q : AuthorizeRequest) (t : OauthTables)
      → IsScoped clients t
      → Keeps (oauth_authorize o now q t)
  unfolding oauth_authorize get_oauth_client
  authorize-IsScoped q t i =
      asked-IsScoped q (lookup q.client_id t.clients) t (ap (lookup q.client_id) (sym i.registered))
        i

  revoke-IsScoped : (s : ℕ) (t : OauthTables) → IsScoped clients t → Keeps (oauth_revoke o s t)
  unfolding oauth_revoke revoke_oauth_token
  revoke-IsScoped s t i = record {
    registered = i.registered;
    codes = i.codes;
    access =
        Every-adjust (ScopedAccess clients) _ revoked_access t.access_tokens (λ v h. h) i.access;
    refresh =
        Every-adjust (ScopedRefresh clients) _ revoked_refresh t.refresh_tokens (λ v h. h)
          i.refresh;
  }

  serve-IsScoped :
      (c : OauthCall) (t : OauthTables) → IsScoped clients t → Keeps (serve_oauth o now c t)
  unfolding serve_oauth
  serve-IsScoped (authorize q) t i = authorize-IsScoped q t i
  serve-IsScoped (token q) t i = token-IsScoped q t i
  serve-IsScoped (revoke s) t i = revoke-IsScoped s t i

-- Over any sequence of calls, at any times, no code or token comes to be for more scopes than its
-- client was registered with, if none was at the start; and the clients stay as they are.
pub calls-IsScoped :
    (o : OauthSetup) (calls : List (ℕ × OauthCall)) (clients : Dict OauthClient) (t : OauthTables)
    → IsScoped clients t
    → IsScoped clients (serve_calls o calls t)
unfolding serve_calls
calls-IsScoped o [] clients t i = i
calls-IsScoped o ((now, c) ∷ rest) clients t i =
    calls-IsScoped o rest clients _ (serve-IsScoped clients o now c t i)
