-- ===== src/Oauth.antt =====
-- app/api/oauth.py (`oauth_authorize`, `oauth_token`, `oauth_revoke`) and the helpers of app/auth.py
-- that they call. The bodies have passed their validation; a scope is a number in the order of the
-- names, and a scope string the list of its words. A request reads the clock once here.
pub mod Scopes
pub mod Once
pub mod Revoked
use safe4_arc_demo.Prelude.{
  ℕ, ◌+◌, Option, none, some, Bool, true, false, List, [], ◌∷◌, ◌++◌, ◌==◌, leb, ltb, not,
  if◌then◌else◌, ◌&&◌, ◌||◌, contains,
}
use safe4_arc_demo.Store.Oauth.{
  OauthClient, AuthorizationCode, AccessToken, RefreshToken, OauthTables, get_oauth_client,
  create_oauth_authorization_code, consume_oauth_authorization_code, create_oauth_access_token,
  create_oauth_refresh_token, consume_oauth_refresh_token, revoke_oauth_token,
}

-- `setup_oauth_api` and `setup_auth`, with SHA-256 and the pattern of a code verifier.
pub record OauthSetup : Type 0 where
  pub auth_code_ttl_seconds : ℕ
  pub access_token_ttl_seconds : ℕ
  pub refresh_token_ttl_seconds : ℕ
  pub supported_scopes : List ℕ
  pub hash_token : ℕ → ℕ
  pub compute_code_challenge : ℕ → ℕ
  pub is_code_verifier : ℕ → Bool

pub data OauthError : Type 0 where
  invalid_client invalid_redirect_uri invalid_scope invalid_request invalid_grant : OauthError
  unsupported_grant_type : OauthError

pub data OauthAnswer : Type 0 where
  refused : OauthError → OauthAnswer
  authorized : (code : ℕ) (expires_at : ℕ) (scope : List ℕ) → OauthAnswer
  issued : (access_token : ℕ) (refresh_token : ℕ) (expires_in : ℕ) (scope : List ℕ) → OauthAnswer
  revocation : Bool → OauthAnswer

unfoldable in_place : ℕ → List ℕ → List ℕ
in_place a [] = a ∷ []
in_place a (x ∷ xs) =
    let rest = in_place a xs in if a == x then x ∷ xs else if ltb a x then a ∷ x ∷ xs else x ∷ rest

-- `sorted({…})`
unfoldable pub sorted_set : List ℕ → List ℕ
unfolding in_place
sorted_set [] = []
sorted_set (a ∷ rest) = in_place a (sorted_set rest)

-- `not any(scope not in allowed for scope in scopes)`
unfoldable pub all_in : List ℕ → List ℕ → Bool
all_in [] allowed = true
all_in (s ∷ ss) allowed = contains allowed s && all_in ss allowed

abbrev checked : List ℕ → List ℕ → Option (List ℕ)
checked supported [] = none
checked supported (s ∷ ss) = if all_in (s ∷ ss) supported then some (s ∷ ss) else none

-- `none` is the ValueError.
unfoldable pub normalize_scope_string : OauthSetup → List ℕ → Option (List ℕ)
unfolding all_in
normalize_scope_string o scope = checked o.supported_scopes (sorted_set scope)

unfoldable pub verify_pkce : OauthSetup → ℕ → ℕ → Bool
verify_pkce o code_verifier stored =
    o.is_code_verifier code_verifier && (o.compute_code_challenge code_verifier == stored)

-- The client that the handlers go on with.
abbrev pub active : Option OauthClient → Option OauthClient
active none = none
active (some c) = if c.is_active then some c else none

-- A request, with the secret that `_issue_secret_token` draws for it.
pub record AuthorizeRequest : Type 0 where
  pub client_id : ℕ
  pub redirect_uri : ℕ
  pub scope : List ℕ
  pub subject : ℕ
  pub agent_id : Option ℕ
  pub code_challenge : ℕ
  pub code_challenge_method : ℕ
  pub new_code : ℕ

abbrev pub code_row : OauthSetup → ℕ → AuthorizeRequest → List ℕ → AuthorizationCode
code_row o now q scopes = record {
  client_id = q.client_id;
  subject = q.subject;
  agent_id = q.agent_id;
  redirect_uri = q.redirect_uri;
  scopes = scopes;
  code_challenge = q.code_challenge;
  code_challenge_method = q.code_challenge_method;
  expires_at = now + o.auth_code_ttl_seconds;
  used = false;
  created_at = now;
}

unfoldable pub store_code :
    OauthSetup → ℕ → AuthorizeRequest → List ℕ → OauthTables → OauthAnswer × OauthTables
unfolding create_oauth_authorization_code
store_code o now q scopes t = (
  authorized q.new_code (now + o.auth_code_ttl_seconds) scopes,
  record t {
    authorization_codes =
        create_oauth_authorization_code (o.hash_token q.new_code) (code_row o now q scopes)
          t.authorization_codes;
    events =
        t.events ++ record { actor_id = q.subject; client_id = q.client_id; scopes = scopes } ∷ [];
  },
)

abbrev pub authorize_scopes :
    OauthSetup
    → ℕ
    → AuthorizeRequest
    → OauthClient
    → Option (List ℕ)
    → OauthTables
    → OauthAnswer × OauthTables
authorize_scopes o now q c none t = (refused invalid_scope, t)
authorize_scopes o now q c (some scopes) t =
    if all_in scopes c.allowed_scopes
    then store_code o now q scopes t
    else (refused invalid_scope, t)

abbrev pub authorize_client :
    OauthSetup → ℕ → AuthorizeRequest → Option OauthClient → OauthTables → OauthAnswer × OauthTables
authorize_client o now q none t = (refused invalid_client, t)
authorize_client o now q (some c) t =
    if not (contains c.redirect_uris q.redirect_uri)
    then (refused invalid_redirect_uri, t)
    else authorize_scopes o now q c (normalize_scope_string o q.scope) t

unfoldable pub oauth_authorize :
    OauthSetup → ℕ → AuthorizeRequest → OauthTables → OauthAnswer × OauthTables
unfolding all_in get_oauth_client normalize_scope_string store_code
oauth_authorize o now q t =
    authorize_client o now q (active (get_oauth_client q.client_id t.clients)) t

pub data GrantType : Type 0 where
  authorization_code refresh_token other_grant : GrantType

pub record TokenRequest : Type 0 where
  pub grant_type : GrantType
  pub client_id : ℕ
  pub code : Option ℕ
  pub redirect_uri : Option ℕ
  pub code_verifier : Option ℕ
  pub refresh : Option ℕ
  pub new_access : ℕ
  pub new_refresh : ℕ

-- Both grants end with the same two inserts.
unfoldable pub issue_tokens :
    OauthSetup → ℕ → TokenRequest → ℕ → Option ℕ → List ℕ → OauthTables → OauthAnswer × OauthTables
unfolding create_oauth_access_token create_oauth_refresh_token
issue_tokens o now q subject agent_id scopes t = (
  issued q.new_access q.new_refresh o.access_token_ttl_seconds scopes,
  record t {
    access_tokens =
        create_oauth_access_token (o.hash_token q.new_access)
          (record {
            client_id = q.client_id;
            subject = subject;
            agent_id = agent_id;
            scopes = scopes;
            expires_at = now + o.access_token_ttl_seconds;
            revoked = false;
            created_at = now;
          })
          t.access_tokens;
    refresh_tokens =
        create_oauth_refresh_token (o.hash_token q.new_refresh)
          (record {
            client_id = q.client_id;
            subject = subject;
            agent_id = agent_id;
            scopes = scopes;
            expires_at = now + o.refresh_token_ttl_seconds;
            revoked = false;
            replaced_by = none;
            created_at = now;
          })
          t.refresh_tokens;
  },
)

unfoldable pub exchange_code :
    OauthSetup
    → ℕ
    → TokenRequest
    → ℕ
    → ℕ
    → Option AuthorizationCode
    → OauthTables
    → OauthAnswer × OauthTables
unfolding issue_tokens verify_pkce
exchange_code o now q uri verifier none t = (refused invalid_grant, t)
exchange_code o now q uri verifier (some r) t =
    if not (r.client_id == q.client_id) || not (r.redirect_uri == uri)
    then (refused invalid_grant, t)
    else if leb r.expires_at now
    then (refused invalid_grant, t)
    else if not (verify_pkce o verifier r.code_challenge)
    then (refused invalid_grant, t)
    else issue_tokens o now q r.subject r.agent_id r.scopes t

unfoldable pub rotate :
    OauthSetup → ℕ → TokenRequest → Option RefreshToken → OauthTables → OauthAnswer × OauthTables
unfolding issue_tokens
rotate o now q none t = (refused invalid_grant, t)
rotate o now q (some r) t =
    if not (r.client_id == q.client_id)
    then (refused invalid_grant, t)
    else if leb r.expires_at now
    then (refused invalid_grant, t)
    else issue_tokens o now q r.subject r.agent_id r.scopes t

abbrev pub code_grant :
    OauthSetup
    → ℕ
    → TokenRequest
    → Option ℕ
    → Option ℕ
    → Option ℕ
    → OauthTables
    → OauthAnswer × OauthTables
code_grant o now q (some code) (some uri) (some verifier) t =
    let c = consume_oauth_authorization_code (o.hash_token code) t.authorization_codes in
    exchange_code o now q uri verifier c.0 (record t { authorization_codes = c.1 })
code_grant o now q _ _ _ t = (refused invalid_request, t)

abbrev pub refresh_grant :
    OauthSetup → ℕ → TokenRequest → Option ℕ → OauthTables → OauthAnswer × OauthTables
refresh_grant o now q none t = (refused invalid_request, t)
refresh_grant o now q (some token) t =
    let c =
      consume_oauth_refresh_token (o.hash_token token) (o.hash_token q.new_refresh)
        t.refresh_tokens in
    rotate o now q c.0 (record t { refresh_tokens = c.1 })

abbrev pub by_grant :
    OauthSetup → ℕ → TokenRequest → GrantType → OauthTables → OauthAnswer × OauthTables
by_grant o now q authorization_code t = code_grant o now q q.code q.redirect_uri q.code_verifier t
by_grant o now q refresh_token t = refresh_grant o now q q.refresh t
by_grant o now q other_grant t = (refused unsupported_grant_type, t)

abbrev pub token_client :
    OauthSetup → ℕ → TokenRequest → Option OauthClient → OauthTables → OauthAnswer × OauthTables
token_client o now q none t = (refused invalid_client, t)
token_client o now q (some c) t = by_grant o now q q.grant_type t

unfoldable pub oauth_token : OauthSetup → ℕ → TokenRequest → OauthTables → OauthAnswer × OauthTables
unfolding get_oauth_client consume_oauth_authorization_code consume_oauth_refresh_token
    exchange_code rotate
oauth_token o now q t = token_client o now q (active (get_oauth_client q.client_id t.clients)) t

unfoldable pub oauth_revoke : OauthSetup → ℕ → OauthTables → OauthAnswer × OauthTables
unfolding revoke_oauth_token
oauth_revoke o token t = let r = revoke_oauth_token (o.hash_token token) t in (revocation r.0, r.1)

pub data OauthCall : Type 0 where
  authorize : AuthorizeRequest → OauthCall
  token : TokenRequest → OauthCall
  revoke : ℕ → OauthCall

unfoldable pub serve_oauth : OauthSetup → ℕ → OauthCall → OauthTables → OauthAnswer × OauthTables
unfolding oauth_authorize oauth_token oauth_revoke
serve_oauth o now (authorize q) t = oauth_authorize o now q t
serve_oauth o now (token q) t = oauth_token o now q t
serve_oauth o now (revoke s) t = oauth_revoke o s t

-- The calls in the order in which they are served, each with its time.
unfoldable pub serve_calls : OauthSetup → List (ℕ × OauthCall) → OauthTables → OauthTables
unfolding serve_oauth
serve_calls o [] t = t
serve_calls o ((now, call) ∷ rest) t = serve_calls o rest (serve_oauth o now call t).1
