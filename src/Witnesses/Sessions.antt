-- ===== src/Witnesses/Sessions.antt =====
-- The theorems on OAuth and on who is let in, for one client with two scopes.
use safe4_arc_demo.Prelude.{◌≤◌, ◌≡◌, refl, none, some, true, false, List, [], ◌∷◌, ℕ}
use safe4_arc_demo.Dict.{lookup, adjust, insert, Dict}
use safe4_arc_demo.Store.Oauth.{OauthClient, OauthTables}
use safe4_arc_demo.Oauth.{
  OauthSetup, AuthorizeRequest, TokenRequest, OauthCall, authorize, token, authorization_code,
  serve_calls, sorted_set, oauth_revoke,
}
use safe4_arc_demo.Oauth.Once.{exchanges, exchanges-le, one_if, usable_at}
use safe4_arc_demo.Oauth.Scopes.{IsScoped}
use safe4_arc_demo.Auth.{
  AuthSetup, AuthHeaders, bearer, AgentIdentity, InfrastructureIdentity,
  InfrastructureIdentityPolicy, infrastructure, passed, raised, invalid_access_token,
  get_current_identity, require_scopes, require_trusted_infrastructure_identity_for_admin,
}
use safe4_arc_demo.Auth.Granted.{IfPassed, IsGranted, require_scopes-IsGranted}
use safe4_arc_demo.Auth.Refused.{revoked-refused}
use safe4_arc_demo.Auth.Workload.{IsTrusted, admin-OnTrusted}

abbrev setup : OauthSetup
setup = record {
  auth_code_ttl_seconds = 60;
  access_token_ttl_seconds = 900;
  refresh_token_ttl_seconds = 9000;
  supported_scopes = 1 ∷ 2 ∷ 3 ∷ [];
  hash_token = λ s. s;
  compute_code_challenge = λ s. s;
  is_code_verifier = λ s. true;
}

abbrev clients : Dict OauthClient
clients = (5, record { redirect_uris = 8 ∷ []; allowed_scopes = 1 ∷ 2 ∷ []; is_active = true }) ∷ []

abbrev start : OauthTables
start = record {
  clients = clients;
  authorization_codes = [];
  access_tokens = [];
  refresh_tokens = [];
  events = [];
}

abbrev request : AuthorizeRequest
request = record {
  client_id = 5;
  redirect_uri = 8;
  scope = 2 ∷ 1 ∷ 2 ∷ [];
  subject = 40;
  agent_id = some 41;
  code_challenge = 77;
  code_challenge_method = 0;
  new_code = 100;
}

abbrev exchange : TokenRequest
exchange = record {
  grant_type = authorization_code;
  client_id = 5;
  code = some 100;
  redirect_uri = some 8;
  code_verifier = some 77;
  refresh = none;
  new_access = 200;
  new_refresh = 300;
}

abbrev with_code : OauthTables
with_code = record start {
  authorization_codes =
      (
        100,
        record {
          client_id = 5;
          subject = 40;
          agent_id = some 41;
          redirect_uri = 8;
          scopes = 1 ∷ [];
          code_challenge = 77;
          code_challenge_method = 0;
          expires_at = 60;
          used = false;
          created_at = 0;
        },
      )
      ∷ [];
}

abbrev twice : List (ℕ × OauthCall)
twice = (10, token exchange) ∷ (11, token exchange) ∷ []

exchanges-le_example : exchanges setup 100 twice with_code ≤ one_if (usable_at 100 with_code)
exchanges-le_example = exchanges-le setup 100 twice with_code refl

-- The exchange succeeds, and its repetition does not.
exchanges_test : exchanges setup 100 twice with_code ≡ 1
unfolding exchanges lookup adjust
exchanges_test = refl

abbrev a : AuthSetup
a = record {
  oauth = setup;
  infrastructure_identity_enabled = false;
  infra_identity_verifiers = [];
  is_jwt_assertion = λ s. true;
}

abbrev headers : AuthHeaders
headers = record {
  authorization = some (bearer 200);
  infrastructure_assertion = none;
  infrastructure_signature = none;
}

abbrev history : List (ℕ × OauthCall)
history = (10, authorize request) ∷ (11, token exchange) ∷ []

start-IsScoped : IsScoped clients start
unfolding lookup
start-IsScoped = record { registered = refl; codes = λ k. _; access = λ k. _; refresh = λ k. _ }

require_scopes-IsGranted_example :
    let t = serve_calls setup history start in
    IfPassed
      (IsGranted a 20 headers (2 ∷ []) clients t)
      (require_scopes a 20 headers true (2 ∷ []) t []).0
require_scopes-IsGranted_example =
    require_scopes-IsGranted a history clients start 20 headers true (2 ∷ []) [] start-IsScoped

abbrev caller : AgentIdentity
caller = record {
  oauth_subject = 40;
  oauth_scopes = 1 ∷ 2 ∷ [];
  agent_id = some 41;
  client_id = 5;
  infrastructure_identity = none;
}

-- The tokens of the history are good for the caller.
granted_test :
    (require_scopes a 20 headers true (2 ∷ []) (serve_calls setup history start) []).0
    ≡ passed caller
unfolding require_scopes serve_calls lookup sorted_set insert
granted_test = refl

abbrev policy : InfrastructureIdentityPolicy
policy = record {
  enabled = true;
  require_trusted_workload_for_admin_mutations = true;
  trusted_environments = 6 ∷ 7 ∷ [];
  trusted_namespaces = [];
  trusted_service_accounts = [];
  trusted_trust_tiers = [];
  trusted_provider_names = 3 ∷ [];
}

abbrev on_workload : InfrastructureIdentity
on_workload = record {
  provider_name = 3;
  subject = 1;
  agent_id = none;
  environment = some 7;
  namespace = none;
  service_account = none;
  trust_tier = none;
  claims = 0;
  verification_status = 0;
  verification_reason_code = 0;
}

abbrev operator : AgentIdentity
operator = record caller { infrastructure_identity = some on_workload }

let_in :
    require_trusted_infrastructure_identity_for_admin policy (some operator)
    ≡ passed (some operator)
unfolding require_trusted_infrastructure_identity_for_admin
let_in = refl

admin-OnTrusted_example :
    (i : InfrastructureIdentity) × (infrastructure (some operator) ≡ some i) × IsTrusted policy i
admin-OnTrusted_example = admin-OnTrusted policy (some operator) refl refl let_in

-- After the tokens of the history were drawn.
abbrev after_history : OauthTables
after_history = serve_calls setup history start

abbrev again : List (ℕ × OauthCall)
again = (12, token (record exchange { new_access = 201; new_refresh = 301 })) ∷ []

revoked-refused_example :
    get_current_identity a 20 headers false
      (serve_calls setup again (oauth_revoke setup 200 after_history).1)
      []
    ≡ (raised invalid_access_token, [])
revoked-refused_example = revoked-refused a 200 again after_history 20 headers false [] refl refl
