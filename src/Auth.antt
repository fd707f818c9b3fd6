-- ===== src/Auth.antt =====
-- app/auth.py: who calls (`get_current_identity`), what the caller may do (`ensure_scope`) and where
-- it runs (`assess_infrastructure_identity_posture`), with the table `agent_identity_assertions` of
-- app/storage.py. The three verifiers stand behind their protocol, a record of two functions.
pub mod Granted
pub mod Workload
pub mod Refused
use safe4_arc_demo.Prelude.{
  ℕ, suc, Option, none, some, Bool, true, false, List, [], ◌∷◌, leb, not, if◌then◌else◌, ◌&&◌, ◌||◌,
  contains, is_some,
}
use safe4_arc_demo.Dict.{Dict, lookup, insert}
use safe4_arc_demo.Store.Oauth.{AccessToken, OauthTables, get_oauth_access_token}
use safe4_arc_demo.Oauth.{OauthSetup}

pub record InfrastructureIdentity : Type 0 where
  pub provider_name : ℕ
  pub subject : ℕ
  pub agent_id : Option ℕ
  pub environment : Option ℕ
  pub namespace : Option ℕ
  pub service_account : Option ℕ
  pub trust_tier : Option ℕ
  pub claims : ℕ
  pub verification_status : ℕ
  pub verification_reason_code : ℕ

pub record AgentIdentity : Type 0 where
  pub oauth_subject : ℕ
  pub oauth_scopes : List ℕ
  pub agent_id : Option ℕ
  pub client_id : ℕ
  pub infrastructure_identity : Option InfrastructureIdentity

pub data AuthError : Type 0 where
  auth_required invalid_access_token access_token_expired infra_identity_disabled : AuthError
  infra_identity_missing_headers infra_identity_unsupported_assertion : AuthError
  infra_identity_rejected : ℕ → AuthError
  insufficient_scope : List ℕ → AuthError
  trusted_infrastructure_identity_required : AuthError

-- An HTTPException, or the value.
pub data Checked (A : Type 0) : Type 0 where
  raised : AuthError → Checked A
  passed : A → Checked A

pub record InfrastructureIdentityVerifier : Type 0 where
  pub can_verify : (assertion : ℕ) → (signature : Option ℕ) → Bool
  pub verify :
      (assertion : ℕ) → (signature : Option ℕ) → (client_id : ℕ) → Checked InfrastructureIdentity

pub record AuthSetup : Type 0 where
  pub oauth : OauthSetup
  pub infrastructure_identity_enabled : Bool
  pub infra_identity_verifiers : List InfrastructureIdentityVerifier
  -- `JWT_ASSERTION_PATTERN.fullmatch`
  pub is_jwt_assertion : ℕ → Bool

pub record StoredAssertion : Type 0 where
  pub client_id : ℕ
  pub identity : InfrastructureIdentity
  pub first_seen_at : ℕ
  pub last_seen_at : ℕ
  pub seen_count : ℕ

abbrev seen : ℕ → ℕ → InfrastructureIdentity → Option StoredAssertion → StoredAssertion
seen now client_id i none = record {
  client_id = client_id;
  identity = i;
  first_seen_at = now;
  last_seen_at = now;
  seen_count = 1;
}
seen now client_id i (some r) = record r {
  client_id = client_id;
  identity = i;
  last_seen_at = now;
  seen_count = suc r.seen_count;
}

unfoldable pub upsert_agent_identity_assertion :
    ℕ → ℕ → ℕ → InfrastructureIdentity → Dict StoredAssertion → Dict StoredAssertion
upsert_agent_identity_assertion now assertion_hash client_id i rows =
    insert assertion_hash (seen now client_id i (lookup assertion_hash rows)) rows

pub data Authorization : Type 0 where
  bearer : ℕ → Authorization
  other_scheme : Authorization

-- The headers, where an empty one is none.
pub record AuthHeaders : Type 0 where
  pub authorization : Option Authorization
  pub infrastructure_assertion : Option ℕ
  pub infrastructure_signature : Option ℕ

unfoldable pub select_infrastructure_identity_verifier :
    List InfrastructureIdentityVerifier → ℕ → Option ℕ → Option InfrastructureIdentityVerifier
select_infrastructure_identity_verifier [] assertion signature = none
select_infrastructure_identity_verifier (v ∷ vs) assertion signature =
    let rest = select_infrastructure_identity_verifier vs assertion signature in
    if v.can_verify assertion signature then some v else rest

abbrev pub Identified : Type 0
Identified = Checked AgentIdentity × Dict StoredAssertion

abbrev pub identity_of : AccessToken → Option InfrastructureIdentity → AgentIdentity
identity_of r infra = record {
  oauth_subject = r.subject;
  oauth_scopes = r.scopes;
  agent_id = r.agent_id;
  client_id = r.client_id;
  infrastructure_identity = infra;
}

unfoldable pub vouched_for :
    AuthSetup
    → ℕ
    → ℕ
    → AccessToken
    → Checked InfrastructureIdentity
    → Dict StoredAssertion
    → Identified
unfolding upsert_agent_identity_assertion
vouched_for a now assertion r (raised e) seen_before = (raised e, seen_before)
vouched_for a now assertion r (passed i) seen_before = (
  passed (identity_of r (some i)),
  upsert_agent_identity_assertion now (a.oauth.hash_token assertion) r.client_id i seen_before,
)

abbrev pub verified :
    AuthSetup
    → ℕ
    → ℕ
    → Option ℕ
    → AccessToken
    → Option InfrastructureIdentityVerifier
    → Dict StoredAssertion
    → Identified
verified a now assertion signature r none rows =
    if not (is_some signature) && not (a.is_jwt_assertion assertion)
    then (raised infra_identity_missing_headers, rows)
    else (raised infra_identity_unsupported_assertion, rows)
verified a now assertion signature r (some v) rows =
    vouched_for a now assertion r (v.verify assertion signature r.client_id) rows

abbrev pub asserted :
    AuthSetup → ℕ → Option ℕ → Option ℕ → AccessToken → Dict StoredAssertion → Identified
asserted a now none signature r rows = (raised infra_identity_missing_headers, rows)
asserted a now (some assertion) signature r rows =
    verified a now assertion signature r
      (select_infrastructure_identity_verifier a.infra_identity_verifiers assertion signature) rows

unfoldable pub with_token :
    AuthSetup → ℕ → AuthHeaders → Bool → Option AccessToken → Dict StoredAssertion → Identified
unfolding select_infrastructure_identity_verifier vouched_for
with_token a now h allow_disabled none rows = (raised invalid_access_token, rows)
with_token a now h allow_disabled (some r) rows =
    if r.revoked
    then (raised invalid_access_token, rows)
    else if leb r.expires_at now
    then (raised access_token_expired, rows)
    else if not (is_some h.infrastructure_assertion || is_some h.infrastructure_signature)
    then (passed (identity_of r none), rows)
    else if not a.infrastructure_identity_enabled && not allow_disabled
    then (raised infra_identity_disabled, rows)
    else asserted a now h.infrastructure_assertion h.infrastructure_signature r rows

abbrev pub by_authorization :
    AuthSetup
    → ℕ
    → AuthHeaders
    → Bool
    → Option Authorization
    → OauthTables
    → Dict StoredAssertion
    → Identified
by_authorization a now h allow_disabled (some (bearer token)) t rows =
    with_token a now h allow_disabled
      (get_oauth_access_token (a.oauth.hash_token token) t.access_tokens) rows
by_authorization a now h allow_disabled _ t rows = (raised auth_required, rows)

unfoldable pub get_current_identity :
    AuthSetup → ℕ → AuthHeaders → Bool → OauthTables → Dict StoredAssertion → Identified
unfolding get_oauth_access_token with_token
get_current_identity a now h allow_disabled t rows =
    by_authorization a now h allow_disabled h.authorization t rows

unfoldable pub missing_scopes : List ℕ → List ℕ → List ℕ
missing_scopes [] held = []
missing_scopes (s ∷ ss) held =
    let rest = missing_scopes ss held in if contains held s then rest else s ∷ rest

abbrev pub without_missing : AgentIdentity → List ℕ → Checked AgentIdentity
without_missing i [] = passed i
without_missing i (s ∷ ss) = raised (insufficient_scope (s ∷ ss))

unfoldable pub ensure_scope : AgentIdentity → List ℕ → Checked AgentIdentity
unfolding missing_scopes
ensure_scope i required_scopes = without_missing i (missing_scopes required_scopes i.oauth_scopes)

abbrev pub scoped : List ℕ → Checked AgentIdentity → Checked AgentIdentity
scoped scopes (raised e) = raised e
scoped scopes (passed i) = ensure_scope i scopes

-- The dependency that the handlers name. FastAPI reads the flag of `get_current_identity` from the
-- query, so the client chooses it.
unfoldable pub require_scopes :
    AuthSetup → ℕ → AuthHeaders → Bool → List ℕ → OauthTables → Dict StoredAssertion → Identified
unfolding get_current_identity ensure_scope
require_scopes a now h allow_disabled scopes t rows =
    let r = get_current_identity a now h allow_disabled t rows in (scoped scopes r.0, r.1)

-- The run-time policy; without one, `enabled` is false. An absent list is empty.
pub record InfrastructureIdentityPolicy : Type 0 where
  pub enabled : Bool
  pub require_trusted_workload_for_admin_mutations : Bool
  pub trusted_environments : List ℕ
  pub trusted_namespaces : List ℕ
  pub trusted_service_accounts : List ℕ
  pub trusted_trust_tiers : List ℕ
  pub trusted_provider_names : List ℕ

pub data Posture : Type 0 where
  disabled oauth_only trusted_workload untrusted_workload : Posture

abbrev pub member : List ℕ → Option ℕ → Bool
member xs none = false
member xs (some a) = contains xs a

-- `not (trusted and value not in trusted)`
abbrev pub meets : List ℕ → Option ℕ → Bool
meets [] value = true
meets (x ∷ xs) value = member (x ∷ xs) value

unfoldable pub is_trusted_workload : InfrastructureIdentityPolicy → InfrastructureIdentity → Bool
is_trusted_workload p i =
    meets p.trusted_provider_names (some i.provider_name)
    && meets p.trusted_environments i.environment
    && meets p.trusted_namespaces i.namespace
    && meets p.trusted_service_accounts i.service_account
    && meets p.trusted_trust_tiers i.trust_tier

abbrev pub workload : InfrastructureIdentityPolicy → Option InfrastructureIdentity → Posture
workload p none = oauth_only
workload p (some i) = if is_trusted_workload p i then trusted_workload else untrusted_workload

abbrev pub infrastructure : Option AgentIdentity → Option InfrastructureIdentity
infrastructure none = none
infrastructure (some i) = i.infrastructure_identity

-- The posture; the rest of the answer repeats the identity's fields.
unfoldable pub assess_infrastructure_identity_posture :
    InfrastructureIdentityPolicy → Option AgentIdentity → Posture
unfolding is_trusted_workload
assess_infrastructure_identity_posture p identity =
    if p.enabled then workload p (infrastructure identity) else disabled

abbrev pub trusted? : Posture → Bool
trusted? trusted_workload = true
trusted? _ = false

unfoldable pub require_trusted_infrastructure_identity_for_admin :
    InfrastructureIdentityPolicy → Option AgentIdentity → Checked (Option AgentIdentity)
unfolding assess_infrastructure_identity_posture
require_trusted_infrastructure_identity_for_admin p identity =
    if not p.enabled || not p.require_trusted_workload_for_admin_mutations
    then passed identity
    else if trusted? (assess_infrastructure_identity_posture p identity)
    then passed identity
    else raised trusted_infrastructure_identity_required
