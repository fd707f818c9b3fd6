-- ===== src/Auth/Granted.antt =====
-- What lets a caller in, from the registration of its client on.
use safe4_arc_demo.Prelude.{
  ℕ, ◌<◌, ◌≡◌, refl, sym, ap, ◌∙◌, Option, none, some, Bool, true, false, List, [], ◌∷◌, arith, inl,
  inr, Bool-cases, leb, not, ◌&&◌, ◌||◌, ◌==◌, ==→≡, if◌then◌else◌, contains, is_some,
}
use safe4_arc_demo.Dict.{Dict, lookup}
use safe4_arc_demo.Store.Oauth.{AccessToken, OauthClient, OauthTables, get_oauth_access_token}
use safe4_arc_demo.Oauth.{OauthCall, all_in, serve_calls}
use safe4_arc_demo.Oauth.Scopes.{Holds, IsScoped, MayHave, ScopedAccess, scopes_of, calls-IsScoped}
use safe4_arc_demo.Auth.{
  without_missing, Identified, AuthSetup, AuthHeaders, Authorization, bearer, other_scheme,
  AgentIdentity, InfrastructureIdentity, InfrastructureIdentityVerifier, StoredAssertion, Checked,
  raised, passed, identity_of, vouched_for, verified, asserted, with_token, by_authorization,
  get_current_identity, missing_scopes, ensure_scope, scoped, require_scopes,
  select_infrastructure_identity_verifier,
}

-- Whoever is let in has the property.
abbrev pub IfPassed : {A : Type 0} → (A → Type 0) → Checked A → Type 0
IfPassed P (raised e) = Unit
IfPassed P (passed x) = P x

-- A bearer token in the table, neither revoked nor expired, is for the caller and its scopes.
pub record IsBacked (a : AuthSetup) (now : ℕ) (h : AuthHeaders) (t : OauthTables)
    (i : AgentIdentity) : Type 0 where
  pub token : ℕ
  pub row : AccessToken
  pub sent : h.authorization ≡ some (bearer token)
  pub stored : lookup (a.oauth.hash_token token) t.access_tokens ≡ some row
  pub current : row.revoked ≡ false
  pub unexpired : now < row.expires_at
  pub same : i ≡ identity_of row i.infrastructure_identity

module _ (a : AuthSetup) (now : ℕ) (P : AgentIdentity → Type 0) (r : AccessToken)
    (p : (infra : Option InfrastructureIdentity) → P (identity_of r infra)) where
  vouched-IfPassed :
      (assertion : ℕ) (c : Checked InfrastructureIdentity) (rows : Dict StoredAssertion)
      → IfPassed P (vouched_for a now assertion r c rows).0
  unfolding vouched_for
  vouched-IfPassed assertion (raised e) rows = _
  vouched-IfPassed assertion (passed i) rows = p (some i)

  verified-IfPassed :
      (assertion : ℕ) (signature : Option ℕ) (v : Option InfrastructureIdentityVerifier)
      (rows : Dict StoredAssertion)
      → IfPassed P (verified a now assertion signature r v rows).0
  verified-IfPassed assertion signature none rows =
      elim (Bool-cases (not (is_some signature) && not (a.is_jwt_assertion assertion))) [
        | inl y ↦ rw y _
        | inr n ↦ rw n _
      ]
  verified-IfPassed assertion signature (some v) rows =
      vouched-IfPassed assertion (v.verify assertion signature r.client_id) rows

  asserted-IfPassed :
      (assertion : Option ℕ) (signature : Option ℕ) (rows : Dict StoredAssertion)
      → IfPassed P (asserted a now assertion signature r rows).0
  asserted-IfPassed none signature rows = _
  asserted-IfPassed (some assertion) signature rows =
      verified-IfPassed assertion signature
        (select_infrastructure_identity_verifier a.infra_identity_verifiers assertion signature)
        rows

if-IfPassed :
    (P : AgentIdentity → Type 0) (b : Bool) (x y : Identified)
    → (b ≡ true → IfPassed P x.0)
    → (b ≡ false → IfPassed P y.0)
    → IfPassed P (if b then x else y).0
if-IfPassed P true x y f g = f refl
if-IfPassed P false x y f g = g refl

with_token-IfPassed :
    (a : AuthSetup) (now : ℕ) (h : AuthHeaders) (d : Bool) (o : Option AccessToken)
    (rows : Dict StoredAssertion) (P : AgentIdentity → Type 0)
    → ((r : AccessToken)
        → o ≡ some r
        → r.revoked ≡ false
        → now < r.expires_at
        → (infra : Option InfrastructureIdentity) → P (identity_of r infra))
    → IfPassed P (with_token a now h d o rows).0
unfolding with_token
with_token-IfPassed a now h d none rows P p = _
with_token-IfPassed a now h d (some r) rows P p =
    if-IfPassed P r.revoked _ _ (λ revoked. _)
      (λ current.
        if-IfPassed P (leb r.expires_at now) _ _ (λ late. _)
          (λ live.
            let q = p r refl current (ground (arith, live)) in
            if-IfPassed P
              (not (is_some h.infrastructure_assertion || is_some h.infrastructure_signature)) _ _
              (λ bare. q none)
              (λ headers.
                if-IfPassed P (not a.infrastructure_identity_enabled && not d) _ _ (λ off. _)
                  (λ on.
                    asserted-IfPassed a now P r q h.infrastructure_assertion
                      h.infrastructure_signature rows))))

by_authorization-IsBacked :
    (a : AuthSetup) (now : ℕ) (h : AuthHeaders) (d : Bool) (t : OauthTables)
    (rows : Dict StoredAssertion) (x : Option Authorization)
    → h.authorization ≡ x
    → IfPassed (IsBacked a now h t) (by_authorization a now h d x t rows).0
unfolding get_oauth_access_token
by_authorization-IsBacked a now h d t rows none e = _
by_authorization-IsBacked a now h d t rows (some other_scheme) e = _
by_authorization-IsBacked a now h d t rows (some (bearer token)) e =
    with_token-IfPassed a now h d (lookup (a.oauth.hash_token token) t.access_tokens) rows
      (IsBacked a now h t)
      (λ r stored current unexpired infra. record {
        token = token;
        row = r;
        sent = e;
        stored = stored;
        current = current;
        unexpired = unexpired;
        same = refl;
      })

identity-IsBacked :
    (a : AuthSetup) (now : ℕ) (h : AuthHeaders) (d : Bool) (t : OauthTables)
    (rows : Dict StoredAssertion)
    → IfPassed (IsBacked a now h t) (get_current_identity a now h d t rows).0
unfolding get_current_identity
identity-IsBacked a now h d t rows = by_authorization-IsBacked a now h d t rows h.authorization refl

all_in-missing :
    (required held : List ℕ) → missing_scopes required held ≡ [] → all_in required held ≡ true
unfolding all_in missing_scopes
all_in-missing [] held e = refl
all_in-missing (s ∷ ss) held e = elim (Bool-cases (contains held s)) [
  | inl y ↦ rw y (
      all_in-missing ss held
        (sym (ap (λ b. if b then missing_scopes ss held else s ∷ missing_scopes ss held) y) ∙ e))
  | inr n ↦ ground (arith, n, e)
]

contains_trans :
    (held allowed : List ℕ) (s : ℕ)
    → contains held s ≡ true
    → all_in held allowed ≡ true
    → contains allowed s ≡ true
unfolding all_in
contains_trans [] allowed s h all = ground (arith, h)
contains_trans (x ∷ xs) allowed s h all = elim (Bool-cases (x == s)) [
  | inl same ↦ ap (contains allowed) (sym (==→≡ x s same)) ∙ (ground (arith, all))
  | inr other ↦ contains_trans xs allowed s (ground (arith, h, other)) (ground (arith, all))
]

all_in_trans :
    (required held allowed : List ℕ)
    → all_in required held ≡ true
    → all_in held allowed ≡ true
    → all_in required allowed ≡ true
unfolding all_in
all_in_trans [] held allowed r h = refl
all_in_trans (s ∷ ss) held allowed r h = ground (
  arith,
  contains_trans held allowed s (ground (arith, r)) h,
  all_in_trans ss held allowed (ground (arith, r)) h,
)

-- The caller has a backed token for every required scope, and its client may have each of them.
pub record IsGranted (a : AuthSetup) (now : ℕ) (h : AuthHeaders) (required : List ℕ)
    (clients : Dict OauthClient) (t : OauthTables) (i : AgentIdentity) : Type 0 where
  pub backed : IsBacked a now h t i
  pub held : all_in required i.oauth_scopes ≡ true
  pub registered : MayHave clients i.client_id required

without-IfPassed :
    (i : AgentIdentity) (missing : List ℕ) (P : AgentIdentity → Type 0)
    → (missing ≡ [] → P i)
    → IfPassed P (without_missing i missing)
without-IfPassed i [] P p = p refl
without-IfPassed i (s ∷ ss) P p = _

row-registered :
    (clients : Dict OauthClient) (o : Option AccessToken) (r : AccessToken)
    → o ≡ some r
    → Holds (ScopedAccess clients) o
    → MayHave clients r.client_id r.scopes
row-registered clients o r e h = rw (sym (ap (Holds (ScopedAccess clients)) e)) h

scoped-IfPassed :
    (a : AuthSetup) (now : ℕ) (h : AuthHeaders) (required : List ℕ) (clients : Dict OauthClient)
    (t : OauthTables) (c : Checked AgentIdentity)
    → IsScoped clients t
    → IfPassed (IsBacked a now h t) c
    → IfPassed (IsGranted a now h required clients t) (scoped required c)
unfolding ensure_scope
scoped-IfPassed a now h required clients t (raised e) s b = _
scoped-IfPassed a now h required clients t (passed i) s b =
    without-IfPassed i (missing_scopes required i.oauth_scopes)
      (IsGranted a now h required clients t)
      (λ none_missing.
        let held = all_in-missing required i.oauth_scopes none_missing in
        record {
          backed = b;
          held = held;
          registered =
              all_in_trans required i.oauth_scopes (scopes_of (lookup i.client_id clients)) held (
                ap (λ j. all_in j.oauth_scopes (scopes_of (lookup j.client_id clients))) b.same
                ∙ row-registered clients (lookup (a.oauth.hash_token b.token) t.access_tokens) b.row
                    b.stored (s.access (a.oauth.hash_token b.token)));
        })

-- After any sequence of OAuth calls on tables in which no code or token is for more scopes than its
-- client was registered with, whoever the dependency on some scopes lets in, whatever flag the client
-- sends, has sent a bearer token that is in the table, neither revoked nor expired, and whose subject,
-- agent, client and scopes it is let in as; the scopes cover the required ones, and the client was
-- registered with each of these.
pub require_scopes-IsGranted :
    (a : AuthSetup) (calls : List (ℕ × OauthCall)) (clients : Dict OauthClient)
    (start : OauthTables) (now : ℕ) (h : AuthHeaders) (allow_disabled : Bool) (required : List ℕ)
    (rows : Dict StoredAssertion)
    → IsScoped clients start
    → let t = serve_calls a.oauth calls start in
      IfPassed
        (IsGranted a now h required clients t)
        (require_scopes a now h allow_disabled required t rows).0
unfolding require_scopes
require_scopes-IsGranted a calls clients start now h d required rows s =
    let t = serve_calls a.oauth calls start in
    scoped-IfPassed a now h required clients t (get_current_identity a now h d t rows).0
      (calls-IsScoped a.oauth calls clients start s) (identity-IsBacked a now h d t rows)
