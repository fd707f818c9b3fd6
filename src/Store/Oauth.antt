-- ===== src/Store/Oauth.antt =====
-- app/storage.py: the tables `oauth_clients`, `oauth_authorization_codes`, `oauth_access_tokens`
-- and `oauth_refresh_tokens`, the last three keyed by the hash of a secret of 32 random bytes.
use safe4_arc_demo.Prelude.{ℕ, Option, none, some, Bool, true, List, if◌then◌else◌, ◌||◌, is_some}
use safe4_arc_demo.Dict.{Dict, lookup, insert, adjust}

pub record OauthClient : Type 0 where
  pub redirect_uris : List ℕ
  pub allowed_scopes : List ℕ
  pub is_active : Bool

pub record AuthorizationCode : Type 0 where
  pub client_id : ℕ
  pub subject : ℕ
  pub agent_id : Option ℕ
  pub redirect_uri : ℕ
  pub scopes : List ℕ
  pub code_challenge : ℕ
  pub code_challenge_method : ℕ
  pub expires_at : ℕ
  pub used : Bool
  pub created_at : ℕ

pub record AccessToken : Type 0 where
  pub client_id : ℕ
  pub subject : ℕ
  pub agent_id : Option ℕ
  pub scopes : List ℕ
  pub expires_at : ℕ
  pub revoked : Bool
  pub created_at : ℕ

pub record RefreshToken : Type 0 where
  pub client_id : ℕ
  pub subject : ℕ
  pub agent_id : Option ℕ
  pub scopes : List ℕ
  pub expires_at : ℕ
  pub revoked : Bool
  pub replaced_by : Option ℕ
  pub created_at : ℕ

-- An event of `_append_audit_entry` that the handlers add.
pub record AuthorizeEvent : Type 0 where
  pub actor_id : ℕ
  pub client_id : ℕ
  pub scopes : List ℕ

pub record OauthTables : Type 0 where
  pub clients : Dict OauthClient
  pub authorization_codes : Dict AuthorizationCode
  pub access_tokens : Dict AccessToken
  pub refresh_tokens : Dict RefreshToken
  pub events : List AuthorizeEvent

unfoldable pub get_oauth_client : ℕ → Dict OauthClient → Option OauthClient
get_oauth_client client_id rows = lookup client_id rows

-- The row is given whole: `used` is 0 and `created_at` the time of the call. Its key is new.
unfoldable pub create_oauth_authorization_code :
    ℕ → AuthorizationCode → Dict AuthorizationCode → Dict AuthorizationCode
create_oauth_authorization_code code_hash row rows = insert code_hash row rows

abbrev pub used_row : AuthorizationCode → AuthorizationCode
used_row r = record r { used = true }

abbrev pub unused : Option AuthorizationCode → Option AuthorizationCode
unused none = none
unused (some r) = if r.used then none else some r

-- The row as it was, and the table; a code that is missing or used leaves it as it is.
unfoldable pub consume_oauth_authorization_code :
    ℕ → Dict AuthorizationCode → Option AuthorizationCode × Dict AuthorizationCode
consume_oauth_authorization_code code_hash rows =
    let found = unused (lookup code_hash rows) in
    (found, if is_some found then adjust code_hash used_row rows else rows)

-- `revoked` is 0 in the row that is given.
unfoldable pub create_oauth_access_token : ℕ → AccessToken → Dict AccessToken → Dict AccessToken
create_oauth_access_token token_hash row rows = insert token_hash row rows

unfoldable pub get_oauth_access_token : ℕ → Dict AccessToken → Option AccessToken
get_oauth_access_token token_hash rows = lookup token_hash rows

-- `revoked` is 0 and `replaced_by` NULL in the row that is given.
unfoldable pub create_oauth_refresh_token : ℕ → RefreshToken → Dict RefreshToken → Dict RefreshToken
create_oauth_refresh_token token_hash row rows = insert token_hash row rows

abbrev pub replaced_row : ℕ → RefreshToken → RefreshToken
replaced_row next r = record r { revoked = true; replaced_by = some next }

abbrev pub unrevoked : Option RefreshToken → Option RefreshToken
unrevoked none = none
unrevoked (some r) = if r.revoked then none else some r

unfoldable pub consume_oauth_refresh_token :
    ℕ → ℕ → Dict RefreshToken → Option RefreshToken × Dict RefreshToken
consume_oauth_refresh_token token_hash replaced_by rows =
    let found = unrevoked (lookup token_hash rows) in
    (found, if is_some found then adjust token_hash (replaced_row replaced_by) rows else rows)

abbrev pub revoked_access : AccessToken → AccessToken
revoked_access r = record r { revoked = true }

abbrev pub revoked_refresh : RefreshToken → RefreshToken
revoked_refresh r = record r { revoked = true }

-- Whether a row of either table was updated: revoking a revoked token again is an update too.
unfoldable pub revoke_oauth_token : ℕ → OauthTables → Bool × OauthTables
revoke_oauth_token token_hash t = (
  is_some (lookup token_hash t.access_tokens) || is_some (lookup token_hash t.refresh_tokens),
  record t {
    access_tokens = adjust token_hash revoked_access t.access_tokens;
    refresh_tokens = adjust token_hash revoked_refresh t.refresh_tokens;
  },
)
