-- ===== src/Auth/Refused.antt =====
-- The bearer of a revoked token.
use safe4_arc_demo.Prelude.{
  ℕ, ◌≡◌, refl, ap, ◌∙◌, Option, none, some, Bool, false, List, arith, Bool-cases, inl, inr,
}
use safe4_arc_demo.Dict.{Dict, lookup}
use safe4_arc_demo.Store.Oauth.{AccessToken, OauthTables, get_oauth_access_token}
use safe4_arc_demo.Oauth.{OauthCall, oauth_revoke, serve_calls}
use safe4_arc_demo.Oauth.Revoked.{live, draws_access, revoked-stays_dead}
use safe4_arc_demo.Auth.{
  AuthSetup, AuthHeaders, bearer, StoredAssertion, raised, invalid_access_token, with_token,
  by_authorization, get_current_identity,
}

dead-refused :
    (a : AuthSetup) (now : ℕ) (h : AuthHeaders) (d : Bool) (r : Option AccessToken)
    (rows : Dict StoredAssertion)
    → live r ≡ false
    → with_token a now h d r rows ≡ (raised invalid_access_token, rows)
unfolding with_token
dead-refused a now h d none rows dead = refl
dead-refused a now h d (some r) rows dead = elim (Bool-cases r.revoked) [
  | inl revoked ↦ rw revoked refl
  | inr current ↦ ground (arith, current, dead)
]

-- Whoever sends a bearer token that was revoked before is refused, with the code for an invalid
-- access token and nothing stored, at any later time and after any sequence of OAuth calls, none of
-- which draws an access token of the same hash.
pub revoked-refused :
    (a : AuthSetup) (token : ℕ) (calls : List (ℕ × OauthCall)) (start : OauthTables) (now : ℕ)
    (h : AuthHeaders) (allow_disabled : Bool) (rows : Dict StoredAssertion)
    → h.authorization ≡ some (bearer token)
    → draws_access a.oauth (a.oauth.hash_token token) calls ≡ false
    → get_current_identity a now h allow_disabled
        (serve_calls a.oauth calls (oauth_revoke a.oauth token start).1)
        rows
      ≡ (raised invalid_access_token, rows)
unfolding get_current_identity get_oauth_access_token
revoked-refused a token calls start now h d rows sent fresh =
    let t = serve_calls a.oauth calls (oauth_revoke a.oauth token start).1 in
    ap (λ x. by_authorization a now h d x t rows) sent
    ∙ dead-refused a now h d (lookup (a.oauth.hash_token token) t.access_tokens) rows
        (revoked-stays_dead a.oauth token calls start fresh)
