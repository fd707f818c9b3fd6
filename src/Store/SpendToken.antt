-- ===== src/Store/SpendToken.antt =====
-- app/storage.py: the table `spend_tokens`, keyed by the token's hash.
pub mod SingleUse
use safe4_arc_demo.Prelude.{ℕ, Option, none, some, Bool, true, false, if◌then◌else◌, not, ◌||◌}
use safe4_arc_demo.Dict.{Dict, lookup, insert, adjust}

pub record SpendToken : Type 0 where
  pub request_hash : ℕ
  pub user_id : ℕ
  pub agent_id : ℕ
  pub mcp_tool_id : Option ℕ
  pub authorized_amount : ℕ
  pub authorized_currency : ℕ
  pub authorized_action : Option ℕ
  pub expires_at : ℕ
  pub is_used : Bool
  pub used_at : Option ℕ
  pub revoked : Bool
  pub created_at : ℕ

-- What `create_spend_token` is given; the rest of the row is fixed.
pub record TokenGrant : Type 0 where
  pub request_hash : ℕ
  pub user_id : ℕ
  pub agent_id : ℕ
  pub mcp_tool_id : Option ℕ
  pub authorized_amount : ℕ
  pub authorized_currency : ℕ
  pub authorized_action : Option ℕ
  pub expires_at : ℕ

-- The token is freshly drawn: the insert of a stored hash would raise.
unfoldable pub create_spend_token : ℕ → ℕ → TokenGrant → Dict SpendToken → Dict SpendToken
create_spend_token now token_hash g rows =
    insert token_hash
      (record {
        request_hash = g.request_hash;
        user_id = g.user_id;
        agent_id = g.agent_id;
        mcp_tool_id = g.mcp_tool_id;
        authorized_amount = g.authorized_amount;
        authorized_currency = g.authorized_currency;
        authorized_action = g.authorized_action;
        expires_at = g.expires_at;
        is_used = false;
        used_at = none;
        revoked = false;
        created_at = now;
      })
      rows

unfoldable pub get_spend_token : ℕ → Dict SpendToken → Option SpendToken
get_spend_token token_hash rows = lookup token_hash rows

-- `WHERE … is_used = 0 AND revoked = 0`
abbrev pub spendable : SpendToken → Bool
spendable t = not (t.is_used || t.revoked)

abbrev pub spendable? : Option SpendToken → Bool
spendable? none = false
spendable? (some t) = spendable t

abbrev pub consumed : ℕ → SpendToken → SpendToken
consumed now t = if spendable t then record t { is_used = true; used_at = some now } else t

abbrev pub revoked_row : SpendToken → SpendToken
revoked_row t = if spendable t then record t { revoked = true } else t

-- Whether a row was updated, and the table.
unfoldable pub consume_spend_token : ℕ → ℕ → Dict SpendToken → Bool × Dict SpendToken
consume_spend_token now token_hash rows =
    (spendable? (lookup token_hash rows), adjust token_hash (consumed now) rows)

unfoldable pub revoke_spend_token : ℕ → Dict SpendToken → Bool × Dict SpendToken
revoke_spend_token token_hash rows =
    (spendable? (lookup token_hash rows), adjust token_hash revoked_row rows)
