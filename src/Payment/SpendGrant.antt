-- ===== src/Payment/SpendGrant.antt =====
-- app/hitl_policy.py: `validate_and_consume_spend_token`. The token's row is read first and consumed
-- at the end, by two calls on the table. The tool and the action that the caller expects are none for
-- a direct payment.
pub mod Exact
use Prim.Native.String.{String}
use safe4_arc_demo.Prelude.{
  ℕ, Option, none, some, Bool, ◌==◌, ltb, leb, not, if◌then◌else◌, ◌||◌, same?,
}
use safe4_arc_demo.Dict.{Dict}
use safe4_arc_demo.Store.SpendToken.{SpendToken, get_spend_token, consume_spend_token}
use safe4_arc_demo.Payment.State.{json, Request, Config, Server, Outcome, next, respond}

abbrev pub forbid : String → Outcome (Unit {0})
forbid code = respond (record { status_code = 403; content = json code })

abbrev pub token_row : Config → Option ℕ → Dict SpendToken → Option SpendToken
token_row c none rows = none
token_row c (some token) rows = get_spend_token (c.hash_token token) rows

-- One of the seven comparisons with the request fails.
unfoldable pub mismatches : Config → Request → Option ℕ → Option ℕ → SpendToken → Bool
mismatches c r tool action t =
    not (t.request_hash == c.hash_request r.payment)
    || not (t.user_id == r.payment.user_id)
    || not (t.agent_id == r.payment.agent_id)
    || not (t.authorized_currency == r.payment.currency)
    || ltb t.authorized_amount r.payment.amount
    || not (same? t.mcp_tool_id tool)
    || not (same? t.authorized_action action)

abbrev consumed_or_not : Bool × Dict SpendToken → Server → Outcome (Unit {0}) × Server
consumed_or_not (done, rows) s = (
  (if done then next tt else forbid "SPEND_TOKEN_ALREADY_USED"),
  record s { spend_tokens = rows },
)

abbrev pub consume : Config → Request → Option ℕ → Server → Outcome (Unit {0}) × Server
consume c r none s = (forbid "SPEND_TOKEN_REQUIRED", s)
consume c r (some token) s =
    consumed_or_not (consume_spend_token r.now (c.hash_token token) s.spend_tokens) s

unfoldable pub validate_row :
    Config
    → Request
    → Option ℕ
    → Option ℕ
    → Option SpendToken
    → Server
    → Outcome (Unit {0}) × Server
unfolding mismatches
validate_row c r tool action none s = (forbid "SPEND_TOKEN_REQUIRED", s)
validate_row c r tool action (some t) s =
    if t.revoked || t.is_used
    then (forbid "SPEND_TOKEN_INVALID", s)
    else if leb t.expires_at r.now
    then (forbid "SPEND_TOKEN_EXPIRED", s)
    else if mismatches c r tool action t
    then (forbid "SPEND_TOKEN_MISMATCH", s)
    else consume c r r.spend_token s

unfoldable pub validate_and_consume_spend_token :
    Config → Request → Option ℕ → Option ℕ → Server → Outcome (Unit {0}) × Server
unfolding validate_row
validate_and_consume_spend_token c r tool action s =
    validate_row c r tool action (token_row c r.spend_token s.spend_tokens) s
