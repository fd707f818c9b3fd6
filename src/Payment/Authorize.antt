-- ===== src/Payment/Authorize.antt =====
-- app/main.py (`authorize_payment`): the whole decision of `/pay`, for a payment without an AP2
-- mandate. A call reads and writes the tables alone, as if it held them for its whole length.
pub mod Keeps
pub mod Policy
pub mod Stages
pub mod Audit
pub mod Receipts
pub mod Asked
pub mod Before
pub mod Spending
use Prim.Native.String.{String}
use safe4_arc_demo.Prelude.{
  ℕ, Option, none, some, Bool, true, false, List, [], ◌∷◌, ◌==◌, not, if◌then◌else◌, is_some,
  contains,
}
use safe4_arc_demo.Payment.State.{
  ScopeOfAutonomy, json, Request, Config, Server, Outcome, next, respond,
}
use safe4_arc_demo.Payment.Exec.{◌>>=◌, ◌>>◌}
use safe4_arc_demo.Payment.Flow.{increment}
use safe4_arc_demo.Payment.Entry.{check_payment_idempotency, validate_payment_receipt}
use safe4_arc_demo.Payment.Limits.{Found, Totals, refuse, audited_denial, check_limits}
use safe4_arc_demo.Payment.ToolPolicy.{ToolPass, enforce_tool_policy}
use safe4_arc_demo.Payment.Hitl.{enforce_mcp_hitl_policy, enforce_direct_hitl_policy}
use safe4_arc_demo.Payment.Finalize.{Finished, finalize_authorized_payment}

-- `identity.agent_id and identity.agent_id != payment.agent_id`
abbrev other_agent : Option ℕ → ℕ → Bool
other_agent none agent = false
other_agent (some bound) agent = not (bound == agent)

abbrev differ : Bool → Bool → Bool
differ true b = not b
differ false b = b

abbrev malformed : Config → Option ℕ → Bool
malformed c none = false
malformed c (some key) = not (c.is_uuid4 key)

-- The tests before any table is read.
unfoldable pub check_shape : Config → Request → Server → Outcome (Unit {0}) × Server
unfolding increment
check_shape c r s =
    if other_agent r.token_agent_id r.payment.agent_id
    then (respond (record { status_code = 403; content = json "AGENT_ID_MISMATCH" }), s)
    else if differ (is_some r.payment.mcp_tool_id) (is_some r.payment.mcp_action)
    then (respond (record { status_code = 422; content = json "INVALID_MCP_CONTEXT" }), s)
    else if malformed c r.idempotency_key
    then (
      respond (record { status_code = 422; content = json "INVALID_IDEMPOTENCY_KEY" }),
      increment (some "payment_invalid_idempotency_key_total") s,
    )
    else (next tt, s)

abbrev among : Option ℕ → List ℕ → Bool
among none tools = false
among (some tool) tools = contains tools tool

abbrev within_tools : Option ℕ → Option (List ℕ) → Bool
within_tools tool none = true
within_tools tool (some tools) = among tool tools

abbrev pub tool_allowed : Option ℕ → Option ScopeOfAutonomy → Bool
tool_allowed tool none = true
tool_allowed tool (some scope) = within_tools tool scope.allowed_tools

unfoldable pub check_allowed_tools : Config → Request → Server → Outcome (Unit {0}) × Server
unfolding refuse
check_allowed_tools c r s =
    if tool_allowed r.payment.mcp_tool_id r.payment.scope_of_autonomy
    then (next tt, s)
    else refuse c r
        (record (audited_denial "SCOPE_OF_AUTONOMY_TOOL_NOT_ALLOWED" none
          "The requested tool is not allowed by the presented ScopeOfAutonomy.") {
            mcp_tool_id = r.payment.mcp_tool_id;
          })
        s

abbrev pub found_with : Option ℕ → ToolPass → Found
found_with receipt w = record {
  receipt_id = receipt;
  mcp_server_id = some w.mcp_server_id;
  mcp_tool_name = some w.mcp_tool_name;
}

abbrev without_tool : Option ℕ → Found
without_tool receipt = record { receipt_id = receipt; mcp_server_id = none; mcp_tool_name = none }

unfoldable pub ask_for_tool :
    Config → Request → Option ℕ → ToolPass → Server → Outcome Found × Server
unfolding ◌>>=◌ enforce_mcp_hitl_policy
ask_for_tool c r receipt w =
    enforce_mcp_hitl_policy c r (found_with receipt w) w >> λ s. (next (found_with receipt w), s)

-- The policy on tools, and what the later stages are told of the tool.
unfoldable pub enforce_mcp_payment_policy :
    Config → Request → Option ℕ → Option ℕ → Server → Outcome Found × Server
unfolding ◌>>=◌ enforce_tool_policy ask_for_tool
enforce_mcp_payment_policy c r receipt none s = (next (without_tool receipt), s)
enforce_mcp_payment_policy c r receipt (some tool) s =
    (enforce_tool_policy c r tool >>= ask_for_tool c r receipt) s

unfoldable pub finalize : Config → Request → Found → Totals → Server → Outcome Finished × Server
unfolding finalize_authorized_payment
finalize c r f t s = let (o, s') = finalize_authorized_payment c r f t s in (next o, s')

-- The limits, the approval policy of direct payments, and the finalization.
unfoldable pub settle : Config → Request → Found → Server → Outcome Finished × Server
unfolding ◌>>=◌ check_limits enforce_direct_hitl_policy finalize
settle c r f = do
  totals ← check_limits c r f
  enforce_direct_hitl_policy c r f
  finalize c r f totals

unfoldable pub authorize_payment : Config → Request → Server → Outcome Finished × Server
unfolding ◌>>=◌ check_shape check_payment_idempotency validate_payment_receipt check_allowed_tools
    enforce_mcp_payment_policy settle
authorize_payment c r = do
  check_shape c r
  check_payment_idempotency c r
  receipt ← validate_payment_receipt c r
  check_allowed_tools c r
  found ← enforce_mcp_payment_policy c r receipt r.payment.mcp_tool_id
  settle c r found
