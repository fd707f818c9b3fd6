-- ===== src/Payment/ToolPolicy.antt =====
-- app/mcp/payment_policy.py: `enforce_mcp_payment_policy` up to its call of the approval policy. The
-- first tests that fail only count and answer; some also write an audit entry.
pub mod Exact
use Prim.Native.String.{String}
use safe4_arc_demo.Prelude.{
  ℕ, Option, none, some, Bool, true, false, [], ◌∷◌, ltb, if◌then◌else◌, not, ◌&&◌, contains,
}
use safe4_arc_demo.Money.{add_money}
use safe4_arc_demo.Store.Value.{Details, text, money}
use safe4_arc_demo.Store.Mcp.{
  TrustLevel, blocked, unknown, McpServer, McpTool, Permission, clear?, get_mcp_tool,
  get_mcp_server, get_mcp_tool_permission, get_mcp_tool_spent_today,
}
use safe4_arc_demo.Payment.State.{json, Request, Config, Server, Outcome, next, respond}
use safe4_arc_demo.Payment.Flow.{
  increment, write_audit_entry, answer_event, payment_request_summary,
}

-- What the approval policy is called with.
pub record ToolPass : Type 0 where
  pub mcp_server_id : ℕ
  pub mcp_tool_name : ℕ
  pub trust_level : TrustLevel
  pub requires_permission_hitl : Bool
  pub requires_unknown_server_hitl : Bool

abbrev pub forbidden : String → String → Server → Outcome ToolPass × Server
forbidden code metric s =
    (respond (record { status_code = 403; content = json code }), increment (some metric) s)

-- A refusal that is also audited.
unfoldable pub forbidden_audited :
    Config
    → Request
    → ℕ
    → McpTool
    → String
    → String
    → String
    → Details
    → Server
    → Outcome ToolPass × Server
forbidden_audited c r tool_id tool code metric reason details s =
    let e = answer_event c r "denied" (some reason) (("reason_code", text code) ∷ details) in
    (
      respond (record { status_code = 403; content = json code }),
      write_audit_entry c
          (record e {
            request_payload_summary = payment_request_summary r.payment true;
            mcp_server_id = some tool.server_id;
            mcp_tool_id = some tool_id;
            mcp_tool_name = some tool.tool_name;
          })
          (increment (some metric) s),
    )

abbrev pub blocked? : TrustLevel → Bool
blocked? blocked = true
blocked? _ = false

abbrev pub unknown? : TrustLevel → Bool
unknown? unknown = true
unknown? _ = false

abbrev pub allows : Option ℕ → Permission → Bool
allows none p = false
allows (some action) p = contains p.allowed_actions action

-- `cap is not None and amount > cap`
abbrev pub over : ℕ → Option ℕ → Bool
over amount none = false
over amount (some cap) = ltb cap amount

abbrev pub active_permission : Option Permission → Option Permission
active_permission none = none
active_permission (some p) = if p.is_active then some p else none

unfoldable pub check_permission :
    Config
    → Request
    → ℕ
    → McpTool
    → McpServer
    → Option Permission
    → Server
    → Outcome ToolPass × Server
unfolding forbidden_audited
check_permission c r tool_id tool server none s =
    forbidden_audited c r tool_id tool "MCP_TOOL_PERMISSION_REQUIRED"
      "payment_denied_mcp_permission_missing_total"
      "No MCP tool permission exists for this user and tool." [] s
check_permission c r tool_id tool server (some p) s =
    let spent =
      get_mcp_tool_spent_today r.day_start tool_id r.payment.user_id r.payment.currency s.usage in
    let total = add_money spent r.payment.amount in
    if not (allows r.payment.mcp_action p)
    then forbidden "MCP_TOOL_ACTION_NOT_ALLOWED" "payment_denied_mcp_action_not_allowed_total" s
    else if over r.payment.amount p.transaction_cap
    then forbidden "MCP_TOOL_TRANSACTION_CAP_EXCEEDED" "payment_denied_mcp_permission_cap_total" s
    else if over total p.daily_cap
    then forbidden_audited c r tool_id tool "MCP_TOOL_DAILY_CAP_EXCEEDED"
        "payment_denied_mcp_daily_cap_total"
        "The requested amount exceeds the MCP tool permission daily cap."
        (("tool_spent_today", money spent) ∷ ("projected_tool_total", money total) ∷ []) s
    else (
      next (record {
        mcp_server_id = tool.server_id;
        mcp_tool_name = tool.tool_name;
        trust_level = server.trust_level;
        requires_permission_hitl = p.requires_hitl;
        requires_unknown_server_hitl =
            unknown? server.trust_level && ltb c.unknown_server_hitl_threshold r.payment.amount;
      }),
      s,
    )

unfoldable pub check_server :
    Config → Request → ℕ → McpTool → Option McpServer → Server → Outcome ToolPass × Server
unfolding check_permission
check_server c r tool_id tool none s =
    forbidden "MCP_SERVER_NOT_TRUSTED" "payment_denied_mcp_server_untrusted_total" s
check_server c r tool_id tool (some server) s =
    if blocked? server.trust_level
    then forbidden "MCP_SERVER_BLOCKED" "payment_denied_mcp_server_blocked_total" s
    else check_permission c r tool_id tool server
        (active_permission (get_mcp_tool_permission tool_id r.payment.user_id s.permissions)) s

unfoldable pub check_tool :
    Config → Request → ℕ → Option McpTool → Server → Outcome ToolPass × Server
unfolding check_server forbidden_audited
check_tool c r tool_id none s =
    forbidden "MCP_TOOL_NOT_REGISTERED" "payment_denied_mcp_tool_missing_total" s
check_tool c r tool_id (some tool) s =
    if not (clear? tool.quarantine_status)
    then forbidden_audited c r tool_id tool "MCP_TOOL_QUARANTINED"
        "payment_denied_mcp_tool_quarantined_total" "MCP tool is quarantined or blocked." [] s
    else check_server c r tool_id tool (get_mcp_server tool.server_id s.mcp_servers) s

-- For a payment that names a tool.
unfoldable pub enforce_tool_policy : Config → Request → ℕ → Server → Outcome ToolPass × Server
unfolding check_tool
enforce_tool_policy c r tool_id s = check_tool c r tool_id (get_mcp_tool tool_id s.mcp_tools) s
