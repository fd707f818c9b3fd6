-- ===== src/Service.antt =====
-- The service as a machine: a payment, or an operation of an administrator, one after another.
pub mod Sound
use Prim.Native.String.{String}
use safe4_arc_demo.Prelude.{ℕ, Option}
use safe4_arc_demo.Store.Mcp.{TrustLevel, QuarantineStatus}
use safe4_arc_demo.Payment.State.{Request, Config, Server}
use safe4_arc_demo.Payment.Authorize.{authorize_payment}
use safe4_arc_demo.Admin.{AdminCall}
use safe4_arc_demo.Admin.Approvals.{
  ReviewCall, expire_and_enqueue_approval_alerts, decide_approval, revoke_token,
}
use safe4_arc_demo.Admin.Receipts.{IssueCall, issue_payment_receipt}
use safe4_arc_demo.Admin.Budgets.{
  BudgetUpdateRequest, set_budget, set_agent_budget, get_budgets, get_agent_budgets,
}
use safe4_arc_demo.Admin.Tools.{
  ToolCall, PermissionCall, register_mcp_server, set_server_trust, register_mcp_tool,
  upsert_mcp_permission, delete_mcp_permission, review_mcp_tool,
}

-- One call, served to its end.
pub data Step (c : Config) (s : Server) : Server → Type 0 where
  pays : (r : Request) → Step c s (authorize_payment c r s).1
  decides : (a : AdminCall) (id : ℕ) (v : ReviewCall) → Step c s (decide_approval c a id v s).1
  expires : (now : ℕ) → Step c s (expire_and_enqueue_approval_alerts now s).1
  revokes : (a : AdminCall) (token : ℕ) → Step c s (revoke_token c a token s).1
  issues : (a : AdminCall) (i : IssueCall) → Step c s (issue_payment_receipt c a i s).1
  sets_budget : (a : AdminCall) (u : BudgetUpdateRequest) → Step c s (set_budget c a u s).1
  sets_agent_budget :
      (a : AdminCall) (u : BudgetUpdateRequest) → Step c s (set_agent_budget c a u s).1
  lists_budgets : (today : ℕ) → Step c s (get_budgets today s).1
  lists_agent_budgets : (today : ℕ) → Step c s (get_agent_budgets today s).1
  registers_server :
      (a : AdminCall) (id description : ℕ) → Step c s (register_mcp_server c a id description s)
  trusts :
      (a : AdminCall) (id : ℕ) (level : TrustLevel) (reason : Option String)
      → Step c s (set_server_trust c a id level reason s).1
  registers_tool : (a : AdminCall) (k : ToolCall) → Step c s (register_mcp_tool c a k s).1
  permits : (a : AdminCall) (k : PermissionCall) → Step c s (upsert_mcp_permission c a k s).1
  forbids : (a : AdminCall) (tool user : ℕ) → Step c s (delete_mcp_permission c a tool user s).1
  reviews :
      (a : AdminCall) (id : ℕ) (status : QuarantineStatus) (reason : Option String)
      → Step c s (review_mcp_tool c a id status reason s).1

-- The servers that some calls lead to.
pub data Reaches (c : Config) (s : Server) : Server → Type 0 where
  start : Reaches c s s
  then_step : {s' s'' : Server} → Reaches c s s' → Step c s' s'' → Reaches c s s''
