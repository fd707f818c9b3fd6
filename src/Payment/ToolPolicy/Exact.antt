-- ===== src/Payment/ToolPolicy/Exact.antt =====
-- Which payments by a tool go on to the approval policy.
use safe4_arc_demo.Prelude.{
  ltb, ◌&&◌, ℕ, ◌+◌, ◌≡◌, sym, none, some, true, false, arith, Option-cases, inl, inr,
}
use mathlib.Core.Path.{subst}
use safe4_arc_demo.Money.{add_money_exact}
use safe4_arc_demo.Store.Mcp.{
  McpTool, McpServer, Permission, clear?, get_mcp_tool, get_mcp_server, get_mcp_tool_permission,
  get_mcp_tool_spent_today,
}
use safe4_arc_demo.Payment.State.{Request, Config, Server, next}
use safe4_arc_demo.Payment.ToolPolicy.{
  ToolPass, unknown?, blocked?, allows, over, active_permission, check_permission, check_server,
  check_tool, enforce_tool_policy, forbidden_audited,
}

-- What the user has spent with the tool today, in the currency of the payment.
abbrev pub tool_spent : Request → ℕ → Server → ℕ
tool_spent r tool_id s =
    get_mcp_tool_spent_today r.day_start tool_id r.payment.user_id r.payment.currency s.usage

-- What the approval policy is told.
abbrev pub passed_on : Config → Request → McpTool → McpServer → Permission → ToolPass
passed_on c r t v p = record {
  mcp_server_id = t.server_id;
  mcp_tool_name = t.tool_name;
  trust_level = v.trust_level;
  requires_permission_hitl = p.requires_hitl;
  requires_unknown_server_hitl =
      unknown? v.trust_level && ltb c.unknown_server_hitl_threshold r.payment.amount;
}

record Permits (r : Request) (spent : ℕ) (p : Permission) (w w' : ToolPass) : Type 0 where
  action : allows r.payment.mcp_action p ≡ true
  transaction : over r.payment.amount p.transaction_cap ≡ false
  daily : over (spent + r.payment.amount) p.daily_cap ≡ false
  same : w ≡ w'

permission-next :
    (c : Config) (r : Request) (k : ℕ) (t : McpTool) (v : McpServer) (p : Permission) (s : Server)
    (w : ToolPass)
    → (check_permission c r k t v (some p) s).0 ≡ next w
    → Permits r (tool_spent r k s) p w (passed_on c r t v p)
unfolding check_permission forbidden_audited
permission-next c r k t v p s w h =
    let exact = add_money_exact (tool_spent r k s) r.payment.amount in
    record {
      action = ground arith;
      transaction = ground arith;
      daily = rw (sym exact) (ground arith);
      same = ground arith;
    }

permission-missing :
    (c : Config) (r : Request) (k : ℕ) (t : McpTool) (v : McpServer) (s : Server) (w : ToolPass)
    → (check_permission c r k t v none s).0 ≡ next w
    → ⊥
unfolding check_permission forbidden_audited
permission-missing c r k t v s w h = ground arith

server-missing :
    (c : Config) (r : Request) (k : ℕ) (t : McpTool) (s : Server) (w : ToolPass)
    → (check_server c r k t none s).0 ≡ next w
    → ⊥
unfolding check_server
server-missing c r k t s w h = ground arith

server-next :
    (c : Config) (r : Request) (k : ℕ) (t : McpTool) (v : McpServer) (s : Server) (w : ToolPass)
    → (check_server c r k t (some v) s).0 ≡ next w
    → (blocked? v.trust_level ≡ false)
      × ((check_permission c r k t v
            (active_permission (get_mcp_tool_permission k r.payment.user_id s.permissions))
            s).0
          ≡ next w)
unfolding check_server
server-next c r k t v s w h = (ground arith, ground arith)

tool-missing :
    (c : Config) (r : Request) (k : ℕ) (s : Server) (w : ToolPass)
    → (check_tool c r k none s).0 ≡ next w
    → ⊥
unfolding check_tool
tool-missing c r k s w h = ground arith

tool-next :
    (c : Config) (r : Request) (k : ℕ) (t : McpTool) (s : Server) (w : ToolPass)
    → (check_tool c r k (some t) s).0 ≡ next w
    → (clear? t.quarantine_status ≡ true)
      × ((check_server c r k t (get_mcp_server t.server_id s.mcp_servers) s).0 ≡ next w)
unfolding check_tool forbidden_audited
tool-next c r k t s w h = (ground arith, ground arith)

-- What the policy asks of a payment by a tool, and what it goes on with.
pub record IsPermitted (c : Config) (r : Request) (k : ℕ) (s : Server) (w : ToolPass) : Type 0 where
  pub tool : McpTool
  pub server : McpServer
  pub permission : Permission
  pub registered : get_mcp_tool k s.mcp_tools ≡ some tool
  pub is_clear : clear? tool.quarantine_status ≡ true
  pub known : get_mcp_server tool.server_id s.mcp_servers ≡ some server
  pub not_blocked : blocked? server.trust_level ≡ false
  pub granted :
      active_permission (get_mcp_tool_permission k r.payment.user_id s.permissions)
      ≡ some permission
  pub action_allowed : allows r.payment.mcp_action permission ≡ true
  pub within_transaction_cap : over r.payment.amount permission.transaction_cap ≡ false
  pub within_daily_cap : over (tool_spent r k s + r.payment.amount) permission.daily_cap ≡ false
  pub passed : w ≡ passed_on c r tool server permission

-- A payment by a tool goes on to the approval policy only if the tool is registered and out of
-- quarantine, its server is known and not blocked, and the user has an active permission for it that
-- allows the action and has room for the amount under the caps that it sets. The policy is told the
-- tool's server and name, the server's trust level, whether the permission asks for an approval, and
-- whether the server is an unknown one and the amount above its threshold.
pub next-IsPermitted :
    (c : Config) (r : Request) (k : ℕ) (s : Server) (w : ToolPass)
    → (enforce_tool_policy c r k s).0 ≡ next w
    → IsPermitted c r k s w
unfolding enforce_tool_policy
next-IsPermitted c r k s w h = elim (Option-cases (get_mcp_tool k s.mcp_tools)) [
  | inl e ↦ absurd (tool-missing c r k s w (subst (λ o. (check_tool c r k o s).0 ≡ next w) e h))
  | inr (t, e) ↦
      let (clean, h₁) =
        tool-next c r k t s w (subst (λ o. (check_tool c r k o s).0 ≡ next w) e h) in
      elim (Option-cases (get_mcp_server t.server_id s.mcp_servers)) [
        | inl e₁ ↦
            absurd (
              server-missing c r k t s w (subst (λ o. (check_server c r k t o s).0 ≡ next w) e₁ h₁))
        | inr (v, e₁) ↦
            let (open', h₂) =
              server-next c r k t v s w
                (subst (λ o. (check_server c r k t o s).0 ≡ next w) e₁ h₁) in
            let held =
              active_permission (get_mcp_tool_permission k r.payment.user_id s.permissions) in
            elim (Option-cases held) [
              | inl e₂ ↦ absurd (
                  permission-missing c r k t v s w
                    (subst (λ o. (check_permission c r k t v o s).0 ≡ next w) e₂ h₂))
              | inr (p, e₂) ↦
                  let m =
                    permission-next c r k t v p s w
                      (subst (λ o. (check_permission c r k t v o s).0 ≡ next w) e₂ h₂) in
                  record {
                    tool = t;
                    server = v;
                    permission = p;
                    registered = e;
                    is_clear = clean;
                    known = e₁;
                    not_blocked = open';
                    granted = e₂;
                    action_allowed = m.action;
                    within_transaction_cap = m.transaction;
                    within_daily_cap = m.daily;
                    passed = m.same;
                  }
            ]
      ]
]
