-- ===== src/Admin/Tools/Change.antt =====
-- A tool whose description has changed since it was first registered.
use safe4_arc_demo.Prelude.{
  ℕ, ◌<◌, ◌≡◌, ◌≢◌, refl, sym, ap, ◌∙◌, some, true, false, arith, ==-refl, ◌&&◌, inl, inr,
  Bool-cases,
}
use Prim.Native.String.{String}
use mathlib.Core.Path.{subst}
use safe4_arc_demo.Dict.{Dict, lookup, lookup-insert, lookup-adjust}
use safe4_arc_demo.Store.Mcp.{
  TrustLevel, unknown, McpServer, McpTool, get_mcp_server, get_mcp_tool, upserted_tool,
  upsert_mcp_tool, update_mcp_server_trust, trust,
}
use safe4_arc_demo.Payment.State.{Request, Config, Server, next}
use safe4_arc_demo.Payment.Flow.{write_audit_entry}
use safe4_arc_demo.Payment.Limits.{Found}
use safe4_arc_demo.Payment.ToolPolicy.{ToolPass, blocked?, unknown?, enforce_tool_policy}
use safe4_arc_demo.Payment.ToolPolicy.Exact.{next-IsPermitted}
use safe4_arc_demo.Payment.SpendGrant.Exact.{IsGranted}
use safe4_arc_demo.Payment.Hitl.{enforce_mcp_hitl_policy}
use safe4_arc_demo.Payment.Hitl.Exact.{mcp-IsGranted}
use safe4_arc_demo.Admin.{AdminCall}
use safe4_arc_demo.Admin.Tools.{
  ToolCall, vouched, scanned, known_before, after_change, maybe_downgrade_server_for_tool_change,
  register_at, register_mcp_tool,
}

-- What the registration leaves: the tool's server is not vouched for, and the tool stands under it.
record Downgraded (c : Config) (k : ToolCall) (s : Server) : Type 0 where
  server : McpServer
  found : get_mcp_server k.server_id s.mcp_servers ≡ some server
  level : vouched server.trust_level ≡ false
  tool : McpTool
  stored : get_mcp_tool (c.tool_key k.server_id k.tool_name) s.mcp_tools ≡ some tool
  stands : tool.server_id ≡ k.server_id

downgrade :
    (now id : ℕ) (reason : String) (rows : Dict McpServer) (v : McpServer)
    → lookup id rows ≡ some v
    → (x : McpServer) × (lookup id (maybe_downgrade_server_for_tool_change now id reason rows).1
        ≡ some x)
      × (vouched x.trust_level ≡ false)
unfolding maybe_downgrade_server_for_tool_change get_mcp_server update_mcp_server_trust
downgrade now id reason rows v h = elim (Bool-cases (vouched v.trust_level)) [
  | inl y ↦ (
    record v { trust_level = unknown; trust_level_reason = some reason; last_seen_at = now },
    ground (arith, h, y, ==-refl id, lookup-adjust id id (trust now unknown (some reason)) rows),
    refl,
  )
  | inr n ↦ (v, ground (arith, h, n), n)
]

at-Downgraded :
    (c : Config) (a : AdminCall) (k : ToolCall) (s : Server) (v : McpServer) (prior : McpTool)
    → get_mcp_server k.server_id s.mcp_servers ≡ some v
    → get_mcp_tool (c.tool_key k.server_id k.tool_name) s.mcp_tools ≡ some prior
    → prior.description_first_seen_hash ≢ c.hash_token k.description
    → Downgraded c k (register_at c a k (some v) s).1
unfolding register_at get_mcp_tool get_mcp_server upsert_mcp_tool upserted_tool write_audit_entry
at-Downgraded c a k s v prior h t e =
    let id = c.tool_key k.server_id k.tool_name in
    let (x, found, level) =
      downgrade a.now k.server_id "Tool description changed; review required." s.mcp_servers v h in
    let changed : (known_before (lookup id s.mcp_tools)
          && (upserted_tool a.now (scanned c k) (lookup id s.mcp_tools)).was_changed)
        ≡ true =
      ground (arith, t, e) in
    record {
      server = x;
      found = ap (λ b. lookup k.server_id (after_change c a k b s.mcp_servers).1) changed ∙ found;
      level = level;
      tool = upserted_tool a.now (scanned c k) (lookup id s.mcp_tools);
      stored =
          lookup-insert id id (upserted_tool a.now (scanned c k) (lookup id s.mcp_tools))
            s.mcp_tools
          ∙ ground (arith, ==-refl id);
      stands = refl;
    }

-- A level that is neither vouched for nor blocked is unknown.
only_unknown : (l : TrustLevel) → vouched l ≡ false → blocked? l ≡ false → unknown? l ≡ true
only_unknown l h k = ground (arith, h, k)

-- After a tool that was there is registered with another description than the first one, a payment by
-- it above the threshold for unknown servers passes the policy on tools and the approval policy only
-- with a spend token that grants it for that tool and action.
pub changed-IsGranted :
    (c : Config) (a : AdminCall) (k : ToolCall) (s : Server) (v : McpServer) (prior : McpTool)
    (r : Request) (f : Found) (w : ToolPass) (s' : Server)
    → get_mcp_server k.server_id s.mcp_servers ≡ some v
    → let id = c.tool_key k.server_id k.tool_name in
      get_mcp_tool id s.mcp_tools ≡ some prior
      → prior.description_first_seen_hash ≢ c.hash_token k.description
      → c.unknown_server_hitl_threshold < r.payment.amount
      → (enforce_tool_policy c r id (register_mcp_tool c a k s).1).0 ≡ next w
      → (enforce_mcp_hitl_policy c r f w s').0 ≡ next tt
      → IsGranted c r r.payment.mcp_tool_id r.payment.mcp_action s'
unfolding register_mcp_tool get_mcp_tool get_mcp_server
changed-IsGranted c a k s v prior r f w s' h t e big passed allowed =
    let after = (register_mcp_tool c a k s).1 in
    let d : Downgraded c k after =
      subst (λ o. Downgraded c k (register_at c a k o s).1) (sym h)
        (at-Downgraded c a k s v prior h t e) in
    let p = next-IsPermitted c r (c.tool_key k.server_id k.tool_name) after w passed in
    let same_tool : p.tool.server_id ≡ k.server_id =
      ground (arith, p.registered, d.stored, d.stands) in
    let same_server : some p.server ≡ some d.server =
      sym p.known ∙ ap (λ i. lookup i after.mcp_servers) same_tool ∙ d.found in
    let low : vouched p.server.trust_level ≡ false = ground (arith, same_server, d.level) in
    let risky : w.requires_unknown_server_hitl ≡ true =
      ground (arith, p.passed, only_unknown p.server.trust_level low p.not_blocked, big) in
    elim (mcp-IsGranted c r f w s' allowed) [
      | inl (no_risk, _, _) ↦ absurd (ground (arith, risky, no_risk))
      | inr granted ↦ granted
    ]
