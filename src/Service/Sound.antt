-- ===== src/Service/Sound.antt =====
-- The audit log of a running service.
use Prim.Native.String.{String}
use safe4_arc_demo.Prelude.{
  ℕ, ◌≡◌, Option, none, some, Bool, true, false, arith, ◌||◌, leb, if◌then◌else◌, same?,
}
use safe4_arc_demo.Dict.{Dict}
use safe4_arc_demo.Store.SpendToken.{SpendToken}
use safe4_arc_demo.Store.Approval.{ApprovalRequest}
use safe4_arc_demo.Store.Mcp.{TrustLevel, QuarantineStatus, McpServer, McpTool, Permissions}
use safe4_arc_demo.Payment.State.{Config, Server}
use safe4_arc_demo.Payment.Flow.{increment, write_audit_entry}
use safe4_arc_demo.Payment.AuditTrail.{append-IsSound, IsSound, written-IsSound}
use safe4_arc_demo.Payment.Authorize.Audit.{authorize_payment-IsSound}
use safe4_arc_demo.Admin.{AdminCall}
use safe4_arc_demo.Admin.Approvals.{
  ReviewCall, expired?, issued, issue_spend_token, conclude, decide_found,
  expire_and_enqueue_approval_alerts, decide_approval, revoked_or_not, revoke_token,
}
use safe4_arc_demo.Admin.Receipts.{IssueCall, issue_payment_receipt}
use safe4_arc_demo.Admin.Budgets.{
  BudgetUpdateRequest, set_budget, set_agent_budget, get_budgets, get_agent_budgets,
}
use safe4_arc_demo.Admin.Tools.{
  ToolCall, PermissionCall, register_mcp_server, trusted_or_not, set_server_trust, register_at,
  register_mcp_tool, upsert_permission_of, upsert_mcp_permission, deleted_or_not,
  delete_mcp_permission, review_found, review_mcp_tool,
}
use safe4_arc_demo.Service.{
  Step, pays, decides, expires, revokes, issues, sets_budget, sets_agent_budget, lists_budgets,
  lists_agent_budgets, registers_server, trusts, registers_tool, permits, forbids, reviews, Reaches,
  start, then_step,
}

module _ (c : Config) (a : AdminCall) where
  issued-IsSound :
      (v : ReviewCall) (row : ApprovalRequest) (s : Server)
      → (issued c a v row s).1.audit_entries ≡ s.audit_entries
  unfolding issue_spend_token
  issued-IsSound v row s = ground arith

  conclude-IsSound :
      (id : ℕ) (v : ReviewCall) (o : Option ApprovalRequest) (s : Server)
      → IsSound c s.audit_entries
      → IsSound c (conclude c a id v o s).1.audit_entries
  unfolding conclude
  conclude-IsSound id v none s h = h
  conclude-IsSound id v (some row) s h =
      written-IsSound c _ (issued c a v row s).1 (rw (issued-IsSound v row s) h)

  if-IsSound :
      {A : Type 0} (b : Bool) (o p : A × Server)
      → IsSound c o.1.audit_entries
      → IsSound c p.1.audit_entries
      → IsSound c (if b then o else p).1.audit_entries
  if-IsSound true o p h k = h
  if-IsSound false o p h k = k

  found-IsSound :
      (id : ℕ) (v : ReviewCall) (o : Option ApprovalRequest) (s : Server)
      → IsSound c s.audit_entries
      → IsSound c (decide_found c a id v o s).1.audit_entries
  unfolding decide_found
  found-IsSound id v none s h = h
  found-IsSound id v (some row) s h =
      if-IsSound (expired? row.status || leb row.expires_at a.now) _ _ h
        (conclude-IsSound id v _ _ h)

  decide-IsSound :
      (id : ℕ) (v : ReviewCall) (s : Server)
      → IsSound c s.audit_entries
      → IsSound c (decide_approval c a id v s).1.audit_entries
  unfolding decide_approval expire_and_enqueue_approval_alerts
  decide-IsSound id v s h = found-IsSound id v _ _ h

  revoked-IsSound :
      (token : ℕ) (o : Bool × Dict SpendToken) (s : Server)
      → IsSound c s.audit_entries
      → IsSound c (revoked_or_not c a token o s).1.audit_entries
  revoked-IsSound token (true, rows) s h = written-IsSound c _ _ h
  revoked-IsSound token (false, rows) s h = h

  revoke-IsSound :
      (token : ℕ) (s : Server)
      → IsSound c s.audit_entries
      → IsSound c (revoke_token c a token s).1.audit_entries
  unfolding revoke_token
  revoke-IsSound token s h = revoked-IsSound token _ s h

  issue-IsSound :
      (i : IssueCall) (s : Server)
      → IsSound c s.audit_entries
      → IsSound c (issue_payment_receipt c a i s).1.audit_entries
  unfolding issue_payment_receipt write_audit_entry increment
  issue-IsSound i s h =
      if-IsSound (same? i.admin_secret (some c.receipt_admin_secret)) _ _
        (append-IsSound c _ s.audit_entries h) h

  budget-IsSound :
      (u : BudgetUpdateRequest) (s : Server)
      → IsSound c s.audit_entries
      → IsSound c (set_budget c a u s).1.audit_entries
  unfolding set_budget write_audit_entry
  budget-IsSound u s h = append-IsSound c _ s.audit_entries h

  agent_budget-IsSound :
      (u : BudgetUpdateRequest) (s : Server)
      → IsSound c s.audit_entries
      → IsSound c (set_agent_budget c a u s).1.audit_entries
  unfolding set_agent_budget write_audit_entry
  agent_budget-IsSound u s h = append-IsSound c _ s.audit_entries h

  server-IsSound :
      (id description : ℕ) (s : Server)
      → IsSound c s.audit_entries
      → IsSound c (register_mcp_server c a id description s).audit_entries
  unfolding register_mcp_server write_audit_entry
  server-IsSound id description s h = append-IsSound c _ s.audit_entries h

  trusted-IsSound :
      (id : ℕ) (level : TrustLevel) (reason : Option String) (o : Option McpServer × Dict McpServer)
      (s : Server)
      → IsSound c s.audit_entries
      → IsSound c (trusted_or_not c a id level reason o s).1.audit_entries
  trusted-IsSound id level reason (none, rows) s h = h
  trusted-IsSound id level reason (some v, rows) s h = written-IsSound c _ _ h

  trust-IsSound :
      (id : ℕ) (level : TrustLevel) (reason : Option String) (s : Server)
      → IsSound c s.audit_entries
      → IsSound c (set_server_trust c a id level reason s).1.audit_entries
  unfolding set_server_trust
  trust-IsSound id level reason s h = trusted-IsSound id level reason _ s h

  register-IsSound :
      (k : ToolCall) (o : Option McpServer) (s : Server)
      → IsSound c s.audit_entries
      → IsSound c (register_at c a k o s).1.audit_entries
  unfolding register_at write_audit_entry
  register-IsSound k none s h = h
  register-IsSound k (some v) s h = append-IsSound c _ s.audit_entries h

  tool-IsSound :
      (k : ToolCall) (s : Server)
      → IsSound c s.audit_entries
      → IsSound c (register_mcp_tool c a k s).1.audit_entries
  unfolding register_mcp_tool
  tool-IsSound k s h = register-IsSound k _ s h

  upserted-IsSound :
      (k : PermissionCall) (o : Option McpTool) (s : Server)
      → IsSound c s.audit_entries
      → IsSound c (upsert_permission_of c a k o s).1.audit_entries
  unfolding upsert_permission_of write_audit_entry
  upserted-IsSound k none s h = h
  upserted-IsSound k (some t) s h = append-IsSound c _ s.audit_entries h

  permission-IsSound :
      (k : PermissionCall) (s : Server)
      → IsSound c s.audit_entries
      → IsSound c (upsert_mcp_permission c a k s).1.audit_entries
  unfolding upsert_mcp_permission
  permission-IsSound k s h = upserted-IsSound k _ s h

  deleted-IsSound :
      (tool user : ℕ) (o : Bool × Permissions) (s : Server)
      → IsSound c s.audit_entries
      → IsSound c (deleted_or_not c a tool user o s).1.audit_entries
  deleted-IsSound tool user (true, rows) s h = written-IsSound c _ _ h
  deleted-IsSound tool user (false, rows) s h = h

  delete-IsSound :
      (tool user : ℕ) (s : Server)
      → IsSound c s.audit_entries
      → IsSound c (delete_mcp_permission c a tool user s).1.audit_entries
  unfolding delete_mcp_permission
  delete-IsSound tool user s h = deleted-IsSound tool user _ s h

  reviewed-IsSound :
      (id : ℕ) (status : QuarantineStatus) (reason : Option String) (o : Option McpTool)
      (s : Server)
      → IsSound c s.audit_entries
      → IsSound c (review_found c a id status reason o s).1.audit_entries
  unfolding review_found write_audit_entry
  reviewed-IsSound id status reason none s h = h
  reviewed-IsSound id status reason (some t) s h = append-IsSound c _ s.audit_entries h

  review-IsSound :
      (id : ℕ) (status : QuarantineStatus) (reason : Option String) (s : Server)
      → IsSound c s.audit_entries
      → IsSound c (review_mcp_tool c a id status reason s).1.audit_entries
  unfolding review_mcp_tool
  review-IsSound id status reason s h = reviewed-IsSound id status reason _ s h

expire-IsSound :
    (c : Config) (now : ℕ) (s : Server)
    → IsSound c s.audit_entries
    → IsSound c (expire_and_enqueue_approval_alerts now s).1.audit_entries
unfolding expire_and_enqueue_approval_alerts
expire-IsSound c now s h = h

list-IsSound :
    (c : Config) (today : ℕ) (s : Server)
    → IsSound c s.audit_entries
    → IsSound c (get_budgets today s).1.audit_entries
unfolding get_budgets
list-IsSound c today s h = h

agent_list-IsSound :
    (c : Config) (today : ℕ) (s : Server)
    → IsSound c s.audit_entries
    → IsSound c (get_agent_budgets today s).1.audit_entries
unfolding get_agent_budgets
agent_list-IsSound c today s h = h

Step-IsSound :
    (c : Config) (s s' : Server)
    → Step c s s'
    → IsSound c s.audit_entries
    → IsSound c s'.audit_entries
Step-IsSound c s _ (pays r) h = authorize_payment-IsSound c r s h
Step-IsSound c s _ (decides a id v) h = decide-IsSound c a id v s h
Step-IsSound c s _ (expires now) h = expire-IsSound c now s h
Step-IsSound c s _ (revokes a token) h = revoke-IsSound c a token s h
Step-IsSound c s _ (issues a i) h = issue-IsSound c a i s h
Step-IsSound c s _ (sets_budget a u) h = budget-IsSound c a u s h
Step-IsSound c s _ (sets_agent_budget a u) h = agent_budget-IsSound c a u s h
Step-IsSound c s _ (lists_budgets today) h = list-IsSound c today s h
Step-IsSound c s _ (lists_agent_budgets today) h = agent_list-IsSound c today s h
Step-IsSound c s _ (registers_server a id d) h = server-IsSound c a id d s h
Step-IsSound c s _ (trusts a id level reason) h = trust-IsSound c a id level reason s h
Step-IsSound c s _ (registers_tool a k) h = tool-IsSound c a k s h
Step-IsSound c s _ (permits a k) h = permission-IsSound c a k s h
Step-IsSound c s _ (forbids a tool user) h = delete-IsSound c a tool user s h
Step-IsSound c s _ (reviews a id status reason) h = review-IsSound c a id status reason s h

-- On every server that calls of payments and of administrators lead to, one after another, from one
-- with a verifiable and numbered audit log, the audit log is verifiable and numbered.
pub Reaches-IsSound :
    (c : Config) (s s' : Server)
    → Reaches c s s'
    → IsSound c s.audit_entries
    → IsSound c s'.audit_entries
Reaches-IsSound c s _ start h = h
Reaches-IsSound c s _ (then_step {s' = between} {s'' = after} path step) h =
    Step-IsSound c between after step (Reaches-IsSound c s between path h)
