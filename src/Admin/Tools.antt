-- ===== src/Admin/Tools.antt =====
-- app/mcp/api.py: the registry of servers and tools, and the permissions. The outbox of alerts, which
-- nothing reads back, and the lists inside the details of an audit entry are left out.
pub mod Change
use Prim.Native.String.{String}
use safe4_arc_demo.Prelude.{
  ℕ, Option, none, some, Bool, true, false, List, [], ◌∷◌, if◌then◌else◌, ◌&&◌, not,
}
use safe4_arc_demo.Dict.{Dict}
use safe4_arc_demo.Store.Value.{Details, Value, text, flag, opaque_text}
use safe4_arc_demo.Store.Audit.{AuditEvent}
use safe4_arc_demo.Store.Mcp.{
  TrustLevel, trusted, verified, unknown, blocked, McpServer, get_mcp_server, upsert_mcp_server,
  update_mcp_server_trust, ThreatFlag, QuarantineStatus, clear, review, quarantined, blocked_tool,
  clear?, McpTool, ToolScan, get_mcp_tool, upserted_tool, upsert_mcp_tool,
  update_mcp_tool_quarantine, scan_mcp_description, upsert_mcp_tool_permission,
  deactivate_mcp_tool_permission, Permissions,
}
use safe4_arc_demo.Payment.State.{Config, Server}
use safe4_arc_demo.Payment.Flow.{write_audit_entry}
use safe4_arc_demo.Admin.{AdminCall, Answered, ok, http_error, admin_event}

abbrev trust_text : TrustLevel → String
trust_text trusted = "trusted"
trust_text verified = "verified"
trust_text unknown = "unknown"
trust_text blocked = "blocked"

abbrev quarantine_text : QuarantineStatus → String
quarantine_text clear = "clear"
quarantine_text review = "review"
quarantine_text quarantined = "quarantined"
quarantine_text blocked_tool = "blocked"

-- A server starts as unknown, one that was registered before too.
unfoldable pub register_mcp_server : Config → AdminCall → ℕ → ℕ → Server → Server
unfolding write_audit_entry
register_mcp_server c a id description s =
    let summary = ("server_id", opaque_text id) ∷ [] in
    let event : AuditEvent =
      record (admin_event c a "mcp_server_register" "/mcp/servers" summary "registered" none
        (("trust_level", text "unknown") ∷ [])) { mcp_server_id = some id } in
    write_audit_entry c event (record s {
      mcp_servers =
          upsert_mcp_server a.now id unknown (some "Default registration state")
            (c.hash_token description) s.mcp_servers;
    })

abbrev trust_event : Config → AdminCall → ℕ → TrustLevel → Option String → AuditEvent
trust_event c a id level reason =
    let summary = ("server_id", opaque_text id) ∷ ("trust_level", text (trust_text level)) ∷ [] in
    record (admin_event c a "mcp_server_trust_update" "/mcp/servers/{server_id}/trust" summary
      "updated" reason (("trust_level", text (trust_text level)) ∷ [])) { mcp_server_id = some id }

abbrev pub trusted_or_not :
    Config
    → AdminCall
    → ℕ
    → TrustLevel
    → Option String
    → Option McpServer × Dict McpServer
    → Server
    → Answered McpServer × Server
trusted_or_not c a id level reason (none, rows) s =
    (http_error 404 "MCP_SERVER_NOT_FOUND", record s { mcp_servers = rows })
trusted_or_not c a id level reason (some server, rows) s = (
  ok server,
  write_audit_entry c (trust_event c a id level reason) (record s { mcp_servers = rows }),
)

unfoldable pub set_server_trust :
    Config → AdminCall → ℕ → TrustLevel → Option String → Server → Answered McpServer × Server
unfolding write_audit_entry
set_server_trust c a id level reason s =
    trusted_or_not c a id level reason (update_mcp_server_trust a.now id level reason s.mcp_servers)
      s

abbrev pub vouched : TrustLevel → Bool
vouched trusted = true
vouched verified = true
vouched _ = false

unfoldable pub maybe_downgrade_server_for_tool_change :
    ℕ → ℕ → String → Dict McpServer → Option McpServer × Dict McpServer
maybe_downgrade_server_for_tool_change now id reason rows = elim (get_mcp_server id rows) [
  | none ↦ (none, rows)
  | some server ↦
      if vouched server.trust_level
      then update_mcp_server_trust now id unknown (some reason) rows
      else (some server, rows)
]

-- `MCPToolRegistrationRequest`
pub record ToolCall : Type 0 where
  pub server_id : ℕ
  pub tool_name : ℕ
  pub description : ℕ

abbrev pub scanned : Config → ToolCall → ToolScan
scanned c k =
    let (flags, status, relevant) = scan_mcp_description c.patterns k.description in
    record {
      tool_name = k.tool_name;
      server_id = k.server_id;
      description_hash = c.hash_token k.description;
      is_payment_relevant = relevant;
      threat_flags = flags;
      quarantine_status = status;
    }

abbrev pub known_before : Option McpTool → Bool
known_before none = false
known_before (some _) = true

abbrev downgraded_level : Option McpServer → Details
downgraded_level none = []
downgraded_level (some server) = ("server_trust_level", text (trust_text server.trust_level)) ∷ []

-- The table of servers after the registration, and what the audit entry says of it.
abbrev pub after_change :
    Config → AdminCall → ToolCall → Bool → Dict McpServer → Details × Dict McpServer
after_change c a k false rows = ([], rows)
after_change c a k true rows =
    let (server, rows') =
      maybe_downgrade_server_for_tool_change a.now k.server_id
        "Tool description changed; review required." rows in
    (("description_changed", flag true) ∷ downgraded_level server, rows')

abbrev tool_event : Config → AdminCall → ToolCall → Bool → McpTool → Details → AuditEvent
tool_event c a k changed tool details =
    let id = c.tool_key k.server_id k.tool_name in
    let summary = ("tool_id", opaque_text id) ∷ ("server_id", opaque_text k.server_id) ∷ [] in
    record (admin_event c a "mcp_tool_register" "/mcp/servers/{server_id}/tools" summary
      (if changed then "description_changed" else "registered")
      (if changed then some "Tool description changed since first registration." else none)
      (("quarantine_status", text (quarantine_text tool.quarantine_status)) ∷ details)) {
        mcp_server_id = some k.server_id;
        mcp_tool_id = some id;
        mcp_tool_name = some k.tool_name;
      }

unfoldable pub register_at :
    Config → AdminCall → ToolCall → Option McpServer → Server → Answered McpTool × Server
unfolding maybe_downgrade_server_for_tool_change write_audit_entry
register_at c a k none s = (http_error 404 "MCP_SERVER_NOT_FOUND", s)
register_at c a k (some server) s =
    let id = c.tool_key k.server_id k.tool_name in
    let prior = get_mcp_tool id s.mcp_tools in
    let tool = upserted_tool a.now (scanned c k) prior in
    let changed = known_before prior && tool.was_changed in
    let (details, servers) = after_change c a k changed s.mcp_servers in
    (
      ok tool,
      write_audit_entry c (tool_event c a k changed tool details) (record s {
        mcp_tools = upsert_mcp_tool a.now id (scanned c k) s.mcp_tools;
        mcp_servers = servers;
      }),
    )

unfoldable pub register_mcp_tool :
    Config → AdminCall → ToolCall → Server → Answered McpTool × Server
unfolding register_at
register_mcp_tool c a k s = register_at c a k (get_mcp_server k.server_id s.mcp_servers) s

-- `MCPToolPermissionRequest`
pub record PermissionCall : Type 0 where
  pub tool_id : ℕ
  pub user_id : ℕ
  pub allowed_actions : List ℕ
  pub daily_cap : Option ℕ
  pub transaction_cap : Option ℕ
  pub requires_hitl : Bool

abbrev permission_event : Config → AdminCall → String → String → String → ℕ → ℕ → AuditEvent
permission_event c a action path decision tool user =
    record (admin_event c a action path
      (("tool_id", opaque_text tool) ∷ ("user_id", opaque_text user) ∷ []) decision none []) {
        mcp_tool_id = some tool;
      }

unfoldable pub upsert_permission_of :
    Config → AdminCall → PermissionCall → Option McpTool → Server → Answered (Unit {0}) × Server
unfolding write_audit_entry
upsert_permission_of c a k none s = (http_error 404 "MCP_TOOL_NOT_FOUND", s)
upsert_permission_of c a k (some tool) s = (
  ok tt,
  write_audit_entry c
      (permission_event c a "mcp_tool_permission_upsert" "/mcp/permissions" "updated" k.tool_id
        k.user_id)
      (record s {
        permissions =
            upsert_mcp_tool_permission a.now k.tool_id k.user_id k.allowed_actions k.daily_cap
              k.transaction_cap k.requires_hitl s.permissions;
      }),
)

unfoldable pub upsert_mcp_permission :
    Config → AdminCall → PermissionCall → Server → Answered (Unit {0}) × Server
unfolding upsert_permission_of
upsert_mcp_permission c a k s = upsert_permission_of c a k (get_mcp_tool k.tool_id s.mcp_tools) s

abbrev pub deleted_or_not :
    Config → AdminCall → ℕ → ℕ → Bool × Permissions → Server → Answered (Unit {0}) × Server
deleted_or_not c a tool user (false, rows) s =
    (http_error 404 "MCP_PERMISSION_NOT_FOUND", record s { permissions = rows })
deleted_or_not c a tool user (true, rows) s = (
  ok tt,
  write_audit_entry c
      (permission_event c a "mcp_tool_permission_delete" "/mcp/permissions/{tool_id}" "deleted" tool
        user)
      (record s { permissions = rows }),
)

unfoldable pub delete_mcp_permission :
    Config → AdminCall → ℕ → ℕ → Server → Answered (Unit {0}) × Server
unfolding write_audit_entry
delete_mcp_permission c a tool user s =
    deleted_or_not c a tool user (deactivate_mcp_tool_permission a.now tool user s.permissions) s

abbrev review_event :
    Config → AdminCall → ℕ → QuarantineStatus → Option String → McpTool → AuditEvent
review_event c a id status reason tool =
    let summary =
      ("tool_id", opaque_text id) ∷ ("quarantine_status", text (quarantine_text status)) ∷ [] in
    record (admin_event c a "mcp_tool_review" "/mcp/quarantine/{tool_id}/review" summary "updated"
      reason (("quarantine_status", text (quarantine_text status)) ∷ [])) {
        mcp_server_id = some tool.server_id;
        mcp_tool_id = some id;
        mcp_tool_name = some tool.tool_name;
      }

unfoldable pub review_found :
    Config
    → AdminCall
    → ℕ
    → QuarantineStatus
    → Option String
    → Option McpTool
    → Server
    → Answered (Option McpTool) × Server
unfolding write_audit_entry
review_found c a id status reason none s = (http_error 404 "MCP_TOOL_NOT_FOUND", s)
review_found c a id status reason (some tool) s =
    let flags : List ThreatFlag = if clear? status then [] else tool.threat_flags in
    let (updated, rows) = update_mcp_tool_quarantine a.now id status flags s.mcp_tools in
    (
      ok updated,
      write_audit_entry c (review_event c a id status reason tool) (record s { mcp_tools = rows }),
    )

unfoldable pub review_mcp_tool :
    Config
    → AdminCall
    → ℕ
    → QuarantineStatus
    → Option String
    → Server
    → Answered (Option McpTool) × Server
unfolding review_found
review_mcp_tool c a id status reason s =
    review_found c a id status reason (get_mcp_tool id s.mcp_tools) s
