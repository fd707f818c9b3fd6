-- ===== src/Witnesses/Tools.antt =====
-- The theorems on payments by a tool, for one tool.
use safe4_arc_demo.Prelude.{
  ◌⊎◌, arith, ◌*◌, ◌+◌, true, ◌≡◌, refl, none, some, true, false, [], ◌∷◌, ◌==◌,
}
use safe4_arc_demo.Anomaly.{Threshold}
use safe4_arc_demo.Dict.{lookup, insert, adjust}
use safe4_arc_demo.Money.{add_money, normalize_money}
use safe4_arc_demo.Intent.{missing}
use safe4_arc_demo.Store.Mcp.{
  description_changed, review, verified, upsert_mcp_tool, upserted_tool, next_quarantine,
  merge_flags, scan_mcp_description, update_mcp_server_trust, McpTool, McpServer, Permission, clear,
  unknown, get_mcp_tool, get_mcp_server, get_mcp_tool_permission, get_mcp_tool_spent_today,
}
use safe4_arc_demo.Payment.State.{Request, Config, Server, next}
use safe4_arc_demo.Payment.ToolPolicy.{
  ToolPass, check_permission, check_server, check_tool, enforce_tool_policy,
}
use safe4_arc_demo.Payment.ToolPolicy.Exact.{IsPermitted, next-IsPermitted}
use safe4_arc_demo.Store.HitlRule.{list_hitl_rules}
use safe4_arc_demo.Store.SpendToken.{SpendToken, get_spend_token, consume_spend_token}
use safe4_arc_demo.Payment.Flow.{write_audit_entry}
use safe4_arc_demo.Payment.Limits.{Found}
use safe4_arc_demo.Payment.SpendGrant.{validate_and_consume_spend_token, validate_row, mismatches}
use safe4_arc_demo.Payment.SpendGrant.Exact.{IsGranted}
use safe4_arc_demo.Payment.HitlRules.{matching_rule, first_match}
use safe4_arc_demo.Payment.Hitl.{
  enforce_mcp_hitl_policy, mcp_escalation, apply_mcp_escalation, let_pass, ask_or_consume,
}
use safe4_arc_demo.Payment.Hitl.Exact.{mcp-IsGranted}
use safe4_arc_demo.Admin.{AdminCall}
use safe4_arc_demo.Admin.Tools.{
  ToolCall, maybe_downgrade_server_for_tool_change, register_at, register_mcp_tool,
}
use safe4_arc_demo.Admin.Tools.Change.{changed-IsGranted}

abbrev found : Found
found = record { receipt_id = some 5; mcp_server_id = some 31; mcp_tool_name = some 32 }

abbrev config : Config
config = record {
  fee_rate = 5000;
  pay_to = 9;
  velocity_limit = 3;
  velocity_window = 60;
  min_description_words = 0;
  policy_version = 1;
  unknown_server_hitl_threshold = 1000;
  hitl_approval_ttl = 300;
  spend_token_ttl = 300;
  receipt_admin_secret = 77;
  oauth_only_max_amount = none;
  anomaly_hitl_min_severity = Threshold.disabled;
  anomaly_deny_min_severity = Threshold.disabled;
  budget_alert_thresholds = [];
  sha256 = λ _. 0;
  hash_request = λ p. p.amount;
  hash_token = λ t. t;
  sign = λ id pay_to amount currency expires. id + amount;
  intent_reason = λ _. "reason";
  unicode = record { nfkd = λ t. t; is_space = λ c. c == 32 };
  is_uuid4 = λ _. true;
  vendor_matches = λ _ _. false;
  rule_trigger = λ _. "hitl_rule";
  tool_key = λ server name. server * 1000 + name;
  patterns = record {
    is_critical_text = λ _. false;
    is_high_text = λ _. false;
    is_payment_text = λ _. true;
  };
}

abbrev by_tool : Request
by_tool = record {
  payment = record {
    agent_id = 1;
    user_id = 2;
    vendor = 3;
    amount = 400;
    currency = 4;
    description = [];
    intent = missing;
    mcp_tool_id = some 30;
    mcp_action = some 33;
    scope_of_autonomy = none;
  };
  receipt_token = none;
  idempotency_key = none;
  spend_token = none;
  token_agent_id = none;
  now = 100;
  today = 7;
  day_start = 90;
  transaction_id = 20;
  anomaly_id = 21;
  approval_id = 22;
}

abbrev tool : McpTool
tool = record {
  tool_name = 32;
  server_id = 31;
  description_hash = 42;
  description_first_seen_hash = 42;
  was_changed = false;
  is_payment_relevant = true;
  threat_flags = [];
  quarantine_status = clear;
  created_at = 70;
  updated_at = 70;
}

abbrev tool_server : McpServer
tool_server = record {
  trust_level = unknown;
  trust_level_reason = none;
  description_hash = 41;
  first_seen_at = 60;
  last_seen_at = 60;
}

abbrev permission : Permission
permission = record {
  allowed_actions = 33 ∷ [];
  daily_cap = some 600;
  transaction_cap = none;
  requires_hitl = false;
  is_active = true;
  created_at = 70;
  updated_at = 70;
}

abbrev server : Server
server = record {
  budgets = [];
  agent_budgets = [];
  receipts = [];
  idempotency = [];
  logs = [];
  events = [];
  audit_entries = [];
  spend_tokens = [];
  approvals = [];
  hitl_rules = [];
  budget_alerts = [];
  mcp_servers = (31, tool_server) ∷ [];
  mcp_tools = (30, tool) ∷ [];
  permissions = λ _ _. some permission;
  usage = record { tool_id = 30; user_id = 2; amount = 150; currency = 4; created_at = 95 } ∷ [];
  anomalies = [];
  profiles = [];
  metrics = [];
}

abbrev pass : ToolPass
pass = record {
  mcp_server_id = 31;
  mcp_tool_name = 32;
  trust_level = unknown;
  requires_permission_hitl = false;
  requires_unknown_server_hitl = false;
}

tool-passes : (enforce_tool_policy config by_tool 30 server).0 ≡ next pass
unfolding enforce_tool_policy check_tool check_server check_permission get_mcp_tool get_mcp_server
    get_mcp_tool_permission get_mcp_tool_spent_today lookup add_money normalize_money
tool-passes = refl

next-IsPermitted_example : IsPermitted config by_tool 30 server pass
next-IsPermitted_example = next-IsPermitted config by_tool 30 server pass tool-passes

pass-allowed : (enforce_mcp_hitl_policy config by_tool found pass server).0 ≡ next tt
unfolding enforce_mcp_hitl_policy mcp_escalation matching_rule first_match list_hitl_rules
    apply_mcp_escalation let_pass
pass-allowed = refl

mcp-IsGranted_example :
    ((pass.requires_unknown_server_hitl ≡ false)
      × (pass.requires_permission_hitl ≡ false)
      × (matching_rule config by_tool.payment (some pass.trust_level) server ≡ none))
    ⊎ IsGranted config by_tool (some 30) (some 33) server
mcp-IsGranted_example = mcp-IsGranted config by_tool found pass server pass-allowed

abbrev cautious : Config
cautious = record config { unknown_server_hitl_threshold = 300 }

-- The tool was registered with another description, which a person has not yet reviewed.
abbrev prior : McpTool
prior = record tool { threat_flags = description_changed ∷ []; quarantine_status = review }

abbrev vouched_server : McpServer
vouched_server = record tool_server { trust_level = verified }

abbrev token : SpendToken
token = record {
  request_hash = 400;
  user_id = 2;
  agent_id = 1;
  mcp_tool_id = some 31032;
  authorized_amount = 400;
  authorized_currency = 4;
  authorized_action = some 33;
  expires_at = 200;
  is_used = false;
  used_at = none;
  revoked = false;
  created_at = 50;
}

abbrev registry : Server
registry = record server {
  mcp_servers = (31, vouched_server) ∷ [];
  mcp_tools = (31032, prior) ∷ [];
  spend_tokens = (6, token) ∷ [];
}

abbrev operator : AdminCall
operator = record { oauth_subject = 3; now = 80; payload_hash = 9 }

abbrev changed : ToolCall
changed = record { server_id = 31; tool_name = 32; description = 43 }

abbrev with_token : Request
with_token = record by_tool {
  payment = record by_tool.payment { mcp_tool_id = some 31032 };
  spend_token = some 6;
}

abbrev risky : ToolPass
risky = record pass { requires_unknown_server_hitl = true }

server-known : get_mcp_server 31 registry.mcp_servers ≡ some vouched_server
unfolding get_mcp_server lookup
server-known = refl

tool-known : get_mcp_tool 31032 registry.mcp_tools ≡ some prior
unfolding get_mcp_tool lookup
tool-known = refl

changed-passes :
    (enforce_tool_policy cautious with_token 31032
      (register_mcp_tool cautious operator changed registry).1).0
    ≡ next risky
unfolding register_mcp_tool register_at maybe_downgrade_server_for_tool_change upserted_tool
    upsert_mcp_tool update_mcp_server_trust next_quarantine merge_flags scan_mcp_description
    write_audit_entry insert adjust enforce_tool_policy check_tool check_server check_permission
    get_mcp_tool get_mcp_server get_mcp_tool_permission get_mcp_tool_spent_today lookup add_money
    normalize_money
changed-passes = refl

token-allows : (enforce_mcp_hitl_policy cautious with_token found risky registry).0 ≡ next tt
unfolding enforce_mcp_hitl_policy mcp_escalation apply_mcp_escalation ask_or_consume
    validate_and_consume_spend_token validate_row mismatches get_spend_token consume_spend_token
    lookup
token-allows = refl

changed-IsGranted_example : IsGranted cautious with_token (some 31032) (some 33) registry
changed-IsGranted_example =
    changed-IsGranted cautious operator changed registry vouched_server prior with_token found risky
      registry server-known tool-known (λ same. ground (arith, same)) (ground arith) changed-passes
      token-allows
