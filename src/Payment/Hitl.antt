-- ===== src/Payment/Hitl.antt =====
-- app/hitl_policy.py, for a service whose infrastructure identity policy is off and an agent without
-- an infrastructure assertion: the posture is `disabled`, so the policy never triggers and no anomaly
-- is computed here. The outbox of approval alerts, which nothing reads back, is left out.
pub mod Exact
use Prim.Native.String.{String}
use safe4_arc_demo.Prelude.{
  ℕ, ◌+◌, Option, none, some, Bool, true, false, List, [], ◌∷◌, ◌++◌, ◌==◌, ltb, if◌then◌else◌,
  ◌&&◌, ◌||◌, is_some, is_none, same?,
}
use safe4_arc_demo.Anomaly.{
  Severity, informational, low, medium, high, Threshold, disabled, at_least, deny_threshold,
}
use safe4_arc_demo.Store.Value.{
  Details, Value, text, null, flag, money, number, opaque_text, opaque?,
}
use safe4_arc_demo.Store.Mcp.{TrustLevel, trusted, verified, unknown, blocked}
use safe4_arc_demo.Store.Audit.{AuditEvent}
use safe4_arc_demo.Store.Log.{
  count_user_vendor_authorized_transactions, count_agent_user_authorized_transactions,
}
use safe4_arc_demo.Store.HitlRule.{
  AppliesTo, direct, mcp, any, TriggerType, amount_threshold, first_time_vendor, vendor_pattern,
  first_time_agent_user, currency_match, mcp_tool_match, mcp_action_match, mcp_server_trust_level,
  Condition, HitlRule, list_hitl_rules,
}
use safe4_arc_demo.Store.Approval.{ApprovalPayload, create_approval_request}
use safe4_arc_demo.Payment.State.{
  Payment, Request, Config, pending_approval, Response, Server, Outcome, next, respond,
}
use safe4_arc_demo.Payment.Flow.{
  increment, write_audit_entry, answer_event, payment_request_summary,
}
use safe4_arc_demo.Payment.Limits.{Found}
use safe4_arc_demo.Payment.SpendGrant.{validate_and_consume_spend_token}
use safe4_arc_demo.Payment.ToolPolicy.{ToolPass}
use safe4_arc_demo.Payment.HitlRules.{
  rule_applies_to_payment, match_trigger, match_condition, first_match, matching_rule,
}

abbrev pub build_approval_payload : Payment → ApprovalPayload
build_approval_payload p = record {
  agent_id = p.agent_id;
  user_id = p.user_id;
  vendor = p.vendor;
  amount = p.amount;
  currency = p.currency;
  mcp_tool_id = p.mcp_tool_id;
  mcp_action = p.mcp_action;
}

abbrev threshold_text : Threshold → String
threshold_text disabled = "disabled"
threshold_text (at_least informational) = "informational"
threshold_text (at_least low) = "low"
threshold_text (at_least medium) = "medium"
threshold_text (at_least high) = "high"

abbrev off : Threshold → Bool
off disabled = true
off (at_least _) = false

abbrev money? : Option ℕ → Value
money? none = null
money? (some amount) = money amount

-- `_build_infrastructure_identity_trace_details` with the policy off: none unless an anomaly
-- threshold is configured.
unfoldable pub trace_details : Config → Option Details
trace_details c =
    let hitl = c.anomaly_hitl_min_severity in
    let deny = deny_threshold hitl c.anomaly_deny_min_severity in
    if off hitl && off deny
    then none
    else some (
        ("policy_enabled", flag false)
        ∷ ("posture", text "disabled")
        ∷ ("is_trusted_workload", flag false)
        ∷ ("threshold_amount", money? c.oauth_only_max_amount)
        ∷ ("environment", null)
        ∷ ("namespace", null)
        ∷ ("service_account", null)
        ∷ ("trust_tier", null)
        ∷ ("anomaly_hitl_threshold", text (threshold_text hitl))
        ∷ ("anomaly_deny_threshold", text (threshold_text deny))
        ∷ [])

abbrev pub trace_with : Config → Request → Found → Option Details → Server → Server
trace_with c r f none s = s
trace_with c r f (some details) s =
    let reason = some "Infrastructure identity checks did not require escalation." in
    let code = ("reason_code", text "INFRASTRUCTURE_IDENTITY_POLICY_PASSED") ∷ [] in
    write_audit_entry c
      (record (answer_event c r "passed" reason (details ++ code)) {
        action = "infrastructure_identity_evaluate";
        request_payload_summary = payment_request_summary r.payment (is_some r.payment.mcp_tool_id);
        mcp_server_id = f.mcp_server_id;
        mcp_tool_id = r.payment.mcp_tool_id;
        mcp_tool_name = f.mcp_tool_name;
      })
      s

-- `_append_infrastructure_identity_evaluation_audit_entry`
unfoldable pub trace_passed : Config → Request → Found → Server → Server
unfolding trace_details write_audit_entry
trace_passed c r f s = trace_with c r f (trace_details c) s

-- What `_create_hitl_approval` is called with.
pub record Escalation : Type 0 where
  pub triggered_by : String
  pub decision_reason : String
  pub reason_code : String
  pub rule : Option HitlRule

abbrev trigger_text : TriggerType → String
trigger_text amount_threshold = "amount_threshold"
trigger_text first_time_vendor = "first_time_vendor"
trigger_text vendor_pattern = "vendor_pattern"
trigger_text first_time_agent_user = "first_time_agent_user"
trigger_text currency_match = "currency_match"
trigger_text mcp_tool_match = "mcp_tool_match"
trigger_text mcp_action_match = "mcp_action_match"
trigger_text mcp_server_trust_level = "mcp_server_trust_level"

abbrev trigger? : Option TriggerType → Value
trigger? none = null
trigger? (some t) = text (trigger_text t)

abbrev rule_details : Option HitlRule → Details
rule_details none = []
rule_details (some rule) =
    ("rule_id", opaque_text rule.rule_id)
    ∷ ("trigger_type", trigger? rule.primary.trigger_type)
    ∷ []

abbrev rule_id? : Option HitlRule → Value
rule_id? none = null
rule_id? (some rule) = opaque_text rule.rule_id

abbrev pub approval_event : Config → Request → Found → Escalation → AuditEvent
approval_event c r f e =
    let details =
      ("reason_code", text e.reason_code) ∷ rule_details e.rule
      ++ ("approval_ttl_seconds", number c.hitl_approval_ttl) ∷ [] in
    record (answer_event c r "pending" (some e.decision_reason) details) {
      action = "approval_request";
      request_payload_summary =
          ("approval_id", opaque_text r.approval_id)
          ∷ ("rule_id", rule_id? e.rule)
          ∷ ("mcp_tool_id", opaque? r.payment.mcp_tool_id)
          ∷ [];
      mcp_server_id = f.mcp_server_id;
      mcp_tool_id = r.payment.mcp_tool_id;
      mcp_tool_name = f.mcp_tool_name;
    }

unfoldable pub store_approval : Config → Request → Escalation → Server → Server
store_approval c r e s = record s {
  approvals =
      create_approval_request r.now r.approval_id (c.hash_request r.payment)
        (build_approval_payload r.payment) e.triggered_by r.payment.agent_id r.payment.user_id
        r.payment.mcp_tool_id (r.now + c.hitl_approval_ttl) s.approvals;
}

unfoldable pub create_hitl_approval :
    Config → Request → Found → Escalation → Server → Outcome (Unit {0}) × Server
unfolding store_approval write_audit_entry increment
create_hitl_approval c r f e s =
    let audited = write_audit_entry c (approval_event c r f e) (store_approval c r e s) in
    (
      respond (record { status_code = 202; content = pending_approval r.approval_id }),
      increment (some "payment_hitl_required_total") audited,
    )

-- With no spend token a person is asked, else the token is used up.
unfoldable pub ask_or_consume :
    Config
    → Request
    → Found
    → Escalation
    → Option ℕ
    → Option ℕ
    → Option ℕ
    → Server
    → Outcome (Unit {0}) × Server
unfolding trace_passed create_hitl_approval
ask_or_consume c r f e tool action none s = create_hitl_approval c r f e (trace_passed c r f s)
ask_or_consume c r f e tool action (some _) s = validate_and_consume_spend_token c r tool action s

unfoldable pub let_pass : Config → Request → Found → Option ℕ → Server → Outcome (Unit {0}) × Server
unfolding trace_passed
let_pass c r f none s = (next tt, trace_passed c r f s)
let_pass c r f (some _) s = (next tt, s)

abbrev pub direct_escalation : Config → HitlRule → Escalation
direct_escalation c rule = record {
  triggered_by = c.rule_trigger rule.rule_id;
  decision_reason = "Human approval required by HITL rule.";
  reason_code = "HITL_RULE_TRIGGERED";
  rule = some rule;
}

unfoldable pub apply_direct_rule :
    Config → Request → Found → Option HitlRule → Server → Outcome (Unit {0}) × Server
unfolding ask_or_consume let_pass
apply_direct_rule c r f none s = let_pass c r f r.spend_token s
apply_direct_rule c r f (some rule) s =
    ask_or_consume c r f (direct_escalation c rule) none none r.spend_token s

unfoldable pub enforce_direct_hitl_policy :
    Config → Request → Found → Server → Outcome (Unit {0}) × Server
unfolding apply_direct_rule
enforce_direct_hitl_policy c r f s =
    if is_some r.payment.mcp_tool_id
    then (next tt, s)
    else apply_direct_rule c r f (matching_rule c r.payment none s) s

-- The reasons to ask, in the order in which they are named.
unfoldable pub mcp_escalation : Config → ToolPass → Option HitlRule → Option Escalation
mcp_escalation c w rule =
    if w.requires_unknown_server_hitl
    then some (record {
      triggered_by = "mcp_unknown_server_risk";
      decision_reason =
          "Human approval required because the MCP server is unknown and exceeds the risk threshold.";
      reason_code = "MCP_UNKNOWN_SERVER_HITL_REQUIRED";
      rule = none;
    })
    else if w.requires_permission_hitl
    then some (record {
      triggered_by = "mcp_permission_requires_hitl";
      decision_reason = "Human approval required by MCP tool permission.";
      reason_code = "MCP_TOOL_HITL_REQUIRED";
      rule = none;
    })
    else elim rule [
      | none ↦ none
      | some found ↦ some (record {
        triggered_by = c.rule_trigger found.rule_id;
        decision_reason = "Human approval required by MCP HITL rule.";
        reason_code = "MCP_HITL_RULE_TRIGGERED";
        rule = some found;
      })
    ]

unfoldable pub apply_mcp_escalation :
    Config → Request → Found → Option Escalation → Server → Outcome (Unit {0}) × Server
unfolding ask_or_consume let_pass
apply_mcp_escalation c r f none s = let_pass c r f r.spend_token s
apply_mcp_escalation c r f (some e) s =
    ask_or_consume c r f e r.payment.mcp_tool_id r.payment.mcp_action r.spend_token s

unfoldable pub enforce_mcp_hitl_policy :
    Config → Request → Found → ToolPass → Server → Outcome (Unit {0}) × Server
unfolding mcp_escalation apply_mcp_escalation
enforce_mcp_hitl_policy c r f w s =
    apply_mcp_escalation c r f
      (mcp_escalation c w (matching_rule c r.payment (some w.trust_level) s)) s
