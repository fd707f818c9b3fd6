-- ===== src/Admin.antt =====
-- What the administrators' APIs share. The caller has passed the scope check, and the infrastructure
-- identity policy is off. A path stands as its route writes it, and latencies are left out.
pub mod Approvals
pub mod Budgets
pub mod Receipts
pub mod Tools
use Prim.Native.String.{String}
use safe4_arc_demo.Prelude.{ℕ, Option, none}
use safe4_arc_demo.Store.Value.{Details}
use safe4_arc_demo.Store.Audit.{AuditEvent}
use safe4_arc_demo.Payment.State.{Config}

-- Who calls, when, and the hash of the body.
pub record AdminCall : Type 0 where
  pub oauth_subject : ℕ
  pub now : ℕ
  pub payload_hash : ℕ

-- A value, or an `HTTPException` with its status and its code.
pub data Answered {ℓ} (A : Type ℓ) : Type ℓ where
  ok : A → Answered A
  http_error : ℕ → String → Answered A

abbrev pub admin_event :
    Config → AdminCall → String → String → Details → String → Option String → Details → AuditEvent
admin_event c a action path summary decision reason details = record {
  timestamp = a.now;
  transaction_id = none;
  actor_type = "admin";
  actor_id = a.oauth_subject;
  action = action;
  request_path = path;
  request_payload_hash = a.payload_hash;
  request_payload_summary = summary;
  policy_version = c.policy_version;
  decision = decision;
  decision_reason = reason;
  decision_details = details;
  transaction_amount = none;
  transaction_currency = none;
  mcp_server_id = none;
  mcp_tool_id = none;
  mcp_tool_name = none;
  infrastructure_provider_name = none;
  infrastructure_subject = none;
  infrastructure_trust_tier = none;
}
