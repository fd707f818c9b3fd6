-- ===== src/Payment/Flow.antt =====
-- app/payment_flow.py, and `append_log` and `append_audit_entry` of app/main.py: what every refusal
-- writes down. The receipts are the service's own, so the source is always the signed fallback.

pub mod Frame
use Prim.Native.String.{String}
use safe4_arc_demo.Prelude.{
  ℕ, Option, none, some, Bool, true, false, List, [], ◌∷◌, ◌++◌, if◌then◌else◌, is_some,
}
use safe4_arc_demo.Money.{compute_firewall_fee}
use safe4_arc_demo.Store.Value.{Details, text, opaque_text, opaque?, money}
use safe4_arc_demo.Store.Receipt.{mark_receipt_used}
use safe4_arc_demo.Store.Idempotency.{save_idempotency}
use safe4_arc_demo.Store.Audit.{AuditEvent, append_audit_entry}
use safe4_arc_demo.Store.Log.{denied, append_log}
use safe4_arc_demo.Payment.State.{
  Payment, Request, Config, Content, json, printed, Response, Server,
}

unfoldable pub increment : Option String → Server → Server
increment none s = s
increment (some name) s = record s { metrics = s.metrics ++ name ∷ [] }

-- `_append_log(request, payment, amount_due, "DENIED", reason, …)`
unfoldable pub log_denied : Config → Request → Option String → Server → Server
log_denied c r none s = s
log_denied c r (some reason) s = record s {
  logs =
      append_log
        (record {
          timestamp = r.now;
          transaction_id = none;
          agent_id = r.payment.agent_id;
          user_id = r.payment.user_id;
          vendor = r.payment.vendor;
          amount = r.payment.amount;
          currency = r.payment.currency;
          firewall_fee = compute_firewall_fee c.fee_rate r.payment.amount;
          result = denied;
          reason = some reason;
          idempotency_key = r.idempotency_key;
        })
        s.logs;
}

unfoldable pub mark_receipt : Request → Option ℕ → Server → Server
mark_receipt r none s = s
mark_receipt r (some id) s = record s { receipts = mark_receipt_used r.now id s.receipts }

unfoldable pub write_audit_entry : Config → AuditEvent → Server → Server
write_audit_entry c e s = record s {
  audit_entries = (append_audit_entry c.sha256 e s.audit_entries).1;
}

unfoldable pub payment_request_summary : Payment → Bool → Details
payment_request_summary p include_mcp =
    ("user_id", opaque_text p.user_id)
    ∷ ("vendor", opaque_text p.vendor)
    ∷ ("currency", opaque_text p.currency)
    ∷ (if include_mcp
        then if is_some p.mcp_tool_id then ("mcp_tool_id", opaque? p.mcp_tool_id) ∷ [] else []
        else [])

-- The arguments of `deny_payment` beyond the request. The audit entry is written if there is a
-- reason for it.
pub record Denial : Type 0 where
  pub status_code : ℕ
  pub error_code : String
  pub metric_name : Option String
  pub append_log_reason : Option String
  pub mark_receipt_id : Option ℕ
  pub audit_reason : Option String
  pub extra_audit_details : Details
  pub mcp_server_id : Option ℕ
  pub mcp_tool_id : Option ℕ
  pub mcp_tool_name : Option ℕ

-- The event of an answer that ends the call; its reason code is the error's code.
abbrev pub answer_event : Config → Request → String → Option String → Details → AuditEvent
answer_event c r decision reason details = record {
  timestamp = r.now;
  transaction_id = none;
  actor_type = "agent";
  actor_id = r.payment.agent_id;
  action = "payment_authorize";
  request_path = "/pay";
  request_payload_hash = c.hash_request r.payment;
  request_payload_summary = payment_request_summary r.payment false;
  policy_version = c.policy_version;
  decision = decision;
  decision_reason = reason;
  decision_details = details;
  transaction_amount = some r.payment.amount;
  transaction_currency = some r.payment.currency;
  mcp_server_id = none;
  mcp_tool_id = none;
  mcp_tool_name = none;
  infrastructure_provider_name = none;
  infrastructure_subject = none;
  infrastructure_trust_tier = none;
}

unfoldable pub audit_denied : Config → Request → Denial → Option String → Server → Server
unfolding write_audit_entry
audit_denied c r d none s = s
audit_denied c r d (some reason) s =
    let details = ("reason_code", text d.error_code) ∷ d.extra_audit_details in
    write_audit_entry c
      (record (answer_event c r "denied" (some reason) details) {
        mcp_server_id = d.mcp_server_id;
        mcp_tool_id = d.mcp_tool_id;
        mcp_tool_name = d.mcp_tool_name;
      })
      s

-- The body is saved as the text of the response, `response.body.decode`.
unfoldable pub save_answer : Config → Request → Option ℕ → ℕ → String → Server → Server
save_answer c r none status_code error_code s = s
save_answer c r (some key) status_code error_code s = record s {
  idempotency =
      save_idempotency key (c.hash_request r.payment) status_code (printed error_code)
        s.idempotency;
}

unfoldable pub save_idempotent_response : Config → Request → ℕ → String → Server → Response × Server
unfolding save_answer
save_idempotent_response c r status_code error_code s = (
  record { status_code = status_code; content = json error_code },
  save_answer c r r.idempotency_key status_code error_code s,
)

unfoldable pub deny_payment : Config → Request → Denial → Server → Response × Server
unfolding increment log_denied mark_receipt audit_denied save_idempotent_response
deny_payment c r d s =
    let counted = increment d.metric_name s in
    let logged = log_denied c r d.append_log_reason counted in
    let marked = mark_receipt r d.mark_receipt_id logged in
    let audited = audit_denied c r d d.audit_reason marked in
    save_idempotent_response c r d.status_code d.error_code audited

abbrev pub payment_required_event : Config → Request → AuditEvent
payment_required_event c r =
    answer_event c r "payment_required"
      (some "Micropayment required before authorization can proceed.")
      (("amount_due", money (compute_firewall_fee c.fee_rate r.payment.amount)) ∷ [])

unfoldable pub payment_required_response : Config → Request → Server → Response × Server
unfolding increment write_audit_entry save_idempotent_response
payment_required_response c r s =
    let counted = increment (some "payment_required_total") s in
    let audited = write_audit_entry c (payment_required_event c r) counted in
    save_idempotent_response c r 402 "PAYMENT_REQUIRED" audited
