-- ===== src/Payment/Finalize.antt =====
-- app/payment_finalize.py: `finalize_authorized_payment`, for an agent without an infrastructure
-- assertion, whose posture is `disabled`. The outboxes of anomaly alerts and of exports, which nothing
-- reads back, the latencies and the anomaly's feature details are left out; of an intent decision
-- stands its reason code.

pub mod Effects
pub mod Replay
use Prim.Native.String.{String}
use safe4_arc_demo.Prelude.{ℕ, Option, none, some, List, [], ◌∷◌, ◌++◌, is_some}
use safe4_arc_demo.Money.{compute_firewall_fee}
use safe4_arc_demo.Anomaly.{
  Severity, informational, low, medium, high, disabled, ReasonCode, oauth_only_posture,
  untrusted_workload_posture, insufficient_baseline, amount_spike_high, amount_spike_medium,
  new_currency, first_time_vendor, first_time_agent_user, Anomaly,
  build_infrastructure_identity_anomaly_inputs, compute_infrastructure_identity_anomaly,
}
use safe4_arc_demo.Store.Value.{Details, text, opaque_text, opaque?, money}
use safe4_arc_demo.Store.Budget.{Budget, update_spent_today, update_agent_spent_today}
use safe4_arc_demo.Store.BudgetAlert.{user, agent, enqueue_budget_alerts}
use safe4_arc_demo.Store.Mcp.{Usage, record_mcp_tool_usage}
use safe4_arc_demo.Store.Idempotency.{save_idempotency}
use safe4_arc_demo.Store.Audit.{AuditEvent}
use safe4_arc_demo.Store.Log.{
  authorized, append_log, record_transaction_event, count_user_vendor_authorized_transactions,
  count_agent_user_authorized_transactions,
}
use safe4_arc_demo.Payment.State.{
  Payment, Request, Config, Content, authorization, AnomalyRow, Response, Server,
}
use safe4_arc_demo.Payment.Flow.{
  increment, write_audit_entry, payment_request_summary, mark_receipt, answer_event,
}
use safe4_arc_demo.Payment.Limits.{Found, Totals, evaluate_intent}

-- `key_error` is the exception of an update of a budget that is not there.
pub data Finished : Type 0 where
  completed : Response → Finished
  key_error : Finished

-- The anomaly of the payment, from the log before it.
unfoldable pub anomaly_of : Request → Server → Anomaly
anomaly_of r s =
    let p = r.payment in
    compute_infrastructure_identity_anomaly disabled p.amount (
      build_infrastructure_identity_anomaly_inputs p.currency s.profiles
        (count_user_vendor_authorized_transactions p.user_id p.vendor s.logs)
        (count_agent_user_authorized_transactions p.agent_id p.user_id s.logs))

abbrev severity_text : Severity → String
severity_text informational = "informational"
severity_text low = "low"
severity_text medium = "medium"
severity_text high = "high"

abbrev code_text : ReasonCode → String
code_text oauth_only_posture = "OAUTH_ONLY_POSTURE"
code_text untrusted_workload_posture = "UNTRUSTED_WORKLOAD_POSTURE"
code_text insufficient_baseline = "INSUFFICIENT_BASELINE"
code_text amount_spike_high = "AMOUNT_SPIKE_HIGH"
code_text amount_spike_medium = "AMOUNT_SPIKE_MEDIUM"
code_text new_currency = "NEW_CURRENCY"
code_text first_time_vendor = "FIRST_TIME_VENDOR"
code_text first_time_agent_user = "FIRST_TIME_AGENT_USER"

abbrev append_text : String → String → String
append_text String.[] t = t
append_text (String.◌∷◌ c s) t = String.◌∷◌ c (append_text s t)

abbrev join_codes : ReasonCode → List ReasonCode → String
join_codes code [] = code_text code
join_codes code (next ∷ rest) =
    append_text (code_text code) (append_text ", " (join_codes next rest))

-- `", ".join(reason_codes) if reason_codes else None`
abbrev codes_reason : List ReasonCode → Option String
codes_reason [] = none
codes_reason (code ∷ rest) = some (join_codes code rest)

abbrev tool_usage : Request → Option ℕ → List Usage → List Usage
tool_usage r none rows = rows
tool_usage r (some tool) rows =
    record_mcp_tool_usage r.now tool r.payment.user_id r.payment.amount r.payment.currency rows

-- An event of the transaction.
abbrev transaction_event : Config → Request → Found → String → Option String → Details → AuditEvent
transaction_event c r f decision reason details =
    record (answer_event c r decision reason details) {
      transaction_id = some r.transaction_id;
      request_payload_summary = payment_request_summary r.payment (is_some r.payment.mcp_tool_id);
      mcp_server_id = f.mcp_server_id;
      mcp_tool_id = r.payment.mcp_tool_id;
      mcp_tool_name = f.mcp_tool_name;
    }

abbrev pub authorization_event : Config → Request → Found → AuditEvent
authorization_event c r f = transaction_event c r f "authorized" none (
    ("status", text "AUTHORIZED")
    ∷ ("receipt_id", opaque? f.receipt_id)
    ∷ ("receipt_source", text "signed_receipt_fallback")
    ∷ ("intent_decision", text (c.intent_reason (evaluate_intent c r.payment).reason_code))
    ∷ [])

abbrev pub anomaly_event : Config → Request → Found → Anomaly → AuditEvent
anomaly_event c r f a =
    let e = transaction_event c r f (severity_text a.severity) (codes_reason a.reason_codes) (
      ("anomaly_id", opaque_text r.anomaly_id)
      ∷ ("observed_amount", money a.observed_amount)
      ∷ []) in
    record e {
      action = "payment_anomaly_score";
      request_payload_summary =
          e.request_payload_summary ++ ("transaction_id", opaque_text r.transaction_id) ∷ [];
    }

-- The tables that are written between the budgets and the audit log.
unfoldable pub record_transaction : Config → Request → Budget → Budget → Server → Server
record_transaction c r b a s = record s {
  events =
      record_transaction_event r.now r.transaction_id r.payment.agent_id r.payment.user_id s.events;
  usage = tool_usage r r.payment.mcp_tool_id s.usage;
  budget_alerts =
      enqueue_budget_alerts r.now r.today agent r.payment.agent_id a c.budget_alert_thresholds (
        enqueue_budget_alerts r.now r.today user r.payment.user_id b c.budget_alert_thresholds
          s.budget_alerts);
}

unfoldable pub log_authorized : Config → Request → Server → Server
log_authorized c r s = record s {
  logs =
      append_log
        (record {
          timestamp = r.now;
          transaction_id = some r.transaction_id;
          agent_id = r.payment.agent_id;
          user_id = r.payment.user_id;
          vendor = r.payment.vendor;
          amount = r.payment.amount;
          currency = r.payment.currency;
          firewall_fee = compute_firewall_fee c.fee_rate r.payment.amount;
          result = authorized;
          reason = none;
          idempotency_key = r.idempotency_key;
        })
        s.logs;
}

unfoldable pub record_anomaly : Request → Anomaly → Server → Server
record_anomaly r a s = record s {
  anomalies =
      s.anomalies
      ++ record {
        anomaly_id = r.anomaly_id;
        transaction_id = r.transaction_id;
        actor_id = r.payment.agent_id;
        anomaly = a;
      }
        ∷ [];
}

-- The body is saved as the object that was answered.
unfoldable pub save_authorized : Config → Request → Option ℕ → Content → Server → Server
save_authorized c r none body s = s
save_authorized c r (some key) body s = record s {
  idempotency = save_idempotency key (c.hash_request r.payment) 200 body s.idempotency;
}

abbrev pub authorized_body : Config → Request → Budget → Budget → Content
authorized_body c r b a =
    authorization r.transaction_id (compute_firewall_fee c.fee_rate r.payment.amount) b a
      (evaluate_intent c r.payment).reason_code

-- What is written between the updates of the budgets and the answer, in the order of the code.
unfoldable pub write_records :
    Config → Request → Found → Anomaly → Budget → Budget → Server → Server
unfolding record_transaction log_authorized record_anomaly mark_receipt write_audit_entry
write_records c r f anomaly b a s =
    let recorded = record_transaction c r b a s in
    let marked = mark_receipt r f.receipt_id recorded in
    let logged = log_authorized c r marked in
    let audited = write_audit_entry c (authorization_event c r f) logged in
    let scored = record_anomaly r anomaly audited in
    write_audit_entry c (anomaly_event c r f anomaly) scored

unfoldable pub write_authorized :
    Config → Request → Found → Anomaly → Budget → Budget → Server → Server
unfolding write_records save_authorized increment
write_authorized c r f anomaly b a s =
    let counted = increment (some "payment_authorized_total") (write_records c r f anomaly b a s) in
    save_authorized c r r.idempotency_key (authorized_body c r b a) counted

unfoldable pub finish :
    Config → Request → Found → Anomaly → Option Budget → Option Budget → Server → Finished × Server
unfolding write_authorized
finish c r f anomaly none a s = (key_error, s)
finish c r f anomaly (some b) none s = (key_error, s)
finish c r f anomaly (some b) (some a) s = (
  completed (record { status_code = 200; content = authorized_body c r b a }),
  write_authorized c r f anomaly b a s,
)

-- Without the user's budget the exception leaves before the agent's is updated.
abbrev pub update_agent : Request → Totals → Option Budget → Server → Option Budget × Server
update_agent r t none s = (none, s)
update_agent r t (some _) s =
    let (agent_budget, agent_budgets') =
      update_agent_spent_today r.today r.payment.agent_id t.projected_agent_total s.agent_budgets in
    (agent_budget, record s { agent_budgets = agent_budgets' })

unfoldable pub finalize_authorized_payment :
    Config → Request → Found → Totals → Server → Finished × Server
unfolding anomaly_of finish
finalize_authorized_payment c r f t s =
    let anomaly = anomaly_of r s in
    let (budget, budgets') =
      update_spent_today r.today r.payment.user_id t.projected_total s.budgets in
    let (agent_budget, s') = update_agent r t budget (record s { budgets = budgets' }) in
    finish c r f anomaly budget agent_budget s'
