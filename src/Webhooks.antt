-- ===== src/Webhooks.antt =====
-- app/api/webhooks.py (`_dispatch_webhooks_once`), and the tables `webhook_endpoints` and
-- `webhook_delivery_attempts` of app/storage.py. Of the five outboxes stand the columns that the
-- dispatcher reads; its audit entry, the bodies and the durations are left out.
pub mod Attempts
pub mod Counts
pub mod Lost
use safe4_arc_demo.Prelude.{
  ℕ, suc, ◌+◌, max, Option, none, some, Bool, true, false, List, [], ◌∷◌, ◌++◌, ◌==◌, leb, ltb, not,
  if◌then◌else◌, ◌&&◌, ◌||◌, keep, count_if,
}
use safe4_arc_demo.Dict.{Dict, lookup, insert, adjust}

pub data AlertSource : Type 0 where
  budget approval mcp anomaly siem : AlertSource

abbrev pub same_source : AlertSource → AlertSource → Bool
same_source budget budget = true
same_source approval approval = true
same_source mcp mcp = true
same_source anomaly anomaly = true
same_source siem siem = true
same_source _ _ = false

pub data DeliveryStatus : Type 0 where
  pending failed delivered acknowledged : DeliveryStatus

-- A subscribed event: the fixed ones, or the type of an approval's or a tool's alert.
pub data EventType : Type 0 where
  budget_alert infrastructure_identity_anomaly_alert siem_audit_anomaly_export : EventType
  alert_type : ℕ → EventType

abbrev same_event : EventType → EventType → Bool
same_event budget_alert budget_alert = true
same_event infrastructure_identity_anomaly_alert infrastructure_identity_anomaly_alert = true
same_event siem_audit_anomaly_export siem_audit_anomaly_export = true
same_event (alert_type a) (alert_type b) = a == b
same_event _ _ = false

abbrev pub subscribed : List EventType → EventType → Bool
subscribed [] e = false
subscribed (x ∷ xs) e = same_event x e || subscribed xs e

pub record Alert : Type 0 where
  pub event_type : EventType
  pub status : DeliveryStatus

pub record Endpoint : Type 0 where
  pub target_url : ℕ
  pub subscribed_events : List EventType
  pub shared_secret : Option ℕ
  pub is_active : Bool

pub record Attempt : Type 0 where
  pub alert_source : AlertSource
  pub alert_id : ℕ
  pub endpoint_id : ℕ
  pub delivery_status : DeliveryStatus
  pub response_status : ℕ

pub record Outboxes : Type 0 where
  pub endpoints : Dict Endpoint
  pub alerts : AlertSource → Dict Alert
  pub attempts : List Attempt

unfoldable pub upsert_webhook_endpoint : ℕ → Endpoint → Dict Endpoint → Dict Endpoint
upsert_webhook_endpoint id e rows = insert id e rows

unfoldable pub in_order : ℕ × Endpoint → Dict Endpoint → Dict Endpoint
in_order e [] = e ∷ []
in_order e (x ∷ xs) = let rest = in_order e xs in if leb e.0 x.0 then e ∷ x ∷ xs else x ∷ rest

-- `ORDER BY endpoint_id ASC`
unfoldable pub order_by_id : Dict Endpoint → Dict Endpoint
unfolding in_order
order_by_id [] = []
order_by_id (e ∷ es) = in_order e (order_by_id es)

unfoldable pub list_webhook_endpoints : Bool → Dict Endpoint → Dict Endpoint
unfolding order_by_id
list_webhook_endpoints active_only rows =
    order_by_id (keep (λ e. not active_only || e.1.is_active) rows)

abbrev pub about : AlertSource → ℕ → ℕ → Attempt → Bool
about source alert endpoint t =
    same_source t.alert_source source && ((t.alert_id == alert) && (t.endpoint_id == endpoint))

unfoldable pub count_webhook_delivery_attempts : AlertSource → ℕ → ℕ → List Attempt → ℕ
count_webhook_delivery_attempts source alert endpoint rows =
    count_if (about source alert endpoint) rows

-- What an endpoint answers to an alert, after the attempts before; `none` is an exception, which
-- `_default_webhook_sender` lets through where no HTTP answer comes.
abbrev pub Sender : Type 0
Sender = List Attempt → ℕ → AlertSource → ℕ → Option ℕ

-- One call of the sender.
pub record Sending : Type 0 where
  pub alert_source : AlertSource
  pub alert_id : ℕ
  pub endpoint_id : ℕ

abbrev pub is_sending : AlertSource → ℕ → ℕ → Sending → Bool
is_sending source alert endpoint t =
    same_source t.alert_source source && ((t.alert_id == alert) && (t.endpoint_id == endpoint))

-- One run of the dispatcher so far, with the calls of the sender that it has made; after an exception
-- nothing more is done.
pub record Run : Type 0 where
  pub outboxes : Outboxes
  pub sent : List Sending
  pub dispatched : ℕ
  pub failures : ℕ
  pub skipped : ℕ
  pub raised : Bool

abbrev pub outcome : ℕ → DeliveryStatus
outcome code = if leb 200 code && ltb code 300 then delivered else failed

abbrev pub success : ℕ → Bool
success code = leb 200 code && ltb code 300

abbrev set_status : DeliveryStatus → Alert → Alert
set_status status a = record a { status = status }

abbrev set_alert_status :
    AlertSource → ℕ → DeliveryStatus → (AlertSource → Dict Alert) → AlertSource → Dict Alert
set_alert_status source id status alerts other =
    if same_source source other then adjust id (set_status status) (alerts other) else alerts other

unfoldable pub record_attempt : ℕ → AlertSource → ℕ → ℕ → Run → Run
record_attempt endpoint source id code run = record run {
  outboxes = record run.outboxes {
    attempts =
        run.outboxes.attempts
        ++ record {
          alert_source = source;
          alert_id = id;
          endpoint_id = endpoint;
          delivery_status = outcome code;
          response_status = code;
        }
          ∷ [];
    alerts = set_alert_status source id (outcome code) run.outboxes.alerts;
  };
  dispatched = (if success code then 1 else 0) + run.dispatched;
  failures = (if success code then 0 else 1) + run.failures;
}

-- The call is made, whatever comes of it.
abbrev pub called : ℕ → AlertSource → ℕ → Run → Run
called endpoint source id run = record run {
  sent = run.sent ++ record { alert_source = source; alert_id = id; endpoint_id = endpoint } ∷ [];
}

abbrev attempted : ℕ → AlertSource → ℕ → Option ℕ → Run → Run
attempted endpoint source id none run = record (called endpoint source id run) { raised = true }
attempted endpoint source id (some code) run =
    record_attempt endpoint source id code (called endpoint source id run)

-- The body of the inner loops.
unfoldable pub deliver : ℕ → Sender → ℕ × Endpoint → AlertSource → ℕ × Alert → Run → Run
unfolding count_webhook_delivery_attempts record_attempt
deliver limit send (endpoint, e) source (id, a) run =
    let rows = run.outboxes.attempts in
    if run.raised || not (subscribed e.subscribed_events a.event_type)
    then run
    else if leb limit (count_webhook_delivery_attempts source id endpoint rows)
    then record run { skipped = suc run.skipped }
    else attempted endpoint source id (send rows endpoint source id) run

unfoldable pub each_alert : ℕ → Sender → ℕ × Endpoint → AlertSource → Dict Alert → Run → Run
unfolding deliver
each_alert limit send e source [] run = run
each_alert limit send e source (a ∷ rest) run =
    each_alert limit send e source rest (deliver limit send e source a run)

-- The alerts that the run takes up, as they were listed before it.
unfoldable pub each_endpoint : ℕ → Sender → Dict Endpoint → (AlertSource → Dict Alert) → Run → Run
unfolding each_alert
each_endpoint limit send [] listed run = run
each_endpoint limit send (e ∷ es) listed run =
    let r₁ = each_alert limit send e budget (listed budget) run in
    let r₂ = each_alert limit send e approval (listed approval) r₁ in
    let r₃ = each_alert limit send e mcp (listed mcp) r₂ in
    let r₄ = each_alert limit send e anomaly (listed anomaly) r₃ in
    each_endpoint limit send es listed (each_alert limit send e siem (listed siem) r₄)

abbrev pub retryable? : DeliveryStatus → Bool
retryable? pending = true
retryable? failed = true
retryable? _ = false

unfoldable pub retryable_alerts : Outboxes → AlertSource → Dict Alert
retryable_alerts o source = keep (λ a. retryable? a.1.status) (o.alerts source)

abbrev pub begin : Outboxes → Run
begin o = record {
  outboxes = o;
  sent = [];
  dispatched = 0;
  failures = 0;
  skipped = 0;
  raised = false;
}

-- `max(1, int(…))`
abbrev pub current_webhook_max_attempts : ℕ → ℕ
current_webhook_max_attempts n = max 1 n

-- With the failed alerts, as the dispatcher's thread and the operator call it.
unfoldable pub dispatch_webhooks_once : ℕ → Sender → Outboxes → Run
unfolding each_endpoint list_webhook_endpoints retryable_alerts
dispatch_webhooks_once max_attempts send o =
    each_endpoint (current_webhook_max_attempts max_attempts) send
      (list_webhook_endpoints true o.endpoints) (retryable_alerts o) (begin o)

-- What a run finds. Between two runs the endpoints and the alerts may change in any way.
pub record Cycle : Type 0 where
  pub sender : Sender
  pub endpoints : Dict Endpoint
  pub alerts : AlertSource → Dict Alert

pub record Cycles : Type 0 where
  pub attempts : List Attempt
  pub sent : List Sending
  pub raised : ℕ

-- Runs one after another, by the dispatcher's thread, until one raises, and by operators.
unfoldable pub dispatch_cycles : ℕ → List Cycle → List Attempt → Cycles
unfolding dispatch_webhooks_once
dispatch_cycles n [] rows = record { attempts = rows; sent = []; raised = 0 }
dispatch_cycles n (c ∷ cs) rows =
    let run =
      dispatch_webhooks_once n c.sender
        (record { endpoints = c.endpoints; alerts = c.alerts; attempts = rows }) in
    let rest = dispatch_cycles n cs run.outboxes.attempts in
    record {
      attempts = rest.attempts;
      sent = run.sent ++ rest.sent;
      raised = (if run.raised then 1 else 0) + rest.raised;
    }
