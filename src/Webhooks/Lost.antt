-- ===== src/Webhooks/Lost.antt =====
-- Two endpoints that subscribe to the same alert share its one status.
use safe4_arc_demo.Prelude.{
  ℕ, ◌≤◌, ◌<◌, ◌≡◌, refl, some, true, false, List, [], ◌∷◌, leb, if◌then◌else◌, arith, ==-refl,
}
use safe4_arc_demo.Dict.{adjust}
use safe4_arc_demo.Webhooks.{
  AlertSource, budget, approval, mcp, anomaly, siem, same_source, pending, Alert, Endpoint, Attempt,
  Outboxes, Sender, Run, success, count_webhook_delivery_attempts, subscribed, called,
  record_attempt, deliver, each_alert, each_endpoint, retryable_alerts, begin, in_order,
  order_by_id, list_webhook_endpoints, current_webhook_max_attempts, dispatch_webhooks_once,
}

-- One alert that waits, and two endpoints.
abbrev pub shared : ℕ × Endpoint → ℕ × Endpoint → ℕ → Alert → Outboxes
shared one two id a = record {
  endpoints = one ∷ two ∷ [];
  alerts = λ source. if same_source source budget then (id, a) ∷ [] else [];
  attempts = [];
}

listed-two :
    (one two : ℕ × Endpoint)
    → one.1.is_active ≡ true
    → two.1.is_active ≡ true
    → one.0 ≤ two.0
    → list_webhook_endpoints true (one ∷ two ∷ []) ≡ one ∷ two ∷ []
unfolding list_webhook_endpoints order_by_id in_order
listed-two one two h k l = ground (arith, h, k, l)

-- A delivery that is tried.
deliver-tried :
    (limit : ℕ) (send : Sender) (e : ℕ) (x : Endpoint) (id code : ℕ) (a : Alert) (run : Run)
    → run.raised ≡ false
    → subscribed x.subscribed_events a.event_type ≡ true
    → leb limit (count_webhook_delivery_attempts budget id e run.outboxes.attempts) ≡ false
    → send run.outboxes.attempts e budget id ≡ some code
    → deliver limit send (e, x) budget (id, a) run
      ≡ record_attempt e budget id code (called e budget id run)
unfolding deliver
deliver-tried limit send e x id code a run h k l m = rw (h, k, l, m) refl

pending-listed :
    (one two : ℕ × Endpoint) (id : ℕ) (a : Alert)
    → a.status ≡ pending
    → retryable_alerts (shared one two id a) budget ≡ (id, a) ∷ []
unfolding retryable_alerts
pending-listed one two id a h = ground (arith, h)

none-listed :
    (one two : ℕ × Endpoint) (id : ℕ) (a : Alert) (source : AlertSource)
    → same_source source budget ≡ false
    → retryable_alerts (shared one two id a) source ≡ []
unfolding retryable_alerts
none-listed one two id a source h = rw h refl

-- The run over the two endpoints.
run-two :
    (n : ℕ) (send : Sender) (e e' : ℕ) (x x' : Endpoint) (id code code' : ℕ) (a : Alert)
    → x.is_active ≡ true
    → x'.is_active ≡ true
    → e < e'
    → a.status ≡ pending
    → subscribed x.subscribed_events a.event_type ≡ true
    → subscribed x'.subscribed_events a.event_type ≡ true
    → ((rows : List Attempt) → send rows e budget id ≡ some code)
    → ((rows : List Attempt) → send rows e' budget id ≡ some code')
    → dispatch_webhooks_once n send (shared (e, x) (e', x') id a)
      ≡ record_attempt e' budget id code' (
          called e' budget id (
            record_attempt e budget id code
              (called e budget id (begin (shared (e, x) (e', x') id a)))))
unfolding dispatch_webhooks_once each_endpoint each_alert
run-two n send e e' x x' id code code' a act act' order wait sub sub' first second =
    let o = shared (e, x) (e', x') id a in
    let one = record_attempt e budget id code (called e budget id (begin o)) in
    let limit = current_webhook_max_attempts n in
    let d₁ =
      deliver-tried limit send e x id code a (begin o) refl sub
        (unfold count_webhook_delivery_attempts in ground arith) (first []) in
    let d₂ =
      deliver-tried limit send e' x' id code' a one (unfold record_attempt in refl) sub'
        (unfold record_attempt count_webhook_delivery_attempts in ground (arith, order))
        (second one.outboxes.attempts) in
    let le : e ≤ e' = omega (arith, order) in
    let quiet = none-listed (e, x) (e', x') id a in
    rw
      (
        listed-two (e, x) (e', x') act act' le,
        pending-listed (e, x) (e', x') id a wait,
        quiet approval refl,
        quiet mcp refl,
        quiet anomaly refl,
        quiet siem refl,
        d₁,
        d₂,
      )
      refl

-- Where two active endpoints subscribe to the one budget alert that waits, and the first answers with
-- no success whenever it is asked while the second answers with success, the run ends with one attempt
-- at the first, and the alert is not among those that a later run takes up.
pub second-hides_first :
    (n : ℕ) (send : Sender) (e e' : ℕ) (x x' : Endpoint) (id code code' : ℕ) (a : Alert)
    → x.is_active ≡ true
    → x'.is_active ≡ true
    → e < e'
    → a.status ≡ pending
    → subscribed x.subscribed_events a.event_type ≡ true
    → subscribed x'.subscribed_events a.event_type ≡ true
    → ((rows : List Attempt) → send rows e budget id ≡ some code)
    → ((rows : List Attempt) → send rows e' budget id ≡ some code')
    → success code ≡ false
    → success code' ≡ true
    → let after = (dispatch_webhooks_once n send (shared (e, x) (e', x') id a)).outboxes in
      (count_webhook_delivery_attempts budget id e after.attempts ≡ 1)
      × (retryable_alerts after budget ≡ [])
unfolding record_attempt count_webhook_delivery_attempts retryable_alerts adjust
second-hides_first n send e e' x x' id code code' a act act' order wait sub sub' first second bad
      good =
    let run = run-two n send e e' x x' id code code' a act act' order wait sub sub' first second in
    rw (run, bad, good) (ground (arith, order), ground (arith, ==-refl id))
