-- ===== src/Witnesses/Delivery.antt =====
-- The theorems on the dispatcher of webhooks, for one alert and two endpoints.
use safe4_arc_demo.Prelude.{
  ◌+◌, ◌≤◌, ◌≡◌, refl, max, none, some, true, List, [], ◌∷◌, ◌==◌, if◌then◌else◌, arith,
}
use safe4_arc_demo.Webhooks.{
  budget, budget_alert, pending, Alert, Endpoint, Outboxes, Sender, count_webhook_delivery_attempts,
  retryable_alerts, dispatch_webhooks_once, Cycle, dispatch_cycles,
}
use safe4_arc_demo.Webhooks.Attempts.{calls, dispatch-within_limit}
use safe4_arc_demo.Webhooks.Lost.{shared, second-hides_first}

abbrev endpoint : Endpoint
endpoint = record {
  target_url = 9;
  subscribed_events = budget_alert ∷ [];
  shared_secret = none;
  is_active = true;
}

abbrev alert : Alert
alert = record { event_type = budget_alert; status = pending }

abbrev outboxes : Outboxes
outboxes = shared (1, endpoint) (2, endpoint) 4 alert

-- The first endpoint fails, the second does not.
abbrev send : Sender
send rows e source id = if e == 1 then some 500 else some 200

-- A run in which the first endpoint cannot be reached, and one in which it fails.
abbrev unreachable : Sender
unreachable rows e source id = if e == 1 then none else some 200

abbrev found_by : Sender → Cycle
found_by sender = record {
  sender = sender;
  endpoints = outboxes.endpoints;
  alerts = outboxes.alerts;
}

abbrev two_cycles : List Cycle
two_cycles = found_by unreachable ∷ found_by send ∷ []

dispatch-within_limit_example :
    let end = dispatch_cycles 3 two_cycles [] in
    let after = count_webhook_delivery_attempts budget 4 1 end.attempts in
    let made = calls budget 4 1 end.sent in
    (count_webhook_delivery_attempts budget 4 1 [] ≤ after)
    × (after ≤ count_webhook_delivery_attempts budget 4 1 [] + made)
    × (count_webhook_delivery_attempts budget 4 1 [] + made ≤ after + end.raised)
    × (count_webhook_delivery_attempts budget 4 1 [] + made
        ≤ max (max 1 3) (count_webhook_delivery_attempts budget 4 1 []) + end.raised)
dispatch-within_limit_example = dispatch-within_limit budget 4 1 3 two_cycles []

-- Two calls are made, and one is stored.
calls_test :
    (calls budget 4 1 (dispatch_cycles 3 two_cycles []).sent ≡ 2)
    × (count_webhook_delivery_attempts budget 4 1 (dispatch_cycles 3 two_cycles []).attempts ≡ 1)
unfolding dispatch_cycles count_webhook_delivery_attempts
calls_test = (refl, refl)

second-hides_first_example :
    let after = (dispatch_webhooks_once 3 send outboxes).outboxes in
    (count_webhook_delivery_attempts budget 4 1 after.attempts ≡ 1)
    × (retryable_alerts after budget ≡ [])
second-hides_first_example =
    second-hides_first 3 send 1 2 endpoint endpoint 4 500 200 alert refl refl (ground arith) refl
      refl refl (λ _. refl) (λ _. refl) refl refl
