-- ===== src/Webhooks/Attempts.antt =====
-- How often the dispatcher tries.
use safe4_arc_demo.Prelude.{
  ℕ, ◌+◌, ◌≤◌, ◌<◌, ◌≡◌, ◌⊎◌, refl, sym, ap, ◌∙◌, max, Option, none, some, Bool, true, false, List,
  [], ◌∷◌, leb, if◌then◌else◌, arith, inl, inr, Bool-cases, count_if, count_if-append, ◌||◌, not,
  ◌==◌, ◌&&◌,
}
use safe4_arc_demo.Dict.{Dict}
use safe4_arc_demo.Webhooks.{
  AlertSource, budget, approval, mcp, anomaly, siem, same_source, Alert, Attempt, Endpoint,
  Outboxes, Sender, Sending, is_sending, called, Run, about, count_webhook_delivery_attempts,
  record_attempt, attempted, subscribed, deliver, each_alert, each_endpoint, retryable_alerts,
  begin, list_webhook_endpoints, current_webhook_max_attempts, dispatch_webhooks_once, Cycle,
  dispatch_cycles,
}

-- What every delivery keeps, the whole run keeps.
module _ (limit : ℕ) (send : Sender) (P : Run → Type 0)
    (step : (e : ℕ × Endpoint) (source : AlertSource) (a : ℕ × Alert) (run : Run)
      → P run
      → P (deliver limit send e source a run)) where
  alerts-keep :
      (e : ℕ × Endpoint) (source : AlertSource) (listed : Dict Alert) (run : Run)
      → P run
      → P (each_alert limit send e source listed run)
  unfolding each_alert
  alerts-keep e source [] run h = h
  alerts-keep e source (a ∷ rest) run h = alerts-keep e source rest _ (step e source a run h)

  pub endpoints-keep :
      (es : Dict Endpoint) (listed : AlertSource → Dict Alert) (run : Run)
      → P run
      → P (each_endpoint limit send es listed run)
  unfolding each_endpoint
  endpoints-keep [] listed run h = h
  endpoints-keep (e ∷ es) listed run h = endpoints-keep es listed _ (
      alerts-keep e siem (listed siem) _ (
        alerts-keep e anomaly (listed anomaly) _ (
          alerts-keep e mcp (listed mcp) _ (
            alerts-keep e approval (listed approval) _
              (alerts-keep e budget (listed budget) run h)))))

-- The attempts on one alert at one endpoint that are stored, and the calls for it in the run.
abbrev tried : AlertSource → ℕ → ℕ → Run → ℕ
tried source id endpoint run =
    count_webhook_delivery_attempts source id endpoint run.outboxes.attempts

abbrev pub calls : AlertSource → ℕ → ℕ → List Sending → ℕ
calls source id endpoint sent = count_if (is_sending source id endpoint) sent

abbrev one_if : Bool → ℕ
one_if b = if b then 1 else 0

-- Every call but one that raises is stored, and with those before they are within the limit.
pub record Within (limit before : ℕ) (source : AlertSource) (id endpoint : ℕ) (run : Run)
    : Type 0 where
  pub kept : before ≤ tried source id endpoint run
  pub stored : tried source id endpoint run ≤ before + calls source id endpoint run.sent
  pub known :
      before + calls source id endpoint run.sent ≤ tried source id endpoint run + one_if run.raised
  pub bounded : before + calls source id endpoint run.sent ≤ max limit before

same_source→≡ : (s t : AlertSource) → same_source s t ≡ true → s ≡ t
same_source→≡ s t h = ground (arith, h)

module _ (source : AlertSource) (id endpoint : ℕ) where
  -- One, where the attempt or the call is for the alert and the endpoint.
  abbrev one_for : AlertSource → ℕ → ℕ → ℕ
  one_for s i e = one_if (same_source s source && ((i == id) && (e == endpoint)))

  tried-record :
      (e : ℕ) (s : AlertSource) (i code : ℕ) (run : Run)
      → tried source id endpoint (record_attempt e s i code run)
        ≡ tried source id endpoint run + one_for s i e
  unfolding count_webhook_delivery_attempts record_attempt
  tried-record e s i code run =
      count_if-append (about source id endpoint) run.outboxes.attempts _ ∙ (omega arith)

  calls-called :
      (e : ℕ) (s : AlertSource) (i : ℕ) (run : Run)
      → calls source id endpoint (called e s i run).sent
        ≡ calls source id endpoint run.sent + one_for s i e
  calls-called e s i run =
      count_if-append (is_sending source id endpoint) run.sent _ ∙ (omega arith)

  -- Where there is room for the alert that is sent, there is room for one more of this one.
  room-for :
      (limit e : ℕ) (s : AlertSource) (i : ℕ) (run : Run)
      → leb limit (tried s i e run) ≡ false
      → (one_for s i e ≡ 0) ⊎ ((one_for s i e ≡ 1) × (tried source id endpoint run < limit))
  room-for limit e s i run room =
      elim (Bool-cases (same_source s source && ((i == id) && (e == endpoint)))) [
        | inl same ↦
            let s_same : s ≡ source = same_source→≡ s source (ground (arith, same)) in
            let i_same : i ≡ id = ground (arith, same) in
            let e_same : e ≡ endpoint = ground (arith, same) in
            let same_pair : tried s i e run ≡ tried source id endpoint run =
              cc (s_same, i_same, e_same) in
            inr (rw same refl, rw (sym same_pair) (ground (arith, room)))
        | inr other ↦ inl (rw other refl)
      ]

  -- A step that makes `n` calls and stores `m` of them.
  step-Within :
      (limit before n m : ℕ) (run run' : Run)
      → calls source id endpoint run'.sent ≡ calls source id endpoint run.sent + n
      → tried source id endpoint run' ≡ tried source id endpoint run + m
      → m ≤ n
      → n ≤ m + one_if run'.raised
      → one_if run.raised ≡ 0
      → (n ≡ 0) ⊎ ((n ≡ 1) × (tried source id endpoint run < limit))
      → Within limit before source id endpoint run
      → Within limit before source id endpoint run'
  step-Within limit before n m run run' sent rows le ge calm room h = record {
    kept = omega (arith, rows, h.kept);
    stored = omega (arith, sent, rows, le, h.stored);
    known = omega (arith, sent, rows, ge, calm, h.known);
    bounded = elim room [
      | inl zero ↦ omega (arith, sent, zero, h.bounded)
      | inr one ↦ omega (arith, sent, one.0, one.1, calm, h.known)
    ];
  }

  one_for-le : (s : AlertSource) (i e : ℕ) → one_for s i e ≤ 1
  one_for-le s i e = ground arith

  attempted-Within :
      (limit before e : ℕ) (s : AlertSource) (i : ℕ) (o : Option ℕ) (run : Run)
      → run.raised ≡ false
      → leb limit (tried s i e run) ≡ false
      → Within limit before source id endpoint run
      → Within limit before source id endpoint (attempted e s i o run)
  unfolding record_attempt
  attempted-Within limit before e s i none run calm room h =
      step-Within limit before (one_for s i e) 0 run _ (calls-called e s i run) (omega arith)
        (omega arith) (one_for-le s i e) (ap one_if calm) (room-for limit e s i run room) h
  attempted-Within limit before e s i (some code) run calm room h =
      step-Within limit before (one_for s i e) (one_for s i e) run _ (calls-called e s i run)
        (tried-record e s i code (called e s i run)) (omega arith) (omega arith) (ap one_if calm)
        (room-for limit e s i run room) h

  deliver-Within :
      (limit before : ℕ) (send : Sender) (e : ℕ × Endpoint) (s : AlertSource) (a : ℕ × Alert)
      (run : Run)
      → Within limit before source id endpoint run
      → Within limit before source id endpoint (deliver limit send e s a run)
  unfolding deliver
  deliver-Within limit before send (e, x) s (i, a) run h =
      elim (Bool-cases (run.raised || not (subscribed x.subscribed_events a.event_type))) [
        | inl stop ↦ rw stop h
        | inr go ↦ elim (Bool-cases (leb limit (tried s i e run))) [
          | inl full ↦
              rw (go, full)
                (record { kept = h.kept; stored = h.stored; known = h.known; bounded = h.bounded })
          | inr room ↦
              rw (go, room)
                (attempted-Within limit before e s i (send run.outboxes.attempts e s i) run
                  (ground (arith, go)) room h)
        ]
      ]

  run-Within :
      (max_attempts : ℕ) (send : Sender) (o : Outboxes)
      → Within
          (max 1 max_attempts)
          (count_webhook_delivery_attempts source id endpoint o.attempts)
          source
          id
          endpoint
          (dispatch_webhooks_once max_attempts send o)
  unfolding dispatch_webhooks_once
  run-Within n send o =
      let limit = current_webhook_max_attempts n in
      let before = count_webhook_delivery_attempts source id endpoint o.attempts in
      endpoints-keep limit send (Within limit before source id endpoint)
        (deliver-Within limit before send) (list_webhook_endpoints true o.endpoints)
        (retryable_alerts o) (begin o)
        (record {
          kept = omega arith;
          stored = omega arith;
          known = omega arith;
          bounded = omega arith;
        })

  -- Over any runs of the dispatcher one after another, between which endpoints and alerts may change
  -- in any way, and whatever the endpoints answer: no stored attempt on an alert at an endpoint is
  -- lost, and those stored at the end are those before and the calls made since, up to one for each
  -- run that raised an exception; and the calls bring them to no more than the configured number, or
  -- one where that is zero, or their number before if it is larger, and one more for each such run.
  pub dispatch-within_limit :
      (max_attempts : ℕ) (cycles : List Cycle) (rows : List Attempt)
      → let before = count_webhook_delivery_attempts source id endpoint rows in
        let end = dispatch_cycles max_attempts cycles rows in
        let after = count_webhook_delivery_attempts source id endpoint end.attempts in
        let made = calls source id endpoint end.sent in
        (before ≤ after)
        × (after ≤ before + made)
        × (before + made ≤ after + end.raised)
        × (before + made ≤ max (max 1 max_attempts) before + end.raised)
  unfolding dispatch_cycles
  dispatch-within_limit n [] rows = (omega arith, omega arith, omega arith, omega arith)
  dispatch-within_limit n (c ∷ cs) rows =
      let o : Outboxes = record { endpoints = c.endpoints; alerts = c.alerts; attempts = rows } in
      let run = dispatch_webhooks_once n c.sender o in
      let w = run-Within n c.sender o in
      let rest = dispatch_cycles n cs run.outboxes.attempts in
      let all = count_if-append (is_sending source id endpoint) run.sent rest.sent in
      let (kept, stored, known, bounded) = dispatch-within_limit n cs run.outboxes.attempts in
      (
        omega (arith, w.kept, kept),
        omega (arith, all, w.stored, stored),
        omega (arith, all, w.known, known),
        omega (arith, all, w.kept, w.known, w.bounded, stored, known, bounded),
      )
