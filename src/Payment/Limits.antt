-- ===== src/Payment/Limits.antt =====
-- The limits of app/main.py (`authorize_payment`): the budget and the caps of the agent, the
-- velocity limit, the budget, the scope and the caps of the user, and the intent evaluator. The
-- tool's server and name are what the policy on tools has found.
pub mod Frame
pub mod Passing
pub mod Race
use Prim.Native.String.{String}
use safe4_arc_demo.Prelude.{
  ℕ, ◌-◌, Option, none, some, Bool, true, false, [], ◌∷◌, ltb, leb, if◌then◌else◌, not, is_some,
}
use safe4_arc_demo.Money.{add_money}
use safe4_arc_demo.Intent.{IntentDecision, evaluate_payment_intent}
use safe4_arc_demo.Store.Value.{Details, number}
use safe4_arc_demo.Store.Budget.{Budget, get_budget, get_agent_budget}
use safe4_arc_demo.Store.Log.{count_recent_transaction_events}
use safe4_arc_demo.Payment.State.{
  Payment, ScopeOfAutonomy, Request, Config, Response, Server, Outcome, next, respond,
}
use safe4_arc_demo.Payment.Flow.{Denial, deny_payment}

-- What the earlier stages have found: the receipt, and the tool's server and name.
pub record Found : Type 0 where
  pub receipt_id : Option ℕ
  pub mcp_server_id : Option ℕ
  pub mcp_tool_name : Option ℕ

unfoldable pub refuse : {A : Type 0} → Config → Request → Denial → Server → Outcome A × Server
refuse c r d s = let (answer, s') = deny_payment c r d s in (respond answer, s')

-- A refusal that is logged and audited for one reason and uses up the receipt.
abbrev logged_denial : ℕ → String → String → String → Option ℕ → Details → Denial
logged_denial status code metric reason receipt details = record {
  status_code = status;
  error_code = code;
  metric_name = some metric;
  append_log_reason = some reason;
  mark_receipt_id = receipt;
  audit_reason = some reason;
  extra_audit_details = details;
  mcp_server_id = none;
  mcp_tool_id = none;
  mcp_tool_name = none;
}

abbrev with_tool : Request → Found → Denial → Denial
with_tool r f d = record d {
  mcp_server_id = f.mcp_server_id;
  mcp_tool_id = r.payment.mcp_tool_id;
  mcp_tool_name = f.mcp_tool_name;
}

-- A refusal that is audited only, and keeps the receipt.
abbrev pub audited_denial : String → Option String → String → Denial
audited_denial code metric reason = record {
  status_code = 403;
  error_code = code;
  metric_name = metric;
  append_log_reason = none;
  mark_receipt_id = none;
  audit_reason = some reason;
  extra_audit_details = [];
  mcp_server_id = none;
  mcp_tool_id = none;
  mcp_tool_name = none;
}

abbrev pub max_cost : Option ScopeOfAutonomy → Option ℕ
max_cost none = none
max_cost (some scope) = scope.max_cost

-- `projected_scope_total > max_cost`, where there is one.
abbrev pub exceeds : ℕ → Option ℕ → Bool
exceeds total none = false
exceeds total (some bound) = ltb bound total

abbrev pub recent_event_count : Config → Request → Server → ℕ
recent_event_count c r s =
    count_recent_transaction_events r.payment.agent_id r.payment.user_id (r.now - c.velocity_window)
      s.events

abbrev pub evaluate_intent : Config → Payment → IntentDecision
evaluate_intent c p =
    evaluate_payment_intent c.unicode p.description p.intent c.min_description_words

-- The tests on the agent's budget, and the velocity limit.
unfoldable pub check_agent : Config → Request → Found → Option Budget → Server → Outcome ℕ × Server
unfolding refuse
check_agent c r f none s =
    refuse c r
      (audited_denial "AGENT_BUDGET_NOT_FOUND" (some "payment_denied_agent_budget_missing_total")
        "No budget configured for agent.")
      s
check_agent c r f (some b) s =
    let total = add_money b.spent_today r.payment.amount in
    let recent = recent_event_count c r s in
    if ltb b.transaction_cap r.payment.amount
    then refuse c r
        (logged_denial 403 "AGENT_TRANSACTION_CAP_EXCEEDED"
          "payment_denied_agent_transaction_cap_total"
          "Transaction exceeds agent per-transaction cap." f.receipt_id [])
        s
    else if ltb b.daily_cap total
    then refuse c r
        (logged_denial 403 "AGENT_DAILY_CAP_EXCEEDED" "payment_denied_agent_daily_cap_total"
          "Transaction exceeds agent daily budget." f.receipt_id [])
        s
    else if leb c.velocity_limit recent
    then refuse c r
        (logged_denial 429 "VELOCITY_LIMIT_EXCEEDED" "payment_denied_velocity_total"
          "Transaction exceeds velocity policy for this agent and user." f.receipt_id
          (("recent_event_count", number recent) ∷ []))
        s
    else (next total, s)

-- The tests on the user's budget, and the intent.
unfoldable pub check_user : Config → Request → Found → Option Budget → Server → Outcome ℕ × Server
unfolding refuse
check_user c r f none s =
    refuse c r
      (with_tool r f (
        logged_denial 403 "BUDGET_NOT_FOUND" "payment_denied_budget_missing_total"
          "No budget configured for user." f.receipt_id []))
      s
check_user c r f (some b) s =
    let total = add_money b.spent_today r.payment.amount in
    let intent = evaluate_intent c r.payment in
    if exceeds total (max_cost r.payment.scope_of_autonomy)
    then refuse c r
        (with_tool r f (
          audited_denial "SCOPE_OF_AUTONOMY_MAX_COST_EXCEEDED" none
            "The requested amount exceeds the presented ScopeOfAutonomy max_cost."))
        s
    else if ltb b.transaction_cap r.payment.amount
    then refuse c r
        (with_tool r f (
          logged_denial 403 "TRANSACTION_CAP_EXCEEDED" "payment_denied_transaction_cap_total"
            "Transaction exceeds per-transaction cap." f.receipt_id []))
        s
    else if ltb b.daily_cap total
    then refuse c r
        (with_tool r f (
          logged_denial 403 "DAILY_CAP_EXCEEDED" "payment_denied_daily_cap_total"
            "Transaction exceeds daily budget." f.receipt_id []))
        s
    else if not intent.allowed
    then refuse c r
        (with_tool r f (
          logged_denial 403 "INTENT_VERIFICATION_FAILED" "payment_denied_intent_total"
            (c.intent_reason intent.reason_code) f.receipt_id []))
        s
    else (next total, s)

-- The totals that finalization will store.
pub record Totals : Type 0 where
  pub projected_total : ℕ
  pub projected_agent_total : ℕ

unfoldable pub pair_totals : ℕ → Outcome ℕ × Server → Outcome Totals × Server
pair_totals agent_total (next total, s) =
    (next (record { projected_total = total; projected_agent_total = agent_total }), s)
pair_totals agent_total (respond answer, s) = (respond answer, s)

unfoldable pub check_user_next :
    Config → Request → Found → Outcome ℕ × Server → Outcome Totals × Server
unfolding check_user pair_totals
check_user_next c r f (respond answer, s) = (respond answer, s)
check_user_next c r f (next agent_total, s) =
    let (budget, budgets') = get_budget r.today r.payment.user_id s.budgets in
    pair_totals agent_total (check_user c r f budget (record s { budgets = budgets' }))

unfoldable pub check_limits : Config → Request → Found → Server → Outcome Totals × Server
unfolding check_agent check_user_next
check_limits c r f s =
    let (budget, agent_budgets') = get_agent_budget r.today r.payment.agent_id s.agent_budgets in
    check_user_next c r f (check_agent c r f budget (record s { agent_budgets = agent_budgets' }))
