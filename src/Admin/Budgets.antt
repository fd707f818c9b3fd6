-- ===== src/Admin/Budgets.antt =====
-- app/api/budgets.py: the budgets that an operator sets and reads. The body has passed its
-- validation; the details of the alerts are left out as in their table.
use Prim.Native.String.{String}
use safe4_arc_demo.Prelude.{ℕ, none, some, [], ◌∷◌}
use safe4_arc_demo.Dict.{Dict}
use safe4_arc_demo.Store.Value.{text, opaque_text}
use safe4_arc_demo.Store.Audit.{AuditEvent}
use safe4_arc_demo.Store.Budget.{
  Budget, upsert_budget, upsert_agent_budget, list_budgets, list_agent_budgets,
}
use safe4_arc_demo.Store.BudgetAlert.{EntityType, user, agent, enqueue_budget_alerts}
use safe4_arc_demo.Payment.State.{Config, Server}
use safe4_arc_demo.Payment.Flow.{write_audit_entry}
use safe4_arc_demo.Admin.{AdminCall, admin_event}

-- `BudgetUpdateRequest` and `AgentBudgetUpdateRequest`, with the day of the call.
pub record BudgetUpdateRequest : Type 0 where
  pub entity_id : ℕ
  pub budget : Budget
  pub today : ℕ

abbrev upsert_event :
    Config → AdminCall → String → String → String → BudgetUpdateRequest → AuditEvent
upsert_event c a action path key u =
    record (admin_event c a action path ((key, opaque_text u.entity_id) ∷ []) "updated" none
      (("status", text "updated") ∷ [])) { transaction_amount = some u.budget.transaction_cap }

abbrev alerted : Config → AdminCall → EntityType → BudgetUpdateRequest → Budget → Server → Server
alerted c a kind u b s = record s {
  budget_alerts =
      enqueue_budget_alerts a.now u.today kind u.entity_id b c.budget_alert_thresholds
        s.budget_alerts;
}

unfoldable pub set_budget : Config → AdminCall → BudgetUpdateRequest → Server → Budget × Server
unfolding write_audit_entry
set_budget c a u s =
    let (b, rows) =
      upsert_budget u.today u.entity_id u.budget.daily_cap u.budget.transaction_cap
        u.budget.spent_today s.budgets in
    let event = upsert_event c a "budget_upsert" "/budgets" "user_id" u in
    (b, alerted c a user u b (write_audit_entry c event (record s { budgets = rows })))

unfoldable pub set_agent_budget :
    Config → AdminCall → BudgetUpdateRequest → Server → Budget × Server
unfolding write_audit_entry
set_agent_budget c a u s =
    let (b, rows) =
      upsert_agent_budget u.today u.entity_id u.budget.daily_cap u.budget.transaction_cap
        u.budget.spent_today s.agent_budgets in
    let event = upsert_event c a "agent_budget_upsert" "/budgets/agents" "agent_id" u in
    (b, alerted c a agent u b (write_audit_entry c event (record s { agent_budgets = rows })))

unfoldable pub get_budgets : ℕ → Server → Dict Budget × Server
get_budgets today s =
    let (listed, rows) = list_budgets today s.budgets in (listed, record s { budgets = rows })

unfoldable pub get_agent_budgets : ℕ → Server → Dict Budget × Server
get_agent_budgets today s =
    let (listed, rows) = list_agent_budgets today s.agent_budgets in
    (listed, record s { agent_budgets = rows })
