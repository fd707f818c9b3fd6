-- ===== src/Store/BudgetAlert/Once.antt =====
-- A budget alert is queued once for each entity, day and threshold.
use safe4_arc_demo.Prelude.{ℕ, ◌≡◌, false, List, [], ◌∷◌, ◌++◌, arith, ◌||◌, Bool-cases, inl, inr}
use safe4_arc_demo.Store.Budget.{Budget}
use safe4_arc_demo.Store.BudgetAlert.{
  EntityType, BudgetAlert, same_key, queued, enqueue, below, alert_for, enqueue_reached,
  enqueue_budget_alerts,
}

-- No two rows have the same event key.
abbrev pub Distinct : List BudgetAlert → Type 0
Distinct [] = Unit
Distinct (a ∷ as') = (queued a as' ≡ false) × Distinct as'

same_key-sym : (a b : BudgetAlert) → same_key a b ≡ same_key b a
same_key-sym a b = ground arith

queued-append :
    (a b : BudgetAlert) (rows : List BudgetAlert)
    → queued a (rows ++ b ∷ []) ≡ (queued a rows || same_key a b)
unfolding queued
queued-append a b [] = ground arith
queued-append a b (c ∷ cs) = ground (arith, queued-append a b cs)

Distinct-append :
    (a : BudgetAlert) (rows : List BudgetAlert)
    → Distinct rows
    → queued a rows ≡ false
    → Distinct (rows ++ a ∷ [])
unfolding queued
Distinct-append a [] d h = ground arith
Distinct-append a (b ∷ bs) d h =
    ground (arith, Distinct-append a bs d.1, queued-append b a bs, same_key-sym a b)

enqueue-Distinct :
    (a : BudgetAlert) (rows : List BudgetAlert) → Distinct rows → Distinct (enqueue a rows)
unfolding enqueue
enqueue-Distinct a rows d = elim (Bool-cases (queued a rows)) [
  | inl e ↦ rw e d
  | inr e ↦ rw e (Distinct-append a rows d e)
]

enqueue_reached-Distinct :
    (now today : ℕ) (kind : EntityType) (id : ℕ) (b : Budget) (ts : List ℕ)
    (rows : List BudgetAlert)
    → Distinct rows
    → Distinct (enqueue_reached now today kind id b ts rows)
unfolding enqueue_reached
enqueue_reached-Distinct now today kind id b [] rows d = d
enqueue_reached-Distinct now today kind id b (t ∷ ts) rows d = elim (Bool-cases (below b t)) [
  | inl e ↦ rw e (enqueue_reached-Distinct now today kind id b ts rows d)
  | inr e ↦ rw e (
      enqueue_reached-Distinct now today kind id b ts
        (enqueue (alert_for now today kind id b t) rows)
        (enqueue-Distinct (alert_for now today kind id b t) rows d))
]

-- If no two queued alerts are for the same entity, day and threshold, none are after the alerts of
-- one more payment, whatever the thresholds, also if one of them is listed twice.
enqueue_budget_alerts-Distinct :
    (now today : ℕ) (kind : EntityType) (id : ℕ) (b : Budget) (thresholds : List ℕ)
    (rows : List BudgetAlert)
    → Distinct rows
    → Distinct (enqueue_budget_alerts now today kind id b thresholds rows)
unfolding enqueue_budget_alerts
enqueue_budget_alerts-Distinct now today kind id b thresholds rows d =
    ground (arith, enqueue_reached-Distinct now today kind id b thresholds rows d)
