-- ===== src/Store/BudgetAlert.antt =====
-- app/storage.py: `enqueue_budget_alerts` on the table `budget_alert_outbox`. Of a row stand here
-- the columns of its `event_key`, its amounts and its status.
pub mod Once
use Prim.Native.String.{String}
use safe4_arc_demo.Prelude.{
  ℕ, ◌*◌, ◌-◌, Option, none, Bool, true, false, List, [], ◌∷◌, ◌++◌, ◌==◌, ltb, leb, if◌then◌else◌,
  ◌&&◌, ◌||◌,
}
use safe4_arc_demo.Money.{unit_scale}
use safe4_arc_demo.Store.Budget.{Budget}

pub data EntityType : Type 0 where
  user agent : EntityType

abbrev same_entity : EntityType → EntityType → Bool
same_entity user user = true
same_entity agent agent = true
same_entity _ _ = false

pub data AlertStatus : Type 0 where
  pending acknowledged delivered : AlertStatus

pub record BudgetAlert : Type 0 where
  pub entity_type : EntityType
  pub entity_id : ℕ
  pub spent_date : ℕ
  pub threshold_ratio : ℕ
  pub spent_today : ℕ
  pub daily_cap : ℕ
  pub remaining_budget : ℕ
  pub status : AlertStatus
  pub acknowledged_at : Option ℕ
  pub created_at : ℕ

-- Equality of the event keys.
abbrev pub same_key : BudgetAlert → BudgetAlert → Bool
same_key a b =
    same_entity a.entity_type b.entity_type
    && ((a.entity_id == b.entity_id)
        && ((a.spent_date == b.spent_date) && (a.threshold_ratio == b.threshold_ratio)))

unfoldable pub queued : BudgetAlert → List BudgetAlert → Bool
queued a [] = false
queued a (b ∷ bs) = same_key a b || queued a bs

-- `INSERT … ON CONFLICT(event_key) DO NOTHING`
unfoldable pub enqueue : BudgetAlert → List BudgetAlert → List BudgetAlert
unfolding queued
enqueue a rows = if queued a rows then rows else rows ++ a ∷ []

-- `consumed_ratio < threshold`, both sides times the cap.
abbrev pub below : Budget → ℕ → Bool
below b threshold = ltb (b.spent_today * unit_scale) (threshold * b.daily_cap)

abbrev pub alert_for : ℕ → ℕ → EntityType → ℕ → Budget → ℕ → BudgetAlert
alert_for now today kind id b threshold = record {
  entity_type = kind;
  entity_id = id;
  spent_date = today;
  threshold_ratio = threshold;
  spent_today = b.spent_today;
  daily_cap = b.daily_cap;
  remaining_budget = b.daily_cap - b.spent_today;
  status = pending;
  acknowledged_at = none;
  created_at = now;
}

-- The loop over the thresholds.
unfoldable pub enqueue_reached :
    ℕ → ℕ → EntityType → ℕ → Budget → List ℕ → List BudgetAlert → List BudgetAlert
unfolding enqueue
enqueue_reached now today kind id b [] rows = rows
enqueue_reached now today kind id b (t ∷ ts) rows =
    enqueue_reached now today kind id b ts
      (if below b t then rows else enqueue (alert_for now today kind id b t) rows)

unfoldable pub enqueue_budget_alerts :
    ℕ → ℕ → EntityType → ℕ → Budget → List ℕ → List BudgetAlert → List BudgetAlert
unfolding enqueue_reached
enqueue_budget_alerts now today kind id b thresholds rows =
    if leb b.daily_cap 0 then rows else enqueue_reached now today kind id b thresholds rows
