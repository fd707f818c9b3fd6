-- ===== src/Store/Budget.antt =====
-- app/storage.py: the tables `budgets` and `agent_budgets`. Their methods are alike, so the
-- agents' are the users' on the other table.
pub mod Laws
use safe4_arc_demo.Prelude.{ℕ, Option, none, some, List, [], ◌∷◌, ◌==◌, if◌then◌else◌}
use safe4_arc_demo.Dict.{Dict, lookup, insert, adjust}

pub record BudgetRow : Type 0 where
  pub daily_cap : ℕ
  pub transaction_cap : ℕ
  pub spent_today : ℕ
  pub spent_date : ℕ

pub record Budget : Type 0 where
  pub daily_cap : ℕ
  pub transaction_cap : ℕ
  pub spent_today : ℕ

-- `spent_today`, or zero if the row was last written on another day.
unfoldable pub current_spent : ℕ → BudgetRow → ℕ
current_spent today row = if row.spent_date == today then row.spent_today else 0

-- The row after a read: the roll-over to a new day is written back.
unfoldable pub rolled_over : ℕ → BudgetRow → BudgetRow
rolled_over today row =
    if row.spent_date == today then row else record row { spent_today = 0; spent_date = today }

unfoldable pub snapshot : ℕ → BudgetRow → Budget
unfolding current_spent
snapshot today row = record {
  daily_cap = row.daily_cap;
  transaction_cap = row.transaction_cap;
  spent_today = current_spent today row;
}

unfoldable pub get_budget : ℕ → ℕ → Dict BudgetRow → Option Budget × Dict BudgetRow
unfolding snapshot rolled_over
get_budget today user_id rows = elim (lookup user_id rows) [
  | none ↦ (none, rows)
  | some row ↦ (some (snapshot today row), adjust user_id (rolled_over today) rows)
]

-- The dict of all budgets, and the table with every row rolled over.
unfoldable pub list_budgets : ℕ → Dict BudgetRow → Dict Budget × Dict BudgetRow
unfolding snapshot rolled_over
list_budgets today [] = ([], [])
list_budgets today ((k, row) ∷ rows) =
    let (budgets, rolled) = list_budgets today rows in
    ((k, snapshot today row) ∷ budgets, (k, rolled_over today row) ∷ rolled)

unfoldable pub upsert_budget : ℕ → ℕ → ℕ → ℕ → ℕ → Dict BudgetRow → Budget × Dict BudgetRow
upsert_budget today user_id daily_cap transaction_cap spent_today rows = (
  record { daily_cap = daily_cap; transaction_cap = transaction_cap; spent_today = spent_today },
  insert user_id
      (record {
        daily_cap = daily_cap;
        transaction_cap = transaction_cap;
        spent_today = spent_today;
        spent_date = today;
      })
      rows,
)

-- The row that `UPDATE … SET spent_today, spent_date` leaves.
abbrev pub spend : ℕ → ℕ → BudgetRow → BudgetRow
spend today spent_today row = record row { spent_today = spent_today; spent_date = today }

-- `none` is the `KeyError` for a missing row.
unfoldable pub update_spent_today : ℕ → ℕ → ℕ → Dict BudgetRow → Option Budget × Dict BudgetRow
unfolding get_budget
update_spent_today today user_id spent_today rows =
    get_budget today user_id (adjust user_id (spend today spent_today) rows)

unfoldable pub get_agent_budget : ℕ → ℕ → Dict BudgetRow → Option Budget × Dict BudgetRow
unfolding get_budget
get_agent_budget = get_budget

unfoldable pub list_agent_budgets : ℕ → Dict BudgetRow → Dict Budget × Dict BudgetRow
unfolding list_budgets
list_agent_budgets = list_budgets

unfoldable pub upsert_agent_budget : ℕ → ℕ → ℕ → ℕ → ℕ → Dict BudgetRow → Budget × Dict BudgetRow
unfolding upsert_budget
upsert_agent_budget = upsert_budget

unfoldable pub update_agent_spent_today :
    ℕ → ℕ → ℕ → Dict BudgetRow → Option Budget × Dict BudgetRow
unfolding update_spent_today
update_agent_spent_today = update_spent_today
