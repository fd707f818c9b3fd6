-- ===== src/Store/Budget/Laws.antt =====
-- The budgets as a client sees them: what a read returns after each write, and the day's roll-over.
use safe4_arc_demo.Prelude.{ℕ, ◌≡◌, refl, Option, none, some, [], ◌∷◌, arith, ◌==◌, if◌then◌else◌}
use safe4_arc_demo.Dict.{Dict, lookup, lookup-insert, insert, adjust, lookup-adjust, map_option}
use safe4_arc_demo.Store.Budget.{
  BudgetRow, Budget, snapshot, rolled_over, get_budget, list_budgets, upsert_budget,
  update_spent_today, spend,
}

-- What a read returns, without its write.
abbrev pub view : ℕ → ℕ → Dict BudgetRow → Option Budget
view today k rows = (get_budget today k rows).0

abbrev pub after_read : ℕ → ℕ → Dict BudgetRow → Dict BudgetRow
after_read today k rows = (get_budget today k rows).1

abbrev pub spent_as : ℕ → Budget → Budget
spent_as spent b = record b { spent_today = spent }

pub lookup-get_budget :
    (today k j : ℕ) (rows : Dict BudgetRow)
    → lookup j (after_read today k rows)
      ≡ (if k == j then map_option (rolled_over today) (lookup j rows) else lookup j rows)
unfolding get_budget
lookup-get_budget today k j rows = ground (arith, lookup-adjust k j (rolled_over today) rows)

abbrev view_of : ℕ → Option BudgetRow → Option Budget
view_of today none = none
view_of today (some row) = some (snapshot today row)

pub view_lem :
    (today k : ℕ) (rows : Dict BudgetRow) → view today k rows ≡ view_of today (lookup k rows)
unfolding get_budget
view_lem today k rows = ground arith

view_of-rolled_over :
    (today : ℕ) (o : Option BudgetRow)
    → view_of today (map_option (rolled_over today) o) ≡ view_of today o
unfolding rolled_over snapshot
view_of-rolled_over today o = ground arith

-- Reading one budget changes what no read of that day returns, its own included: the roll-over is
-- written back once and then stays.
pub get_budget-stable :
    (today k j : ℕ) (rows : Dict BudgetRow)
    → view today j (after_read today k rows) ≡ view today j rows
get_budget-stable today k j rows = ground (
  arith,
  view_lem today j (after_read today k rows),
  view_lem today j rows,
  lookup-get_budget today k j rows,
  view_of-rolled_over today (lookup j rows),
)

view_of-spend :
    (today spent : ℕ) (o : Option BudgetRow)
    → view_of today (map_option (spend today spent) o)
      ≡ map_option (spent_as spent) (view_of today o)
unfolding snapshot
view_of-spend today spent o = ground arith

-- After `update_spent_today` the row that it names shows the new total of today with its caps
-- unchanged, every other row shows what it showed, and the result is what a read then shows: none,
-- which is the `KeyError`, exactly where no row was there.
pub update_spent_today-view :
    (today k j spent : ℕ) (rows : Dict BudgetRow)
    → (view today j (update_spent_today today k spent rows).1
        ≡ (if k == j then map_option (spent_as spent) (view today j rows) else view today j rows))
      × ((update_spent_today today k spent rows).0
          ≡ map_option (spent_as spent) (view today k rows))
unfolding update_spent_today
update_spent_today-view today k j spent rows =
    let changed = adjust k (spend today spent) rows in
    (
      ground (
        arith,
        get_budget-stable today k j changed,
        view_lem today j changed,
        view_lem today j rows,
        lookup-adjust k j (spend today spent) rows,
        view_of-spend today spent (lookup j rows),
      ),
      ground (
        arith,
        view_lem today k changed,
        view_lem today k rows,
        lookup-adjust k k (spend today spent) rows,
        view_of-spend today spent (lookup k rows),
      ),
    )

-- A budget that was upserted reads back on the same day as it was given, and on any later day with
-- nothing spent; no other budget changes.
pub upsert_budget-view :
    (day today k j daily limit spent : ℕ) (rows : Dict BudgetRow)
    → view today j (upsert_budget day k daily limit spent rows).1 ≡ (
        if k == j
        then some (record {
          daily_cap = daily;
          transaction_cap = limit;
          spent_today = if day == today then spent else 0;
        })
        else view today j rows)
unfolding upsert_budget snapshot
upsert_budget-view day today k j daily limit spent rows =
    let row : BudgetRow = record {
      daily_cap = daily;
      transaction_cap = limit;
      spent_today = spent;
      spent_date = day;
    } in
    ground (
      arith,
      view_lem today j (insert k row rows),
      view_lem today j rows,
      lookup-insert k j row rows,
    )

lookup-list_budgets :
    (today j : ℕ) (rows : Dict BudgetRow)
    → (lookup j (list_budgets today rows).0 ≡ view_of today (lookup j rows))
      × (lookup j (list_budgets today rows).1 ≡ map_option (rolled_over today) (lookup j rows))
unfolding lookup list_budgets
lookup-list_budgets today j [] = (refl, refl)
lookup-list_budgets today j ((k, row) ∷ rows) =
    let ih = lookup-list_budgets today j rows in (ground (arith, ih), ground (arith, ih))

-- The listing of all budgets has under every key what a single read returns for it, and leaves a
-- table in which every later read of that day returns the same.
pub list_budgets-view :
    (today j : ℕ) (rows : Dict BudgetRow)
    → (lookup j (list_budgets today rows).0 ≡ view today j rows)
      × (view today j (list_budgets today rows).1 ≡ view today j rows)
list_budgets-view today j rows =
    let (listed, rolled) = lookup-list_budgets today j rows in
    (
      cc (listed, view_lem today j rows),
      cc (
        rolled,
        view_lem today j (list_budgets today rows).1,
        view_lem today j rows,
        view_of-rolled_over today (lookup j rows),
      ),
    )
