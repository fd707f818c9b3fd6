-- ===== src/Payment/Limits/Race.antt =====
-- Two calls that interleave: both pass the limits before either stores its total.
use safe4_arc_demo.Prelude.{◌+◌, ◌≡◌, ◌∙◌, some, arith, ==-refl}
use safe4_arc_demo.Dict.{Dict}
use safe4_arc_demo.Store.Budget.{Budget, BudgetRow, update_spent_today}
use safe4_arc_demo.Store.Budget.Laws.{view, spent_as, update_spent_today-view}
use safe4_arc_demo.Payment.State.{Request, Config, Server, next}
use safe4_arc_demo.Payment.Limits.{Found, Totals, check_limits}
use safe4_arc_demo.Payment.Limits.Frame.{check_limits-spends_nothing}
use safe4_arc_demo.Payment.Limits.Passing.{next-IsCleared}

-- The users' budgets after the call has stored its projected total.
abbrev pub store_total : Request → Totals → Dict BudgetRow → Dict BudgetRow
store_total r t rows = (update_spent_today r.today r.payment.user_id t.projected_total rows).1

-- If two calls of one user on one day both pass the limits before either stores its total, then
-- after both have stored theirs, in either order, the user's budget shows what was spent before and
-- the amount of the call that stored last: the other amount is lost.
pub interleaved-lost_update :
    (c : Config) (r r' : Request) (f f' : Found) (s : Server) (t t' : Totals) (before : Budget)
    → r'.today ≡ r.today
    → r'.payment.user_id ≡ r.payment.user_id
    → view r.today r.payment.user_id s.budgets ≡ some before
    → (check_limits c r f s).0 ≡ next t
    → (check_limits c r' f' (check_limits c r f s).1).0 ≡ next t'
    → let s' = (check_limits c r' f' (check_limits c r f s).1).1 in
      (view r.today r.payment.user_id (store_total r' t' (store_total r t s'.budgets))
        ≡ some (spent_as (before.spent_today + r'.payment.amount) before))
      × (view r.today r.payment.user_id (store_total r t (store_total r' t' s'.budgets))
          ≡ some (spent_as (before.spent_today + r.payment.amount) before))
interleaved-lost_update c r r' f f' s t t' before same_day same_user seen h h' =
    let s₁ = (check_limits c r f s).1 in
    let s₂ = (check_limits c r' f' s₁).1 in
    let k = r.payment.user_id in
    let p = next-IsCleared c r' f' s₁ t' h' in
    let q = next-IsCleared c r f s t h in
    let first : view r.today k s₁.budgets ≡ some before =
      (check_limits-spends_nothing c r f s k).0 ∙ seen in
    let second : view r'.today k s₂.budgets ≡ view r'.today k s₁.budgets =
      (check_limits-spends_nothing c r' f' s₁ k).0 in
    let stored = update_spent_today-view r.today k k t.projected_total s₂.budgets in
    let again =
      update_spent_today-view r.today k k t'.projected_total (store_total r t s₂.budgets) in
    let stored' = update_spent_today-view r.today k k t'.projected_total s₂.budgets in
    let again' =
      update_spent_today-view r.today k k t.projected_total (store_total r' t' s₂.budgets) in
    let total' : t'.projected_total ≡ before.spent_today + r'.payment.amount =
      ground (arith, p.user_total, p.user_found, same_day, same_user, first) in
    let total : t.projected_total ≡ before.spent_today + r.payment.amount =
      ground (arith, q.user_total, q.user_found, seen) in
    (
      ground (arith, same_day, same_user, first, second, stored, again, total', ==-refl k),
      ground (arith, same_day, same_user, first, second, stored', again', total, ==-refl k),
    )
