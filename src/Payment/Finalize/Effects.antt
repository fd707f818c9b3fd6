-- ===== src/Payment/Finalize/Effects.antt =====
-- What an authorization does to the budgets and to the audit log.
use safe4_arc_demo.Prelude.{
  ℕ, ◌+◌, ◌≡◌, refl, sym, ap, ◌∙◌, Option, some, arith, ◌==◌, if◌then◌else◌,
}
use safe4_arc_demo.Dict.{Dict}
use safe4_arc_demo.Anomaly.{Anomaly}
use safe4_arc_demo.Store.Budget.{Budget, BudgetRow, update_spent_today, update_agent_spent_today}
use safe4_arc_demo.Store.Budget.Laws.{view, spent_as, update_spent_today-view}
use safe4_arc_demo.Payment.State.{Content, Request, Config, Server, next}
use safe4_arc_demo.Payment.Flow.{increment, write_audit_entry}
use safe4_arc_demo.Payment.Flow.Frame.{accounts, accounts-increment, accounts-mark_receipt}
use safe4_arc_demo.Payment.Limits.{Found, Totals, check_limits}
use safe4_arc_demo.Payment.Limits.Frame.{SpendsNothing, check_limits-spends_nothing}
use safe4_arc_demo.Payment.Limits.Passing.{IsWithinCaps, IsCleared, next-IsCleared}
use safe4_arc_demo.Payment.Finalize.{
  Finished, completed, authorized_body, record_transaction, log_authorized, record_anomaly,
  save_authorized, write_records, write_authorized, anomaly_of, finish, finalize_authorized_payment,
}

accounts-save_authorized :
    (c : Config) (r : Request) (key : Option ℕ) (body : Content) (s : Server)
    → accounts (save_authorized c r key body s) ≡ accounts s
unfolding save_authorized
accounts-save_authorized c r key body s = ground arith

accounts-write_authorized :
    (c : Config) (r : Request) (f : Found) (x : Anomaly) (b a : Budget) (s : Server)
    → accounts (write_authorized c r f x b a s) ≡ accounts s
unfolding write_authorized write_records record_transaction log_authorized record_anomaly
    write_audit_entry
accounts-write_authorized c r f x b a s =
    let written = write_records c r f x b a s in
    let counted = increment (some "payment_authorized_total") written in
    accounts-save_authorized c r r.idempotency_key (authorized_body c r b a) counted
    ∙ accounts-increment (some "payment_authorized_total") written
    ∙ accounts-mark_receipt r f.receipt_id (record_transaction c r b a s)

-- The answer, and the two tables of budgets after it.
record Spends (c : Config) (r : Request) (t : Totals) (b a : Budget) (s : Server)
    (o : Finished × Server) : Type 0 where
  answer :
      o.0
      ≡ completed (record {
        status_code = 200;
        content =
            authorized_body c r (spent_as t.projected_total b) (spent_as t.projected_agent_total a);
      })
  users :
      (j : ℕ)
      → view r.today j o.1.budgets ≡ (
          if r.payment.user_id == j
          then some (spent_as t.projected_total b)
          else view r.today j s.budgets)
  agents :
      (j : ℕ)
      → view r.today j o.1.agent_budgets ≡ (
          if r.payment.agent_id == j
          then some (spent_as t.projected_agent_total a)
          else view r.today j s.agent_budgets)

-- The stored total where the row was there.
stored_view :
    (today k j spent : ℕ) (rows : Dict BudgetRow) (b : Budget)
    → view today k rows ≡ some b
    → (view today j (update_spent_today today k spent rows).1
        ≡ (if k == j then some (spent_as spent b) else view today j rows))
      × ((update_spent_today today k spent rows).0 ≡ some (spent_as spent b))
stored_view today k j spent rows b h =
    let (seen, answer) = update_spent_today-view today k j spent rows in
    (ground (arith, seen, h), ground (arith, answer, h))

finish-completed :
    (c : Config) (r : Request) (f : Found) (x : Anomaly) (b a : Budget) (s : Server)
    → finish c r f x (some b) (some a) s ≡ (
      completed (record { status_code = 200; content = authorized_body c r b a }),
      write_authorized c r f x b a s,
    )
unfolding finish
finish-completed c r f x b a s = refl

pub finalize-completed :
    (c : Config) (r : Request) (f : Found) (t : Totals) (s : Server) (b a : Budget)
    → view r.today r.payment.user_id s.budgets ≡ some b
    → view r.today r.payment.agent_id s.agent_budgets ≡ some a
    → let b' = spent_as t.projected_total b in
      let a' = spent_as t.projected_agent_total a in
      finalize_authorized_payment c r f t s ≡ (
        completed (record { status_code = 200; content = authorized_body c r b' a' }),
        write_authorized c r f (anomaly_of r s) b' a' (record s {
          budgets = (update_spent_today r.today r.payment.user_id t.projected_total s.budgets).1;
          agent_budgets =
              (update_spent_today r.today r.payment.agent_id t.projected_agent_total
                s.agent_budgets).1;
        }),
      )
unfolding finalize_authorized_payment update_agent_spent_today finish
finalize-completed c r f t s b a h k =
    let (_, user) = stored_view r.today r.payment.user_id 0 t.projected_total s.budgets b h in
    let (_, agent) =
      stored_view r.today r.payment.agent_id 0 t.projected_agent_total s.agent_budgets a k in
    rw (user, agent) refl

finalize-Spends :
    (c : Config) (r : Request) (f : Found) (t : Totals) (s : Server) (b a : Budget)
    → view r.today r.payment.user_id s.budgets ≡ some b
    → view r.today r.payment.agent_id s.agent_budgets ≡ some a
    → Spends c r t b a s (finalize_authorized_payment c r f t s)
finalize-Spends c r f t s b a h k =
    let b' = spent_as t.projected_total b in
    let a' = spent_as t.projected_agent_total a in
    let done = finalize-completed c r f t s b a h k in
    let left =
      ap (λ o. accounts o.1) done ∙ accounts-write_authorized c r f (anomaly_of r s) b' a' _ in
    record {
      answer = ap (λ o. o.0) done;
      users = λ j.
          ap (λ x. view r.today j x.0) left
          ∙ (stored_view r.today r.payment.user_id j t.projected_total s.budgets b h).0;
      agents = λ j.
          ap (λ x. view r.today j x.1) left
          ∙ (stored_view r.today r.payment.agent_id j t.projected_agent_total s.agent_budgets a
              k).0;
    }

-- What an authorized payment has done: the amount is spent on the user's and on the agent's budget
-- and on no other, and both had room for it under both of their caps.
pub record IsAuthorized (c : Config) (r : Request) (s : Server) (o : Finished × Server)
    : Type 0 where
  pub user : Budget
  pub agent : Budget
  pub user_caps : IsWithinCaps user r.payment.amount
  pub agent_caps : IsWithinCaps agent r.payment.amount
  pub user_before : view r.today r.payment.user_id s.budgets ≡ some user
  pub agent_before : view r.today r.payment.agent_id s.agent_budgets ≡ some agent
  pub users_after :
      (j : ℕ)
      → view r.today j o.1.budgets ≡ (
          if r.payment.user_id == j
          then some (spent_as (user.spent_today + r.payment.amount) user)
          else view r.today j s.budgets)
  pub agents_after :
      (j : ℕ)
      → view r.today j o.1.agent_budgets ≡ (
          if r.payment.agent_id == j
          then some (spent_as (agent.spent_today + r.payment.amount) agent)
          else view r.today j s.agent_budgets)
  pub answer :
      o.0
      ≡ completed (record {
        status_code = 200;
        content =
            authorized_body c r
              (spent_as (user.spent_today + r.payment.amount) user)
              (spent_as (agent.spent_today + r.payment.amount) agent);
      })

-- A payment that is cleared on one server, and finalized on another, where every budget on both
-- reads as it did before.
pub cleared-IsAuthorized :
    (c : Config) (r : Request) (f : Found) (s s' s'' : Server) (t : Totals)
    → IsCleared c r s' t
    → SpendsNothing r.today s s'
    → SpendsNothing r.today s s''
    → IsAuthorized c r s (finalize_authorized_payment c r f t s'')
cleared-IsAuthorized c r f s s' s'' t p same same' =
    let user_before = sym (same.users r.payment.user_id) ∙ p.user_found in
    let agent_before = sym (same.agents r.payment.agent_id) ∙ p.agent_found in
    let done =
      finalize-Spends c r f t s'' p.user p.agent (same'.users r.payment.user_id ∙ user_before)
        (same'.agents r.payment.agent_id ∙ agent_before) in
    record {
      user = p.user;
      agent = p.agent;
      user_caps = p.user_caps;
      agent_caps = p.agent_caps;
      user_before = user_before;
      agent_before = agent_before;
      users_after = λ j. ground (arith, done.users j, same'.users j, p.user_total);
      agents_after = λ j. ground (arith, done.agents j, same'.agents j, p.agent_total);
      answer = rw (sym p.user_total, sym p.agent_total) done.answer;
    }

-- If a payment passes the limits and is finalized from the server that they leave, it is answered
-- with status 200 and the two new budgets, its amount is added to what its user and its agent have
-- spent that day and to no other budget, and both totals stay within the daily caps.
pub finalize-IsAuthorized :
    (c : Config) (r : Request) (f : Found) (s : Server) (t : Totals)
    → (check_limits c r f s).0 ≡ next t
    → IsAuthorized c r s (finalize_authorized_payment c r f t (check_limits c r f s).1)
finalize-IsAuthorized c r f s t h =
    let same : SpendsNothing r.today s (check_limits c r f s).1 = record {
      users = λ j. (check_limits-spends_nothing c r f s j).0;
      agents = λ j. (check_limits-spends_nothing c r f s j).1;
    } in
    cleared-IsAuthorized c r f s s (check_limits c r f s).1 t (next-IsCleared c r f s t h)
      (record { users = λ j. refl; agents = λ j. refl }) same
