-- ===== src/Payment/Limits/Frame.antt =====
-- The limits spend nothing, whether they let a payment through or refuse it.
use safe4_arc_demo.Prelude.{
  ℕ, ◌≡◌, refl, ap, Option, none, some, ◌∙◌, if◌then◌else◌, Bool, true, false,
}
use safe4_arc_demo.Store.Budget.{Budget, get_budget, get_agent_budget}
use safe4_arc_demo.Store.Budget.Laws.{view, get_budget-stable}
use safe4_arc_demo.Payment.State.{Request, Config, Server, Outcome, next, respond}
use safe4_arc_demo.Payment.Flow.{Denial}
use safe4_arc_demo.Payment.Flow.Frame.{accounts, accounts-deny_payment}
use safe4_arc_demo.Payment.Limits.{
  Found, refuse, check_agent, check_user, pair_totals, check_user_next, check_limits,
}

record Keeps {A : Type 0} (s : Server) (o : Outcome A × Server) : Type 0 where
  kept : accounts o.1 ≡ accounts s

refuse-Keeps :
    {A : Type 0} (c : Config) (r : Request) (d : Denial) (s : Server)
    → Keeps s (refuse {A = A} c r d s)
unfolding refuse
refuse-Keeps c r d s = record { kept = accounts-deny_payment c r d s }

if-Keeps :
    {A : Type 0} (s : Server) (b : Bool) (o p : Outcome A × Server)
    → Keeps s o
    → Keeps s p
    → Keeps s (if b then o else p)
if-Keeps s true o p h k = h
if-Keeps s false o p h k = k

next-Keeps : {A : Type 0} (s : Server) (a : A) → Keeps s (next a, s)
next-Keeps s a = record { kept = refl }

check_agent-Keeps :
    (c : Config) (r : Request) (f : Found) (b : Option Budget) (s : Server)
    → Keeps s (check_agent c r f b s)
unfolding check_agent
check_agent-Keeps c r f none s = refuse-Keeps c r _ s
check_agent-Keeps c r f (some b) s = search (if-Keeps, refuse-Keeps, next-Keeps)

check_user-Keeps :
    (c : Config) (r : Request) (f : Found) (b : Option Budget) (s : Server)
    → Keeps s (check_user c r f b s)
unfolding check_user
check_user-Keeps c r f none s = refuse-Keeps c r _ s
check_user-Keeps c r f (some b) s = search (if-Keeps, refuse-Keeps, next-Keeps)

pair-server : (n : ℕ) (o : Outcome ℕ × Server) → (pair_totals n o).1 ≡ o.1
unfolding pair_totals
pair-server n (next total, s) = refl
pair-server n (respond a, s) = refl

-- Every budget reads the same on the day.
pub record SpendsNothing (today : ℕ) (s s' : Server) : Type 0 where
  pub users : (j : ℕ) → view today j s'.budgets ≡ view today j s.budgets
  pub agents : (j : ℕ) → view today j s'.agent_budgets ≡ view today j s.agent_budgets

accounts-SpendsNothing :
    (today : ℕ) (s s' : Server) → accounts s' ≡ accounts s → SpendsNothing today s s'
accounts-SpendsNothing today s s' h = record {
  users = λ j. ap (λ a. view today j a.0) h;
  agents = λ j. ap (λ a. view today j a.1) h;
}

user_next-SpendsNothing :
    (c : Config) (r : Request) (f : Found) (o : Outcome ℕ × Server)
    → SpendsNothing r.today o.1 (check_user_next c r f o).1
unfolding check_user_next
user_next-SpendsNothing c r f (respond a, s) = accounts-SpendsNothing r.today s s refl
user_next-SpendsNothing c r f (next n, s) =
    let read = get_budget r.today r.payment.user_id s.budgets in
    let s' : Server = record s { budgets = read.1 } in
    let o = check_user c r f read.0 s' in
    let k : accounts (pair_totals n o).1 ≡ accounts s' =
      ap accounts (pair-server n o) ∙ (check_user-Keeps c r f read.0 s').kept in
    let rest = accounts-SpendsNothing r.today s' (pair_totals n o).1 k in
    record {
      users = λ j. rest.users j ∙ get_budget-stable r.today r.payment.user_id j s.budgets;
      agents = rest.agents;
    }

-- Whatever the limits answer, every user's and every agent's budget reads on that day as it did
-- before: a refusal spends nothing, and neither does a payment that is let through so far.
pub check_limits-spends_nothing :
    (c : Config) (r : Request) (f : Found) (s : Server) (j : ℕ)
    → (view r.today j (check_limits c r f s).1.budgets ≡ view r.today j s.budgets)
      × (view r.today j (check_limits c r f s).1.agent_budgets ≡ view r.today j s.agent_budgets)
unfolding check_limits get_agent_budget
check_limits-spends_nothing c r f s j =
    let read = get_budget r.today r.payment.agent_id s.agent_budgets in
    let s' : Server = record s { agent_budgets = read.1 } in
    let o = check_agent c r f read.0 s' in
    let first = accounts-SpendsNothing r.today s' o.1 (check_agent-Keeps c r f read.0 s').kept in
    let second = user_next-SpendsNothing c r f o in
    (
      second.users j ∙ first.users j,
      second.agents j
          ∙ first.agents j
          ∙ get_budget-stable r.today r.payment.agent_id j s.agent_budgets,
    )
