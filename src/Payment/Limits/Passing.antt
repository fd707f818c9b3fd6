-- ===== src/Payment/Limits/Passing.antt =====
-- Exactly which payments the limits let through, and with which totals.
use safe4_arc_demo.Prelude.{
  ℕ, ◌+◌, ◌≤◌, ◌<◌, ◌≡◌, refl, sym, Option, none, some, true, false, arith, Option-cases, inl, inr,
}
use mathlib.Core.Path.{subst}
use safe4_arc_demo.Money.{add_money_exact}
use safe4_arc_demo.Store.Budget.{Budget, get_budget, get_agent_budget}
use safe4_arc_demo.Store.Budget.Laws.{view}
use safe4_arc_demo.Payment.State.{Request, Config, Server, Outcome, next, respond}
use safe4_arc_demo.Payment.Limits.{
  Found, Totals, max_cost, exceeds, recent_event_count, evaluate_intent, refuse, check_agent,
  check_user, pair_totals, check_user_next, check_limits,
}

-- A payment of this amount keeps the budget's two caps.
pub record IsWithinCaps (b : Budget) (amount : ℕ) : Type 0 where
  pub transaction : amount ≤ b.transaction_cap
  pub daily : b.spent_today + amount ≤ b.daily_cap

-- The agent's budget has room, and its velocity too.
record AgentPasses (c : Config) (r : Request) (s : Server) (b : Budget) (total : ℕ) : Type 0 where
  caps : IsWithinCaps b r.payment.amount
  slow : recent_event_count c r s < c.velocity_limit
  sum : total ≡ b.spent_today + r.payment.amount

-- The user's budget and scope have room, and the intent is allowed.
record UserPasses (c : Config) (r : Request) (b : Budget) (total : ℕ) : Type 0 where
  caps : IsWithinCaps b r.payment.amount
  scope : exceeds (b.spent_today + r.payment.amount) (max_cost r.payment.scope_of_autonomy) ≡ false
  intended : (evaluate_intent c r.payment).allowed ≡ true
  sum : total ≡ b.spent_today + r.payment.amount

agent-next :
    (c : Config) (r : Request) (f : Found) (b : Budget) (s s' : Server) (total : ℕ)
    → check_agent c r f (some b) s ≡ (next total, s')
    → AgentPasses c r s b total × (s' ≡ s)
unfolding check_agent refuse
agent-next c r f b s s' total h =
    let exact = add_money_exact b.spent_today r.payment.amount in
    (
      record {
        caps = record { transaction = ground arith; daily = ground (arith, exact) };
        slow = ground arith;
        sum = ground (arith, exact);
      },
      ground arith,
    )

agent-AgentPasses :
    (c : Config) (r : Request) (f : Found) (b : Budget) (s : Server) (total : ℕ)
    → AgentPasses c r s b total
    → check_agent c r f (some b) s ≡ (next total, s)
unfolding check_agent
agent-AgentPasses c r f b s total p = ground (
  arith,
  add_money_exact b.spent_today r.payment.amount,
  p.caps.transaction,
  p.caps.daily,
  p.slow,
  p.sum,
)

user-next :
    (c : Config) (r : Request) (f : Found) (b : Budget) (s : Server) (total : ℕ)
    → (check_user c r f (some b) s).0 ≡ next total
    → UserPasses c r b total
unfolding check_user refuse
user-next c r f b s total h =
    let exact = add_money_exact b.spent_today r.payment.amount in
    record {
      caps = record { transaction = ground arith; daily = ground (arith, exact) };
      scope = rw (sym exact) (ground arith);
      intended = ground arith;
      sum = ground (arith, exact);
    }

user-UserPasses :
    (c : Config) (r : Request) (f : Found) (b : Budget) (s : Server) (total : ℕ)
    → UserPasses c r b total
    → check_user c r f (some b) s ≡ (next total, s)
unfolding check_user
user-UserPasses c r f b s total p =
    rw (add_money_exact b.spent_today r.payment.amount, p.scope, p.intended)
      (ground (arith, p.caps.transaction, p.caps.daily, p.sum))

-- What the limits ask of a payment: both budgets are there and have room under both caps, fewer
-- recent payments than the velocity limit, no more than the scope's cost, and an allowed intent; the
-- totals are what was spent today and the amount.
pub record IsCleared (c : Config) (r : Request) (s : Server) (t : Totals) : Type 0 where
  pub agent : Budget
  pub user : Budget
  pub agent_found : view r.today r.payment.agent_id s.agent_budgets ≡ some agent
  pub user_found : view r.today r.payment.user_id s.budgets ≡ some user
  pub agent_caps : IsWithinCaps agent r.payment.amount
  pub user_caps : IsWithinCaps user r.payment.amount
  pub slow : recent_event_count c r s < c.velocity_limit
  pub scope :
      exceeds (user.spent_today + r.payment.amount) (max_cost r.payment.scope_of_autonomy) ≡ false
  pub intended : (evaluate_intent c r.payment).allowed ≡ true
  pub agent_total : t.projected_agent_total ≡ agent.spent_today + r.payment.amount
  pub user_total : t.projected_total ≡ user.spent_today + r.payment.amount

-- What the second half of the limits has seen.
record UserStep (c : Config) (r : Request) (o : Outcome ℕ × Server) (t : Totals) : Type 0 where
  agent_total : ℕ
  server : Server
  user : Budget
  went_on : o ≡ (next agent_total, server)
  found : view r.today r.payment.user_id server.budgets ≡ some user
  passes : UserPasses c r user t.projected_total
  kept : t.projected_agent_total ≡ agent_total

pair-next :
    (agent_total : ℕ) (o : Outcome ℕ × Server) (t : Totals)
    → (pair_totals agent_total o).0 ≡ next t
    → (o.0 ≡ next t.projected_total) × (t.projected_agent_total ≡ agent_total)
unfolding pair_totals
pair-next agent_total (next total, s) t h = (ground arith, ground arith)
pair-next agent_total (respond a, s) t h = absurd (ground arith)

user-missing :
    (c : Config) (r : Request) (f : Found) (s : Server) (total : ℕ)
    → (check_user c r f none s).0 ≡ next total
    → ⊥
unfolding check_user refuse
user-missing c r f s total h = ground arith

agent-missing :
    (c : Config) (r : Request) (f : Found) (s s' : Server) (total : ℕ)
    → check_agent c r f none s ≡ (next total, s')
    → ⊥
unfolding check_agent refuse
agent-missing c r f s s' total h = ground arith

user-step :
    (c : Config) (r : Request) (f : Found) (o : Outcome ℕ × Server) (t : Totals)
    → (check_user_next c r f o).0 ≡ next t
    → UserStep c r o t
unfolding check_user_next
user-step c r f (respond a, s) t h = absurd (ground arith)
user-step c r f (next agent_total, s) t h =
    let read = get_budget r.today r.payment.user_id s.budgets in
    let s' : Server = record s { budgets = read.1 } in
    let (passed, kept) = pair-next agent_total (check_user c r f read.0 s') t h in
    let Passed = λ (o : Option Budget). (check_user c r f o s').0 ≡ next t.projected_total in
    elim (Option-cases read.0) [
      | inl e ↦ absurd (user-missing c r f s' t.projected_total (subst Passed e passed))
      | inr (user, e) ↦ record {
        agent_total = agent_total;
        server = s;
        user = user;
        went_on = refl;
        found = e;
        passes = user-next c r f user s' t.projected_total (subst Passed e passed);
        kept = kept;
      }
    ]

-- A payment that the limits let through is cleared: both budgets exist, each has room for the amount
-- under both of its caps, the velocity limit is not reached, the scope's cost is not exceeded, the
-- intent is allowed, and the totals to be stored are today's spending and the amount.
pub next-IsCleared :
    (c : Config) (r : Request) (f : Found) (s : Server) (t : Totals)
    → (check_limits c r f s).0 ≡ next t
    → IsCleared c r s t
unfolding check_limits get_agent_budget
next-IsCleared c r f s t h =
    let read = get_budget r.today r.payment.agent_id s.agent_budgets in
    let s' : Server = record s { agent_budgets = read.1 } in
    let u = user-step c r f (check_agent c r f read.0 s') t h in
    let WentOn = λ (o : Option Budget). check_agent c r f o s' ≡ (next u.agent_total, u.server) in
    elim (Option-cases read.0) [
      | inl e ↦ absurd (agent-missing c r f s' u.server u.agent_total (subst WentOn e u.went_on))
      | inr (agent, e) ↦
          let (a, same) =
            agent-next c r f agent s' u.server u.agent_total (subst WentOn e u.went_on) in
          record {
            agent = agent;
            user = u.user;
            agent_found = e;
            user_found =
                subst (λ (x : Server). view r.today r.payment.user_id x.budgets ≡ some u.user) same
                  u.found;
            agent_caps = a.caps;
            user_caps = u.passes.caps;
            slow = a.slow;
            scope = u.passes.scope;
            intended = u.passes.intended;
            agent_total = ground (arith, u.kept, a.sum);
            user_total = u.passes.sum;
          }
    ]

-- A payment that is cleared is let through by the limits, with those totals.
pub IsCleared-next :
    (c : Config) (r : Request) (f : Found) (s : Server) (t : Totals)
    → IsCleared c r s t
    → (check_limits c r f s).0 ≡ next t
unfolding check_limits get_agent_budget check_user_next pair_totals
IsCleared-next c r f s t p =
    let read = get_budget r.today r.payment.agent_id s.agent_budgets in
    let s' : Server = record s { agent_budgets = read.1 } in
    let seen = get_budget r.today r.payment.user_id s.budgets in
    let s'' : Server = record s' { budgets = seen.1 } in
    let a : AgentPasses c r s' p.agent t.projected_agent_total = record {
      caps = p.agent_caps;
      slow = p.slow;
      sum = p.agent_total;
    } in
    let u : UserPasses c r p.user t.projected_total = record {
      caps = p.user_caps;
      scope = p.scope;
      intended = p.intended;
      sum = p.user_total;
    } in
    rw (
      p.agent_found,
      agent-AgentPasses c r f p.agent s' t.projected_agent_total a,
      p.user_found,
      user-UserPasses c r f p.user s'' t.projected_total u,
    )
