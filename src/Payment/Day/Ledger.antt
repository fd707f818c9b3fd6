-- ===== src/Payment/Day/Ledger.antt =====
-- The budgets over the calls of one day.
use safe4_arc_demo.Prelude.{
  sym, ℕ, ◌+◌, ◌≤◌, ◌≡◌, refl, ◌∙◌, some, List, [], ◌∷◌, ◌==◌, if◌then◌else◌, ◌⊎◌, inl, inr, arith,
  Bool, ◌&&◌, Option, Bool-cases, ==→≡,
}
use mathlib.Core.Path.{subst}
use safe4_arc_demo.Dict.{Dict}
use safe4_arc_demo.Store.Budget.{Budget, BudgetRow}
use safe4_arc_demo.Store.Budget.Laws.{view, spent_as}
use safe4_arc_demo.Payment.State.{Request, Config, Server, Outcome}
use safe4_arc_demo.Payment.Finalize.{Finished}
use safe4_arc_demo.Payment.Limits.Passing.{IsWithinCaps}
use safe4_arc_demo.Payment.Authorize.{authorize_payment}
use safe4_arc_demo.Payment.Authorize.Spending.{IsRefused, IsPaid, authorize_payment-Settles}
use safe4_arc_demo.Payment.Day.{serve, spent_by, finalized?}

-- Every call is made on the day.
pub data AllOn (today : ℕ) : List Request → Type 0 where
  no_calls : AllOn today []
  call : {r : Request} {rs : List Request} → r.today ≡ today → AllOn today rs → AllOn today (r ∷ rs)

-- What one budget shows: it began as `b` and the amount `n` was added, within the cap.
record Shows (b : Budget) (n : ℕ) (o : Option Budget) : Type 0 where
  shown : o ≡ some (spent_as (b.spent_today + n) b)
  capped : b.spent_today ≤ b.daily_cap → b.spent_today + n ≤ b.daily_cap

abbrev amount_if : Bool → ℕ → ℕ
amount_if test n = if test then n else 0

Shows-none : (b : Budget) (o : Option Budget) → o ≡ some b → Shows b 0 o
Shows-none b o h = record { shown = ground (arith, h); capped = λ k. ground (arith, k) }

-- The row of the payer shows the amount, and another row nothing.
Shows-row :
    (b mine : Budget) (payer j amount : ℕ) (before after : Option Budget)
    → before ≡ some b
    → (payer ≡ j → before ≡ some mine)
    → IsWithinCaps mine amount
    → after ≡ (if payer == j then some (spent_as (mine.spent_today + amount) mine) else before)
    → Shows b (amount_if (payer == j) amount) after
Shows-row b mine payer j amount before after h own caps e = elim (Bool-cases (payer == j)) [
  | inl y ↦
      let same : some mine ≡ some b = ground (arith, own (==→≡ payer j y), h) in
      let same' : mine ≡ b = ground (arith, same) in
      record {
        shown = ground (arith, e, y, same');
        capped = λ _. ground (arith, y, same', caps.daily);
      }
  | inr n ↦ record { shown = ground (arith, e, n, h); capped = λ k. ground (arith, n, k) }
]

Shows-trans :
    (b : Budget) (n m : ℕ) (o : Option Budget)
    → (b.spent_today ≤ b.daily_cap → b.spent_today + n ≤ b.daily_cap)
    → Shows (spent_as (b.spent_today + n) b) m o
    → Shows b (n + m) o
Shows-trans b n m o h k =
    let assoc : b.spent_today + n + m ≡ b.spent_today + (n + m) = omega arith in
    record { shown = rw (sym assoc) k.shown; capped = λ l. rw (sym assoc) (k.capped (h l)) }

refused_adds :
    (r : Request) (s : Server) (o : Outcome Finished × Server) (test : Bool)
    → IsRefused r s o
    → amount_if (finalized? o.0 && test) r.payment.amount ≡ 0
refused_adds r s o test h = rw h.answered refl

paid_adds :
    (c : Config) (r : Request) (s : Server) (o : Outcome Finished × Server) (test : Bool)
    → IsPaid c r s o
    → amount_if (finalized? o.0 && test) r.payment.amount ≡ amount_if test r.payment.amount
paid_adds c r s o test h = rw h.went_on refl

-- One call, as a user's budget shows it, and as an agent's.
user_step :
    (c : Config) (r : Request) (s : Server) (o : Outcome Finished × Server) (j : ℕ) (b : Budget)
    → IsRefused r s o ⊎ IsPaid c r s o
    → view r.today j s.budgets ≡ some b
    → Shows b
        (amount_if (finalized? o.0 && (r.payment.user_id == j)) r.payment.amount)
        (view r.today j o.1.budgets)
user_step c r s o j b (inl h) seen =
    rw (refused_adds r s o (r.payment.user_id == j) h)
      (Shows-none b _ (h.spends_nothing.users j ∙ seen))
user_step c r s o j b (inr h) seen =
    let a = h.authorized in
    rw (paid_adds c r s o (r.payment.user_id == j) h) (
      Shows-row b a.user r.payment.user_id j r.payment.amount _ _ seen
        (λ e. subst (λ k. view r.today k s.budgets ≡ some a.user) e a.user_before) a.user_caps
        (a.users_after j))

agent_step :
    (c : Config) (r : Request) (s : Server) (o : Outcome Finished × Server) (j : ℕ) (b : Budget)
    → IsRefused r s o ⊎ IsPaid c r s o
    → view r.today j s.agent_budgets ≡ some b
    → Shows b
        (amount_if (finalized? o.0 && (r.payment.agent_id == j)) r.payment.amount)
        (view r.today j o.1.agent_budgets)
agent_step c r s o j b (inl h) seen =
    rw (refused_adds r s o (r.payment.agent_id == j) h)
      (Shows-none b _ (h.spends_nothing.agents j ∙ seen))
agent_step c r s o j b (inr h) seen =
    let a = h.authorized in
    rw (paid_adds c r s o (r.payment.agent_id == j) h) (
      Shows-row b a.agent r.payment.agent_id j r.payment.amount _ _ seen
        (λ e. subst (λ k. view r.today k s.agent_budgets ≡ some a.agent) e a.agent_before)
        a.agent_caps (a.agents_after j))

same_day :
    {t today : ℕ} {o : Option Budget} (j : ℕ) (rows : Dict BudgetRow)
    → t ≡ today
    → view t j rows ≡ o
    → view today j rows ≡ o
same_day {o = o} j rows e h = subst (λ t. view t j rows ≡ o) e h

users_show :
    (c : Config) (today j : ℕ) (rs : List Request) (s : Server) (b : Budget)
    → AllOn today rs
    → view today j s.budgets ≡ some b
    → Shows b (spent_by (λ r. r.payment.user_id == j) c rs s) (view today j (serve c rs s).budgets)
unfolding serve spent_by
users_show c today j [] s b d h = Shows-none b _ h
users_show c today j (r ∷ rs) s b (call e d) h =
    let o = authorize_payment c r s in
    let first =
      user_step c r s o j b (authorize_payment-Settles c r s) (same_day j s.budgets (sym e) h) in
    Shows-trans b _ _ _ first.capped
      (users_show c today j rs o.1 _ d (same_day j o.1.budgets e first.shown))

agents_show :
    (c : Config) (today j : ℕ) (rs : List Request) (s : Server) (b : Budget)
    → AllOn today rs
    → view today j s.agent_budgets ≡ some b
    → Shows b
        (spent_by (λ r. r.payment.agent_id == j) c rs s)
        (view today j (serve c rs s).agent_budgets)
unfolding serve spent_by
agents_show c today j [] s b d h = Shows-none b _ h
agents_show c today j (r ∷ rs) s b (call e d) h =
    let o = authorize_payment c r s in
    let first =
      agent_step c r s o j b (authorize_payment-Settles c r s)
        (same_day j s.agent_budgets (sym e) h) in
    Shows-trans b _ _ _ first.capped
      (agents_show c today j rs o.1 _ d (same_day j o.1.agent_budgets e first.shown))

-- After any calls of `/pay` made one after another on a day, a user's budget shows what it showed
-- before them and the sum of the amounts of that user's finalized calls; if it was within its daily
-- cap, so is that sum added to it.
pub serve-user_total :
    (c : Config) (today j : ℕ) (rs : List Request) (s : Server) (b : Budget)
    → AllOn today rs
    → view today j s.budgets ≡ some b
    → let total = b.spent_today + spent_by (λ r. r.payment.user_id == j) c rs s in
      (view today j (serve c rs s).budgets ≡ some (spent_as total b))
      × (b.spent_today ≤ b.daily_cap → total ≤ b.daily_cap)
serve-user_total c today j rs s b d h =
    let k = users_show c today j rs s b d h in (k.shown, k.capped)

-- After any calls of `/pay` made one after another on a day, an agent's budget shows what it showed
-- before them and the sum of the amounts of that agent's finalized calls; if it was within its daily
-- cap, so is that sum added to it.
serve-agent_total :
    (c : Config) (today j : ℕ) (rs : List Request) (s : Server) (b : Budget)
    → AllOn today rs
    → view today j s.agent_budgets ≡ some b
    → let total = b.spent_today + spent_by (λ r. r.payment.agent_id == j) c rs s in
      (view today j (serve c rs s).agent_budgets ≡ some (spent_as total b))
      × (b.spent_today ≤ b.daily_cap → total ≤ b.daily_cap)
serve-agent_total c today j rs s b d h =
    let k = agents_show c today j rs s b d h in (k.shown, k.capped)
