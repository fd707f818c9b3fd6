-- ===== src/Payment/Authorize/Spending.antt =====
-- The budgets over a whole call.
use safe4_arc_demo.Prelude.{true, none, some, ℕ, ◌≡◌, refl, ap, ◌∙◌, Option, arith, ◌⊎◌, inl, inr}
use mathlib.Core.Path.{subst}
use safe4_arc_demo.Store.Receipt.{get_receipt}
use safe4_arc_demo.Payment.State.{Request, Config, Response, Server, Outcome, next, respond}
use safe4_arc_demo.Payment.Exec.{◌>>=◌, bind-next}
use safe4_arc_demo.Payment.Entry.{check_payment_idempotency, validate_payment_receipt}
use safe4_arc_demo.Payment.Entry.Receipts.{IsBacked, accepted-IsBacked}
use safe4_arc_demo.Payment.Limits.{Found, check_limits}
use safe4_arc_demo.Payment.Limits.Frame.{SpendsNothing}
use safe4_arc_demo.Payment.Limits.Passing.{next-IsCleared}
use safe4_arc_demo.Payment.Hitl.{enforce_mcp_hitl_policy, enforce_direct_hitl_policy}
use safe4_arc_demo.Payment.Finalize.{Finished, finalize_authorized_payment}
use safe4_arc_demo.Payment.Finalize.Effects.{IsAuthorized, cleared-IsAuthorized}
use safe4_arc_demo.Payment.Authorize.{
  ask_for_tool, found_with, check_shape, check_allowed_tools, enforce_mcp_payment_policy, finalize,
  settle, authorize_payment,
}
use safe4_arc_demo.Payment.Authorize.Keeps.{Holds}
use safe4_arc_demo.Payment.ToolPolicy.{enforce_tool_policy}
use safe4_arc_demo.Payment.Authorize.Receipts.{marked?, finalize-marked}
use safe4_arc_demo.Payment.Authorize.Stages.{
  Holds-check_shape, Holds-check_payment_idempotency, Holds-validate_payment_receipt,
  Holds-check_allowed_tools, Holds-enforce_mcp_payment_policy, Holds-check_limits,
}
use safe4_arc_demo.Payment.Authorize.Policy.{Holds-enforce_direct_hitl_policy}
use safe4_arc_demo.Payment.Authorize.Before.{Before, Before-Stable}

-- The call ended before finalization and spent nothing.
pub record IsRefused (r : Request) (s : Server) (o : Outcome Finished × Server) : Type 0 where
  pub answer : Response
  pub answered : o.0 ≡ respond answer
  pub spends_nothing : SpendsNothing r.today s o.1

-- The call was finalized: it had a receipt, and its amount is spent within the caps.
pub record IsPaid (c : Config) (r : Request) (s : Server) (o : Outcome Finished × Server)
    : Type 0 where
  pub finished : Finished
  pub went_on : o.0 ≡ next finished
  pub receipt : Option ℕ
  pub backed : IsBacked c r s.receipts receipt
  pub authorized : IsAuthorized c r s (finished, o.1)
  pub marked : marked? (get_receipt backed.id o.1.receipts) ≡ true

abbrev Settles : Config → Request → Server → Outcome Finished × Server → Type 0
Settles c r s o = IsRefused r s o ⊎ IsPaid c r s o

module _ {A : Type 0} (c : Config) (r : Request) (s : Server) where
  Settles-continue :
      (o : Outcome A × Server) (f : A → Server → Outcome Finished × Server)
      → Holds (Before r.today s) o
      → ((a : A) (s' : Server) → o ≡ (next a, s') → Before r.today s s' → Settles c r s (f a s'))
      → Settles c r s (((λ (_ : Server). o) >>= f) s)
  unfolding ◌>>=◌
  Settles-continue (next a, s') f h k = k a s' refl h.holds
  Settles-continue (respond answer, s') f h k =
      inl (record { answer = answer; answered = refl; spends_nothing = h.holds.spending })

  Settles-bind :
      (m : Server → Outcome A × Server) (f : A → Server → Outcome Finished × Server) (s' : Server)
      → Holds (Before r.today s) (m s')
      → ((a : A) (s'' : Server)
          → m s' ≡ (next a, s'')
          → Before r.today s s''
          → Settles c r s (f a s''))
      → Settles c r s ((m >>= f) s')
  unfolding ◌>>=◌
  Settles-bind m f s' h k = Settles-continue (m s') f h k

shape-next : (c : Config) (r : Request) (s s' : Server) → check_shape c r s ≡ (next tt, s') → s' ≡ s
unfolding check_shape
shape-next c r s s' h = ground arith

key-next :
    (c : Config) (r : Request) (s s' : Server)
    → check_payment_idempotency c r s ≡ (next tt, s')
    → s' ≡ s
unfolding check_payment_idempotency
key-next c r s s' h = ground arith

tool-next :
    (c : Config) (r : Request) (receipt tool : Option ℕ) (s s' : Server) (f : Found)
    → enforce_mcp_payment_policy c r receipt tool s ≡ (next f, s')
    → f.receipt_id ≡ receipt
unfolding enforce_mcp_payment_policy ask_for_tool
tool-next c r receipt none s s' f h = ground arith
tool-next c r receipt (some tool) s s' f h =
    let w = bind-next (enforce_tool_policy c r tool) (ask_for_tool c r receipt) s s' f h in
    let found = found_with receipt w.value in
    let v =
      bind-next (enforce_mcp_hitl_policy c r found w.value) (λ _ x. (next found, x)) w.between s' f
        w.second in
    ground (arith, v.second)

settle-Settles :
    (c : Config) (r : Request) (f : Found) (s s' : Server)
    → IsBacked c r s.receipts f.receipt_id
    → Before r.today s s'
    → Settles c r s (settle c r f s')
unfolding settle finalize
settle-Settles c r f s s' b h =
    let stable = Before-Stable c r s in
    Settles-bind c r s (check_limits c r f) _ s' (Holds-check_limits stable f s' h) λ t s₁ e h₁.
      Settles-bind c r s (enforce_direct_hitl_policy c r f) (λ _. finalize c r f t) s₁
        (Holds-enforce_direct_hitl_policy stable f s₁ h₁)
        λ _ s₂ _ h₂.
          let p = next-IsCleared c r f s' t (ap (λ o. o.0) e) in
          let done = cleared-IsAuthorized c r f s s' s₂ t p h.spending h₂.spending in
          inr (record {
            finished = (finalize_authorized_payment c r f t s₂).0;
            went_on = refl;
            receipt = f.receipt_id;
            backed = b;
            authorized = done;
            marked =
                finalize-marked c r f t s₂ done.user done.agent b.id
                  (h₂.spending.users r.payment.user_id ∙ done.user_before)
                  (h₂.spending.agents r.payment.agent_id ∙ done.agent_before) b.named
                  (h₂.rows b.id (rw b.stored refl));
          })

-- A call of `/pay` either ends with an answer and spends nothing, so that every user's and every
-- agent's budget reads as it did, or it is finalized: then a stored, paid, unused and fresh receipt for
-- exactly the fee backs it, its amount is added to what its user and its agent have spent that day and
-- to no other budget, both within their caps, the receipt is marked used, and it is answered with
-- status 200.
pub authorize_payment-Settles :
    (c : Config) (r : Request) (s : Server)
    → IsRefused r s (authorize_payment c r s) ⊎ IsPaid c r s (authorize_payment c r s)
unfolding authorize_payment
authorize_payment-Settles c r s =
    let stable = Before-Stable c r s in
    let start : Before r.today s s = record {
      spending = record { users = λ j. refl; agents = λ j. refl };
      rows = λ k h. h;
    } in
    Settles-bind c r s (check_shape c r) _ s (Holds-check_shape stable s start) λ _ s₁ e₁ h₁.
      Settles-bind c r s (check_payment_idempotency c r) _ s₁
        (Holds-check_payment_idempotency stable s₁ h₁)
        λ _ s₂ e₂ h₂.
          Settles-bind c r s (validate_payment_receipt c r) _ s₂
            (Holds-validate_payment_receipt stable s₂ h₂)
            λ receipt s₃ e₃ h₃.
              Settles-bind c r s (check_allowed_tools c r) _ s₃
                (Holds-check_allowed_tools stable s₃ h₃)
                λ _ s₄ e₄ h₄.
                  Settles-bind c r s (enforce_mcp_payment_policy c r receipt r.payment.mcp_tool_id)
                    (settle c r) s₄
                    (Holds-enforce_mcp_payment_policy stable receipt r.payment.mcp_tool_id s₄ h₄)
                    λ f s₅ e₅ h₅.
                      let same : s₂ ≡ s = key-next c r s₁ s₂ e₂ ∙ shape-next c r s s₁ e₁ in
                      let backed = accepted-IsBacked c r s₂ receipt (ap (λ o. o.0) e₃) in
                      settle-Settles c r f s s₅
                        (rw (tool-next c r receipt r.payment.mcp_tool_id s₄ s₅ f e₅)
                          (subst (λ (x : Server). IsBacked c r x.receipts receipt) same backed))
                        h₅
