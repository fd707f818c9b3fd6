-- ===== src/Payment/Finalize/Replay.antt =====
-- What a repeated call is answered after an authorization.
use safe4_arc_demo.Prelude.{ℕ, ◌≡◌, ap, ◌∙◌, Option, some, arith, ==-refl}
use safe4_arc_demo.Anomaly.{Anomaly}
use safe4_arc_demo.Store.Budget.{Budget}
use safe4_arc_demo.Store.Budget.Laws.{view, spent_as}
use safe4_arc_demo.Store.Idempotency.{get-save_idempotency}
use safe4_arc_demo.Payment.State.{Content, Request, Config, Response, Server, respond}
use safe4_arc_demo.Payment.Flow.{increment}
use safe4_arc_demo.Payment.Entry.{check_payment_idempotency}
use safe4_arc_demo.Payment.Limits.{Found, Totals}
use safe4_arc_demo.Payment.Finalize.{
  completed, authorized_body, save_authorized, write_records, write_authorized, anomaly_of,
  finalize_authorized_payment,
}
use safe4_arc_demo.Payment.Finalize.Effects.{finalize-completed}

saved-replayed :
    (c : Config) (r : Request) (o : Option ℕ) (key : ℕ) (body : Content) (s : Server)
    → o ≡ some key
    → r.idempotency_key ≡ some key
    → (check_payment_idempotency c r (save_authorized c r o body s)).0
      ≡ respond (record { status_code = 200; content = body })
unfolding check_payment_idempotency save_authorized
saved-replayed c r o key body s e h = ground (
  arith,
  e,
  h,
  get-save_idempotency key key (c.hash_request r.payment) 200 body s.idempotency,
  ==-refl (c.hash_request r.payment),
)

written-replayed :
    (c : Config) (r : Request) (f : Found) (x : Anomaly) (b a : Budget) (key : ℕ) (s : Server)
    → r.idempotency_key ≡ some key
    → (check_payment_idempotency c r (write_authorized c r f x b a s)).0
      ≡ respond (record { status_code = 200; content = authorized_body c r b a })
unfolding write_authorized
written-replayed c r f x b a key s h =
    saved-replayed c r r.idempotency_key key (authorized_body c r b a)
      (increment (some "payment_authorized_total") (write_records c r f x b a s)) h h

-- Where both budgets are there, finalization under an idempotency key answers with status 200 and the
-- object of the authorization, and the same call made again is answered at once with the same status
-- and the same object.
pub finalize-replayed :
    (c : Config) (r : Request) (f : Found) (t : Totals) (s : Server) (b a : Budget) (key : ℕ)
    → r.idempotency_key ≡ some key
    → view r.today r.payment.user_id s.budgets ≡ some b
    → view r.today r.payment.agent_id s.agent_budgets ≡ some a
    → let (answer, s') = finalize_authorized_payment c r f t s in
      let first : Response = record {
        status_code = 200;
        content =
            authorized_body c r (spent_as t.projected_total b) (spent_as t.projected_agent_total a);
      } in
      (answer ≡ completed first) × ((check_payment_idempotency c r s').0 ≡ respond first)
finalize-replayed c r f t s b a key h u v =
    let done = finalize-completed c r f t s b a u v in
    (
      ap (λ o. o.0) done,
      ap (λ o. (check_payment_idempotency c r o.1).0) done
          ∙ written-replayed c r f (anomaly_of r s) (spent_as t.projected_total b)
              (spent_as t.projected_agent_total a) key _ h,
    )
