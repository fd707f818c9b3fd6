-- ===== src/Payment/Authorize/Keeps.antt =====
-- A predicate on the server that survives every single write of the stages before finalization
-- survives each stage, whether it goes on or answers.
use Prim.Native.String.{String}
use safe4_arc_demo.Prelude.{ℕ, Option, none, some, Bool, true, false, if◌then◌else◌}
use safe4_arc_demo.Dict.{Dict}
use safe4_arc_demo.Store.Audit.{AuditEvent}
use safe4_arc_demo.Store.Budget.{get_budget, get_agent_budget}
use safe4_arc_demo.Store.SpendToken.{SpendToken}
use safe4_arc_demo.Payment.State.{Request, Config, Server, Outcome, next, respond}
use safe4_arc_demo.Payment.Exec.{◌>>=◌}
use safe4_arc_demo.Payment.Flow.{
  Denial, increment, log_denied, mark_receipt, write_audit_entry, audit_denied, save_answer,
  save_idempotent_response, deny_payment,
}
use safe4_arc_demo.Payment.Limits.{refuse}
use safe4_arc_demo.Payment.Hitl.{Escalation, store_approval}

-- What the writes of one call must keep.
pub record Stable (c : Config) (r : Request) (P : Server → Type 0) : Type 0 where
  pub counted : (name : Option String) (s : Server) → P s → P (increment name s)
  pub logged : (reason : Option String) (s : Server) → P s → P (log_denied c r reason s)
  pub marked : (id : Option ℕ) (s : Server) → P s → P (mark_receipt r id s)
  pub audited : (e : AuditEvent) (s : Server) → P s → P (write_audit_entry c e s)
  pub saved :
      (key : Option ℕ) (code : ℕ) (error : String) (s : Server)
      → P s
      → P (save_answer c r key code error s)
  pub asked : (e : Escalation) (s : Server) → P s → P (store_approval c r e s)
  pub consumed : (rows : Dict SpendToken) (s : Server) → P s → P (record s { spend_tokens = rows })
  pub agent_read :
      (s : Server)
      → P s
      → P (record s {
        agent_budgets = (get_agent_budget r.today r.payment.agent_id s.agent_budgets).1;
      })
  pub user_read :
      (s : Server)
      → P s
      → P (record s { budgets = (get_budget r.today r.payment.user_id s.budgets).1 })

pub record Holds {ℓ} {A : Type ℓ} (P : Server → Type 0) (o : Outcome A × Server) : Type ℓ where
  pub holds : P o.1

module _ {ℓ} {A : Type ℓ} {P : Server → Type 0} where
  pub Holds-if :
      (b : Bool) (o p : Outcome A × Server) → Holds P o → Holds P p → Holds P (if b then o else p)
  Holds-if true o p h k = h
  Holds-if false o p h k = k

  pub Holds-at : (o : Outcome A) (s : Server) → P s → Holds P (o, s)
  Holds-at o s h = record { holds = h }

module _ {ℓ κ} {A : Type ℓ} {B : Type κ} {P : Server → Type 0} where
  Holds-continue :
      (o : Outcome A × Server) (f : A → Server → Outcome B × Server)
      → Holds P o
      → ((a : A) (s : Server) → P s → Holds P (f a s))
      → Holds P (((λ (_ : Server). o) >>= f) o.1)
  unfolding ◌>>=◌
  Holds-continue (next a, s) f h k = k a s h.holds
  Holds-continue (respond answer, s) f h k = record { holds = h.holds }

  pub Holds-bind :
      (m : Server → Outcome A × Server) (f : A → Server → Outcome B × Server) (s : Server)
      → Holds P (m s)
      → ((a : A) (s : Server) → P s → Holds P (f a s))
      → Holds P ((m >>= f) s)
  unfolding ◌>>=◌
  Holds-bind m f s h k = Holds-continue (m s) f h k

module _ {c : Config} {r : Request} {P : Server → Type 0} (stable : Stable c r P) where
  kept_denied :
      (d : Denial) (reason : Option String) (s : Server) → P s → P (audit_denied c r d reason s)
  unfolding audit_denied
  kept_denied d none s h = h
  kept_denied d (some reason) s h = stable.audited _ s h

  pub kept_answer :
      (code : ℕ) (error : String) (s : Server)
      → P s
      → P (save_idempotent_response c r code error s).1
  unfolding save_idempotent_response
  kept_answer code error s h = stable.saved r.idempotency_key code error s h

  pub kept_denial : (d : Denial) (s : Server) → P s → P (deny_payment c r d s).1
  unfolding deny_payment
  kept_denial d s h = kept_answer d.status_code d.error_code _ (
      kept_denied d d.audit_reason _ (
        stable.marked d.mark_receipt_id _
          (stable.logged d.append_log_reason _ (stable.counted d.metric_name s h))))

  pub Holds-refuse : {A : Type 0} (d : Denial) (s : Server) → P s → Holds P (refuse {A = A} c r d s)
  unfolding refuse
  Holds-refuse d s h = record { holds = kept_denial d s h }
