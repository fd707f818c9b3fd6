-- ===== src/Payment/Flow/Frame.antt =====
-- A refusal spends nothing: it leaves both tables of budgets as they were.
use safe4_arc_demo.Prelude.{ℕ, ◌≡◌, Option, arith, ◌∙◌}
use Prim.Native.String.{String}
use safe4_arc_demo.Dict.{Dict}
use safe4_arc_demo.Store.Budget.{BudgetRow}
use safe4_arc_demo.Payment.State.{Request, Config, Server}
use safe4_arc_demo.Payment.Flow.{
  Denial, increment, log_denied, mark_receipt, audit_denied, write_audit_entry, save_answer,
  save_idempotent_response, deny_payment,
}

-- The budgets of the users and of the agents.
abbrev pub accounts : Server → Dict BudgetRow × Dict BudgetRow
accounts s = (s.budgets, s.agent_budgets)

pub accounts-increment :
    (name : Option String) (s : Server) → accounts (increment name s) ≡ accounts s
unfolding increment
accounts-increment name s = ground arith

pub accounts-log_denied :
    (c : Config) (r : Request) (reason : Option String) (s : Server)
    → accounts (log_denied c r reason s) ≡ accounts s
unfolding log_denied
accounts-log_denied c r reason s = ground arith

pub accounts-mark_receipt :
    (r : Request) (id : Option ℕ) (s : Server) → accounts (mark_receipt r id s) ≡ accounts s
unfolding mark_receipt
accounts-mark_receipt r id s = ground arith

accounts-audit_denied :
    (c : Config) (r : Request) (d : Denial) (reason : Option String) (s : Server)
    → accounts (audit_denied c r d reason s) ≡ accounts s
unfolding audit_denied write_audit_entry
accounts-audit_denied c r d reason s = ground arith

pub accounts-save_answer :
    (c : Config) (r : Request) (key : Option ℕ) (code : ℕ) (error : String) (s : Server)
    → accounts (save_answer c r key code error s) ≡ accounts s
unfolding save_answer
accounts-save_answer c r key code error s = ground arith

pub accounts-deny_payment :
    (c : Config) (r : Request) (d : Denial) (s : Server)
    → accounts (deny_payment c r d s).1 ≡ accounts s
unfolding deny_payment save_idempotent_response
accounts-deny_payment c r d s =
    accounts-save_answer c r r.idempotency_key d.status_code d.error_code _
    ∙ accounts-audit_denied c r d d.audit_reason _
    ∙ accounts-mark_receipt r d.mark_receipt_id _
    ∙ accounts-log_denied c r d.append_log_reason _
    ∙ accounts-increment d.metric_name s
