-- ===== src/Payment/Authorize/Audit.antt =====
-- The audit log over a whole call.
use Prim.Native.String.{String}
use safe4_arc_demo.Prelude.{ℕ, ◌≡◌, refl, Option, arith}
use safe4_arc_demo.Payment.State.{Request, Config, Server}
use safe4_arc_demo.Payment.Flow.{increment, log_denied, mark_receipt}
use safe4_arc_demo.Payment.Hitl.{Escalation, store_approval}
use safe4_arc_demo.Payment.AuditTrail.{entries-saved, IsSound, written-IsSound, finalize-IsSound}
use safe4_arc_demo.Payment.Authorize.{authorize_payment}
use safe4_arc_demo.Payment.Authorize.Keeps.{Stable}
use safe4_arc_demo.Payment.Authorize.Stages.{Holds-authorize_payment}

pub entries-increment :
    (name : Option String) (s : Server) → (increment name s).audit_entries ≡ s.audit_entries
unfolding increment
entries-increment name s = ground arith

entries-log_denied :
    (c : Config) (r : Request) (reason : Option String) (s : Server)
    → (log_denied c r reason s).audit_entries ≡ s.audit_entries
unfolding log_denied
entries-log_denied c r reason s = ground arith

entries-mark_receipt :
    (r : Request) (id : Option ℕ) (s : Server)
    → (mark_receipt r id s).audit_entries ≡ s.audit_entries
unfolding mark_receipt
entries-mark_receipt r id s = ground arith

entries-store_approval :
    (c : Config) (r : Request) (e : Escalation) (s : Server)
    → (store_approval c r e s).audit_entries ≡ s.audit_entries
unfolding store_approval
entries-store_approval c r e s = refl

audit-Stable : (c : Config) (r : Request) → Stable c r (λ s. IsSound c s.audit_entries)
audit-Stable c r = record {
  counted = λ name s h. rw (entries-increment name s) h;
  logged = λ reason s h. rw (entries-log_denied c r reason s) h;
  marked = λ id s h. rw (entries-mark_receipt r id s) h;
  audited = λ e s h. written-IsSound c e s h;
  saved = λ key code error s h. rw (entries-saved c r key code error s) h;
  asked = λ e s h. rw (entries-store_approval c r e s) h;
  consumed = λ rows s h. h;
  agent_read = λ s h. h;
  user_read = λ s h. h;
}

-- A call of `/pay`, whatever it is answered, leaves a verifiable and numbered audit log verifiable
-- and numbered.
pub authorize_payment-IsSound :
    (c : Config) (r : Request) (s : Server)
    → IsSound c s.audit_entries
    → IsSound c (authorize_payment c r s).1.audit_entries
authorize_payment-IsSound c r s h =
    (Holds-authorize_payment (audit-Stable c r) (finalize-IsSound c r) s h).holds
