-- ===== src/Payment/AuditTrail.antt =====
-- The stages keep the audit log verifiable.
use Prim.Native.String.{String}
use safe4_arc_demo.Prelude.{
  ℕ, ◌≡◌, refl, ap, Option, none, some, Bool, true, false, List, arith, if◌then◌else◌,
}
use safe4_arc_demo.Anomaly.{Anomaly}
use safe4_arc_demo.Store.Audit.{AuditEntry, AuditEvent, append_audit_entry, verify_audit_chain}
use safe4_arc_demo.Store.Audit.Chain.{Numbered, append_audit_entry-verifies}
use safe4_arc_demo.Store.Budget.{Budget, update_spent_today}
use safe4_arc_demo.Payment.State.{Content, Request, Config, Server, Outcome, next, respond}
use safe4_arc_demo.Payment.Flow.{
  Denial, increment, log_denied, mark_receipt, audit_denied, write_audit_entry, save_answer,
  save_idempotent_response, deny_payment,
}
use safe4_arc_demo.Payment.Limits.{
  Found, Totals, refuse, check_agent, check_user, pair_totals, check_user_next, check_limits,
}
use safe4_arc_demo.Payment.Finalize.{
  write_records, write_authorized, save_authorized, record_transaction, log_authorized,
  record_anomaly, finish, finalize_authorized_payment, update_agent, anomaly_of,
  authorization_event, anomaly_event, authorized_body,
}

-- The log verifies, and its entries are numbered on from 1.
pub record IsSound (c : Config) (entries : List AuditEntry) : Type 0 where
  pub verifies : (verify_audit_chain c.sha256 entries).valid ≡ true
  pub numbered : Numbered 0 entries

pub append-IsSound :
    (c : Config) (e : AuditEvent) (entries : List AuditEntry)
    → IsSound c entries
    → IsSound c (append_audit_entry c.sha256 e entries).1
append-IsSound c e entries h =
    let (report, numbered) = append_audit_entry-verifies c.sha256 e entries h.verifies h.numbered in
    record { verifies = ap (λ x. x.valid) report; numbered = numbered }

pub written-IsSound :
    (c : Config) (e : AuditEvent) (s : Server)
    → IsSound c s.audit_entries
    → IsSound c (write_audit_entry c e s).audit_entries
unfolding write_audit_entry
written-IsSound c e s h = append-IsSound c e s.audit_entries h

audited-IsSound :
    (c : Config) (r : Request) (d : Denial) (reason : Option String) (s : Server)
    → IsSound c s.audit_entries
    → IsSound c (audit_denied c r d reason s).audit_entries
unfolding audit_denied
audited-IsSound c r d none s h = h
audited-IsSound c r d (some reason) s h = written-IsSound c _ s h

entries-before :
    (c : Config) (r : Request) (name reason : Option String) (id : Option ℕ) (s : Server)
    → (mark_receipt r id (log_denied c r reason (increment name s))).audit_entries ≡ s.audit_entries
unfolding mark_receipt log_denied increment
entries-before c r name reason id s = ground arith

pub entries-saved :
    (c : Config) (r : Request) (key : Option ℕ) (code : ℕ) (error : String) (s : Server)
    → (save_answer c r key code error s).audit_entries ≡ s.audit_entries
unfolding save_answer
entries-saved c r key code error s = ground arith

-- A refusal of any kind leaves a verifiable and numbered log verifiable and numbered.
pub deny_payment-IsSound :
    (c : Config) (r : Request) (d : Denial) (s : Server)
    → IsSound c s.audit_entries
    → IsSound c (deny_payment c r d s).1.audit_entries
unfolding deny_payment save_idempotent_response
deny_payment-IsSound c r d s h =
    let marked =
      mark_receipt r d.mark_receipt_id
        (log_denied c r d.append_log_reason (increment d.metric_name s)) in
    let audited = audit_denied c r d d.audit_reason marked in
    let before = entries-before c r d.metric_name d.append_log_reason d.mark_receipt_id s in
    rw (entries-saved c r r.idempotency_key d.status_code d.error_code audited)
      (audited-IsSound c r d d.audit_reason marked (rw before h))

record Sound {A : Type 0} (c : Config) (o : Outcome A × Server) : Type 0 where
  sound : IsSound c o.1.audit_entries

refuse-Sound :
    {A : Type 0} (c : Config) (r : Request) (d : Denial) (s : Server)
    → IsSound c s.audit_entries
    → Sound c (refuse {A = A} c r d s)
unfolding refuse
refuse-Sound c r d s h = record { sound = deny_payment-IsSound c r d s h }

if-Sound :
    {A : Type 0} (c : Config) (b : Bool) (o p : Outcome A × Server)
    → Sound c o
    → Sound c p
    → Sound c (if b then o else p)
if-Sound c true o p h k = h
if-Sound c false o p h k = k

next-Sound :
    {A : Type 0} (c : Config) (s : Server) (a : A) → IsSound c s.audit_entries → Sound c (next a, s)
next-Sound c s a h = record { sound = h }

agent-Sound :
    (c : Config) (r : Request) (f : Found) (b : Option Budget) (s : Server)
    → IsSound c s.audit_entries
    → Sound c (check_agent c r f b s)
unfolding check_agent
agent-Sound c r f none s h = refuse-Sound c r _ s h
agent-Sound c r f (some b) s h = search (if-Sound, refuse-Sound, next-Sound)

user-Sound :
    (c : Config) (r : Request) (f : Found) (b : Option Budget) (s : Server)
    → IsSound c s.audit_entries
    → Sound c (check_user c r f b s)
unfolding check_user
user-Sound c r f none s h = refuse-Sound c r _ s h
user-Sound c r f (some b) s h = search (if-Sound, refuse-Sound, next-Sound)

pair-Sound : (c : Config) (n : ℕ) (o : Outcome ℕ × Server) → Sound c o → Sound c (pair_totals n o)
unfolding pair_totals
pair-Sound c n (next t, s) h = record { sound = h.sound }
pair-Sound c n (respond a, s) h = record { sound = h.sound }

user_next-Sound :
    (c : Config) (r : Request) (f : Found) (o : Outcome ℕ × Server)
    → Sound c o
    → Sound c (check_user_next c r f o)
unfolding check_user_next
user_next-Sound c r f (respond a, s) h = record { sound = h.sound }
user_next-Sound c r f (next n, s) h = pair-Sound c n _ (user-Sound c r f _ _ h.sound)

-- Whatever the limits answer, they leave a verifiable and numbered log verifiable and numbered.
pub check_limits-IsSound :
    (c : Config) (r : Request) (f : Found) (s : Server)
    → IsSound c s.audit_entries
    → IsSound c (check_limits c r f s).1.audit_entries
unfolding check_limits
check_limits-IsSound c r f s h = (user_next-Sound c r f _ (agent-Sound c r f _ _ h)).sound

entries-recorded :
    (c : Config) (r : Request) (id : Option ℕ) (b a : Budget) (s : Server)
    → (log_authorized c r (mark_receipt r id (record_transaction c r b a s))).audit_entries
      ≡ s.audit_entries
unfolding log_authorized mark_receipt record_transaction
entries-recorded c r id b a s = ground arith

records-IsSound :
    (c : Config) (r : Request) (f : Found) (x : Anomaly) (b a : Budget) (s : Server)
    → IsSound c s.audit_entries
    → IsSound c (write_records c r f x b a s).audit_entries
unfolding write_records record_anomaly
records-IsSound c r f x b a s h =
    let logged = log_authorized c r (mark_receipt r f.receipt_id (record_transaction c r b a s)) in
    let audited = write_audit_entry c (authorization_event c r f) logged in
    written-IsSound c (anomaly_event c r f x) (record_anomaly r x audited) (
      written-IsSound c (authorization_event c r f) logged
        (rw (entries-recorded c r f.receipt_id b a s) h))

entries-counted :
    (c : Config) (r : Request) (key : Option ℕ) (body : Content) (name : Option String) (s : Server)
    → (save_authorized c r key body (increment name s)).audit_entries ≡ s.audit_entries
unfolding save_authorized increment
entries-counted c r key body name s = ground arith

finish-IsSound :
    (c : Config) (r : Request) (f : Found) (x : Anomaly) (b a : Option Budget) (s : Server)
    → IsSound c s.audit_entries
    → IsSound c (finish c r f x b a s).1.audit_entries
unfolding finish write_authorized
finish-IsSound c r f x none a s h = h
finish-IsSound c r f x (some b) none s h = h
finish-IsSound c r f x (some b) (some a) s h =
    rw
      (entries-counted c r r.idempotency_key (authorized_body c r b a)
        (some "payment_authorized_total") (write_records c r f x b a s))
      (records-IsSound c r f x b a s h)

entries-update_agent :
    (r : Request) (t : Totals) (b : Option Budget) (s : Server)
    → (update_agent r t b s).1.audit_entries ≡ s.audit_entries
entries-update_agent r t none s = refl
entries-update_agent r t (some b) s = refl

-- Finalization leaves a verifiable and numbered log verifiable and numbered, also where it ends with
-- the exception for a missing budget.
pub finalize-IsSound :
    (c : Config) (r : Request) (f : Found) (t : Totals) (s : Server)
    → IsSound c s.audit_entries
    → IsSound c (finalize_authorized_payment c r f t s).1.audit_entries
unfolding finalize_authorized_payment
finalize-IsSound c r f t s h =
    let (budget, budgets') =
      update_spent_today r.today r.payment.user_id t.projected_total s.budgets in
    let (agent_budget, s') = update_agent r t budget (record s { budgets = budgets' }) in
    finish-IsSound c r f (anomaly_of r s) budget agent_budget s'
      (rw (entries-update_agent r t budget (record s { budgets = budgets' })) h)
