-- ===== src/Payment/Authorize/Receipts.antt =====
-- The rows of the receipts over a whole call: they are marked used, and nothing else.
use Prim.Native.String.{String}
use safe4_arc_demo.Prelude.{
  ℕ, ◌≡◌, refl, Option, none, some, Bool, true, false, arith, ◌==◌, is_some, if◌then◌else◌,
}
use safe4_arc_demo.Dict.{map_option}
use safe4_arc_demo.Anomaly.{Anomaly}
use safe4_arc_demo.Store.Audit.{AuditEvent}
use safe4_arc_demo.Store.Budget.{Budget, update_spent_today}
use safe4_arc_demo.Store.Budget.Laws.{view, spent_as}
use safe4_arc_demo.Store.Receipt.{Receipt, get_receipt, used, get-mark_receipt_used}
use safe4_arc_demo.Payment.State.{Content, Request, Config, Server}
use safe4_arc_demo.Payment.Flow.{
  increment, log_denied, mark_receipt, save_answer, write_audit_entry,
}
use safe4_arc_demo.Payment.Hitl.{Escalation, store_approval}
use safe4_arc_demo.Payment.Limits.{Found, Totals}
use safe4_arc_demo.Payment.Finalize.{
  authorized_body, record_transaction, log_authorized, record_anomaly, save_authorized,
  write_records, write_authorized, anomaly_of, finish, update_agent, finalize_authorized_payment,
}
use safe4_arc_demo.Payment.Finalize.Effects.{finalize-completed}
use safe4_arc_demo.Payment.Authorize.Keeps.{Stable}

receipts-increment : (name : Option String) (s : Server) → (increment name s).receipts ≡ s.receipts
unfolding increment
receipts-increment name s = ground arith

receipts-log_denied :
    (c : Config) (r : Request) (reason : Option String) (s : Server)
    → (log_denied c r reason s).receipts ≡ s.receipts
unfolding log_denied
receipts-log_denied c r reason s = ground arith

receipts-write_audit_entry :
    (c : Config) (e : AuditEvent) (s : Server) → (write_audit_entry c e s).receipts ≡ s.receipts
unfolding write_audit_entry
receipts-write_audit_entry c e s = refl

receipts-save_answer :
    (c : Config) (r : Request) (key : Option ℕ) (code : ℕ) (error : String) (s : Server)
    → (save_answer c r key code error s).receipts ≡ s.receipts
unfolding save_answer
receipts-save_answer c r key code error s = ground arith

receipts-store_approval :
    (c : Config) (r : Request) (e : Escalation) (s : Server)
    → (store_approval c r e s).receipts ≡ s.receipts
unfolding store_approval
receipts-store_approval c r e s = refl

receipts-save_authorized :
    (c : Config) (r : Request) (key : Option ℕ) (body : Content) (s : Server)
    → (save_authorized c r key body s).receipts ≡ s.receipts
unfolding save_authorized
receipts-save_authorized c r key body s = ground arith

receipts-write_records :
    (c : Config) (r : Request) (f : Found) (x : Anomaly) (b a : Budget) (s : Server)
    → (write_records c r f x b a s).receipts
      ≡ (mark_receipt r f.receipt_id (record_transaction c r b a s)).receipts
unfolding write_records log_authorized record_anomaly write_audit_entry
receipts-write_records c r f x b a s = refl

-- The receipt is there and marked used.
abbrev pub marked? : Option Receipt → Bool
marked? none = false
marked? (some row) = is_some row.used_at

module _ (k : ℕ) (Q : Option Receipt → Type 0)
    (q : (now : ℕ) (o : Option Receipt) → Q o → Q (map_option (used now) o)) where
  if-Q :
      (b : Bool) (now : ℕ) (o : Option Receipt) → Q o → Q (if b then map_option (used now) o else o)
  if-Q true now o h = q now o h
  if-Q false now o h = h

  marked-Q :
      (r : Request) (id : Option ℕ) (s : Server)
      → Q (get_receipt k s.receipts)
      → Q (get_receipt k (mark_receipt r id s).receipts)
  unfolding mark_receipt
  marked-Q r none s h = h
  marked-Q r (some id) s h =
      rw (get-mark_receipt_used r.now id k s.receipts)
        (if-Q (id == k) r.now (get_receipt k s.receipts) h)

  -- A property of a row that marking it used keeps.
  pub receipt-Stable : (c : Config) (r : Request) → Stable c r (λ s. Q (get_receipt k s.receipts))
  receipt-Stable c r = record {
    counted = λ name s h. rw (receipts-increment name s) h;
    logged = λ reason s h. rw (receipts-log_denied c r reason s) h;
    marked = λ id s h. marked-Q r id s h;
    audited = λ e s h. rw (receipts-write_audit_entry c e s) h;
    saved = λ key code error s h. rw (receipts-save_answer c r key code error s) h;
    asked = λ e s h. rw (receipts-store_approval c r e s) h;
    consumed = λ rows s h. h;
    agent_read = λ s h. h;
    user_read = λ s h. h;
  }

  written-Q :
      (c : Config) (r : Request) (f : Found) (x : Anomaly) (b a : Budget) (s : Server)
      → Q (get_receipt k s.receipts)
      → Q (get_receipt k (write_authorized c r f x b a s).receipts)
  unfolding write_authorized record_transaction
  written-Q c r f x b a s h =
      rw
        (
          receipts-save_authorized c r r.idempotency_key (authorized_body c r b a)
              (increment (some "payment_authorized_total") (write_records c r f x b a s)),
          receipts-increment (some "payment_authorized_total") (write_records c r f x b a s),
          receipts-write_records c r f x b a s,
        )
        (marked-Q r f.receipt_id (record_transaction c r b a s) h)

  finish-Q :
      (c : Config) (r : Request) (f : Found) (x : Anomaly) (b a : Option Budget) (s : Server)
      → Q (get_receipt k s.receipts)
      → Q (get_receipt k (finish c r f x b a s).1.receipts)
  unfolding finish
  finish-Q c r f x none a s h = h
  finish-Q c r f x (some b) none s h = h
  finish-Q c r f x (some b) (some a) s h = written-Q c r f x b a s h

  agent-Q :
      (r : Request) (t : Totals) (b : Option Budget) (s : Server)
      → Q (get_receipt k s.receipts)
      → Q (get_receipt k (update_agent r t b s).1.receipts)
  agent-Q r t none s h = h
  agent-Q r t (some b) s h = h

  pub finalize-Q :
      (c : Config) (r : Request) (f : Found) (t : Totals) (s : Server)
      → Q (get_receipt k s.receipts)
      → Q (get_receipt k (finalize_authorized_payment c r f t s).1.receipts)
  unfolding finalize_authorized_payment
  finalize-Q c r f t s h =
      let (budget, budgets') =
        update_spent_today r.today r.payment.user_id t.projected_total s.budgets in
      let (agent_budget, s') = update_agent r t budget (record s { budgets = budgets' }) in
      finish-Q c r f (anomaly_of r s) budget agent_budget s'
        (agent-Q r t budget (record s { budgets = budgets' }) h)

-- Marking a row that is there marks it.
marked-there :
    (r : Request) (o : Option ℕ) (id : ℕ) (s : Server)
    → o ≡ some id
    → is_some (get_receipt id s.receipts) ≡ true
    → marked? (get_receipt id (mark_receipt r o s).receipts) ≡ true
unfolding mark_receipt
marked-there r none id s e h = absurd (ground arith)
marked-there r (some k) id s e h = ground (arith, e, h, get-mark_receipt_used r.now k id s.receipts)

written-marked :
    (c : Config) (r : Request) (f : Found) (x : Anomaly) (b a : Budget) (id : ℕ) (s : Server)
    → f.receipt_id ≡ some id
    → is_some (get_receipt id s.receipts) ≡ true
    → marked? (get_receipt id (write_authorized c r f x b a s).receipts) ≡ true
unfolding write_authorized record_transaction
written-marked c r f x b a id s e h =
    rw
      (
        receipts-save_authorized c r r.idempotency_key (authorized_body c r b a)
            (increment (some "payment_authorized_total") (write_records c r f x b a s)),
        receipts-increment (some "payment_authorized_total") (write_records c r f x b a s),
        receipts-write_records c r f x b a s,
      )
      (marked-there r f.receipt_id id (record_transaction c r b a s) e h)

-- Finalization marks the receipt that it is given, where both budgets are there.
pub finalize-marked :
    (c : Config) (r : Request) (f : Found) (t : Totals) (s : Server) (b a : Budget) (id : ℕ)
    → view r.today r.payment.user_id s.budgets ≡ some b
    → view r.today r.payment.agent_id s.agent_budgets ≡ some a
    → f.receipt_id ≡ some id
    → is_some (get_receipt id s.receipts) ≡ true
    → marked? (get_receipt id (finalize_authorized_payment c r f t s).1.receipts) ≡ true
finalize-marked c r f t s b a id u v e h = rw (finalize-completed c r f t s b a u v) (
    written-marked c r f (anomaly_of r s) (spent_as t.projected_total b)
      (spent_as t.projected_agent_total a) id _ e h)
