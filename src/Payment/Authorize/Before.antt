-- ===== src/Payment/Authorize/Before.antt =====
-- What holds up to finalization: nothing is spent, and no receipt is lost.
use safe4_arc_demo.Prelude.{is_some, true, none, some, ℕ, ◌≡◌, refl, ap, ◌∙◌, Option}
use safe4_arc_demo.Dict.{map_option}
use safe4_arc_demo.Store.Receipt.{Receipt, get_receipt, used}
use safe4_arc_demo.Store.Audit.{AuditEvent}
use safe4_arc_demo.Store.Budget.{get_agent_budget}
use safe4_arc_demo.Store.Budget.Laws.{view, get_budget-stable}
use safe4_arc_demo.Payment.State.{Request, Config, Server}
use safe4_arc_demo.Payment.Flow.{write_audit_entry}
use safe4_arc_demo.Payment.Flow.Frame.{
  accounts, accounts-increment, accounts-mark_receipt, accounts-log_denied, accounts-save_answer,
}
use safe4_arc_demo.Payment.Limits.Frame.{SpendsNothing}
use safe4_arc_demo.Payment.Hitl.{Escalation, store_approval}
use safe4_arc_demo.Payment.Authorize.Keeps.{Stable}
use safe4_arc_demo.Payment.Authorize.Receipts.{receipt-Stable}

same_accounts :
    (today : ℕ) (s s' s'' : Server)
    → accounts s'' ≡ accounts s'
    → SpendsNothing today s s'
    → SpendsNothing today s s''
same_accounts today s s' s'' e h = record {
  users = λ j. ap (λ a. view today j a.0) e ∙ h.users j;
  agents = λ j. ap (λ a. view today j a.1) e ∙ h.agents j;
}

accounts-write_audit_entry :
    (c : Config) (e : AuditEvent) (s : Server) → accounts (write_audit_entry c e s) ≡ accounts s
unfolding write_audit_entry
accounts-write_audit_entry c e s = refl

accounts-store_approval :
    (c : Config) (r : Request) (e : Escalation) (s : Server)
    → accounts (store_approval c r e s) ≡ accounts s
unfolding store_approval
accounts-store_approval c r e s = refl

spending-Stable : (c : Config) (r : Request) (s : Server) → Stable c r (SpendsNothing r.today s)
unfolding get_agent_budget
spending-Stable c r s = record {
  counted = λ name s' h. same_accounts r.today s s' _ (accounts-increment name s') h;
  logged = λ reason s' h. same_accounts r.today s s' _ (accounts-log_denied c r reason s') h;
  marked = λ id s' h. same_accounts r.today s s' _ (accounts-mark_receipt r id s') h;
  audited = λ e s' h. same_accounts r.today s s' _ (accounts-write_audit_entry c e s') h;
  saved = λ key code error s' h.
      same_accounts r.today s s' _ (accounts-save_answer c r key code error s') h;
  asked = λ e s' h. same_accounts r.today s s' _ (accounts-store_approval c r e s') h;
  consumed = λ rows s' h. record { users = h.users; agents = h.agents };
  agent_read = λ s' h. record {
    users = h.users;
    agents = λ j. get_budget-stable r.today r.payment.agent_id j s'.agent_budgets ∙ h.agents j;
  };
  user_read = λ s' h. record {
    users = λ j. get_budget-stable r.today r.payment.user_id j s'.budgets ∙ h.users j;
    agents = h.agents;
  };
}

-- What still holds before finalization: nothing is spent, and every receipt is there.
pub record Before (today : ℕ) (s s' : Server) : Type 0 where
  pub spending : SpendsNothing today s s'
  pub rows :
      (k : ℕ)
      → is_some (get_receipt k s.receipts) ≡ true
      → is_some (get_receipt k s'.receipts) ≡ true

IsThere : Option Receipt → Option Receipt → Type 0
IsThere before after = is_some before ≡ true → is_some after ≡ true

IsThere-marked :
    (before : Option Receipt) (now : ℕ) (o : Option Receipt)
    → IsThere before o
    → IsThere before (map_option (used now) o)
unfolding IsThere
IsThere-marked before now none h = h
IsThere-marked before now (some row) h = λ _. refl

pub Before-Stable : (c : Config) (r : Request) (s : Server) → Stable c r (Before r.today s)
unfolding IsThere
Before-Stable c r s =
    let sp = spending-Stable c r s in
    let row = λ (k : ℕ).
      receipt-Stable k (IsThere (get_receipt k s.receipts))
        (IsThere-marked (get_receipt k s.receipts)) c r in
    record {
      counted = λ n s' h. record {
        spending = sp.counted n s' h.spending;
        rows = λ k. (row k).counted n s' (h.rows k);
      };
      logged = λ n s' h. record {
        spending = sp.logged n s' h.spending;
        rows = λ k. (row k).logged n s' (h.rows k);
      };
      marked = λ n s' h. record {
        spending = sp.marked n s' h.spending;
        rows = λ k. (row k).marked n s' (h.rows k);
      };
      audited = λ n s' h. record {
        spending = sp.audited n s' h.spending;
        rows = λ k. (row k).audited n s' (h.rows k);
      };
      saved = λ n code error s' h. record {
        spending = sp.saved n code error s' h.spending;
        rows = λ k. (row k).saved n code error s' (h.rows k);
      };
      asked = λ n s' h. record {
        spending = sp.asked n s' h.spending;
        rows = λ k. (row k).asked n s' (h.rows k);
      };
      consumed = λ n s' h. record {
        spending = sp.consumed n s' h.spending;
        rows = λ k. (row k).consumed n s' (h.rows k);
      };
      agent_read = λ s' h. record {
        spending = sp.agent_read s' h.spending;
        rows = λ k. (row k).agent_read s' (h.rows k);
      };
      user_read = λ s' h. record {
        spending = sp.user_read s' h.spending;
        rows = λ k. (row k).user_read s' (h.rows k);
      };
    }
