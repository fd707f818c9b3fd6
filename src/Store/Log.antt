-- ===== src/Store/Log.antt =====
-- app/storage.py: the tables `transaction_logs` and `transaction_events`. The request's id and
-- address, its context and its latency are left out of a log line: nothing reads them back.
use Prim.Native.String.{String}
use safe4_arc_demo.Prelude.{
  ℕ, ◌+◌, ◌≡◌, Option, Bool, true, false, List, [], ◌∷◌, ◌++◌, arith, ◌==◌, leb, ◌&&◌, count_if,
  count_if-append, if◌then◌else◌, ◌∙◌,
}

pub data LogResult : Type 0 where
  authorized denied : LogResult

pub record LogLine : Type 0 where
  pub timestamp : ℕ
  pub transaction_id : Option ℕ
  pub agent_id : ℕ
  pub user_id : ℕ
  pub vendor : ℕ
  pub amount : ℕ
  pub currency : ℕ
  pub firewall_fee : ℕ
  pub result : LogResult
  pub reason : Option String
  pub idempotency_key : Option ℕ

unfoldable pub append_log : LogLine → List LogLine → List LogLine
append_log line rows = rows ++ line ∷ []

abbrev pub authorized? : LogResult → Bool
authorized? authorized = true
authorized? denied = false

unfoldable pub count_user_vendor_authorized_transactions : ℕ → ℕ → List LogLine → ℕ
count_user_vendor_authorized_transactions user_id vendor rows =
    count_if (λ l. (l.user_id == user_id) && ((l.vendor == vendor) && authorized? l.result)) rows

unfoldable pub count_agent_user_authorized_transactions : ℕ → ℕ → List LogLine → ℕ
count_agent_user_authorized_transactions agent_id user_id rows =
    count_if (λ l. (l.agent_id == agent_id) && ((l.user_id == user_id) && authorized? l.result))
      rows

pub record TransactionEvent : Type 0 where
  pub transaction_id : ℕ
  pub agent_id : ℕ
  pub user_id : ℕ
  pub created_at : ℕ

unfoldable pub record_transaction_event :
    ℕ → ℕ → ℕ → ℕ → List TransactionEvent → List TransactionEvent
record_transaction_event now transaction_id agent_id user_id rows =
    rows
    ++ record {
      transaction_id = transaction_id;
      agent_id = agent_id;
      user_id = user_id;
      created_at = now;
    }
      ∷ []

abbrev recent : ℕ → ℕ → ℕ → TransactionEvent → Bool
recent agent_id user_id window_start e =
    (e.agent_id == agent_id) && ((e.user_id == user_id) && leb window_start e.created_at)

unfoldable pub count_recent_transaction_events : ℕ → ℕ → ℕ → List TransactionEvent → ℕ
count_recent_transaction_events agent_id user_id window_start rows =
    count_if (recent agent_id user_id window_start) rows

-- Recording an event raises the recent count of its agent and user by one, if the window reaches
-- back at most to its time, and no other count.
pub count-record_transaction_event :
    (now tx a u b v start : ℕ) (rows : List TransactionEvent)
    → count_recent_transaction_events b v start (record_transaction_event now tx a u rows)
      ≡ count_recent_transaction_events b v start rows
        + (if (a == b) && ((u == v) && leb start now) then 1 else 0)
unfolding count_recent_transaction_events record_transaction_event
count-record_transaction_event now tx a u b v start rows =
    let e : TransactionEvent = record {
      transaction_id = tx;
      agent_id = a;
      user_id = u;
      created_at = now;
    } in
    count_if-append (recent b v start) rows (e ∷ []) ∙ omega arith
