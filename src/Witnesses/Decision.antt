-- ===== src/Witnesses/Decision.antt =====
-- The theorems on the payment decision, for one server, one payment and its receipt and token.
use safe4_arc_demo.Prelude.{
  ◌*◌, true, ◌+◌, ◌≡◌, refl, none, some, false, [], ◌∷◌, ◌==◌, if◌then◌else◌,
}
use safe4_arc_demo.Anomaly.{Threshold}
use safe4_arc_demo.Dict.{lookup, adjust}
use safe4_arc_demo.Money.{compute_firewall_fee, normalize_money, add_money}
use safe4_arc_demo.Text.{
  normalize_text, ascii_lower, strip, drop_while, drop_while_end, tokens_from, find_tokens,
}
use safe4_arc_demo.Intent.{missing, evaluate_payment_intent, decision}
use safe4_arc_demo.Store.Budget.{
  BudgetRow, Budget, get_budget, get_agent_budget, snapshot, current_spent,
}
use safe4_arc_demo.Store.Budget.Laws.{view, spent_as}
use safe4_arc_demo.Store.Receipt.{paid, Receipt, get_receipt}
use safe4_arc_demo.Store.Log.{count_recent_transaction_events}
use safe4_arc_demo.Store.SpendToken.{SpendToken, get_spend_token, consume_spend_token}
use safe4_arc_demo.Payment.State.{
  Payment, signed, Request, Config, json, printed, Response, Server, next, respond,
}
use safe4_arc_demo.Payment.Flow.{Denial, deny_payment}
use safe4_arc_demo.Payment.Entry.{
  check_payment_idempotency, parse_and_validate_receipt_token, verify,
  append_x402_verification_audit_entry, receipt_answer, validate_payment_receipt,
}
use safe4_arc_demo.Payment.Entry.Receipts.{IsBacked, accepted-IsBacked}
use safe4_arc_demo.Payment.Entry.Replay.{deny_payment-replayed}
use safe4_arc_demo.Payment.Limits.{
  Found, Totals, check_agent, check_user, pair_totals, check_user_next, check_limits,
}
use safe4_arc_demo.Payment.Limits.Passing.{IsCleared, next-IsCleared, IsCleared-next}
use safe4_arc_demo.Payment.Limits.Race.{store_total, interleaved-lost_update}
use safe4_arc_demo.Payment.SpendGrant.{
  forbid, mismatches, validate_row, validate_and_consume_spend_token,
}
use safe4_arc_demo.Payment.SpendGrant.Exact.{IsGranted, next-IsGranted, IsGranted-once}
use safe4_arc_demo.Store.Audit.{verify_audit_chain}
use safe4_arc_demo.Payment.Finalize.{completed, authorized_body, finalize_authorized_payment}
use safe4_arc_demo.Payment.Finalize.Replay.{finalize-replayed}
use safe4_arc_demo.Payment.AuditTrail.{IsSound}

abbrev pub config : Config
config = record {
  fee_rate = 5000;
  pay_to = 9;
  velocity_limit = 3;
  velocity_window = 60;
  min_description_words = 0;
  policy_version = 1;
  unknown_server_hitl_threshold = 1000;
  hitl_approval_ttl = 300;
  spend_token_ttl = 300;
  receipt_admin_secret = 77;
  oauth_only_max_amount = none;
  anomaly_hitl_min_severity = Threshold.disabled;
  anomaly_deny_min_severity = Threshold.disabled;
  budget_alert_thresholds = 500000 ∷ [];
  sha256 = λ _. 0;
  hash_request = λ p. p.amount;
  hash_token = λ t. t;
  sign = λ id pay_to amount currency expires. id + amount;
  intent_reason = λ _. "reason";
  unicode = record { nfkd = λ t. t; is_space = λ c. c == 32 };
  is_uuid4 = λ _. true;
  vendor_matches = λ _ _. false;
  rule_trigger = λ _. "hitl_rule";
  tool_key = λ server name. server * 1000 + name;
  patterns = record {
    is_critical_text = λ _. false;
    is_high_text = λ _. false;
    is_payment_text = λ _. true;
  };
}

abbrev pub payment : Payment
payment = record {
  agent_id = 1;
  user_id = 2;
  vendor = 3;
  amount = 400;
  currency = 4;
  description = [];
  intent = missing;
  mcp_tool_id = none;
  mcp_action = none;
  scope_of_autonomy = none;
}

abbrev pub request : Request
request = record {
  payment = payment;
  receipt_token = some (signed 5 7);
  idempotency_key = some 8;
  spend_token = some 6;
  token_agent_id = none;
  now = 100;
  today = 7;
  day_start = 90;
  transaction_id = 20;
  anomaly_id = 21;
  approval_id = 22;
}

abbrev fee_receipt : Receipt
fee_receipt = record {
  status = paid;
  pay_to = 9;
  used_at = none;
  amount_due = 2;
  currency = 4;
  expires_at = some 200;
}

abbrev token : SpendToken
token = record {
  request_hash = 400;
  user_id = 2;
  agent_id = 1;
  mcp_tool_id = none;
  authorized_amount = 400;
  authorized_currency = 4;
  authorized_action = none;
  expires_at = 200;
  is_used = false;
  used_at = none;
  revoked = false;
  created_at = 50;
}

abbrev spent : BudgetRow
spent = record { daily_cap = 1000; transaction_cap = 500; spent_today = 300; spent_date = 7 }

abbrev pub server : Server
server = record {
  budgets = (2, spent) ∷ [];
  agent_budgets = (1, spent) ∷ [];
  receipts = (5, fee_receipt) ∷ [];
  idempotency = [];
  logs = [];
  events = [];
  audit_entries = [];
  spend_tokens = (6, token) ∷ [];
  approvals = [];
  hitl_rules = [];
  budget_alerts = [];
  mcp_servers = [];
  mcp_tools = [];
  permissions = λ _ _. none;
  usage = [];
  anomalies = [];
  profiles = [];
  metrics = [];
}

receipt-passes : (validate_payment_receipt config request server).0 ≡ next (some 5)
unfolding validate_payment_receipt parse_and_validate_receipt_token verify receipt_answer
    append_x402_verification_audit_entry get_receipt lookup compute_firewall_fee normalize_money
receipt-passes = refl

accepted-IsBacked_example : IsBacked config request server.receipts (some 5)
accepted-IsBacked_example = accepted-IsBacked config request server (some 5) receipt-passes

abbrev over_cap : Denial
over_cap = record {
  status_code = 403;
  error_code = "DAILY_CAP_EXCEEDED";
  metric_name = some "payment_denied_daily_cap_total";
  append_log_reason = some "Transaction exceeds daily budget.";
  mark_receipt_id = some 5;
  audit_reason = some "Transaction exceeds daily budget.";
  extra_audit_details = [];
  mcp_server_id = none;
  mcp_tool_id = none;
  mcp_tool_name = none;
}

deny_payment-replayed_example :
    ((deny_payment config request over_cap server).0
      ≡ record { status_code = 403; content = json "DAILY_CAP_EXCEEDED" })
    × ((check_payment_idempotency config request (deny_payment config request over_cap server).1).0
        ≡ respond (
            if config.hash_request payment == config.hash_request payment
            then record { status_code = 403; content = printed "DAILY_CAP_EXCEEDED" }
            else record { status_code = 409; content = json "IDEMPOTENCY_KEY_REUSED" }))
deny_payment-replayed_example =
    deny_payment-replayed config request request over_cap server 8 refl refl

abbrev found : Found
found = record { receipt_id = some 5; mcp_server_id = none; mcp_tool_name = none }

abbrev totals : Totals
totals = record { projected_total = 700; projected_agent_total = 700 }

limits-pass : (check_limits config request found server).0 ≡ next totals
unfolding check_limits check_user_next pair_totals check_agent check_user get_agent_budget
    get_budget snapshot current_spent lookup add_money normalize_money
    count_recent_transaction_events evaluate_payment_intent decision normalize_text ascii_lower
    strip drop_while drop_while_end find_tokens tokens_from
limits-pass = refl

limits-pass_again :
    (check_limits config request found (check_limits config request found server).1).0 ≡ next totals
unfolding check_limits check_user_next pair_totals check_agent check_user get_agent_budget
    get_budget snapshot current_spent lookup adjust add_money normalize_money
    count_recent_transaction_events evaluate_payment_intent decision normalize_text ascii_lower
    strip drop_while drop_while_end find_tokens tokens_from
limits-pass_again = refl

next-IsCleared_example : IsCleared config request server totals
next-IsCleared_example = next-IsCleared config request found server totals limits-pass

IsCleared-next_example : (check_limits config request found server).0 ≡ next totals
IsCleared-next_example = IsCleared-next config request found server totals next-IsCleared_example

abbrev pub before : Budget
before = record { daily_cap = 1000; transaction_cap = 500; spent_today = 300 }

pub budget-seen : view 7 2 server.budgets ≡ some before
unfolding get_budget snapshot current_spent lookup
budget-seen = refl

interleaved-lost_update_example :
    let s' = (check_limits config request found (check_limits config request found server).1).1 in
    (view 7 2 (store_total request totals (store_total request totals s'.budgets))
      ≡ some (spent_as (300 + 400) before))
    × (view 7 2 (store_total request totals (store_total request totals s'.budgets))
        ≡ some (spent_as (300 + 400) before))
interleaved-lost_update_example =
    interleaved-lost_update config request request found found server totals totals before refl refl
      budget-seen limits-pass limits-pass_again

token-passes : (validate_and_consume_spend_token config request none none server).0 ≡ next tt
unfolding validate_and_consume_spend_token validate_row mismatches get_spend_token lookup
    consume_spend_token
token-passes = refl

next-IsGranted_example : IsGranted config request none none server
next-IsGranted_example = next-IsGranted config request none none server token-passes

IsGranted-once_example :
    let (answer, s') = validate_and_consume_spend_token config request none none server in
    (answer ≡ next tt)
    × ((validate_and_consume_spend_token config request none none s').0
        ≡ forbid "SPEND_TOKEN_INVALID")
IsGranted-once_example =
    IsGranted-once config request request none none none none server next-IsGranted_example refl

pub empty-IsSound : IsSound config []
unfolding verify_audit_chain
empty-IsSound = record { verifies = refl; numbered = tt }

pub agent-seen : view 7 1 server.agent_budgets ≡ some before
unfolding get_budget snapshot current_spent lookup
agent-seen = refl

finalize-replayed_example :
    let (answer, s') = finalize_authorized_payment config request found totals server in
    let first : Response = record {
      status_code = 200;
      content = authorized_body config request (spent_as 700 before) (spent_as 700 before);
    } in
    (answer ≡ completed first) × ((check_payment_idempotency config request s').0 ≡ respond first)
finalize-replayed_example =
    finalize-replayed config request found totals server before before 8 refl budget-seen agent-seen
