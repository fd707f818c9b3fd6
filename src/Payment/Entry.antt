-- ===== src/Payment/Entry.antt =====
-- app/payment_entry_checks.py, `parse_and_validate_receipt_token` of app/main.py and
-- `SignedReceiptFallbackVerifier` of app/protocols/x402.py. Of the details of the verification's
-- audit entry the latency is left out.
pub mod Receipts
pub mod Replay
use Prim.Native.String.{String}
use safe4_arc_demo.Prelude.{
  ℕ, Option, none, some, Bool, true, false, List, [], ◌∷◌, ◌++◌, ◌==◌, leb, not, if◌then◌else◌,
  ◌&&◌, ◌||◌, is_some, same?,
}
use safe4_arc_demo.Dict.{Dict}
use safe4_arc_demo.Money.{compute_firewall_fee}
use safe4_arc_demo.Store.Value.{Value, Details, text, opaque_text, opaque?, null, number}
use safe4_arc_demo.Store.Receipt.{ReceiptStatus, paid, other_status, Receipt, get_receipt}
use safe4_arc_demo.Store.Idempotency.{IdempotencyRecord, get_idempotency}
use safe4_arc_demo.Payment.State.{
  ReceiptToken, no_dot, signed, Request, Config, Content, json, Response, Server, Outcome, next,
  respond,
}
use safe4_arc_demo.Payment.Flow.{
  Denial, increment, write_audit_entry, answer_event, deny_payment, payment_required_response,
}

abbrev pub replay :
    Config → Request → Option (IdempotencyRecord Content) → Server → Outcome (Unit {0}) × Server
replay c r none s = (next tt, s)
replay c r (some stored) s =
    if not (stored.request_hash == c.hash_request r.payment)
    then (
      respond (record { status_code = 409; content = json "IDEMPOTENCY_KEY_REUSED" }),
      increment (some "payment_idempotency_conflict_total") s,
    )
    else (
      respond (record { status_code = stored.status_code; content = stored.response_body }),
      increment (some "payment_idempotency_replay_total") s,
    )

unfoldable pub check_payment_idempotency : Config → Request → Server → Outcome (Unit {0}) × Server
check_payment_idempotency c r s = elim r.idempotency_key [
  | none ↦ (next tt, s)
  | some key ↦ replay c r (get_idempotency key s.idempotency) s
]

unfoldable pub parse_and_validate_receipt_token :
    Config → Option ReceiptToken → Dict Receipt → Option ℕ × Option Receipt
parse_and_validate_receipt_token c none rows = (none, none)
parse_and_validate_receipt_token c (some no_dot) rows = (none, none)
parse_and_validate_receipt_token c (some (signed id signature)) rows = elim (get_receipt id rows) [
  | none ↦ (some id, none)
  | some row ↦
      if signature == c.sign id row.pay_to row.amount_due row.currency row.expires_at
      then (some id, some row)
      else (some id, none)
]

pub data Verdict : Type 0 where
  payment_required already_used expired mismatch accepted : Verdict

abbrev pub paid? : ReceiptStatus → Bool
paid? paid = true
paid? (other_status _) = false

abbrev pub expired? : ℕ → Option ℕ → Bool
expired? now none = false
expired? now (some at) = leb at now

-- `SignedReceiptFallbackVerifier.verify`, on the parsed receipt.
unfoldable pub verify : Config → Request → Option Receipt → Verdict
verify c r none = payment_required
verify c r (some row) =
    if not (paid? row.status) || not (row.pay_to == c.pay_to)
    then payment_required
    else if is_some row.used_at
    then already_used
    else if expired? r.now row.expires_at
    then expired
    else if not (row.amount_due == compute_firewall_fee c.fee_rate r.payment.amount)
        || not (row.currency == r.payment.currency)
    then mismatch
    else accepted

abbrev pub verdict_text : Verdict → String
verdict_text payment_required = "payment_required"
verdict_text already_used = "already_used"
verdict_text expired = "expired"
verdict_text mismatch = "mismatch"
verdict_text accepted = "accepted"

abbrev pub reason_code : Verdict → Option String
reason_code payment_required = some "PAYMENT_REQUIRED"
reason_code already_used = some "PAYMENT_RECEIPT_ALREADY_USED"
reason_code expired = some "PAYMENT_RECEIPT_EXPIRED"
reason_code mismatch = some "PAYMENT_RECEIPT_MISMATCH"
reason_code accepted = none

abbrev or_accepted : Option String → String
or_accepted none = "X402_RECEIPT_ACCEPTED"
or_accepted (some code) = code

abbrev status_value : ReceiptStatus → Value
status_value paid = text "paid"
status_value (other_status t) = opaque_text t

abbrev receipt_fields : Option Receipt → Details
receipt_fields none = []
receipt_fields (some row) =
    ("currency", opaque_text row.currency)
    ∷ ("status", status_value row.status)
    ∷ ("expires_at", opaque? row.expires_at)
    ∷ ("used_at", opaque? row.used_at)
    ∷ []

unfoldable pub append_x402_verification_audit_entry :
    Config → Request → Option ℕ → Option Receipt → Verdict → Server → Server
append_x402_verification_audit_entry c r id row v =
    let details : Details =
      ("reason_code", text (or_accepted (reason_code v)))
      ∷ ("receipt_id", opaque? id)
      ∷ ("receipt_source", text "signed_receipt_fallback")
      ∷ ("verifier_name", text "signed_receipt_fallback")
      ∷ receipt_fields row in
    write_audit_entry c (record (answer_event c r (verdict_text v) (reason_code v) details) {
      action = "x402_verify";
      request_payload_summary =
          ("user_id", opaque_text r.payment.user_id)
          ∷ ("vendor", opaque_text r.payment.vendor)
          ∷ ("currency", opaque_text r.payment.currency)
          ∷ ("receipt_source", text "signed_receipt_fallback")
          ∷ [];
      mcp_tool_id = r.payment.mcp_tool_id;
    })

-- The refusals of a receipt.
abbrev receipt_denial : String → String → String → Option ℕ → Denial
receipt_denial code metric reason id = record {
  status_code = 402;
  error_code = code;
  metric_name = some metric;
  append_log_reason = none;
  mark_receipt_id = none;
  audit_reason = some reason;
  extra_audit_details =
      ("receipt", opaque? id) ∷ ("receipt_source", text "signed_receipt_fallback") ∷ [];
  mcp_server_id = none;
  mcp_tool_id = none;
  mcp_tool_name = none;
}

unfoldable pub receipt_answer :
    Config → Request → Option ℕ → Verdict → Server → Outcome (Option ℕ) × Server
receipt_answer c r id payment_required s =
    let (answer, s') = payment_required_response c r s in (respond answer, s')
receipt_answer c r id already_used s =
    let (answer, s') =
      deny_payment c r
        (receipt_denial "PAYMENT_RECEIPT_ALREADY_USED" "payment_receipt_reused_total"
          "Payment receipt has already been consumed by a previous authorization attempt." id)
        s in
    (respond answer, s')
receipt_answer c r id expired s =
    let (answer, s') =
      deny_payment c r
        (receipt_denial "PAYMENT_RECEIPT_EXPIRED" "payment_receipt_expired_total"
          "Payment receipt has expired and can no longer authorize a request." id)
        s in
    (respond answer, s')
receipt_answer c r id mismatch s =
    let (answer, s') =
      deny_payment c r
        (receipt_denial "PAYMENT_RECEIPT_MISMATCH" "payment_receipt_mismatch_total"
          "Payment receipt does not match the required fee for this request." id)
        s in
    (respond answer, s')
receipt_answer c r id accepted s = (next id, s)

unfoldable pub validate_payment_receipt : Config → Request → Server → Outcome (Option ℕ) × Server
unfolding parse_and_validate_receipt_token verify append_x402_verification_audit_entry
    receipt_answer
validate_payment_receipt c r s =
    let (id, row) = parse_and_validate_receipt_token c r.receipt_token s.receipts in
    let v = verify c r row in
    receipt_answer c r id v (append_x402_verification_audit_entry c r id row v s)
