-- ===== src/Admin/Receipts.antt =====
-- app/api/receipts.py, and `issue_receipt` and `build_receipt_token` of app/main.py. The body has
-- passed its validation.
pub mod Issued
use Prim.Native.String.{String}
use safe4_arc_demo.Prelude.{ℕ, ◌+◌, Option, none, some, List, [], ◌∷◌, if◌then◌else◌, same?}
use safe4_arc_demo.Dict.{Dict}
use safe4_arc_demo.Store.Value.{text, number, opaque_text}
use safe4_arc_demo.Store.Audit.{AuditEvent}
use safe4_arc_demo.Store.Receipt.{paid, Receipt, upsert_receipt}
use safe4_arc_demo.Payment.State.{ReceiptToken, signed, Config, Server}
use safe4_arc_demo.Payment.Flow.{increment, write_audit_entry}
use safe4_arc_demo.Admin.{AdminCall, Answered, ok, http_error, admin_event}

-- `ReceiptIssueRequest`, the header X-Admin-Secret and the receipt's fresh identifier.
pub record IssueCall : Type 0 where
  pub amount_due : ℕ
  pub currency : ℕ
  pub expires_in_seconds : ℕ
  pub pay_to : Option ℕ
  pub admin_secret : Option ℕ
  pub receipt_id : ℕ

unfoldable pub build_receipt_token : Config → ℕ → Receipt → ReceiptToken
build_receipt_token c id row =
    signed id (c.sign id row.pay_to row.amount_due row.currency row.expires_at)

abbrev pub issued_row : ℕ → IssueCall → ℕ → Receipt
issued_row now i pay_to = record {
  status = paid;
  pay_to = pay_to;
  used_at = none;
  amount_due = i.amount_due;
  currency = i.currency;
  expires_at = some (now + i.expires_in_seconds);
}

unfoldable pub issue_receipt :
    Config → ℕ → IssueCall → ℕ → Dict Receipt → ReceiptToken × Dict Receipt
unfolding build_receipt_token
issue_receipt c now i pay_to rows =
    let (row, rows') = upsert_receipt i.receipt_id (issued_row now i pay_to) rows in
    (build_receipt_token c i.receipt_id row, rows')

-- `receipt_request.pay_to or _pay_to_address`
abbrev pub payee : Config → Option ℕ → ℕ
payee c none = c.pay_to
payee c (some p) = p

abbrev issue_event : Config → AdminCall → IssueCall → AuditEvent
issue_event c a i =
    let summary =
      ("currency", opaque_text i.currency)
      ∷ ("pay_to", opaque_text (payee c i.pay_to))
      ∷ ("expires_in_seconds", number i.expires_in_seconds)
      ∷ [] in
    record (admin_event c a "receipt_issue" "/receipts/issue" summary "issued" none
      (("status", text "issued") ∷ [])) {
        transaction_amount = some i.amount_due;
        transaction_currency = some i.currency;
      }

unfoldable pub issue_payment_receipt :
    Config → AdminCall → IssueCall → Server → Answered ReceiptToken × Server
unfolding issue_receipt write_audit_entry increment
issue_payment_receipt c a i s =
    let (token, rows) = issue_receipt c a.now i (payee c i.pay_to) s.receipts in
    let audited = write_audit_entry c (issue_event c a i) (record s { receipts = rows }) in
    if same? i.admin_secret (some c.receipt_admin_secret)
    then (ok token, increment (some "receipt_issue_total") audited)
    else (http_error 403 "ADMIN_AUTH_REQUIRED", increment (some "receipt_issue_denied_total") s)
