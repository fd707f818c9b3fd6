-- ===== src/Admin/Receipts/Issued.antt =====
-- From an issued receipt to its acceptance.
use safe4_arc_demo.Prelude.{◌+◌, ◌<◌, ◌≡◌, refl, ap, ◌∙◌, none, some, arith, ==-refl}
use safe4_arc_demo.Money.{compute_firewall_fee}
use safe4_arc_demo.Store.Receipt.{get_receipt, upsert_receipt, get-upsert_receipt}
use safe4_arc_demo.Payment.State.{Request, Config, Server, next}
use safe4_arc_demo.Payment.Flow.{increment, write_audit_entry}
use safe4_arc_demo.Payment.Entry.{validate_payment_receipt}
use safe4_arc_demo.Payment.Entry.Receipts.{IsBacked, IsBacked-accepted}
use safe4_arc_demo.Admin.{AdminCall, ok}
use safe4_arc_demo.Admin.Receipts.{
  IssueCall, build_receipt_token, issued_row, payee, issue_receipt, issue_payment_receipt,
}

issued-stored :
    (c : Config) (a : AdminCall) (i : IssueCall) (s : Server)
    → i.admin_secret ≡ some c.receipt_admin_secret
    → ((issue_payment_receipt c a i s).0
        ≡ ok (build_receipt_token c i.receipt_id (issued_row a.now i (payee c i.pay_to))))
      × (get_receipt i.receipt_id (issue_payment_receipt c a i s).1.receipts
          ≡ some (issued_row a.now i (payee c i.pay_to)))
unfolding issue_payment_receipt issue_receipt increment write_audit_entry upsert_receipt
issued-stored c a i s h =
    let row = issued_row a.now i (payee c i.pay_to) in
    (
      ground (arith, h, ==-refl c.receipt_admin_secret),
      ground (
        arith,
        h,
        ==-refl c.receipt_admin_secret,
        ==-refl i.receipt_id,
        get-upsert_receipt i.receipt_id i.receipt_id row s.receipts,
      ),
    )

-- An administrator who knows the secret is issued a receipt, and if its row is as it was stored when a
-- payment in its currency, whose fee is the receipt's amount, presents its token before it expires, the
-- payment goes on with that receipt. The receipt names no payee, so it is for the firewall.
pub issued-accepted :
    (c : Config) (a : AdminCall) (i : IssueCall) (r : Request) (s s' : Server)
    → i.admin_secret ≡ some c.receipt_admin_secret
    → i.pay_to ≡ none
    → get_receipt i.receipt_id s'.receipts
      ≡ get_receipt i.receipt_id (issue_payment_receipt c a i s).1.receipts
    → i.amount_due ≡ compute_firewall_fee c.fee_rate r.payment.amount
    → i.currency ≡ r.payment.currency
    → r.now < a.now + i.expires_in_seconds
    → let token = build_receipt_token c i.receipt_id (issued_row a.now i c.pay_to) in
      r.receipt_token ≡ some token
      → ((issue_payment_receipt c a i s).0 ≡ ok token)
        × ((validate_payment_receipt c r s').0 ≡ next (some i.receipt_id))
unfolding build_receipt_token
issued-accepted c a i r s s' secret ours kept due currency soon presented =
    let (answer, stored) = issued-stored c a i s secret in
    let row = issued_row a.now i c.pay_to in
    let backed : IsBacked c r s'.receipts (some i.receipt_id) = record {
      id = i.receipt_id;
      row = row;
      named = refl;
      stored = kept ∙ stored ∙ ap (λ p. some (issued_row a.now i (payee c p))) ours;
      token = presented;
      payable = record {
        is_paid = refl;
        is_ours = refl;
        is_unused = refl;
        is_fresh = ground (arith, soon);
        is_exact = due;
        is_in_currency = currency;
      };
    } in
    (
      answer
          ∙ ap (λ p. ok (build_receipt_token c i.receipt_id (issued_row a.now i (payee c p)))) ours,
      IsBacked-accepted c r s' (some i.receipt_id) backed,
    )
