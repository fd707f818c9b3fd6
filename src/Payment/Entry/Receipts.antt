-- ===== src/Payment/Entry/Receipts.antt =====
-- Which receipts are accepted, and that a receipt is accepted only before it is marked used.
use safe4_arc_demo.Prelude.{
  ℕ, ◌≡◌, ◌≢◌, refl, Option, none, some, false, arith, ◌==◌, Option-cases, Bool-cases, inl, inr,
}
use safe4_arc_demo.Dict.{Dict}
use safe4_arc_demo.Money.{compute_firewall_fee}
use safe4_arc_demo.Store.Receipt.{
  paid, Receipt, get_receipt, mark_receipt_used, get-mark_receipt_used,
}
use safe4_arc_demo.Payment.State.{ReceiptToken, no_dot, signed, Request, Config, Server, next}
use safe4_arc_demo.Payment.Entry.{
  Verdict, accepted, expired?, parse_and_validate_receipt_token, verify, receipt_answer,
  append_x402_verification_audit_entry, validate_payment_receipt,
}

-- What the firewall asks of a receipt: it is paid, to its own address, not used, not expired, and
-- for exactly the fee in the currency of the payment.
pub record IsPayable (c : Config) (r : Request) (row : Receipt) : Type 0 where
  pub is_paid : row.status ≡ paid
  pub is_ours : row.pay_to ≡ c.pay_to
  pub is_unused : row.used_at ≡ none
  pub is_fresh : expired? r.now row.expires_at ≡ false
  pub is_exact : row.amount_due ≡ compute_firewall_fee c.fee_rate r.payment.amount
  pub is_in_currency : row.currency ≡ r.payment.currency

verify-accepted :
    (c : Config) (r : Request) (row : Receipt)
    → verify c r (some row) ≡ accepted
    → IsPayable c r row
unfolding verify
verify-accepted c r row h = record {
  is_paid = ground arith;
  is_ours = ground arith;
  is_unused = ground arith;
  is_fresh = ground arith;
  is_exact = ground arith;
  is_in_currency = ground arith;
}

verify-IsPayable :
    (c : Config) (r : Request) (row : Receipt)
    → IsPayable c r row
    → verify c r (some row) ≡ accepted
unfolding verify
verify-IsPayable c r row p =
    ground (arith, p.is_paid, p.is_ours, p.is_unused, p.is_fresh, p.is_exact, p.is_in_currency)

answer-next :
    (c : Config) (r : Request) (id o : Option ℕ) (v : Verdict) (s : Server)
    → (receipt_answer c r id v s).0 ≡ next o
    → (v ≡ accepted) × (o ≡ id)
unfolding receipt_answer
answer-next c r id o v s h = (ground arith, ground arith)

-- The receipt that stands behind an accepted token.
pub record IsBacked (c : Config) (r : Request) (rows : Dict Receipt) (o : Option ℕ) : Type 0 where
  pub id : ℕ
  pub row : Receipt
  pub named : o ≡ some id
  pub stored : get_receipt id rows ≡ some row
  pub token :
      r.receipt_token
      ≡ some (signed id (c.sign id row.pay_to row.amount_due row.currency row.expires_at))
  pub payable : IsPayable c r row

backed :
    (c : Config) (r : Request) (t : Option ReceiptToken) (rows : Dict Receipt)
    → r.receipt_token ≡ t
    → verify c r (parse_and_validate_receipt_token c t rows).1 ≡ accepted
    → IsBacked c r rows (parse_and_validate_receipt_token c t rows).0
unfolding parse_and_validate_receipt_token
backed c r none rows h v = absurd (unfold verify in ground arith)
backed c r (some no_dot) rows h v = absurd (unfold verify in ground arith)
backed c r (some (signed id signature)) rows h v = elim (Option-cases (get_receipt id rows)) [
  | inl e ↦ absurd (unfold verify in ground arith)
  | inr (row, e) ↦
      let expected = c.sign id row.pay_to row.amount_due row.currency row.expires_at in
      elim (Bool-cases (signature == expected)) [
        | inl good ↦ record {
          id = id;
          row = row;
          named = ground arith;
          stored = e;
          token = ground arith;
          payable = verify-accepted c r row (ground arith);
        }
        | inr bad ↦ absurd (unfold verify in ground arith)
      ]
]

-- A receipt is accepted only if the token names a stored receipt and carries its signature, and
-- that receipt is payable; the receipt that goes on to the later stages is that one.
pub accepted-IsBacked :
    (c : Config) (r : Request) (s : Server) (o : Option ℕ)
    → (validate_payment_receipt c r s).0 ≡ next o
    → IsBacked c r s.receipts o
unfolding validate_payment_receipt
accepted-IsBacked c r s o h =
    let (id, row) = parse_and_validate_receipt_token c r.receipt_token s.receipts in
    let v = verify c r row in
    let (ok, same) =
      answer-next c r id o v (append_x402_verification_audit_entry c r id row v s) h in
    rw same (backed c r r.receipt_token s.receipts refl ok)

-- A call whose token names a stored receipt with its signature is let through if that receipt is
-- payable.
pub IsBacked-accepted :
    (c : Config) (r : Request) (s : Server) (o : Option ℕ)
    → IsBacked c r s.receipts o
    → (validate_payment_receipt c r s).0 ≡ next o
unfolding validate_payment_receipt parse_and_validate_receipt_token receipt_answer
IsBacked-accepted c r s o b =
    ground (arith, b.named, b.stored, b.token, verify-IsPayable c r b.row b.payable)

-- Where a receipt has just been marked used, no call is let through with it, whatever its token and
-- its payment.
pub used-refused :
    (c : Config) (r : Request) (s : Server) (now id : ℕ) (o : Option ℕ)
    → (validate_payment_receipt c r (record s { receipts = mark_receipt_used now id s.receipts })).0
      ≡ next o
    → o ≢ some id
used-refused c r s now id o h same =
    let b = accepted-IsBacked c r _ o h in
    ground (
      arith,
      same,
      b.named,
      b.stored,
      b.payable.is_unused,
      get-mark_receipt_used now id b.id s.receipts,
    )
