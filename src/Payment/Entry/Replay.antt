-- ===== src/Payment/Entry/Replay.antt =====
-- What a repeated call with the same idempotency key is answered.
use Prim.Native.String.{String}
use safe4_arc_demo.Prelude.{
  ℕ, ◌≡◌, ◌≢◌, refl, Option, none, some, false, arith, ◌==◌, if◌then◌else◌,
}
use safe4_arc_demo.Dict.{Dict}
use safe4_arc_demo.Store.Receipt.{Receipt, get_receipt}
use safe4_arc_demo.Store.Idempotency.{get-save_idempotency}
use safe4_arc_demo.Payment.State.{
  ReceiptToken, no_dot, signed, Request, Config, json, printed, Server, respond,
}
use safe4_arc_demo.Payment.Flow.{Denial, save_answer, save_idempotent_response, deny_payment}
use safe4_arc_demo.Payment.Entry.{paid?, check_payment_idempotency}

replayed :
    (c : Config) (r r' : Request) (s : Server) (key code : ℕ) (error : String)
    → r.idempotency_key ≡ some key
    → r'.idempotency_key ≡ some key
    → (check_payment_idempotency c r' (save_answer c r (some key) code error s)).0
      ≡ respond (
          if c.hash_request r.payment == c.hash_request r'.payment
          then record { status_code = code; content = printed error }
          else record { status_code = 409; content = json "IDEMPOTENCY_KEY_REUSED" })
unfolding check_payment_idempotency save_answer
replayed c r r' s key code error h h' = ground (
  arith,
  h',
  get-save_idempotency key key (c.hash_request r.payment) code (printed error) s.idempotency,
)

-- After `deny_payment` has refused a call under an idempotency key, a further call with that key is
-- answered at once: with status 409 if its payment hashes to another value, else with the refusal's
-- status and error code, but as a JSON text that holds the printed object, where the first answer was
-- the object.
pub deny_payment-replayed :
    (c : Config) (r r' : Request) (d : Denial) (s : Server) (key : ℕ)
    → r.idempotency_key ≡ some key
    → r'.idempotency_key ≡ some key
    → ((deny_payment c r d s).0
        ≡ record { status_code = d.status_code; content = json d.error_code })
      × ((check_payment_idempotency c r' (deny_payment c r d s).1).0
          ≡ respond (
              if c.hash_request r.payment == c.hash_request r'.payment
              then record { status_code = d.status_code; content = printed d.error_code }
              else record { status_code = 409; content = json "IDEMPOTENCY_KEY_REUSED" }))
unfolding deny_payment save_idempotent_response
deny_payment-replayed c r r' d s key h h' =
    (refl, rw h (replayed c r r' _ key d.status_code d.error_code h h'))

-- The header does not name a receipt that is paid to the service: there is none, it is malformed,
-- its receipt is not stored, or is stored with another signature, status or payee.
pub data IsUnpaid (c : Config) (rows : Dict Receipt) : Option ReceiptToken → Type 0 where
  absent : IsUnpaid c rows none
  malformed : IsUnpaid c rows (some no_dot)
  unknown :
      (id signature : ℕ) → get_receipt id rows ≡ none → IsUnpaid c rows (some (signed id signature))
  forged :
      (id signature : ℕ) (row : Receipt)
      → get_receipt id rows ≡ some row
      → (signature == c.sign id row.pay_to row.amount_due row.currency row.expires_at) ≡ false
      → IsUnpaid c rows (some (signed id signature))
  not_paid :
      (id signature : ℕ) (row : Receipt)
      → get_receipt id rows ≡ some row
      → paid? row.status ≡ false
      → IsUnpaid c rows (some (signed id signature))
  paid_elsewhere :
      (id signature : ℕ) (row : Receipt)
      → get_receipt id rows ≡ some row
      → row.pay_to ≢ c.pay_to
      → IsUnpaid c rows (some (signed id signature))
