-- ===== src/Payment/Day.antt =====
-- Calls of `/pay` one after another: what a day's calls spend, and how often a receipt pays.
pub mod Ledger
pub mod Once
use safe4_arc_demo.Prelude.{
  ℕ, ◌+◌, Option, none, some, Bool, true, false, List, [], ◌∷◌, ◌==◌, ◌&&◌, if◌then◌else◌,
}
use safe4_arc_demo.Payment.State.{
  ReceiptToken, no_dot, signed, Request, Config, Server, Outcome, next, respond,
}
use safe4_arc_demo.Payment.Finalize.{Finished}
use safe4_arc_demo.Payment.Authorize.{authorize_payment}

unfoldable pub serve : Config → List Request → Server → Server
unfolding authorize_payment
serve c [] s = s
serve c (r ∷ rs) s = serve c rs (authorize_payment c r s).1

-- The call was finalized.
abbrev pub finalized? : Outcome Finished → Bool
finalized? (next _) = true
finalized? (respond _) = false

-- The amounts of the finalized calls that a test selects.
unfoldable pub spent_by : (Request → Bool) → Config → List Request → Server → ℕ
unfolding authorize_payment
spent_by test c [] s = 0
spent_by test c (r ∷ rs) s =
    (if finalized? (authorize_payment c r s).0 && test r then r.payment.amount else 0)
    + spent_by test c rs (authorize_payment c r s).1

abbrev pub token_names : ℕ → Option ReceiptToken → Bool
token_names id none = false
token_names id (some no_dot) = false
token_names id (some (signed k _)) = k == id

-- How many calls were finalized that presented a receipt.
unfoldable pub payments_with : ℕ → Config → List Request → Server → ℕ
unfolding authorize_payment
payments_with id c [] s = 0
payments_with id c (r ∷ rs) s =
    (if finalized? (authorize_payment c r s).0 && token_names id r.receipt_token then 1 else 0)
    + payments_with id c rs (authorize_payment c r s).1
