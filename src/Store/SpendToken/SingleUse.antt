-- ===== src/Store/SpendToken/SingleUse.antt =====
-- A spend token is spent at most once, over any sequence of calls on the table.
use safe4_arc_demo.Prelude.{
  ℕ, ◌+◌, ◌≤◌, ◌≡◌, Bool, true, false, List, [], ◌∷◌, arith, ◌==◌, if◌then◌else◌, ◌&&◌,
}
use safe4_arc_demo.Dict.{Dict, lookup, lookup-adjust}
use safe4_arc_demo.Store.SpendToken.{
  SpendToken, spendable?, consumed, revoked_row, consume_spend_token, revoke_spend_token,
}

pub data Call : Type 0 where
  consume : ℕ → ℕ → Call
  revoke : ℕ → Call

unfoldable pub run : Call → Dict SpendToken → Bool × Dict SpendToken
run (consume now k) rows = consume_spend_token now k rows
run (revoke k) rows = revoke_spend_token k rows

-- Whether the call is about this token.
abbrev pub names : Call → ℕ → Bool
names (consume _ j) k = j == k
names (revoke j) k = j == k

-- How many of the calls on the token `k` succeed.
unfoldable pub successes : ℕ → List Call → Dict SpendToken → ℕ
unfolding run
successes k [] rows = 0
successes k (c ∷ cs) rows =
    let (done, rows') = run c rows in (if names c k && done then 1 else 0) + successes k cs rows'

lookup-run :
    (k : ℕ) (c : Call) (rows : Dict SpendToken)
    → spendable? (lookup k (run c rows).1)
      ≡ (spendable? (lookup k rows) && (if names c k then false else true))
unfolding run consume_spend_token revoke_spend_token
lookup-run k (consume now j) rows = ground (arith, lookup-adjust j k (consumed now) rows)
lookup-run k (revoke j) rows = ground (arith, lookup-adjust j k revoked_row rows)

run-done :
    (k : ℕ) (c : Call) (rows : Dict SpendToken)
    → names c k ≡ true
    → (run c rows).0 ≡ spendable? (lookup k rows)
unfolding run consume_spend_token revoke_spend_token
run-done k (consume now j) rows h = ground arith
run-done k (revoke j) rows h = ground arith

-- Over any sequence of consumptions and revocations, on any tokens and at any times, at most one
-- of those that name the token `k` succeeds, and none if the token is missing, used or revoked at
-- the start.
pub successes-le :
    (k : ℕ) (calls : List Call) (rows : Dict SpendToken)
    → successes k calls rows ≤ (if spendable? (lookup k rows) then 1 else 0)
unfolding successes
successes-le k [] rows = ground arith
successes-le k (c ∷ cs) rows =
    ground (arith, successes-le k cs (run c rows).1, lookup-run k c rows, run-done k c rows)
