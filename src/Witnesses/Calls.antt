-- ===== src/Witnesses/Calls.antt =====
-- The theorems on whole calls of `/pay`, for the server and the payment of the decision's witnesses.
use safe4_arc_demo.Prelude.{◌+◌, ◌≤◌, ◌≡◌, refl, none, some, List, [], ◌∷◌, ◌==◌, ◌⊎◌}
use safe4_arc_demo.Dict.{lookup, adjust}
use safe4_arc_demo.Text.{
  normalize_text, ascii_lower, strip, drop_while, drop_while_end, tokens_from, find_tokens,
}
use safe4_arc_demo.Intent.{evaluate_payment_intent, decision}
use safe4_arc_demo.Store.Receipt.{get_receipt}
use safe4_arc_demo.Store.Idempotency.{get_idempotency}
use safe4_arc_demo.Store.HitlRule.{list_hitl_rules}
use safe4_arc_demo.Store.Log.{count_recent_transaction_events}
use safe4_arc_demo.Payment.Exec.{◌>>=◌}
use safe4_arc_demo.Payment.Flow.{write_audit_entry}
use safe4_arc_demo.Payment.Limits.{
  check_agent, check_user, pair_totals, check_user_next, check_limits,
}
use safe4_arc_demo.Payment.Hitl.{
  trace_details, trace_passed, let_pass, apply_direct_rule, enforce_direct_hitl_policy,
}
use safe4_arc_demo.Money.{compute_firewall_fee, normalize_money, add_money}
use safe4_arc_demo.Store.Budget.{
  update_spent_today, update_agent_spent_today, get_agent_budget, get_budget, snapshot,
  current_spent,
}
use safe4_arc_demo.Store.Budget.Laws.{view, spent_as}
use safe4_arc_demo.Payment.State.{Request, next}
use safe4_arc_demo.Payment.Entry.{
  receipt_answer, append_x402_verification_audit_entry, parse_and_validate_receipt_token, verify,
  check_payment_idempotency, validate_payment_receipt,
}
use safe4_arc_demo.Payment.HitlRules.{matching_rule, first_match}
use safe4_arc_demo.Payment.SpendGrant.Exact.{IsGranted}
use safe4_arc_demo.Payment.Finalize.{
  finalize_authorized_payment, finish, Finished, completed, authorized_body,
}
use safe4_arc_demo.Payment.Authorize.{
  check_shape, check_allowed_tools, enforce_mcp_payment_policy, finalize, settle, authorize_payment,
}
use safe4_arc_demo.Payment.Authorize.Spending.{IsRefused, IsPaid, authorize_payment-Settles}
use safe4_arc_demo.Payment.Authorize.Asked.{authorize_payment-IsGranted}
use safe4_arc_demo.Payment.Day.{serve, spent_by, payments_with}
use safe4_arc_demo.Payment.Day.Ledger.{AllOn, no_calls, call, serve-user_total}
use safe4_arc_demo.Payment.Day.Once.{payments_with-le_one}
use safe4_arc_demo.Payment.AuditTrail.{IsSound}
use safe4_arc_demo.Service.{start, then_step, pays}
use safe4_arc_demo.Service.Sound.{Reaches-IsSound}
use safe4_arc_demo.Witnesses.Decision.{
  config, payment, request, server, before, empty-IsSound, budget-seen,
}

authorize_payment-Settles_example :
    IsRefused request server (authorize_payment config request server)
    ⊎ IsPaid config request server (authorize_payment config request server)
authorize_payment-Settles_example = authorize_payment-Settles config request server

abbrev two_calls : List Request
two_calls = request ∷ request ∷ []

both-AllOn : AllOn 7 two_calls
both-AllOn = call refl (call refl no_calls)

serve-user_total_example :
    let total = 300 + spent_by (λ r. r.payment.user_id == 2) config two_calls server in
    (view 7 2 (serve config two_calls server).budgets ≡ some (spent_as total before))
    × (300 ≤ 1000 → total ≤ 1000)
serve-user_total_example =
    serve-user_total config 7 2 two_calls server before both-AllOn budget-seen

payments_with-le_one_example : payments_with 5 config two_calls server ≤ 1
payments_with-le_one_example = payments_with-le_one config 5 two_calls server

abbrev without_receipt : Request
without_receipt = record request { receipt_token = none }

Reaches-IsSound_example :
    let s = (authorize_payment config request server).1 in
    IsSound config (authorize_payment config request s).1.audit_entries
Reaches-IsSound_example =
    Reaches-IsSound config server
      (authorize_payment config request (authorize_payment config request server).1).1
      (then_step (then_step start (pays request)) (pays request)) empty-IsSound

abbrev paid : Finished
paid = completed (record {
  status_code = 200;
  content = authorized_body config request (spent_as 700 before) (spent_as 700 before);
})

call-pays : (authorize_payment config request server).0 ≡ next paid
unfolding authorize_payment ◌>>=◌ check_shape check_payment_idempotency get_idempotency lookup
    adjust validate_payment_receipt parse_and_validate_receipt_token verify receipt_answer
    get_receipt append_x402_verification_audit_entry write_audit_entry check_allowed_tools
    enforce_mcp_payment_policy settle check_limits check_user_next pair_totals check_agent
    check_user get_agent_budget get_budget snapshot current_spent add_money normalize_money
    compute_firewall_fee count_recent_transaction_events evaluate_payment_intent decision
    normalize_text ascii_lower strip drop_while drop_while_end find_tokens tokens_from
    enforce_direct_hitl_policy matching_rule list_hitl_rules first_match apply_direct_rule let_pass
    trace_passed trace_details finalize finalize_authorized_payment update_spent_today
    update_agent_spent_today finish
call-pays = refl

authorize_payment-IsGranted_example :
    (matching_rule config payment none server ≡ none) ⊎ IsGranted config request none none server
authorize_payment-IsGranted_example =
    authorize_payment-IsGranted config request paid server refl call-pays
