-- ===== src/Payment/Authorize/Asked.antt =====
-- Human approval over a whole call, for a payment that names no tool.
use safe4_arc_demo.Prelude.{
  ℕ, ◌≡◌, refl, sym, ap, ◌∙◌, Option, none, some, List, arith, ◌⊎◌, inl, inr,
}
use safe4_arc_demo.Dict.{Dict}
use safe4_arc_demo.Store.Log.{LogLine}
use safe4_arc_demo.Store.HitlRule.{HitlRule}
use safe4_arc_demo.Store.SpendToken.{SpendToken, get_spend_token}
use safe4_arc_demo.Store.Budget.{Budget}
use safe4_arc_demo.Payment.State.{Request, Config, Server, Outcome, next, respond}
use safe4_arc_demo.Payment.Exec.{bind-next}
use safe4_arc_demo.Payment.Flow.{write_audit_entry}
use safe4_arc_demo.Payment.Entry.{
  Verdict, check_payment_idempotency, receipt_answer, append_x402_verification_audit_entry,
  validate_payment_receipt,
}
use safe4_arc_demo.Payment.Limits.{
  Found, Totals, refuse, check_agent, check_user, pair_totals, check_user_next, check_limits,
}
use safe4_arc_demo.Payment.Hitl.{enforce_direct_hitl_policy}
use safe4_arc_demo.Payment.HitlRules.{matching_rule, match_condition, match_trigger}
use safe4_arc_demo.Payment.Hitl.Exact.{direct-IsGranted}
use safe4_arc_demo.Payment.SpendGrant.Exact.{IsGranted}
use safe4_arc_demo.Payment.Finalize.{Finished}
use safe4_arc_demo.Payment.Authorize.{
  check_shape, check_allowed_tools, enforce_mcp_payment_policy, finalize, settle, authorize_payment,
}

-- What the approval policy reads.
abbrev policy_view : Server → List LogLine × Dict HitlRule × Dict SpendToken
policy_view s = (s.logs, s.hitl_rules, s.spend_tokens)

whole : {x : Finished} {o : Outcome Finished × Server} → o.0 ≡ next x → o ≡ (next x, o.1)
whole h = ground (arith, h)

shape-view :
    (c : Config) (r : Request) (s s' : Server)
    → check_shape c r s ≡ (next tt, s')
    → policy_view s' ≡ policy_view s
unfolding check_shape
shape-view c r s s' h = ground arith

key-view :
    (c : Config) (r : Request) (s s' : Server)
    → check_payment_idempotency c r s ≡ (next tt, s')
    → policy_view s' ≡ policy_view s
unfolding check_payment_idempotency
key-view c r s s' h = ground arith

answer-view :
    (c : Config) (r : Request) (id o : Option ℕ) (v : Verdict) (s s' : Server)
    → receipt_answer c r id v s ≡ (next o, s')
    → policy_view s' ≡ policy_view s
unfolding receipt_answer
answer-view c r id o v s s' h = ground arith

receipt-view :
    (c : Config) (r : Request) (o : Option ℕ) (s s' : Server)
    → validate_payment_receipt c r s ≡ (next o, s')
    → policy_view s' ≡ policy_view s
unfolding validate_payment_receipt append_x402_verification_audit_entry write_audit_entry
receipt-view c r o s s' h = answer-view c r _ o _ _ s' h

tools-view :
    (c : Config) (r : Request) (s s' : Server)
    → check_allowed_tools c r s ≡ (next tt, s')
    → policy_view s' ≡ policy_view s
unfolding check_allowed_tools refuse
tools-view c r s s' h = ground arith

direct-view :
    (c : Config) (r : Request) (receipt o : Option ℕ) (f : Found) (s s' : Server)
    → o ≡ none
    → enforce_mcp_payment_policy c r receipt o s ≡ (next f, s')
    → policy_view s' ≡ policy_view s
unfolding enforce_mcp_payment_policy
direct-view c r receipt none f s s' e h = ground arith
direct-view c r receipt (some tool) f s s' e h = absurd (ground (arith, e))

agent-view :
    (c : Config) (r : Request) (f : Found) (b : Option Budget) (total : ℕ) (s s' : Server)
    → check_agent c r f b s ≡ (next total, s')
    → policy_view s' ≡ policy_view s
unfolding check_agent refuse
agent-view c r f b total s s' h = ground arith

user-view :
    (c : Config) (r : Request) (f : Found) (b : Option Budget) (total : ℕ) (s s' : Server)
    → check_user c r f b s ≡ (next total, s')
    → policy_view s' ≡ policy_view s
unfolding check_user refuse
user-view c r f b total s s' h = ground arith

pair-view :
    (n : ℕ) (o : Outcome ℕ × Server) (t : Totals) (s' : Server)
    → pair_totals n o ≡ (next t, s')
    → o ≡ (next t.projected_total, s')
unfolding pair_totals
pair-view n (next total, s) t s' h = ground arith
pair-view n (respond a, s) t s' h = absurd (ground arith)

user_next-view :
    (c : Config) (r : Request) (f : Found) (o : Outcome ℕ × Server) (t : Totals) (s' : Server)
    → check_user_next c r f o ≡ (next t, s')
    → ((n : ℕ) × (o ≡ (next n, o.1))) × (policy_view s' ≡ policy_view o.1)
unfolding check_user_next
user_next-view c r f (respond a, s) t s' h = absurd (ground arith)
user_next-view c r f (next n, s) t s' h =
    ((n, refl), user-view c r f _ t.projected_total _ s' (pair-view n _ t s' h))

limits-view :
    (c : Config) (r : Request) (f : Found) (t : Totals) (s s' : Server)
    → check_limits c r f s ≡ (next t, s')
    → policy_view s' ≡ policy_view s
unfolding check_limits
limits-view c r f t s s' h =
    let ((n, passed), later) = user_next-view c r f _ t s' h in
    later ∙ agent-view c r f _ n _ _ passed

matching-view :
    (c : Config) (r : Request) (s s' : Server)
    → policy_view s' ≡ policy_view s
    → matching_rule c r.payment none s' ≡ matching_rule c r.payment none s
unfolding matching_rule match_condition match_trigger
matching-view c r s s' h =
    ap (λ x. matching_rule c r.payment none (record s { logs = x.0; hitl_rules = x.1 })) h

IsGranted-view :
    (c : Config) (r : Request) (s s' : Server)
    → policy_view s' ≡ policy_view s
    → IsGranted c r none none s'
    → IsGranted c r none none s
IsGranted-view c r s s' h g = record {
  token = g.token;
  row = g.row;
  named = g.named;
  stored = ap (λ x. get_spend_token (c.hash_token g.token) x.2) (sym h) ∙ g.stored;
  grants = g.grants;
}

settle-asked :
    (c : Config) (r : Request) (f : Found) (x : Finished) (s s' : Server)
    → r.payment.mcp_tool_id ≡ none
    → settle c r f s ≡ (next x, s')
    → (matching_rule c r.payment none s ≡ none) ⊎ IsGranted c r none none s
unfolding settle
settle-asked c r f x s s' direct h =
    let w = bind-next (check_limits c r f) _ s s' x h in
    let v =
      bind-next (enforce_direct_hitl_policy c r f) (λ _. finalize c r f w.value) w.between s' x
        w.second in
    let same = limits-view c r f w.value s w.between w.first in
    elim (direct-IsGranted c r f w.between direct (ap (λ o. o.0) v.first)) [
      | inl none_matches ↦ inl (sym (matching-view c r s w.between same) ∙ none_matches)
      | inr granted ↦ inr (IsGranted-view c r s w.between same granted)
    ]

-- A call of `/pay` for a payment that names no tool is finalized only if no active rule for direct
-- payments matches it, or it presents a stored spend token that is neither used nor revoked nor expired
-- and was granted for this request, user, agent and currency and for no less than the amount.
pub authorize_payment-IsGranted :
    (c : Config) (r : Request) (x : Finished) (s : Server)
    → r.payment.mcp_tool_id ≡ none
    → (authorize_payment c r s).0 ≡ next x
    → (matching_rule c r.payment none s ≡ none) ⊎ IsGranted c r none none s
unfolding authorize_payment
authorize_payment-IsGranted c r x s direct h =
    let s' = (authorize_payment c r s).1 in
    let w₁ = bind-next (check_shape c r) _ s s' x (whole h) in
    let w₂ = bind-next (check_payment_idempotency c r) _ w₁.between s' x w₁.second in
    let w₃ = bind-next (validate_payment_receipt c r) _ w₂.between s' x w₂.second in
    let w₄ = bind-next (check_allowed_tools c r) _ w₃.between s' x w₃.second in
    let w₅ =
      bind-next (enforce_mcp_payment_policy c r w₃.value r.payment.mcp_tool_id) (settle c r)
        w₄.between s' x w₄.second in
    let same : policy_view w₅.between ≡ policy_view s =
      direct-view c r w₃.value r.payment.mcp_tool_id w₅.value _ _ direct w₅.first
      ∙ tools-view c r _ _ w₄.first
      ∙ receipt-view c r w₃.value _ _ w₃.first
      ∙ key-view c r _ _ w₂.first
      ∙ shape-view c r _ _ w₁.first in
    elim (settle-asked c r w₅.value x w₅.between s' direct w₅.second) [
      | inl none_matches ↦ inl (sym (matching-view c r s w₅.between same) ∙ none_matches)
      | inr granted ↦ inr (IsGranted-view c r s w₅.between same granted)
    ]
