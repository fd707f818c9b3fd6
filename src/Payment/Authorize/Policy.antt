-- ===== src/Payment/Authorize/Policy.antt =====
-- The approval policy keeps what its writes keep.
use safe4_arc_demo.Prelude.{ℕ, Option, none, some}
use safe4_arc_demo.Store.Value.{Details}
use safe4_arc_demo.Store.HitlRule.{HitlRule}
use safe4_arc_demo.Store.SpendToken.{SpendToken}
use safe4_arc_demo.Payment.State.{Request, Config, Server}
use safe4_arc_demo.Payment.Limits.{Found}
use safe4_arc_demo.Payment.SpendGrant.{consume, validate_row, validate_and_consume_spend_token}
use safe4_arc_demo.Payment.Hitl.{
  Escalation, trace_details, trace_passed, trace_with, approval_event, direct_escalation,
  create_hitl_approval, ask_or_consume, let_pass, apply_direct_rule, enforce_direct_hitl_policy,
  apply_mcp_escalation,
}
use safe4_arc_demo.Payment.Authorize.Keeps.{Stable, Holds, Holds-if, Holds-at}

module _ {c : Config} {r : Request} {P : Server → Type 0} (stable : Stable c r P) where
  kept_consume : (token : Option ℕ) (s : Server) → P s → Holds P (consume c r token s)
  kept_consume none s h = Holds-at _ s h
  kept_consume (some token) s h = Holds-at _ _ (stable.consumed _ s h)

  kept_row :
      (tool action : Option ℕ) (t : Option SpendToken) (s : Server)
      → P s
      → Holds P (validate_row c r tool action t s)
  unfolding validate_row
  kept_row tool action none s h = Holds-at _ s h
  kept_row tool action (some t) s h = search (Holds-if, Holds-at, kept_consume)

  kept_trace :
      (f : Found) (details : Option Details) (s : Server) → P s → P (trace_with c r f details s)
  kept_trace f none s h = h
  kept_trace f (some details) s h = stable.audited _ s h

  kept_ask :
      (f : Found) (e : Escalation) (tool action token : Option ℕ) (s : Server)
      → P s
      → Holds P (ask_or_consume c r f e tool action token s)
  unfolding ask_or_consume trace_passed create_hitl_approval validate_and_consume_spend_token
  kept_ask f e tool action none s h = Holds-at _ _ (
      stable.counted (some "payment_hitl_required_total") _ (
        stable.audited (approval_event c r f e) _
          (stable.asked e _ (kept_trace f (trace_details c) s h))))
  kept_ask f e tool action (some token) s h = kept_row tool action _ s h

  kept_pass : (f : Found) (token : Option ℕ) (s : Server) → P s → Holds P (let_pass c r f token s)
  unfolding let_pass trace_passed
  kept_pass f none s h = Holds-at _ _ (kept_trace f (trace_details c) s h)
  kept_pass f (some token) s h = Holds-at _ s h

  kept_direct :
      (f : Found) (rule : Option HitlRule) (s : Server)
      → P s
      → Holds P (apply_direct_rule c r f rule s)
  unfolding apply_direct_rule
  kept_direct f none s h = kept_pass f r.spend_token s h
  kept_direct f (some rule) s h = kept_ask f (direct_escalation c rule) none none r.spend_token s h

  pub Holds-enforce_direct_hitl_policy :
      (f : Found) (s : Server) → P s → Holds P (enforce_direct_hitl_policy c r f s)
  unfolding enforce_direct_hitl_policy
  Holds-enforce_direct_hitl_policy f s h = search (Holds-if, Holds-at, kept_direct)

  pub kept_mcp :
      (f : Found) (e : Option Escalation) (s : Server)
      → P s
      → Holds P (apply_mcp_escalation c r f e s)
  unfolding apply_mcp_escalation
  kept_mcp f none s h = kept_pass f r.spend_token s h
  kept_mcp f (some e) s h =
      kept_ask f e r.payment.mcp_tool_id r.payment.mcp_action r.spend_token s h
