-- ===== src/Payment/Hitl/Exact.antt =====
-- Which payments the approval policy lets pass.
use safe4_arc_demo.Prelude.{ℕ, ◌≡◌, refl, Option, none, some, false, arith, ◌⊎◌, inl, inr}
use safe4_arc_demo.Store.HitlRule.{HitlRule}
use safe4_arc_demo.Payment.State.{Request, Config, Server, next}
use safe4_arc_demo.Payment.Limits.{Found}
use safe4_arc_demo.Payment.SpendGrant.Exact.{IsGranted, next-IsGranted}
use safe4_arc_demo.Payment.ToolPolicy.{ToolPass}
use safe4_arc_demo.Payment.Hitl.{
  Escalation, create_hitl_approval, ask_or_consume, direct_escalation, apply_direct_rule,
  enforce_direct_hitl_policy, mcp_escalation, apply_mcp_escalation, enforce_mcp_hitl_policy,
}
use safe4_arc_demo.Payment.HitlRules.{matching_rule}

-- With no reason to ask, a payment passes; else its token must grant it.
asked-next :
    (c : Config) (r : Request) (f : Found) (e : Escalation) (tool action o : Option ℕ) (s : Server)
    → r.spend_token ≡ o
    → (ask_or_consume c r f e tool action o s).0 ≡ next tt
    → IsGranted c r tool action s
unfolding ask_or_consume create_hitl_approval
asked-next c r f e tool action none s h k = absurd (ground (arith, k))
asked-next c r f e tool action (some token) s h k = next-IsGranted c r tool action s k

direct-next :
    (c : Config) (r : Request) (f : Found) (o : Option HitlRule) (s : Server)
    → (apply_direct_rule c r f o s).0 ≡ next tt
    → (o ≡ none) ⊎ IsGranted c r none none s
unfolding apply_direct_rule
direct-next c r f none s h = inl refl
direct-next c r f (some rule) s h =
    inr (asked-next c r f (direct_escalation c rule) none none r.spend_token s refl h)

mcp-next :
    (c : Config) (r : Request) (f : Found) (o : Option Escalation) (s : Server)
    → (apply_mcp_escalation c r f o s).0 ≡ next tt
    → (o ≡ none) ⊎ IsGranted c r r.payment.mcp_tool_id r.payment.mcp_action s
unfolding apply_mcp_escalation
mcp-next c r f none s h = inl refl
mcp-next c r f (some e) s h =
    inr (asked-next c r f e r.payment.mcp_tool_id r.payment.mcp_action r.spend_token s refl h)

-- A direct payment passes the approval policy only if no active rule for direct payments matches it,
-- or its spend token grants it.
pub direct-IsGranted :
    (c : Config) (r : Request) (f : Found) (s : Server)
    → r.payment.mcp_tool_id ≡ none
    → (enforce_direct_hitl_policy c r f s).0 ≡ next tt
    → (matching_rule c r.payment none s ≡ none) ⊎ IsGranted c r none none s
unfolding enforce_direct_hitl_policy
direct-IsGranted c r f s direct h =
    direct-next c r f (matching_rule c r.payment none s) s (ground (arith, direct, h))

-- A payment by a tool passes the approval policy only if its server is not an unknown one above the
-- risk threshold, the permission does not ask for an approval and no active rule for tools matches it,
-- or its spend token grants it for that tool and action.
pub mcp-IsGranted :
    (c : Config) (r : Request) (f : Found) (w : ToolPass) (s : Server)
    → (enforce_mcp_hitl_policy c r f w s).0 ≡ next tt
    → ((w.requires_unknown_server_hitl ≡ false)
        × (w.requires_permission_hitl ≡ false)
        × (matching_rule c r.payment (some w.trust_level) s ≡ none))
      ⊎ IsGranted c r r.payment.mcp_tool_id r.payment.mcp_action s
unfolding enforce_mcp_hitl_policy mcp_escalation
mcp-IsGranted c r f w s h =
    elim (mcp-next c r f (mcp_escalation c w (matching_rule c r.payment (some w.trust_level) s)) s
      h) [
        | inl none_asked ↦
            inl (ground (arith, none_asked), ground (arith, none_asked), ground (arith, none_asked))
        | inr granted ↦ inr granted
      ]
