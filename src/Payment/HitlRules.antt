-- ===== src/Payment/HitlRules.antt =====
-- app/hitl_policy.py: which of the active rules matches a payment first.
use safe4_arc_demo.Prelude.{
  Option, none, some, Bool, true, false, List, [], ◌∷◌, ◌==◌, ltb, if◌then◌else◌, ◌&&◌, is_some,
  is_none, same?,
}
use safe4_arc_demo.Store.Mcp.{TrustLevel, trusted, verified, unknown, blocked}
use safe4_arc_demo.Store.Log.{
  count_user_vendor_authorized_transactions, count_agent_user_authorized_transactions,
}
use safe4_arc_demo.Store.HitlRule.{
  direct, mcp, any, TriggerType, amount_threshold, first_time_vendor, vendor_pattern,
  first_time_agent_user, currency_match, mcp_tool_match, mcp_action_match, mcp_server_trust_level,
  Condition, HitlRule, list_hitl_rules,
}
use safe4_arc_demo.Payment.State.{Payment, Config, Server}

unfoldable pub rule_applies_to_payment : HitlRule → Payment → Bool
rule_applies_to_payment rule p = elim rule.applies_to [
  | direct ↦ is_none p.mcp_tool_id
  | mcp ↦ is_some p.mcp_tool_id
  | any ↦ true
]

abbrev same_level : TrustLevel → TrustLevel → Bool
same_level trusted trusted = true
same_level verified verified = true
same_level unknown unknown = true
same_level blocked blocked = true
same_level _ _ = false

abbrev same_level? : Option TrustLevel → TrustLevel → Bool
same_level? (some observed) level = same_level observed level
same_level? none level = false

abbrev on_some : {A : Type 0} → Option A → (A → Bool) → Bool
on_some none f = false
on_some (some a) f = f a

-- One trigger, with the columns that it reads; a column that is missing matches nothing.
unfoldable pub match_trigger :
    Config → Payment → Option TrustLevel → Server → TriggerType → Condition → Bool
match_trigger c p observed s amount_threshold q =
    on_some q.threshold_amount (λ amount. ltb amount p.amount)
match_trigger c p observed s first_time_vendor q =
    count_user_vendor_authorized_transactions p.user_id p.vendor s.logs == 0
match_trigger c p observed s vendor_pattern q =
    on_some q.vendor_pattern (λ pattern'. c.vendor_matches pattern' p.vendor)
match_trigger c p observed s first_time_agent_user q =
    count_agent_user_authorized_transactions p.agent_id p.user_id s.logs == 0
match_trigger c p observed s currency_match q =
    on_some q.currency (λ currency. p.currency == currency)
match_trigger c p observed s mcp_tool_match q =
    on_some q.mcp_tool_id (λ tool. same? p.mcp_tool_id (some tool))
match_trigger c p observed s mcp_action_match q =
    is_some p.mcp_tool_id && on_some q.mcp_action (λ action. same? p.mcp_action (some action))
match_trigger c p observed s mcp_server_trust_level q =
    is_some p.mcp_tool_id && on_some q.mcp_server_trust_level (λ level. same_level? observed level)

-- Without a trigger a condition holds.
unfoldable pub match_condition : Config → Payment → Option TrustLevel → Server → Condition → Bool
unfolding match_trigger
match_condition c p observed s q = elim q.trigger_type [
  | none ↦ true
  | some trigger ↦ match_trigger c p observed s trigger q
]

abbrev pub rule_matches : Config → Payment → Option TrustLevel → Server → HitlRule → Bool
rule_matches c p observed s rule =
    rule_applies_to_payment rule p
    && (match_condition c p observed s rule.primary
        && match_condition c p observed s rule.secondary)

unfoldable pub first_match : (HitlRule → Bool) → List HitlRule → Option HitlRule
first_match matches [] = none
first_match matches (rule ∷ rules) =
    let rest = first_match matches rules in if matches rule then some rule else rest

unfoldable pub matching_rule : Config → Payment → Option TrustLevel → Server → Option HitlRule
unfolding first_match rule_applies_to_payment match_condition
matching_rule c p observed s =
    first_match (rule_matches c p observed s) (list_hitl_rules true s.hitl_rules)
