-- ===== src/Store/HitlRule.antt =====
-- app/storage.py: the table `hitl_rules`, whose rows are kept in the order of their creation. An
-- update leaves the time of creation and so the place of a row.
use safe4_arc_demo.Prelude.{ℕ, Option, none, some, Bool, true, false, List, map, keep}
use safe4_arc_demo.Dict.{Dict, lookup, insert}
use safe4_arc_demo.Store.Mcp.{TrustLevel}

pub data AppliesTo : Type 0 where
  direct mcp any : AppliesTo

pub data TriggerType : Type 0 where
  amount_threshold first_time_vendor vendor_pattern first_time_agent_user : TriggerType
  currency_match mcp_tool_match mcp_action_match mcp_server_trust_level : TriggerType

-- The primary or the secondary columns of a rule.
pub record Condition : Type 0 where
  pub trigger_type : Option TriggerType
  pub threshold_amount : Option ℕ
  pub vendor_pattern : Option ℕ
  pub currency : Option ℕ
  pub mcp_tool_id : Option ℕ
  pub mcp_action : Option ℕ
  pub mcp_server_trust_level : Option TrustLevel

pub record HitlRule : Type 0 where
  pub rule_id : ℕ
  pub applies_to : AppliesTo
  pub primary : Condition
  pub secondary : Condition
  pub is_active : Bool
  pub created_at : ℕ
  pub updated_at : ℕ

abbrev rule_created : ℕ → Option HitlRule → ℕ
rule_created now none = now
rule_created now (some rule) = rule.created_at

-- The rule as it is stored: an existing one keeps its time of creation.
unfoldable pub upsert_hitl_rule :
    ℕ → ℕ → AppliesTo → Condition → Condition → Bool → Dict HitlRule → Dict HitlRule
upsert_hitl_rule now rule_id applies_to primary secondary is_active rows =
    insert rule_id
      (record {
        rule_id = rule_id;
        applies_to = applies_to;
        primary = primary;
        secondary = secondary;
        is_active = is_active;
        created_at = rule_created now (lookup rule_id rows);
        updated_at = now;
      })
      rows

unfoldable pub get_hitl_rule : ℕ → Dict HitlRule → Option HitlRule
get_hitl_rule rule_id rows = lookup rule_id rows

abbrev rule_of : ℕ × HitlRule → HitlRule
rule_of row = row.1

unfoldable pub list_hitl_rules : Bool → Dict HitlRule → List HitlRule
list_hitl_rules active_only rows =
    let rules = map rule_of rows in
    elim active_only [ true ↦ keep (λ (rule : HitlRule). rule.is_active) rules | false ↦ rules ]
