-- ===== src/Payment/State.antt =====
-- The request, the settings and the tables of one payment decision, for an agent without an
-- infrastructure assertion and a payment without an AP2 mandate. The message, the details and the
-- headers of an answer are left out: an error is its code.
use Prim.Native.String.{String}
use safe4_arc_demo.Prelude.{ℕ, Option, Bool, List}
use safe4_arc_demo.Dict.{Dict}
use safe4_arc_demo.Text.{Text, Unicode}
use safe4_arc_demo.Intent.{PaymentIntent, ReasonCode}
use safe4_arc_demo.Store.Budget.{BudgetRow, Budget}
use safe4_arc_demo.Store.BudgetAlert.{BudgetAlert}
use safe4_arc_demo.Store.Mcp.{McpServer, McpTool, Permissions, Usage, Patterns}
use safe4_arc_demo.Anomaly.{Anomaly, Profile, Threshold}
use safe4_arc_demo.Store.Receipt.{Receipt}
use safe4_arc_demo.Store.Idempotency.{IdempotencyRecord}
use safe4_arc_demo.Store.Audit.{AuditEntry, Canonical}
use safe4_arc_demo.Store.Approval.{ApprovalRequest}
use safe4_arc_demo.Store.HitlRule.{HitlRule}
use safe4_arc_demo.Store.SpendToken.{SpendToken}
use safe4_arc_demo.Store.Log.{LogLine, TransactionEvent}

pub record ScopeOfAutonomy : Type 0 where
  pub max_cost : Option ℕ
  pub allowed_tools : Option (List ℕ)

-- `PaymentRequest` after its validation.
pub record Payment : Type 0 where
  pub agent_id : ℕ
  pub user_id : ℕ
  pub vendor : ℕ
  pub amount : ℕ
  pub currency : ℕ
  pub description : Text
  pub intent : PaymentIntent
  pub mcp_tool_id : Option ℕ
  pub mcp_action : Option ℕ
  pub scope_of_autonomy : Option ScopeOfAutonomy

-- The header X-Payment-Receipt: a text without a dot, or a receipt's id and a signature.
pub data ReceiptToken : Type 0 where
  no_dot : ReceiptToken
  signed : ℕ → ℕ → ReceiptToken

-- One call of `/pay`: the body, the headers, the clock and the fresh identifiers.
pub record Request : Type 0 where
  pub payment : Payment
  pub receipt_token : Option ReceiptToken
  pub idempotency_key : Option ℕ
  pub spend_token : Option ℕ
  -- the agent that the access token is bound to
  pub token_agent_id : Option ℕ
  pub now : ℕ
  pub today : ℕ
  -- when the day began
  pub day_start : ℕ
  -- `uuid4` of the transaction, of its anomaly and of an approval
  pub transaction_id : ℕ
  pub anomaly_id : ℕ
  pub approval_id : ℕ

-- The settings that are read at run time, and the functions of libraries.
pub record Config : Type 0 where
  pub fee_rate : ℕ
  pub pay_to : ℕ
  pub velocity_limit : ℕ
  pub velocity_window : ℕ
  pub min_description_words : ℕ
  pub policy_version : ℕ
  pub unknown_server_hitl_threshold : ℕ
  pub hitl_approval_ttl : ℕ
  pub spend_token_ttl : ℕ
  pub receipt_admin_secret : ℕ
  pub oauth_only_max_amount : Option ℕ
  pub anomaly_hitl_min_severity : Threshold
  pub anomaly_deny_min_severity : Threshold
  pub budget_alert_thresholds : List ℕ
  -- SHA-256 of a printed entry, of a printed request and of a token
  pub sha256 : Canonical → ℕ
  pub hash_request : Payment → ℕ
  pub hash_token : ℕ → ℕ
  -- HMAC of receipt, payee, amount, currency and expiry
  pub sign : ℕ → ℕ → ℕ → ℕ → Option ℕ → ℕ
  -- the sentence for the reason of an intent decision
  pub intent_reason : ReasonCode → String
  pub unicode : Unicode
  -- `UUID4_PATTERN.fullmatch`, and `re.search` of a rule's pattern in a vendor
  pub is_uuid4 : ℕ → Bool
  pub vendor_matches : ℕ → ℕ → Bool
  -- `hitl_rule:` and the rule's id
  pub rule_trigger : ℕ → String
  -- the server's id, a colon and the tool's name; and what the patterns find in a description
  pub tool_key : ℕ → ℕ → ℕ
  pub patterns : Patterns

-- An answer's content: the object of an approval that is waited for, a JSON object with an error
-- code, a JSON text that holds that object printed, or the object of an authorized payment.
pub data Content : Type 0 where
  pending_approval : ℕ → Content
  json : String → Content
  printed : String → Content
  authorization : (transaction_id fee : ℕ) → Budget → Budget → ReasonCode → Content

-- One row of the anomalies; the columns of an infrastructure assertion are empty.
pub record AnomalyRow : Type 0 where
  pub anomaly_id : ℕ
  pub transaction_id : ℕ
  pub actor_id : ℕ
  pub anomaly : Anomaly

pub record Response : Type 0 where
  pub status_code : ℕ
  pub content : Content

pub record Server : Type 0 where
  pub budgets : Dict BudgetRow
  pub agent_budgets : Dict BudgetRow
  pub receipts : Dict Receipt
  pub idempotency : Dict (IdempotencyRecord Content)
  pub logs : List LogLine
  pub events : List TransactionEvent
  pub audit_entries : List AuditEntry
  pub spend_tokens : Dict SpendToken
  pub approvals : Dict ApprovalRequest
  pub hitl_rules : Dict HitlRule
  pub budget_alerts : List BudgetAlert
  pub mcp_servers : Dict McpServer
  pub mcp_tools : Dict McpTool
  pub permissions : Permissions
  pub usage : List Usage
  pub anomalies : List AnomalyRow
  -- the infrastructure profiles that the query of the call selects
  pub profiles : List Profile
  -- the names that `metrics.increment` was called with
  pub metrics : List String

-- A stage goes on with a value or ends the call with an answer.
pub data Outcome {ℓ} (A : Type ℓ) : Type ℓ where
  next : A → Outcome A
  respond : Response → Outcome A
