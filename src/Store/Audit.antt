-- ===== src/Store/Audit.antt =====
-- app/storage.py: the table `audit_entries` and its hash chain. `sha256` stands for SHA-256 of the
-- printed JSON, which neither the program nor the model looks into. The rows are kept in the order
-- of their sequence numbers, as both queries sort them.
pub mod Chain
pub mod Coverage
use Prim.Native.String.{String}
use safe4_arc_demo.Prelude.{
  ℕ, suc, ◌+◌, Option, none, some, Bool, true, false, List, [], ◌∷◌, ◌++◌, ◌==◌, if◌then◌else◌,
  length, not,
}
use safe4_arc_demo.Store.Value.{Details}

-- What a caller hands to `append_audit_entry`.
pub record AuditEvent : Type 0 where
  pub timestamp : ℕ
  pub transaction_id : Option ℕ
  pub actor_type : String
  pub actor_id : ℕ
  pub action : String
  pub request_path : String
  pub request_payload_hash : ℕ
  pub request_payload_summary : Details
  pub policy_version : ℕ
  pub decision : String
  pub decision_reason : Option String
  pub decision_details : Details
  pub transaction_amount : Option ℕ
  pub transaction_currency : Option ℕ
  pub mcp_server_id : Option ℕ
  pub mcp_tool_id : Option ℕ
  pub mcp_tool_name : Option ℕ
  pub infrastructure_provider_name : Option ℕ
  pub infrastructure_subject : Option ℕ
  pub infrastructure_trust_tier : Option ℕ

pub record AuditEntry : Type 0 where
  pub sequence_number : ℕ
  pub previous_hash : ℕ
  pub event : AuditEvent
  pub entry_hash : ℕ

-- The fields that `canonicalize_audit_entry` prints.
pub record Canonical : Type 0 where
  pub sequence_number : ℕ
  pub timestamp : ℕ
  pub previous_hash : ℕ
  pub transaction_id : Option ℕ
  pub actor_type : String
  pub actor_id : ℕ
  pub action : String
  pub request_payload_hash : ℕ
  pub policy_version : ℕ
  pub decision : String
  pub transaction_amount : Option ℕ
  pub transaction_currency : Option ℕ
  pub decision_details : Details
  pub mcp_server_id : Option ℕ
  pub mcp_tool_id : Option ℕ
  pub mcp_tool_name : Option ℕ
  pub infrastructure_provider_name : Option ℕ
  pub infrastructure_subject : Option ℕ
  pub infrastructure_trust_tier : Option ℕ

unfoldable pub canonicalize_audit_entry : ℕ → ℕ → AuditEvent → Canonical
canonicalize_audit_entry sequence_number previous_hash e = record {
  sequence_number = sequence_number;
  timestamp = e.timestamp;
  previous_hash = previous_hash;
  transaction_id = e.transaction_id;
  actor_type = e.actor_type;
  actor_id = e.actor_id;
  action = e.action;
  request_payload_hash = e.request_payload_hash;
  policy_version = e.policy_version;
  decision = e.decision;
  transaction_amount = e.transaction_amount;
  transaction_currency = e.transaction_currency;
  decision_details = e.decision_details;
  mcp_server_id = e.mcp_server_id;
  mcp_tool_id = e.mcp_tool_id;
  mcp_tool_name = e.mcp_tool_name;
  infrastructure_provider_name = e.infrastructure_provider_name;
  infrastructure_subject = e.infrastructure_subject;
  infrastructure_trust_tier = e.infrastructure_trust_tier;
}

abbrev pub canonical_of : AuditEntry → Canonical
canonical_of e = canonicalize_audit_entry e.sequence_number e.previous_hash e.event

-- GENESIS_AUDIT_HASH, 64 zeros
abbrev pub genesis_audit_hash : ℕ
genesis_audit_hash = 0

-- `ORDER BY sequence_number DESC LIMIT 1`
unfoldable pub last_row : List AuditEntry → Option AuditEntry
last_row [] = none
last_row (e ∷ es) = elim (last_row es) [ none ↦ some e | some l ↦ some l ]

pub data ChainError : Type 0 where
  previous_hash_mismatch entry_hash_mismatch : ChainError

pub record ChainReport : Type 0 where
  pub valid : Bool
  pub entries_checked : ℕ
  pub first_invalid_sequence : Option ℕ
  pub error : Option ChainError

abbrev pub broken : ℕ → ChainError → ChainReport
broken n e = record {
  valid = false;
  entries_checked = n;
  first_invalid_sequence = some n;
  error = some e;
}

abbrev pub intact : ℕ → ChainReport
intact n = record { valid = true; entries_checked = n; first_invalid_sequence = none; error = none }

module _ (sha256 : Canonical → ℕ) where
  unfoldable pub compute_audit_entry_hash : AuditEntry → ℕ
  compute_audit_entry_hash e = sha256 (canonical_of e)

  unfoldable pub link : ℕ → ℕ → AuditEvent → AuditEntry
  link sequence_number previous_hash e = record {
    sequence_number = sequence_number;
    previous_hash = previous_hash;
    event = e;
    entry_hash = sha256 (canonicalize_audit_entry sequence_number previous_hash e);
  }

  -- The entry that an append stores behind the given last row.
  unfoldable pub next_entry : Option AuditEntry → AuditEvent → AuditEntry
  unfolding link
  next_entry none e = link 1 genesis_audit_hash e
  next_entry (some l) e = link (l.sequence_number + 1) l.entry_hash e

  unfoldable pub append_audit_entry : AuditEvent → List AuditEntry → AuditEntry × List AuditEntry
  unfolding last_row next_entry
  append_audit_entry e rows =
      let stored = next_entry (last_row rows) e in (stored, rows ++ stored ∷ [])

  -- The loop of `verify_audit_chain`, which ends with a report or goes on to the last entry.
  unfoldable pub verify_from : ℕ → List AuditEntry → Option ChainReport
  unfolding compute_audit_entry_hash
  verify_from previous_hash [] = none
  verify_from previous_hash (e ∷ es) =
      let rest = verify_from e.entry_hash es in
      if not (e.previous_hash == previous_hash)
      then some (broken e.sequence_number previous_hash_mismatch)
      else if not (compute_audit_entry_hash e == e.entry_hash)
      then some (broken e.sequence_number entry_hash_mismatch)
      else rest

  unfoldable pub verify_audit_chain : List AuditEntry → ChainReport
  unfolding verify_from
  verify_audit_chain entries = elim (verify_from genesis_audit_hash entries) [
    | some report ↦ report
    | none ↦ intact (length entries)
  ]
