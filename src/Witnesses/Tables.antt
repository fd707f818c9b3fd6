-- ===== src/Witnesses/Tables.antt =====
-- The theorems on the tables of app/storage.py at small tables.
use safe4_arc_demo.Prelude.{
  ℕ, ◌+◌, ◌≤◌, ◌≡◌, refl, none, some, true, false, List, [], ◌∷◌, arith, ◌==◌, map, length,
  if◌then◌else◌,
}
use safe4_arc_demo.Dict.{Dict, lookup}
use safe4_arc_demo.Store.Audit.{
  AuditEvent, AuditEntry, Canonical, canonical_of, canonicalize_audit_entry, append_audit_entry,
  verify_audit_chain, intact,
}
use safe4_arc_demo.Store.Audit.Chain.{
  Numbered, append_audit_entry-verifies, verify_audit_chain-determines,
}
use safe4_arc_demo.Store.Audit.Coverage.{rewrite_entry, verify_audit_chain-blind}
use safe4_arc_demo.Store.Approval.{ApprovalStatus, pending, denied, ApprovalRequest}
use safe4_arc_demo.Store.Approval.Lifecycle.{run, expire, Next, run-Next}
use safe4_arc_demo.Store.SpendToken.{SpendToken, spendable?}
use safe4_arc_demo.Store.SpendToken.SingleUse.{consume, revoke, successes, successes-le}
use safe4_arc_demo.Store.Mcp.{McpTool, Patterns, clear, review, quarantined, upsert_mcp_tool}
use safe4_arc_demo.Store.Mcp.Quarantine.{
  scanned, status_after, register-critical, register_twice-clears,
}

abbrev payment_event : AuditEvent
payment_event = record {
  timestamp = 70;
  transaction_id = some 5;
  actor_type = "agent";
  actor_id = 1;
  action = "payment_authorize";
  request_path = "/pay";
  request_payload_hash = 12;
  request_payload_summary = [];
  policy_version = 1;
  decision = "authorized";
  decision_reason = none;
  decision_details = [];
  transaction_amount = some 30;
  transaction_currency = some 2;
  mcp_server_id = none;
  mcp_tool_id = none;
  mcp_tool_name = none;
  infrastructure_provider_name = none;
  infrastructure_subject = none;
  infrastructure_trust_tier = none;
}

-- A hash for the examples.
abbrev weak_hash : Canonical → ℕ
weak_hash c = c.sequence_number + c.previous_hash + c.request_payload_hash

abbrev one_entry : List AuditEntry
one_entry =
    record { sequence_number = 1; previous_hash = 0; event = payment_event; entry_hash = 13 } ∷ []

one_entry-valid : (verify_audit_chain weak_hash one_entry).valid ≡ true
unfolding verify_audit_chain canonicalize_audit_entry
one_entry-valid = refl

append_audit_entry-verifies_example :
    let (_, es) = append_audit_entry weak_hash payment_event one_entry in
    (verify_audit_chain weak_hash es ≡ intact (length one_entry + 1)) × Numbered 0 es
append_audit_entry-verifies_example =
    append_audit_entry-verifies weak_hash payment_event one_entry one_entry-valid (refl, tt)

abbrev rewritten : List AuditEntry
rewritten = map (rewrite_entry "/other" [] (some "no reason")) one_entry

rewritten-valid : (verify_audit_chain weak_hash rewritten).valid ≡ true
unfolding verify_audit_chain canonicalize_audit_entry
rewritten-valid = refl

verify_audit_chain-determines_example : map canonical_of one_entry ≡ map canonical_of rewritten
unfolding canonicalize_audit_entry
verify_audit_chain-determines_example =
    verify_audit_chain-determines weak_hash one_entry rewritten (λ h. refl, tt) one_entry-valid
      rewritten-valid refl refl

verify_audit_chain-blind_example :
    verify_audit_chain weak_hash (map (rewrite_entry "/other" [] (some "no reason")) one_entry)
    ≡ verify_audit_chain weak_hash one_entry
verify_audit_chain-blind_example =
    verify_audit_chain-blind weak_hash "/other" [] (some "no reason") one_entry

abbrev asked : ApprovalStatus → ApprovalRequest
asked status = record {
  request_hash = 12;
  request_payload = record {
    agent_id = 1;
    user_id = 2;
    vendor = 3;
    amount = 30;
    currency = 2;
    mcp_tool_id = none;
    mcp_action = none;
  };
  triggered_by = "rule";
  requestor_agent_id = 1;
  requestor_user_id = 2;
  mcp_tool_id = none;
  status = status;
  decided_by = none;
  decided_at = none;
  decision_reason = none;
  expires_at = 100;
  created_at = 70;
}

abbrev two_requests : Dict ApprovalRequest
two_requests = (8, asked pending) ∷ (9, asked denied) ∷ []

found : lookup 8 two_requests ≡ some (asked pending)
unfolding lookup
found = refl

run-Next_example :
    (row : ApprovalRequest) × (lookup 8 (run (expire 100) two_requests) ≡ some row)
    × Next (asked pending) row
run-Next_example = run-Next (expire 100) 8 two_requests (asked pending) found

abbrev fresh_token : SpendToken
fresh_token = record {
  request_hash = 12;
  user_id = 2;
  agent_id = 1;
  mcp_tool_id = none;
  authorized_amount = 30;
  authorized_currency = 2;
  authorized_action = none;
  expires_at = 100;
  is_used = false;
  used_at = none;
  revoked = false;
  created_at = 70;
}

successes-le_example :
    successes 6 (consume 80 6 ∷ revoke 6 ∷ consume 81 6 ∷ []) ((6, fresh_token) ∷ [])
    ≤ (if spendable? (lookup 6 ((6, fresh_token) ∷ [])) then 1 else 0)
successes-le_example =
    successes-le 6 (consume 80 6 ∷ revoke 6 ∷ consume 81 6 ∷ []) ((6, fresh_token) ∷ [])

-- Description 1 holds a critical pattern, 2 a high one, every other is harmless.
abbrev patterns : Patterns
patterns = record {
  is_critical_text = λ d. d == 1;
  is_high_text = λ d. d == 2;
  is_payment_text = λ _. true;
}

register-critical_example : status_after 80 5 (scanned patterns 40 41 42 1) [] ≡ some quarantined
register-critical_example = register-critical 80 5 40 41 42 1 patterns [] refl

abbrev harmless : McpTool
harmless = record {
  tool_name = 40;
  server_id = 41;
  description_hash = 42;
  description_first_seen_hash = 42;
  was_changed = false;
  is_payment_relevant = true;
  threat_flags = [];
  quarantine_status = clear;
  created_at = 70;
  updated_at = 70;
}

stored : lookup 5 ((5, harmless) ∷ []) ≡ some harmless
unfolding lookup
stored = refl

register_twice-clears_example :
    let scan = scanned patterns 40 41 43 3 in
    (status_after 80 5 scan ((5, harmless) ∷ []) ≡ some review)
    × (status_after 81 5 scan (upsert_mcp_tool 80 5 scan ((5, harmless) ∷ [])) ≡ some clear)
register_twice-clears_example =
    register_twice-clears 80 81 5 40 41 43 3 patterns ((5, harmless) ∷ []) harmless stored refl
      (omega arith) refl refl
