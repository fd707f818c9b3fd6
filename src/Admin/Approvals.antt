-- ===== src/Admin/Approvals.antt =====
-- app/api/hitl.py: the operators' side of the approvals. The outbox of approval alerts, which
-- nothing reads back, is left out.
pub mod Grant
pub mod Once
use Prim.Native.String.{String}
use safe4_arc_demo.Prelude.{
  ℕ, ◌+◌, ◌*◌, max, Option, none, some, Bool, true, false, List, [], ◌∷◌, leb, if◌then◌else◌, ◌||◌,
}
use safe4_arc_demo.Dict.{Dict}
use safe4_arc_demo.Money.{unit_scale, normalize_money}
use safe4_arc_demo.Store.Audit.{AuditEvent}
use safe4_arc_demo.Store.Value.{Value, null, text, number, flag, opaque_text}
use safe4_arc_demo.Store.Approval.{
  ApprovalStatus, pending, approved, denied, expired, ApprovalRequest, get_approval_request,
  decide_approval_request, expire_approval_requests,
}
use safe4_arc_demo.Store.SpendToken.{
  SpendToken, create_spend_token, get_spend_token, revoke_spend_token,
}
use safe4_arc_demo.Store.HitlRule.{AppliesTo, Condition, HitlRule, upsert_hitl_rule, get_hitl_rule}
use safe4_arc_demo.Payment.State.{Config, Server}
use safe4_arc_demo.Payment.Flow.{write_audit_entry}
use safe4_arc_demo.Admin.{AdminCall, Answered, ok, http_error, admin_event}

-- `ApprovalDecisionRequest.decision`
pub data Review : Type 0 where
  approve deny : Review

abbrev pub review_status : Review → ApprovalStatus
review_status approve = approved
review_status deny = denied

abbrev review_text : Review → String
review_text approve = "approved"
review_text deny = "denied"

-- The decision, its reason, and the secret that `issue_secret_token` would draw.
pub record ReviewCall : Type 0 where
  pub review : Review
  pub reason : Option String
  pub secret : ℕ

-- The request as it was decided, and the spend token if it was approved.
pub record Reviewed : Type 0 where
  pub approval : ApprovalRequest
  pub spend_token : Option ℕ

abbrev pub expired? : ApprovalStatus → Bool
expired? expired = true
expired? _ = false

unfoldable pub expire_and_enqueue_approval_alerts : ℕ → Server → ℕ × Server
expire_and_enqueue_approval_alerts now s =
    let (n, rows) = expire_approval_requests now s.approvals in (n, record s { approvals = rows })

abbrev pub current_spend_token_ttl_seconds : Config → ℕ
current_spend_token_ttl_seconds c = max 1 c.spend_token_ttl

-- The token of an approval: for the stored request, for no more than its amount.
unfoldable pub issue_spend_token : Config → AdminCall → ℕ → ApprovalRequest → Server → Server
issue_spend_token c a secret row s = record s {
  spend_tokens =
      create_spend_token a.now (c.hash_token secret)
        (record {
          request_hash = row.request_hash;
          user_id = row.requestor_user_id;
          agent_id = row.requestor_agent_id;
          mcp_tool_id = row.mcp_tool_id;
          authorized_amount = normalize_money (row.request_payload.amount * unit_scale);
          authorized_currency = row.request_payload.currency;
          authorized_action = row.request_payload.mcp_action;
          expires_at = a.now + current_spend_token_ttl_seconds c;
        })
        s.spend_tokens;
}

abbrev pub issued : Config → AdminCall → ReviewCall → ApprovalRequest → Server → Option ℕ × Server
issued c a v row s = elim v.review [
  | approve ↦ (some v.secret, issue_spend_token c a v.secret row s)
  | deny ↦ (none, s)
]

abbrev ttl? : Config → Review → Value
ttl? c approve = number (current_spend_token_ttl_seconds c)
ttl? c deny = null

abbrev pub decision_event : Config → AdminCall → ℕ → ReviewCall → ApprovalRequest → AuditEvent
decision_event c a id v row =
    let summary =
      ("approval_id", opaque_text id) ∷ ("decision", text (review_text v.review)) ∷ [] in
    let details =
      ("approval_id", opaque_text id) ∷ ("spend_token_ttl_seconds", ttl? c v.review) ∷ [] in
    record (admin_event c a "approval_decide" "/approvals/{approval_id}/decide" summary
      (review_text v.review) v.reason details) { mcp_tool_id = row.mcp_tool_id }

unfoldable pub conclude :
    Config
    → AdminCall
    → ℕ
    → ReviewCall
    → Option ApprovalRequest
    → Server
    → Answered Reviewed × Server
unfolding issue_spend_token write_audit_entry
conclude c a id v none s = (http_error 409 "APPROVAL_NOT_PENDING", s)
conclude c a id v (some row) s =
    let (token, s') = issued c a v row s in
    (
      ok (record { approval = row; spend_token = token }),
      write_audit_entry c (decision_event c a id v row) s',
    )

unfoldable pub decide_found :
    Config
    → AdminCall
    → ℕ
    → ReviewCall
    → Option ApprovalRequest
    → Server
    → Answered Reviewed × Server
unfolding conclude
decide_found c a id v none s = (http_error 404 "APPROVAL_NOT_FOUND", s)
decide_found c a id v (some row) s =
    let (decided, rows) =
      decide_approval_request a.now id (review_status v.review) a.oauth_subject v.reason
        s.approvals in
    let rest = conclude c a id v decided (record s { approvals = rows }) in
    if expired? row.status || leb row.expires_at a.now
    then (http_error 410 "APPROVAL_EXPIRED", s)
    else rest

unfoldable pub decide_approval :
    Config → AdminCall → ℕ → ReviewCall → Server → Answered Reviewed × Server
unfolding expire_and_enqueue_approval_alerts decide_found
decide_approval c a id v s =
    let s' = (expire_and_enqueue_approval_alerts a.now s).1 in
    decide_found c a id v (get_approval_request id s'.approvals) s'

unfoldable pub get_approval : ℕ → Server → Answered ApprovalRequest
get_approval id s = elim (get_approval_request id s.approvals) [
  | none ↦ http_error 404 "APPROVAL_NOT_FOUND"
  | some row ↦ ok row
]

unfoldable pub get_spend_token_status : Config → ℕ → Server → Answered SpendToken
get_spend_token_status c token s = elim (get_spend_token (c.hash_token token) s.spend_tokens) [
  | none ↦ http_error 404 "SPEND_TOKEN_NOT_FOUND"
  | some row ↦ ok row
]

abbrev revocation_event : Config → AdminCall → ℕ → AuditEvent
revocation_event c a token =
    admin_event c a "spend_token_revoke" "/tokens/revoke" (("token_id", opaque_text token) ∷ [])
      "revoked" none []

abbrev pub revoked_or_not :
    Config → AdminCall → ℕ → Bool × Dict SpendToken → Server → Answered (Unit {0}) × Server
revoked_or_not c a token (true, rows) s =
    (ok tt, write_audit_entry c (revocation_event c a token) (record s { spend_tokens = rows }))
revoked_or_not c a token (false, rows) s =
    (http_error 404 "SPEND_TOKEN_NOT_REVOCABLE", record s { spend_tokens = rows })

unfoldable pub revoke_token : Config → AdminCall → ℕ → Server → Answered (Unit {0}) × Server
unfolding write_audit_entry
revoke_token c a token s =
    revoked_or_not c a token (revoke_spend_token (c.hash_token token) s.spend_tokens) s
