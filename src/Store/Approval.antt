-- ===== src/Store/Approval.antt =====
-- app/storage.py: the table `approval_requests`.
pub mod Lifecycle
use Prim.Native.String.{String}
use safe4_arc_demo.Prelude.{
  ℕ, ◌+◌, Option, none, some, Bool, true, false, [], ◌∷◌, leb, if◌then◌else◌, ◌&&◌,
}
use safe4_arc_demo.Dict.{Dict, lookup, insert, adjust}

pub data ApprovalStatus : Type 0 where
  pending approved denied expired : ApprovalStatus

-- The fields of `build_approval_payload` that a later decision reads.
pub record ApprovalPayload : Type 0 where
  pub agent_id : ℕ
  pub user_id : ℕ
  pub vendor : ℕ
  pub amount : ℕ
  pub currency : ℕ
  pub mcp_tool_id : Option ℕ
  pub mcp_action : Option ℕ

pub record ApprovalRequest : Type 0 where
  pub request_hash : ℕ
  pub request_payload : ApprovalPayload
  pub triggered_by : String
  pub requestor_agent_id : ℕ
  pub requestor_user_id : ℕ
  pub mcp_tool_id : Option ℕ
  pub status : ApprovalStatus
  pub decided_by : Option ℕ
  pub decided_at : Option ℕ
  pub decision_reason : Option String
  pub expires_at : ℕ
  pub created_at : ℕ

abbrev pub pending? : ApprovalStatus → Bool
pending? pending = true
pending? _ = false

unfoldable pub get_approval_request : ℕ → Dict ApprovalRequest → Option ApprovalRequest
get_approval_request approval_id rows = lookup approval_id rows

-- The identifier is a new UUID: the insert of a stored one would raise.
unfoldable pub create_approval_request :
    ℕ
    → ℕ
    → ℕ
    → ApprovalPayload
    → String
    → ℕ
    → ℕ
    → Option ℕ
    → ℕ
    → Dict ApprovalRequest
    → Dict ApprovalRequest
create_approval_request now approval_id request_hash payload triggered_by agent user tool expires
      rows =
    insert approval_id
      (record {
        request_hash = request_hash;
        request_payload = payload;
        triggered_by = triggered_by;
        requestor_agent_id = agent;
        requestor_user_id = user;
        mcp_tool_id = tool;
        status = pending;
        decided_by = none;
        decided_at = none;
        decision_reason = none;
        expires_at = expires;
        created_at = now;
      })
      rows

abbrev pub decided : ℕ → ApprovalStatus → ℕ → Option String → ApprovalRequest → ApprovalRequest
decided now status by reason row = record row {
  status = status;
  decided_by = some by;
  decided_at = some now;
  decision_reason = reason;
}

-- `none` is the result for a request that is missing or no longer pending.
unfoldable pub decide_approval_request :
    ℕ
    → ℕ
    → ApprovalStatus
    → ℕ
    → Option String
    → Dict ApprovalRequest
    → Option ApprovalRequest × Dict ApprovalRequest
decide_approval_request now approval_id status by reason rows = elim (lookup approval_id rows) [
  | none ↦ (none, rows)
  | some row ↦
      if pending? row.status
      then (
        some (decided now status by reason row),
        adjust approval_id (decided now status by reason) rows,
      )
      else (none, rows)
]

-- The `WHERE` of the expiry.
abbrev pub is_due : ℕ → ApprovalRequest → Bool
is_due now row = pending? row.status && leb row.expires_at now

abbrev coalesce : Option String → String → Option String
coalesce none s = some s
coalesce (some t) s = some t

unfoldable pub expire_row : ℕ → ApprovalRequest → ApprovalRequest
expire_row now row =
    if is_due now row
    then record row {
      status = expired;
      decision_reason = coalesce row.decision_reason "Approval expired before review.";
      decided_at = some now;
    }
    else row

-- The number of rows that expired, and the table after it.
unfoldable pub expire_approval_requests : ℕ → Dict ApprovalRequest → ℕ × Dict ApprovalRequest
unfolding expire_row
expire_approval_requests now [] = (0, [])
expire_approval_requests now ((k, row) ∷ rows) =
    let (n, rest) = expire_approval_requests now rows in
    ((if is_due now row then 1 else 0) + n, (k, expire_row now row) ∷ rest)
