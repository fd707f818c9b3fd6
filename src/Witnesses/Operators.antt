-- ===== src/Witnesses/Operators.antt =====
-- The theorems on the administrators' operations, for one payment that waits, one receipt and one tool.
use safe4_arc_demo.Prelude.{◌≡◌, refl, none, some, [], ◌∷◌, ◌⊎◌, arith}
use safe4_arc_demo.Dict.{lookup, adjust}
use safe4_arc_demo.Money.{compute_firewall_fee, normalize_money}
use safe4_arc_demo.Store.Approval.{
  ApprovalRequest, approved, decided, get_approval_request, decide_approval_request,
  expire_approval_requests, expire_row,
}
use safe4_arc_demo.Payment.State.{Request, Server, next}
use safe4_arc_demo.Payment.Flow.{write_audit_entry}
use safe4_arc_demo.Payment.Entry.{validate_payment_receipt}
use safe4_arc_demo.Payment.Limits.{Found}
use safe4_arc_demo.Payment.SpendGrant.{validate_and_consume_spend_token}
use safe4_arc_demo.Payment.Hitl.{Escalation, create_hitl_approval}
use safe4_arc_demo.Admin.{AdminCall, ok}
use safe4_arc_demo.Admin.Approvals.{
  approve, deny, ReviewCall, issue_spend_token, conclude, decide_found, decide_approval,
  expire_and_enqueue_approval_alerts,
}
use safe4_arc_demo.Admin.Approvals.Grant.{asked, approved-passes}
use safe4_arc_demo.Admin.Approvals.Once.{Counts, Refuses, decide_approval-Counts, decided-once}
use safe4_arc_demo.Admin.Receipts.{
  IssueCall, issued_row, build_receipt_token, issue_payment_receipt,
}
use safe4_arc_demo.Admin.Receipts.Issued.{issued-accepted}
use safe4_arc_demo.Witnesses.Decision.{config, request, server}

abbrev found : Found
found = record { receipt_id = some 5; mcp_server_id = none; mcp_tool_name = none }

abbrev rule_asks : Escalation
rule_asks = record {
  triggered_by = "hitl_rule";
  decision_reason = "Human approval required by HITL rule.";
  reason_code = "HITL_RULE_TRIGGERED";
  rule = none;
}

abbrev operator : AdminCall
operator = record { oauth_subject = 3; now = 120; payload_hash = 9 }

abbrev later : AdminCall
later = record { oauth_subject = 4; now = 130; payload_hash = 9 }

abbrev approval : ReviewCall
approval = record { review = approve; reason = none; secret = 55 }

abbrev refusal : ReviewCall
refusal = record { review = deny; reason = none; secret = 56 }

abbrev waiting : Server
waiting = (create_hitl_approval config request found rule_asks server).1

abbrev decided_server : Server
decided_server = (decide_approval config operator 22 approval waiting).1

abbrev again : Request
again = record request { spend_token = some 55; now = 150 }

approved-passes_example :
    ((decide_approval config operator 22 approval waiting).0
      ≡ ok (record {
        approval = decided 120 approved 3 none (asked config request rule_asks);
        spend_token = some 55;
      }))
    × ((validate_and_consume_spend_token config again none none decided_server).0 ≡ next tt)
approved-passes_example =
    approved-passes config request again found rule_asks operator approval server waiting
      decided_server refl (ground arith) refl refl refl refl (ground arith)

decide_approval-Counts_example :
    Counts operator 22 approval waiting (decide_approval config operator 22 approval waiting)
    ⊎ Refuses waiting (decide_approval config operator 22 approval waiting)
decide_approval-Counts_example = decide_approval-Counts config operator 22 approval waiting

abbrev row : ApprovalRequest
row = asked config request rule_asks

abbrev one_waits : Server
one_waits = record server { approvals = (22, row) ∷ [] }

it-Counts :
    Counts operator 22 approval one_waits (decide_approval config operator 22 approval one_waits)
unfolding decide_approval expire_and_enqueue_approval_alerts expire_approval_requests expire_row
    get_approval_request decide_approval_request decide_found conclude issue_spend_token
    write_audit_entry lookup adjust
it-Counts = record {
  row = row;
  token = some 55;
  stored = refl;
  is_pending = refl;
  is_fresh = ground arith;
  answered = refl;
  after = refl;
}

decided-once_example :
    let s' = (decide_approval config operator 22 approval one_waits).1 in
    Refuses s' (decide_approval config later 22 refusal s')
decided-once_example =
    decided-once config operator later 22 approval refusal one_waits
      (decide_approval config operator 22 approval one_waits).1 it-Counts refl

abbrev issue : IssueCall
issue = record {
  amount_due = 2;
  currency = 4;
  expires_in_seconds = 300;
  pay_to = none;
  admin_secret = some 77;
  receipt_id = 12;
}

abbrev presenting : Request
presenting = record request {
  receipt_token = some (build_receipt_token config 12 (issued_row 120 issue 9));
  now = 150;
}

right-fee : 2 ≡ compute_firewall_fee 5000 400
unfolding compute_firewall_fee normalize_money
right-fee = refl

issued-accepted_example :
    ((issue_payment_receipt config operator issue server).0
      ≡ ok (build_receipt_token config 12 (issued_row 120 issue 9)))
    × ((validate_payment_receipt config presenting
          (issue_payment_receipt config operator issue server).1).0
        ≡ next (some 12))
issued-accepted_example =
    issued-accepted config operator issue presenting server
      (issue_payment_receipt config operator issue server).1 refl refl refl right-fee refl
      (ground arith) refl
