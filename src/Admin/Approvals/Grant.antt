-- ===== src/Admin/Approvals/Grant.antt =====
-- From a payment that has to wait for an approval to its second attempt with the token.
use safe4_arc_demo.Prelude.{
  ℕ, ◌+◌, ◌*◌, ◌<◌, ◌≡◌, refl, sym, ap, ◌∙◌, max, Option, none, some, true, false, arith, same?,
  ==-refl,
}
use safe4_arc_demo.Dict.{lookup-insert, lookup}
use safe4_arc_demo.Money.{unit_scale, normalize_money}
use safe4_arc_demo.Store.Approval.{
  approved, pending, ApprovalRequest, decided, get_approval_request, create_approval_request,
  decide_approval_request, expire_row, expire_approval_requests,
}
use safe4_arc_demo.Store.Approval.Lifecycle.{lookup-expire}
use safe4_arc_demo.Store.SpendToken.{SpendToken, create_spend_token, get_spend_token}
use safe4_arc_demo.Payment.State.{Request, Config, Server, next}
use safe4_arc_demo.Payment.Flow.{increment, write_audit_entry}
use safe4_arc_demo.Payment.Limits.{Found}
use safe4_arc_demo.Payment.SpendGrant.{validate_and_consume_spend_token}
use safe4_arc_demo.Payment.SpendGrant.Exact.{Grants, IsGranted, IsGranted-once}
use safe4_arc_demo.Payment.Hitl.{
  Escalation, build_approval_payload, store_approval, create_hitl_approval,
}
use safe4_arc_demo.Admin.{AdminCall, ok}
use safe4_arc_demo.Admin.Approvals.{
  approve, ReviewCall, current_spend_token_ttl_seconds, issue_spend_token, conclude, decide_found,
  decide_approval, expire_and_enqueue_approval_alerts, decision_event,
}

-- The request for approval of a payment, as it is stored.
abbrev pub asked : Config → Request → Escalation → ApprovalRequest
asked c r e = record {
  request_hash = c.hash_request r.payment;
  request_payload = build_approval_payload r.payment;
  triggered_by = e.triggered_by;
  requestor_agent_id = r.payment.agent_id;
  requestor_user_id = r.payment.user_id;
  mcp_tool_id = r.payment.mcp_tool_id;
  status = pending;
  decided_by = none;
  decided_at = none;
  decision_reason = none;
  expires_at = r.now + c.hitl_approval_ttl;
  created_at = r.now;
}

pub create-asked :
    (c : Config) (r : Request) (f : Found) (e : Escalation) (s : Server)
    → get_approval_request r.approval_id (create_hitl_approval c r f e s).1.approvals
      ≡ some (asked c r e)
unfolding create_hitl_approval store_approval get_approval_request create_approval_request increment
    write_audit_entry
create-asked c r f e s =
    lookup-insert r.approval_id r.approval_id (asked c r e) s.approvals
    ∙ ground (arith, ==-refl r.approval_id)

-- The token that an approval creates.
abbrev pub token_for : Config → AdminCall → ApprovalRequest → SpendToken
token_for c a row = record {
  request_hash = row.request_hash;
  user_id = row.requestor_user_id;
  agent_id = row.requestor_agent_id;
  mcp_tool_id = row.mcp_tool_id;
  authorized_amount = normalize_money (row.request_payload.amount * unit_scale);
  authorized_currency = row.request_payload.currency;
  authorized_action = row.request_payload.mcp_action;
  expires_at = a.now + current_spend_token_ttl_seconds c;
  is_used = false;
  used_at = none;
  revoked = false;
  created_at = a.now;
}

-- What an approval that is there, pending and not expired leads to.
record Approves (c : Config) (a : AdminCall) (id : ℕ) (v : ReviewCall) (row : ApprovalRequest)
    (s : Server) : Type 0 where
  answer :
      (decide_approval c a id v s).0
      ≡ ok (record {
        approval = decided a.now approved a.oauth_subject v.reason row;
        spend_token = some v.secret;
      })
  stored :
      get_spend_token (c.hash_token v.secret) (decide_approval c a id v s).1.spend_tokens
      ≡ some (token_for c a row)

unexpired :
    (now id : ℕ) (row : ApprovalRequest) (s : Server)
    → get_approval_request id s.approvals ≡ some row
    → now < row.expires_at
    → get_approval_request id (expire_approval_requests now s.approvals).1 ≡ some row
unfolding get_approval_request expire_row
unexpired now id row s h l = ground (arith, lookup-expire now id s.approvals)

found-Approves :
    (c : Config) (a : AdminCall) (id : ℕ) (v : ReviewCall) (row : ApprovalRequest) (s : Server)
    → get_approval_request id s.approvals ≡ some row
    → row.status ≡ pending
    → a.now < row.expires_at
    → v.review ≡ approve
    → (decide_found c a id v (some row) s ≡ (
      ok (record {
        approval = decided a.now approved a.oauth_subject v.reason row;
        spend_token = some v.secret;
      }),
      write_audit_entry c
          (decision_event c a id v (decided a.now approved a.oauth_subject v.reason row))
          (issue_spend_token c a v.secret
            (decided a.now approved a.oauth_subject v.reason row)
            (record s {
              approvals =
                  (decide_approval_request a.now id approved a.oauth_subject v.reason
                    s.approvals).1;
            })),
    ))
unfolding decide_found conclude decide_approval_request get_approval_request
found-Approves c a id v row s h p l e = ground (arith, h, p, l, e)

decide-Approves :
    (c : Config) (a : AdminCall) (id : ℕ) (v : ReviewCall) (row : ApprovalRequest) (s : Server)
    → get_approval_request id s.approvals ≡ some row
    → row.status ≡ pending
    → a.now < row.expires_at
    → v.review ≡ approve
    → Approves c a id v row s
unfolding decide_approval expire_and_enqueue_approval_alerts issue_spend_token create_spend_token
    get_spend_token write_audit_entry
decide-Approves c a id v row s h p l e =
    let rows = (expire_approval_requests a.now s.approvals).1 in
    let s' : Server = record s { approvals = rows } in
    let there = unexpired a.now id row s h l in
    let done =
      ap (λ o. decide_found c a id v o s') there ∙ found-Approves c a id v row s' there p l e in
    let key = c.hash_token v.secret in
    record {
      answer = ap (λ o. o.0) done;
      stored =
          ap (λ o. lookup key o.1.spend_tokens) done
          ∙ lookup-insert key key (token_for c a row) s.spend_tokens
          ∙ ground (arith, ==-refl key);
    }

exact_amount : (n : ℕ) → normalize_money (n * unit_scale) ≡ n
unfolding normalize_money
exact_amount n = omega arith

same_option : (o : Option ℕ) → same? o o ≡ true
same_option none = refl
same_option (some n) = ==-refl n

-- The token of an approved request grants the payment that was asked for.
token-Grants :
    (c : Config) (a : AdminCall) (r r' : Request) (e : Escalation)
    → r'.payment ≡ r.payment
    → r'.now < a.now + max 1 c.spend_token_ttl
    → Grants c r' r.payment.mcp_tool_id r.payment.mcp_action (token_for c a (asked c r e))
token-Grants c a r r' e same fresh = record {
  is_spendable = refl;
  is_fresh = fresh;
  for_request = ap (λ p. c.hash_request p) (sym same);
  for_user = ap (λ p. p.user_id) (sym same);
  for_agent = ap (λ p. p.agent_id) (sym same);
  for_currency = ap (λ p. p.currency) (sym same);
  for_amount = ground (arith, ap (λ p. p.amount) same, exact_amount r.payment.amount);
  for_tool = same_option r.payment.mcp_tool_id;
  for_action = same_option r.payment.mcp_action;
}

-- If a payment waits for an approval, and its request is as it was stored when an operator approves
-- it before it expires, the operator is answered with a spend token; and if that token is as it was
-- stored when the same payment is tried again with it within the token's lifetime, the token is
-- accepted for the tool and the action of the payment.
pub approved-passes :
    (c : Config) (r r' : Request) (f : Found) (e : Escalation) (a : AdminCall) (v : ReviewCall)
    (s s' s'' : Server)
    → get_approval_request r.approval_id s'.approvals
      ≡ get_approval_request r.approval_id (create_hitl_approval c r f e s).1.approvals
    → a.now < r.now + c.hitl_approval_ttl
    → v.review ≡ approve
    → get_spend_token (c.hash_token v.secret) s''.spend_tokens
      ≡ get_spend_token
          (c.hash_token v.secret)
          (decide_approval c a r.approval_id v s').1.spend_tokens
    → r'.payment ≡ r.payment
    → r'.spend_token ≡ some v.secret
    → r'.now < a.now + max 1 c.spend_token_ttl
    → ((decide_approval c a r.approval_id v s').0
        ≡ ok (record {
          approval = decided a.now approved a.oauth_subject v.reason (asked c r e);
          spend_token = some v.secret;
        }))
      × ((validate_and_consume_spend_token c r' r.payment.mcp_tool_id r.payment.mcp_action s'').0
          ≡ next tt)
approved-passes c r r' f e a v s s' s'' kept soon yea kept' same token fresh =
    let d =
      decide-Approves c a r.approval_id v (asked c r e) s' (kept ∙ create-asked c r f e s) refl soon
        yea in
    let granted : IsGranted c r' r.payment.mcp_tool_id r.payment.mcp_action s'' = record {
      token = v.secret;
      row = token_for c a (asked c r e);
      named = token;
      stored = kept' ∙ d.stored;
      grants = token-Grants c a r r' e same fresh;
    } in
    (
      d.answer,
      (IsGranted-once c r' r' r.payment.mcp_tool_id r.payment.mcp_action none none s'' granted
          refl).0,
    )
