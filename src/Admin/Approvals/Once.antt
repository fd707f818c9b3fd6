-- ===== src/Admin/Approvals/Once.antt =====
-- When a decision counts, and that it counts once.
use Prim.Native.String.{String}
use safe4_arc_demo.Prelude.{
  ℕ, ◌<◌, ◌≡◌, refl, sym, ap, ◌∙◌, Option, some, true, arith, ◌⊎◌, inl, inr, Option-cases,
  Bool-cases, ◌||◌, leb,
}
use mathlib.Core.Path.{subst}
use safe4_arc_demo.Dict.{Dict, lookup, lookup-adjust, adjust}
use safe4_arc_demo.Store.Approval.{
  ApprovalRequest, ApprovalStatus, pending, pending?, decided, get_approval_request,
  decide_approval_request, expire_row, expire_approval_requests,
}
use safe4_arc_demo.Store.Approval.Lifecycle.{lookup-expire}
use safe4_arc_demo.Payment.State.{Config, Server}
use safe4_arc_demo.Payment.Flow.{write_audit_entry}
use safe4_arc_demo.Admin.{AdminCall, Answered, ok, http_error}
use safe4_arc_demo.Admin.Approvals.{
  review_status, expired?, ReviewCall, Reviewed, issued, issue_spend_token, conclude, decide_found,
  decide_approval, expire_and_enqueue_approval_alerts,
}

-- A decision that counts: the request was pending and not expired, and is now decided.
pub record Counts (a : AdminCall) (id : ℕ) (v : ReviewCall) (s : Server)
    (o : Answered Reviewed × Server) : Type 0 where
  pub row : ApprovalRequest
  pub token : Option ℕ
  pub stored : get_approval_request id s.approvals ≡ some row
  pub is_pending : row.status ≡ pending
  pub is_fresh : a.now < row.expires_at
  pub answered :
      o.0
      ≡ ok (record {
        approval = decided a.now (review_status v.review) a.oauth_subject v.reason row;
        spend_token = token;
      })
  pub after :
      get_approval_request id o.1.approvals
      ≡ some (decided a.now (review_status v.review) a.oauth_subject v.reason row)

-- A refused decision grants no token and writes no audit entry.
pub record Refuses (s : Server) (o : Answered Reviewed × Server) : Type 0 where
  pub status_code : ℕ
  pub code : String
  pub answered : o.0 ≡ http_error status_code code
  pub tokens : o.1.spend_tokens ≡ s.spend_tokens
  pub entries : o.1.audit_entries ≡ s.audit_entries

pending?→≡ : (s : ApprovalStatus) → pending? s ≡ true → s ≡ pending
pending?→≡ s h = ground arith

-- A row that is pending after the expiry was there before it.
fresh_row :
    (now id : ℕ) (row : ApprovalRequest) (rows : Dict ApprovalRequest)
    → lookup id (expire_approval_requests now rows).1 ≡ some row
    → row.status ≡ pending
    → lookup id rows ≡ some row
unfolding expire_row
fresh_row now id row rows e p = ground (arith, lookup-expire now id rows)

approvals-issued :
    (c : Config) (a : AdminCall) (v : ReviewCall) (row : ApprovalRequest) (s : Server)
    → (issued c a v row s).1.approvals ≡ s.approvals
unfolding issue_spend_token
approvals-issued c a v row s = ground arith

approvals-conclude :
    (c : Config) (a : AdminCall) (id : ℕ) (v : ReviewCall) (row : ApprovalRequest) (s : Server)
    → (conclude c a id v (some row) s).1.approvals ≡ s.approvals
unfolding conclude write_audit_entry
approvals-conclude c a id v row s = approvals-issued c a v row s

-- The decision of a request that is there after the expiry.
found-decides :
    (c : Config) (a : AdminCall) (id : ℕ) (v : ReviewCall) (row : ApprovalRequest) (s : Server)
    → lookup id s.approvals ≡ some row
    → ((row.status ≡ pending)
        × (a.now < row.expires_at)
        × (decide_found c a id v (some row) s
            ≡ conclude c a id v
                (some (decided a.now (review_status v.review) a.oauth_subject v.reason row))
                (record s {
                  approvals =
                      adjust id
                        (decided a.now (review_status v.review) a.oauth_subject v.reason)
                        s.approvals;
                })))
      ⊎ Refuses s (decide_found c a id v (some row) s)
unfolding decide_found decide_approval_request
found-decides c a id v row s h =
    elim (Bool-cases (expired? row.status || leb row.expires_at a.now)) [
      | inl late ↦ inr (record {
        status_code = 410;
        code = "APPROVAL_EXPIRED";
        answered = rw late refl;
        tokens = rw late refl;
        entries = rw late refl;
      })
      | inr fresh ↦ elim (Bool-cases (pending? row.status)) [
        | inl p ↦ inl (ground (arith, p), ground (arith, fresh), ground (arith, fresh, p, h))
        | inr gone ↦ inr (record {
          status_code = 409;
          code = "APPROVAL_NOT_PENDING";
          answered = ground (arith, fresh, gone, h);
          tokens = ground (arith, fresh, gone, h);
          entries = ground (arith, fresh, gone, h);
        })
      ]
    ]

-- The state after the expiry, with the decided row.
found-Counts :
    (c : Config) (a : AdminCall) (id : ℕ) (v : ReviewCall) (row : ApprovalRequest) (s : Server)
    → let s' : Server = record s { approvals = (expire_approval_requests a.now s.approvals).1 } in
      lookup id s'.approvals ≡ some row
      → Counts a id v s (decide_found c a id v (some row) s')
        ⊎ Refuses s (decide_found c a id v (some row) s')
unfolding get_approval_request
found-Counts c a id v row s there =
    let s' : Server = record s { approvals = (expire_approval_requests a.now s.approvals).1 } in
    let decision = decided a.now (review_status v.review) a.oauth_subject v.reason in
    let s'' : Server = record s' { approvals = adjust id decision s'.approvals } in
    elim (found-decides c a id v row s' there) [
      | inl (p, fresh, done) ↦ inl (record {
        row = row;
        token = (issued c a v (decision row) s'').0;
        stored = fresh_row a.now id row s.approvals there p;
        is_pending = p;
        is_fresh = fresh;
        answered = ap (λ o. o.0) done ∙ (unfold conclude in refl);
        after =
            ap (λ o. lookup id o.1.approvals) done
            ∙ ap (lookup id) (approvals-conclude c a id v (decision row) s'')
            ∙ ground (arith, there, lookup-adjust id id decision s'.approvals);
      })
      | inr refused ↦ inr (record {
        status_code = refused.status_code;
        code = refused.code;
        answered = refused.answered;
        tokens = refused.tokens;
        entries = refused.entries;
      })
    ]

settled :
    (row row' : ApprovalRequest) (a : AdminCall) (v : ReviewCall)
    → some row ≡ some (decided a.now (review_status v.review) a.oauth_subject v.reason row')
    → row.status ≡ pending
    → ⊥
settled row row' a v e p = ground (arith, e, p)

-- An operator's decision either counts: the request was there, pending and not expired, the answer is
-- the request with the decision, and so it is stored; or it is refused with an error, and then no
-- spend token is created and no audit entry written.
pub decide_approval-Counts :
    (c : Config) (a : AdminCall) (id : ℕ) (v : ReviewCall) (s : Server)
    → Counts a id v s (decide_approval c a id v s) ⊎ Refuses s (decide_approval c a id v s)
unfolding decide_approval expire_and_enqueue_approval_alerts get_approval_request
decide_approval-Counts c a id v s =
    let rows = (expire_approval_requests a.now s.approvals).1 in
    let s' : Server = record s { approvals = rows } in
    let Result = λ (o : Option ApprovalRequest).
      Counts a id v s (decide_found c a id v o s') ⊎ Refuses s (decide_found c a id v o s') in
    elim (Option-cases (lookup id rows)) [
      | inl gone ↦ subst Result (sym gone) (
          inr (record {
            status_code = 404;
            code = "APPROVAL_NOT_FOUND";
            answered = unfold decide_found in refl;
            tokens = unfold decide_found in refl;
            entries = unfold decide_found in refl;
          }))
      | inr (row, there) ↦ subst Result (sym there) (found-Counts c a id v row s there)
    ]

-- If an operator's decision counts, every later decision on the same request, by whomever and at
-- whatever time, is refused with an error, while the request is as it was stored; it creates no spend
-- token and writes no audit entry.
pub decided-once :
    (c : Config) (a a' : AdminCall) (id : ℕ) (v v' : ReviewCall) (s s' : Server)
    → Counts a id v s (decide_approval c a id v s)
    → get_approval_request id s'.approvals
      ≡ get_approval_request id (decide_approval c a id v s).1.approvals
    → Refuses s' (decide_approval c a' id v' s')
decided-once c a a' id v v' s s' h kept = elim (decide_approval-Counts c a' id v' s') [
  | inl again ↦
      absurd (settled again.row h.row a v (sym again.stored ∙ kept ∙ h.after) again.is_pending)
  | inr refused ↦ refused
]
