-- ===== src/Store/Approval/Lifecycle.antt =====
-- The life of an approval request, as a relation on what one row may become: it leaves `pending`
-- once, by a decision or by its expiry, and then stays as it is.
use Prim.Native.String.{String}
use safe4_arc_demo.Prelude.{
  ℕ, ◌≤◌, ◌≡◌, refl, ap, ◌∙◌, ==→≡, is_some, Option, some, [], ◌∷◌, arith, ◌==◌, if◌then◌else◌,
  ◌&&◌, Bool-cases, inl, inr,
}
use safe4_arc_demo.Dict.{Dict, lookup, map_option, lookup-adjust, lookup-insert}
use safe4_arc_demo.Store.Approval.{
  ApprovalPayload, create_approval_request, ApprovalStatus, pending, ApprovalRequest, pending?,
  is_due, decided, decide_approval_request, expire_row, expire_approval_requests,
}

-- One operation on the table, as a payment, an administrator or the clock makes it.
pub data Operation : Type 0 where
  create : ℕ → ℕ → ℕ → ApprovalPayload → String → ℕ → ℕ → Option ℕ → ℕ → Operation
  decide : ℕ → ℕ → ApprovalStatus → ℕ → Option String → Operation
  expire : ℕ → Operation

-- An insert under an identifier that is stored raises, and leaves the table.
unfoldable pub run : Operation → Dict ApprovalRequest → Dict ApprovalRequest
run (create now k request_hash payload triggered_by agent user tool expires) rows =
    if is_some (lookup k rows)
    then rows
    else create_approval_request now k request_hash payload triggered_by agent user tool expires
        rows
run (decide now k status by reason) rows = (decide_approval_request now k status by reason rows).1
run (expire now) rows = (expire_approval_requests now rows).1

lookup-create :
    (now k j request_hash : ℕ) (payload : ApprovalPayload) (triggered_by : String) (agent user : ℕ)
    (tool : Option ℕ) (expires : ℕ) (rows : Dict ApprovalRequest) (row : ApprovalRequest)
    → lookup j rows ≡ some row
    → lookup j (
        if is_some (lookup k rows)
        then rows
        else create_approval_request now k request_hash payload triggered_by agent user tool expires
            rows)
      ≡ some row
unfolding create_approval_request
lookup-create now k j request_hash payload triggered_by agent user tool expires rows row h =
    elim (Bool-cases (k == j)) [
      | inl e ↦
          let there : lookup k rows ≡ some row = ap (λ n. lookup n rows) (==→≡ k j e) ∙ h in
          rw there h
      | inr e ↦ elim (Bool-cases (is_some (lookup k rows))) [
        | inl y ↦ rw y h
        | inr n ↦ rw (n, lookup-insert k j _ rows, e) h
      ]
    ]

pub lookup-expire :
    (now j : ℕ) (rows : Dict ApprovalRequest)
    → lookup j (expire_approval_requests now rows).1 ≡ map_option (expire_row now) (lookup j rows)
unfolding expire_approval_requests lookup
lookup-expire now j [] = refl
lookup-expire now j ((k, row) ∷ rows) = ground (arith, lookup-expire now j rows)

pub lookup-decide :
    (now k j : ℕ) (status : ApprovalStatus) (by : ℕ) (reason : Option String)
    (rows : Dict ApprovalRequest) (row : ApprovalRequest)
    → lookup j rows ≡ some row
    → lookup j (decide_approval_request now k status by reason rows).1
      ≡ some (
          if k == j
          then if pending? row.status then decided now status by reason row else row
          else row)
unfolding decide_approval_request
lookup-decide now k j status by reason rows row h =
    ground (arith, lookup-adjust k j (decided now status by reason) rows)

-- What one row may become: itself, or from `pending` what a decision or a due expiry makes of it.
pub data Next (row : ApprovalRequest) : ApprovalRequest → Type 0 where
  same : Next row row
  by_decision :
      (now : ℕ) (status : ApprovalStatus) (by : ℕ) (reason : Option String)
      → row.status ≡ pending
      → Next row (decided now status by reason row)
  by_expiry :
      (now : ℕ) → row.status ≡ pending → row.expires_at ≤ now → Next row (expire_row now row)

-- A creation, a decision or an expiry leaves each stored request as it was, or moves it on from
-- `pending` by a decision, or by an expiry that is due; no request disappears.
pub run-Next :
    (op : Operation) (j : ℕ) (rows : Dict ApprovalRequest) (row : ApprovalRequest)
    → lookup j rows ≡ some row
    → (row' : ApprovalRequest) × (lookup j (run op rows) ≡ some row') × Next row row'
unfolding run
run-Next (create now k request_hash payload triggered_by agent user tool expires) j rows row h = (
  row,
  lookup-create now k j request_hash payload triggered_by agent user tool expires rows row h,
  same,
)
run-Next (decide now k status by reason) j rows row h =
    let found = lookup-decide now k j status by reason rows row h in
    elim (Bool-cases ((k == j) && pending? row.status)) [
      | inl e ↦ (
        decided now status by reason row,
        ground arith,
        by_decision now status by reason (ground arith),
      )
      | inr e ↦ (row, ground arith, same)
    ]
run-Next (expire now) j rows row h = elim (Bool-cases (is_due now row)) [
  | inl e ↦ (
    expire_row now row,
    ground (arith, lookup-expire now j rows),
    by_expiry now (ground arith) (ground arith),
  )
  | inr e ↦ (row, unfold expire_row in ground (arith, lookup-expire now j rows), same)
]
