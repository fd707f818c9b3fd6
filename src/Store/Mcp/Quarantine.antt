-- ===== src/Store/Mcp/Quarantine.antt =====
-- What registering a tool again does to its quarantine.
use safe4_arc_demo.Prelude.{
  ℕ, ◌≡◌, ◌≢◌, refl, ap, Option, none, some, Bool, true, false, List, [], ◌∷◌, ◌++◌, arith, ◌||◌,
  keep, if◌then◌else◌, not, Bool-cases, ◌==◌, inl, inr,
}
use safe4_arc_demo.Dict.{Dict, lookup, lookup-insert}
use safe4_arc_demo.Store.Mcp.{
  McpTool, ToolScan, ThreatFlag, critical, description_changed, QuarantineStatus, clear, review,
  quarantined, has, first_hash, prior_flags, prior_status, high, Patterns, scan_mcp_description,
  next_quarantine, merge_flags, upserted_tool, upsert_mcp_tool,
}

-- The scan that `register_mcp_tool` hands to the store.
unfoldable pub scanned : Patterns → ℕ → ℕ → ℕ → ℕ → ToolScan
unfolding scan_mcp_description
scanned p name server hash description =
    let (flags, status, relevant) = scan_mcp_description p description in
    record {
      tool_name = name;
      server_id = server;
      description_hash = hash;
      is_payment_relevant = relevant;
      threat_flags = flags;
      quarantine_status = status;
    }

abbrev pub status? : Option McpTool → Option QuarantineStatus
status? none = none
status? (some t) = some t.quarantine_status

-- The status that is stored for the tool after its registration.
abbrev pub status_after : ℕ → ℕ → ToolScan → Dict McpTool → Option QuarantineStatus
status_after now tool_id scan rows =
    status? (lookup tool_id (upsert_mcp_tool now tool_id scan rows))

lookup-upsert :
    (now k : ℕ) (scan : ToolScan) (rows : Dict McpTool)
    → lookup k (upsert_mcp_tool now k scan rows) ≡ some (upserted_tool now scan (lookup k rows))
unfolding upsert_mcp_tool
lookup-upsert now k scan rows =
    ground (arith, lookup-insert k k (upserted_tool now scan (lookup k rows)) rows)

has-append : (f : ThreatFlag) (xs ys : List ThreatFlag) → has (xs ++ ys) f ≡ (has xs f || has ys f)
has-append f [] ys = refl
has-append f (x ∷ xs) ys = ground (arith, has-append f xs ys)

merge-critical :
    (prior rest : List ThreatFlag) → has (merge_flags prior (critical ∷ rest)) critical ≡ true
unfolding merge_flags
merge-critical prior rest =
    let new = keep (λ f. not (has prior f)) (critical ∷ rest) in
    elim (Bool-cases (has prior critical)) [
      | inl e ↦ rw (has-append critical prior new, e)
      | inr e ↦ rw (has-append critical prior new, e) (ground arith)
    ]

next-critical :
    (changed : Bool) (merged : List ThreatFlag) (status : QuarantineStatus)
    (prior : Option QuarantineStatus)
    → has merged critical ≡ true
    → status ≡ quarantined
    → (next_quarantine changed merged status prior).0 ≡ quarantined
unfolding next_quarantine
next-critical changed merged status prior h e = ground arith

-- Any scan with the flag and the status of a critical pattern.
upserted-critical :
    (now : ℕ) (rest : List ThreatFlag) (scan : ToolScan) (o : Option McpTool)
    → scan.threat_flags ≡ critical ∷ rest
    → scan.quarantine_status ≡ quarantined
    → (upserted_tool now scan o).quarantine_status ≡ quarantined
unfolding upserted_tool
upserted-critical now rest scan o flags status =
    let merged = merge_flags (prior_flags o) scan.threat_flags in
    let found : has merged critical ≡ true = rw flags (merge-critical (prior_flags o) rest) in
    next-critical (not (first_hash scan.description_hash o == scan.description_hash)) merged
      scan.quarantine_status (prior_status o) found status

-- A changed description, clear so far and clear in the scan.
upserted-changed :
    (now : ℕ) (scan : ToolScan) (t : McpTool)
    → t.threat_flags ≡ []
    → scan.threat_flags ≡ []
    → scan.quarantine_status ≡ clear
    → t.description_first_seen_hash ≢ scan.description_hash
    → let u = upserted_tool now scan (some t) in
      (u.quarantine_status ≡ review)
      × (u.threat_flags ≡ description_changed ∷ [])
      × (u.description_first_seen_hash ≡ t.description_first_seen_hash)
unfolding upserted_tool merge_flags next_quarantine
upserted-changed now scan t flags scan_flags status new = ground arith

-- The same text once more, over the row under review.
upserted-again :
    (now : ℕ) (scan : ToolScan) (t : McpTool)
    → t.threat_flags ≡ description_changed ∷ []
    → t.quarantine_status ≡ review
    → scan.threat_flags ≡ []
    → scan.quarantine_status ≡ clear
    → (upserted_tool now scan (some t)).quarantine_status ≡ clear
unfolding upserted_tool merge_flags next_quarantine
upserted-again now scan t flags held scan_flags status = ground arith

-- A description with a critical pattern is stored as quarantined, whatever was stored before.
pub register-critical :
    (now k name server hash description : ℕ) (p : Patterns) (rows : Dict McpTool)
    → p.is_critical_text description ≡ true
    → status_after now k (scanned p name server hash description) rows ≡ some quarantined
unfolding scanned
register-critical now k name server hash description p rows h =
    let scan = scanned p name server hash description in
    rw (lookup-upsert now k scan rows) (
      ap some (
        upserted-critical now (if p.is_high_text description then high ∷ [] else []) scan
          (lookup k rows) (rw h) (rw h)))

-- If a tool was stored without flags and its description then changes to a text in which the scan
-- finds nothing, the first registration of the new text puts it under review, and a second
-- registration of the same text clears it, with no review in between.
pub register_twice-clears :
    (now later k name server hash description : ℕ) (p : Patterns) (rows : Dict McpTool)
    (t : McpTool)
    → lookup k rows ≡ some t
    → t.threat_flags ≡ []
    → t.description_first_seen_hash ≢ hash
    → p.is_critical_text description ≡ false
    → p.is_high_text description ≡ false
    → let scan = scanned p name server hash description in
      (status_after now k scan rows ≡ some review)
      × (status_after later k scan (upsert_mcp_tool now k scan rows) ≡ some clear)
unfolding scanned
register_twice-clears now later k name server hash description p rows t h flags new c hi =
    let scan = scanned p name server hash description in
    let rows' = upsert_mcp_tool now k scan rows in
    let (held, flagged, first) = upserted-changed now scan t flags (rw (c, hi)) (rw (c, hi)) new in
    (
      rw (lookup-upsert now k scan rows, h) (ap some held),
      rw (lookup-upsert later k scan rows', lookup-upsert now k scan rows, h)
          (ap some (upserted-again later scan _ flagged held (rw (c, hi)) (rw (c, hi)))),
    )
