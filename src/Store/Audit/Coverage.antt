-- ===== src/Store/Audit/Coverage.antt =====
-- Which changes of a stored log `verify_audit_chain` cannot see: the hash does not cover the path,
-- the summary of the payload and the reason of the decision.
use Prim.Native.String.{String}
use safe4_arc_demo.Prelude.{ℕ, suc, ◌≡◌, refl, ap, Option, List, [], ◌∷◌, map, arith, length}
use safe4_arc_demo.Store.Value.{Details}
use safe4_arc_demo.Store.Audit.{
  AuditEvent, AuditEntry, Canonical, canonicalize_audit_entry, genesis_audit_hash, verify_from,
  verify_audit_chain,
}

-- The three columns that are stored and not hashed, written anew.
abbrev pub rewrite_event : String → Details → Option String → AuditEvent → AuditEvent
rewrite_event path summary reason e = record e {
  request_path = path;
  request_payload_summary = summary;
  decision_reason = reason;
}

abbrev pub rewrite_entry : String → Details → Option String → AuditEntry → AuditEntry
rewrite_entry path summary reason x = record x { event = rewrite_event path summary reason x.event }

module _ (sha256 : Canonical → ℕ) (path : String) (summary : Details) (reason : Option String) where
  verify_from-rewrite :
      (p : ℕ) (es : List AuditEntry)
      → verify_from sha256 p (map (rewrite_entry path summary reason) es) ≡ verify_from sha256 p es
  unfolding verify_from canonicalize_audit_entry
  verify_from-rewrite p [] = refl
  verify_from-rewrite p (x ∷ es) = ground (arith, verify_from-rewrite x.entry_hash es)

  length-rewrite :
      (es : List AuditEntry) → length (map (rewrite_entry path summary reason) es) ≡ length es
  length-rewrite [] = refl
  length-rewrite (x ∷ es) = ap suc (length-rewrite es)

  -- Whatever the hash, writing any path, any payload summary and any decision reason into every
  -- entry of a log leaves the report of `verify_audit_chain` as it was.
  pub verify_audit_chain-blind :
      (es : List AuditEntry)
      → verify_audit_chain sha256 (map (rewrite_entry path summary reason) es)
        ≡ verify_audit_chain sha256 es
  unfolding verify_audit_chain
  verify_audit_chain-blind es =
      ground (arith, verify_from-rewrite genesis_audit_hash es, length-rewrite es)
