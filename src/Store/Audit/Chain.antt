-- ===== src/Store/Audit/Chain.antt =====
-- Appending keeps the audit chain valid, and where no entries collide a valid chain is determined
-- by its length and its last hash.
use safe4_arc_demo.Prelude.{
  ℕ, ◌+◌, ◌≡◌, refl, sym, ap, Option, none, some, true, false, List, [], ◌∷◌, ◌++◌, map, arith,
  length, length-append, Option-cases, ◌∙◌, inl, inr,
}
use mathlib.Core.Path.{ap₂}
use safe4_arc_demo.Store.Audit.{
  canonicalize_audit_entry, AuditEvent, AuditEntry, Canonical, canonical_of, genesis_audit_hash,
  last_row, link, next_entry, append_audit_entry, verify_from, verify_audit_chain, ChainReport,
  intact,
}

-- The hash that the next entry must name.
abbrev pub end_hash : ℕ → List AuditEntry → ℕ
end_hash p [] = p
end_hash p (e ∷ es) = end_hash e.entry_hash es

-- The entries are numbered on from `n`.
abbrev pub Numbered : ℕ → List AuditEntry → Type 0
Numbered n [] = Unit
Numbered n (e ∷ es) = (e.sequence_number ≡ n + 1) × Numbered (n + 1) es

previous_of : Canonical → ℕ
previous_of c = c.previous_hash

abbrev last_hash : ℕ → Option AuditEntry → ℕ
last_hash p none = p
last_hash p (some l) = l.entry_hash

abbrev last_number : ℕ → Option AuditEntry → ℕ
last_number n none = n
last_number n (some l) = l.sequence_number

last_row-end_hash : (p : ℕ) (es : List AuditEntry) → last_hash p (last_row es) ≡ end_hash p es
unfolding last_row
last_row-end_hash p [] = refl
last_row-end_hash p (e ∷ es) = ground (arith, last_row-end_hash e.entry_hash es)

last_row-number :
    (n : ℕ) (es : List AuditEntry) → Numbered n es → last_number n (last_row es) ≡ n + length es
unfolding last_row
last_row-number n [] h = omega arith
last_row-number n (e ∷ es) h = ground (arith, last_row-number (n + 1) es h.1)

module _ (sha256 : Canonical → ℕ) where
  abbrev IsIntact : ℕ → List AuditEntry → Type 0
  IsIntact p es = verify_from sha256 p es ≡ none

  IsIntact-append :
      (p n : ℕ) (e : AuditEvent) (es : List AuditEntry)
      → IsIntact p es
      → IsIntact p (es ++ link sha256 n (end_hash p es) e ∷ [])
  unfolding verify_from link
  IsIntact-append p n e [] h = ground arith
  IsIntact-append p n e (x ∷ es) h = ground (arith, IsIntact-append x.entry_hash n e es)

  Numbered-append :
      (n : ℕ) (x : AuditEntry) (es : List AuditEntry)
      → Numbered n es
      → x.sequence_number ≡ n + length es + 1
      → Numbered n (es ++ x ∷ [])
  Numbered-append n x [] h e = (omega arith, tt)
  Numbered-append n x (y ∷ es) h e = (h.0, Numbered-append (n + 1) x es h.1 (omega arith))

  next_entry-link :
      (e : AuditEvent) (es : List AuditEntry)
      → Numbered 0 es
      → next_entry sha256 (last_row es) e
        ≡ link sha256 (length es + 1) (end_hash genesis_audit_hash es) e
  unfolding next_entry
  next_entry-link e es h =
      ground (arith, last_row-end_hash genesis_audit_hash es, last_row-number 0 es h)

  broken-invalid :
      (p : ℕ) (r : ChainReport) (es : List AuditEntry)
      → verify_from sha256 p es ≡ some r
      → r.valid ≡ false
  unfolding verify_from
  broken-invalid p r [] h = cc
  broken-invalid p r (e ∷ es) h = ground (arith, broken-invalid e.entry_hash r es)

  pub valid-IsIntact :
      (es : List AuditEntry)
      → (verify_audit_chain sha256 es).valid ≡ true
      → IsIntact genesis_audit_hash es
  unfolding verify_audit_chain
  valid-IsIntact es h = elim (Option-cases (verify_from sha256 genesis_audit_hash es)) [
    | inl e ↦ e
    | inr (r, e) ↦ ground (arith, broken-invalid genesis_audit_hash r es e)
  ]

  pub IsIntact-report :
      (es : List AuditEntry)
      → IsIntact genesis_audit_hash es
      → verify_audit_chain sha256 es ≡ intact (length es)
  unfolding verify_audit_chain
  IsIntact-report es h = rw (h, verify_audit_chain)

  -- If a log verifies and its entries are numbered on from 1, then after an append of any event it
  -- verifies again, with one entry more and no error, and its entries are still so numbered.
  pub append_audit_entry-verifies :
      (e : AuditEvent) (es : List AuditEntry)
      → (verify_audit_chain sha256 es).valid ≡ true
      → Numbered 0 es
      → let (_, es') = append_audit_entry sha256 e es in
        (verify_audit_chain sha256 es' ≡ intact (length es + 1)) × Numbered 0 es'
  unfolding append_audit_entry
  append_audit_entry-verifies e es v h =
      let x = link sha256 (length es + 1) (end_hash genesis_audit_hash es) e in
      let kept = IsIntact-append genesis_audit_hash (length es + 1) e es (valid-IsIntact es v) in
      rw (next_entry-link e es h) (
        IsIntact-report (es ++ x ∷ []) kept ∙ ap intact (length-append es (x ∷ [])),
        Numbered-append 0 x es h (unfold link in omega arith),
      )

  IsIntact-head :
      (p : ℕ) (x : AuditEntry) (es : List AuditEntry)
      → IsIntact p (x ∷ es)
      → (x.previous_hash ≡ p) × (sha256 (canonical_of x) ≡ x.entry_hash) × IsIntact x.entry_hash es
  unfolding verify_from
  IsIntact-head p x es h = (ground arith, ground arith, ground arith)

  -- Entries at the same place of the two logs do not collide: their hashes are equal only if what is
  -- hashed is.
  abbrev pub NoCollision : List AuditEntry → List AuditEntry → Type 0
  NoCollision [] _ = Unit
  NoCollision (x ∷ es) [] = Unit
  NoCollision (x ∷ es) (y ∷ fs) =
      (sha256 (canonical_of x) ≡ sha256 (canonical_of y) → canonical_of x ≡ canonical_of y)
      × NoCollision es fs

  IsIntact-unique :
      (p q : ℕ) (es fs : List AuditEntry)
      → NoCollision es fs
      → IsIntact p es
      → IsIntact q fs
      → length es ≡ length fs
      → end_hash p es ≡ end_hash q fs
      → (p ≡ q) × (map canonical_of es ≡ map canonical_of fs)
  unfolding canonicalize_audit_entry previous_of
  IsIntact-unique p q [] [] c h k n e = (e, refl)
  IsIntact-unique p q [] (f ∷ fs) c h k n e = absurd (omega arith)
  IsIntact-unique p q (x ∷ es) [] c h k n e = absurd (omega arith)
  IsIntact-unique p q (x ∷ es) (y ∷ fs) c h k n e =
      let (hp, hh, hr) = IsIntact-head p x es h in
      let (kp, kh, kr) = IsIntact-head q y fs k in
      let (same, rest) =
        IsIntact-unique x.entry_hash y.entry_hash es fs c.1 hr kr (omega arith) e in
      let head : canonical_of x ≡ canonical_of y = c.0 (hh ∙ same ∙ sym kh) in
      (sym hp ∙ ap previous_of head ∙ kp, ap₂ ◌∷◌ head rest)

  -- Two logs that both verify, are equally long, end in the same entry hash and have no two entries
  -- at the same place that differ in a hashed field and yet hash alike agree, entry by entry, in
  -- every field that is hashed.
  pub verify_audit_chain-determines :
      (es fs : List AuditEntry)
      → NoCollision es fs
      → (verify_audit_chain sha256 es).valid ≡ true
      → (verify_audit_chain sha256 fs).valid ≡ true
      → length es ≡ length fs
      → end_hash genesis_audit_hash es ≡ end_hash genesis_audit_hash fs
      → map canonical_of es ≡ map canonical_of fs
  verify_audit_chain-determines es fs c v w n e =
      (IsIntact-unique genesis_audit_hash genesis_audit_hash es fs c (valid-IsIntact es v)
        (valid-IsIntact fs w) n e).1
