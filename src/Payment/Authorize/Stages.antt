-- ===== src/Payment/Authorize/Stages.antt =====
-- Every stage before finalization keeps what its writes keep, whether it goes on or answers.
use Prim.Native.String.{String}
use safe4_arc_demo.Prelude.{ℕ, Option, none, some}
use safe4_arc_demo.Store.Value.{Details}
use safe4_arc_demo.Store.Budget.{Budget}
use safe4_arc_demo.Store.Idempotency.{IdempotencyRecord, get_idempotency}
use safe4_arc_demo.Store.Mcp.{McpTool, McpServer, Permission}
use safe4_arc_demo.Payment.State.{Content, Request, Config, Server, Outcome, next, respond}
use safe4_arc_demo.Payment.Flow.{payment_required_event, payment_required_response}
use safe4_arc_demo.Payment.Entry.{
  Verdict, payment_required, already_used, expired, mismatch, accepted, check_payment_idempotency,
  replay, receipt_answer, append_x402_verification_audit_entry, validate_payment_receipt,
}
use safe4_arc_demo.Payment.Limits.{
  Found, Totals, check_agent, check_user, pair_totals, check_user_next, check_limits,
}
use safe4_arc_demo.Payment.ToolPolicy.{
  ToolPass, forbidden_audited, check_permission, check_server, check_tool, enforce_tool_policy,
}
use safe4_arc_demo.Payment.Hitl.{enforce_direct_hitl_policy, enforce_mcp_hitl_policy}
use safe4_arc_demo.Payment.Authorize.{
  settle, finalize, authorize_payment, found_with, check_shape, check_allowed_tools, ask_for_tool,
  enforce_mcp_payment_policy,
}
use safe4_arc_demo.Payment.Finalize.{finalize_authorized_payment}
use safe4_arc_demo.Payment.Authorize.Keeps.{
  kept_answer, kept_denial, Stable, Holds, Holds-if, Holds-at, Holds-bind, Holds-refuse,
}
use safe4_arc_demo.Payment.Authorize.Policy.{kept_mcp, Holds-enforce_direct_hitl_policy}

module _ {c : Config} {r : Request} {P : Server → Type 0} (stable : Stable c r P) where
  pub Holds-check_shape : (s : Server) → P s → Holds P (check_shape c r s)
  unfolding check_shape
  Holds-check_shape s h = search (Holds-if, Holds-at, stable.counted)

  pub Holds-check_allowed_tools : (s : Server) → P s → Holds P (check_allowed_tools c r s)
  unfolding check_allowed_tools
  Holds-check_allowed_tools s h = search (Holds-if, Holds-at, Holds-refuse)

  kept_replay :
      (o : Option (IdempotencyRecord Content)) (s : Server) → P s → Holds P (replay c r o s)
  kept_replay none s h = Holds-at _ s h
  kept_replay (some stored) s h = search (Holds-if, Holds-at, stable.counted)

  kept_key :
      (key : Option ℕ) (s : Server)
      → P s
      → Holds {A = Unit {0}} P (elim key [
        | none ↦ (next tt, s)
        | some k ↦ replay c r (get_idempotency k s.idempotency) s
      ])
  kept_key none s h = Holds-at _ s h
  kept_key (some k) s h = kept_replay (get_idempotency k s.idempotency) s h

  pub Holds-check_payment_idempotency :
      (s : Server) → P s → Holds P (check_payment_idempotency c r s)
  unfolding check_payment_idempotency
  Holds-check_payment_idempotency s h = kept_key r.idempotency_key s h

  kept_receipt :
      (id : Option ℕ) (v : Verdict) (s : Server) → P s → Holds P (receipt_answer c r id v s)
  unfolding receipt_answer payment_required_response
  kept_receipt id payment_required s h = Holds-at _ _ (
      kept_answer stable 402 "PAYMENT_REQUIRED" _ (
        stable.audited (payment_required_event c r) _
          (stable.counted (some "payment_required_total") s h)))
  kept_receipt id already_used s h = Holds-at _ _ (kept_denial stable _ s h)
  kept_receipt id expired s h = Holds-at _ _ (kept_denial stable _ s h)
  kept_receipt id mismatch s h = Holds-at _ _ (kept_denial stable _ s h)
  kept_receipt id accepted s h = Holds-at _ s h

  pub Holds-validate_payment_receipt : (s : Server) → P s → Holds P (validate_payment_receipt c r s)
  unfolding validate_payment_receipt append_x402_verification_audit_entry
  Holds-validate_payment_receipt s h = kept_receipt _ _ _ (stable.audited _ s h)

  kept_forbidden :
      (k : ℕ) (t : McpTool) (code metric reason : String) (details : Details) (s : Server)
      → P s
      → Holds P (forbidden_audited c r k t code metric reason details s)
  unfolding forbidden_audited
  kept_forbidden k t code metric reason details s h =
      Holds-at _ _ (stable.audited _ _ (stable.counted _ s h))

  kept_permission :
      (k : ℕ) (t : McpTool) (v : McpServer) (p : Option Permission) (s : Server)
      → P s
      → Holds P (check_permission c r k t v p s)
  unfolding check_permission
  kept_permission k t v none s h = kept_forbidden k t _ _ _ _ s h
  kept_permission k t v (some p) s h = search (Holds-if, Holds-at, kept_forbidden, stable.counted)

  kept_server :
      (k : ℕ) (t : McpTool) (v : Option McpServer) (s : Server)
      → P s
      → Holds P (check_server c r k t v s)
  unfolding check_server
  kept_server k t none s h = Holds-at _ _ (stable.counted _ s h)
  kept_server k t (some v) s h = search (Holds-if, Holds-at, kept_permission, stable.counted)

  kept_tool : (k : ℕ) (t : Option McpTool) (s : Server) → P s → Holds P (check_tool c r k t s)
  unfolding check_tool
  kept_tool k none s h = Holds-at _ _ (stable.counted _ s h)
  kept_tool k (some t) s h = search (Holds-if, kept_forbidden, kept_server)

  kept_tool_policy : (k : ℕ) (s : Server) → P s → Holds P (enforce_tool_policy c r k s)
  unfolding enforce_tool_policy
  kept_tool_policy k s h = kept_tool k _ s h

  kept_ask_for_tool :
      (receipt : Option ℕ) (w : ToolPass) (s : Server)
      → P s
      → Holds P (ask_for_tool c r receipt w s)
  unfolding ask_for_tool enforce_mcp_hitl_policy
  kept_ask_for_tool receipt w s h =
      Holds-bind (enforce_mcp_hitl_policy c r (found_with receipt w) w) _ s
        (kept_mcp stable (found_with receipt w) _ s h) λ _ s' k. Holds-at _ s' k

  pub Holds-enforce_mcp_payment_policy :
      (receipt tool : Option ℕ) (s : Server)
      → P s
      → Holds P (enforce_mcp_payment_policy c r receipt tool s)
  unfolding enforce_mcp_payment_policy
  Holds-enforce_mcp_payment_policy receipt none s h = Holds-at _ s h
  Holds-enforce_mcp_payment_policy receipt (some tool) s h =
      Holds-bind (enforce_tool_policy c r tool) (ask_for_tool c r receipt) s
        (kept_tool_policy tool s h) (kept_ask_for_tool receipt)

  kept_agent : (f : Found) (b : Option Budget) (s : Server) → P s → Holds P (check_agent c r f b s)
  unfolding check_agent
  kept_agent f none s h = Holds-refuse stable _ s h
  kept_agent f (some b) s h = search (Holds-if, Holds-at, Holds-refuse)

  kept_user : (f : Found) (b : Option Budget) (s : Server) → P s → Holds P (check_user c r f b s)
  unfolding check_user
  kept_user f none s h = Holds-refuse stable _ s h
  kept_user f (some b) s h = search (Holds-if, Holds-at, Holds-refuse)

  kept_pair : (n : ℕ) (o : Outcome ℕ × Server) → Holds P o → Holds P (pair_totals n o)
  unfolding pair_totals
  kept_pair n (next total, s) h = Holds-at _ s h.holds
  kept_pair n (respond answer, s) h = Holds-at _ s h.holds

  kept_user_next :
      (f : Found) (o : Outcome ℕ × Server) → Holds P o → Holds P (check_user_next c r f o)
  unfolding check_user_next
  kept_user_next f (respond answer, s) h = Holds-at _ s h.holds
  kept_user_next f (next n, s) h = kept_pair n _ (kept_user f _ _ (stable.user_read s h.holds))

  pub Holds-check_limits : (f : Found) (s : Server) → P s → Holds P (check_limits c r f s)
  unfolding check_limits
  Holds-check_limits f s h = kept_user_next f _ (kept_agent f _ _ (stable.agent_read s h))

  Holds-settle :
      ((f : Found) (t : Totals) (s : Server) → P s → P (finalize_authorized_payment c r f t s).1)
      → (f : Found) (s : Server) → P s
      → Holds P (settle c r f s)
  unfolding settle finalize
  Holds-settle k f s h = Holds-bind (check_limits c r f) _ s (Holds-check_limits f s h) λ t s' h'.
      Holds-bind (enforce_direct_hitl_policy c r f) (λ _. finalize c r f t) s'
        (Holds-enforce_direct_hitl_policy stable f s' h') λ _ s'' h''. Holds-at _ _ (k f t s'' h'')

  -- What finalization keeps too, the whole call keeps.
  pub Holds-authorize_payment :
      ((f : Found) (t : Totals) (s : Server) → P s → P (finalize_authorized_payment c r f t s).1)
      → (s : Server) → P s
      → Holds P (authorize_payment c r s)
  unfolding authorize_payment
  Holds-authorize_payment k s h =
      Holds-bind (check_shape c r) _ s (Holds-check_shape s h) λ _ s₁ h₁.
        Holds-bind (check_payment_idempotency c r) _ s₁ (Holds-check_payment_idempotency s₁ h₁)
          λ _ s₂ h₂.
            Holds-bind (validate_payment_receipt c r) _ s₂ (Holds-validate_payment_receipt s₂ h₂)
              λ id s₃ h₃.
                Holds-bind (check_allowed_tools c r) _ s₃ (Holds-check_allowed_tools s₃ h₃)
                  λ _ s₄ h₄.
                    Holds-bind (enforce_mcp_payment_policy c r id r.payment.mcp_tool_id)
                      (settle c r) s₄
                      (Holds-enforce_mcp_payment_policy id r.payment.mcp_tool_id s₄ h₄)
                      (Holds-settle k)
