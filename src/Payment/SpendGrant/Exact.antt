-- ===== src/Payment/SpendGrant/Exact.antt =====
-- Which spend tokens let a payment through.
use safe4_arc_demo.Prelude.{
  ℕ, ◌≤◌, ◌<◌, ◌≡◌, refl, ap, ◌∙◌, Option, none, some, true, arith, same?, Option-cases, inl, inr,
}
use mathlib.Core.Path.{subst}
use safe4_arc_demo.Dict.{Dict, lookup-adjust}
use safe4_arc_demo.Store.SpendToken.{
  SpendToken, get_spend_token, consume_spend_token, spendable, consumed,
}
use safe4_arc_demo.Payment.State.{Request, Config, Server, next}
use safe4_arc_demo.Payment.SpendGrant.{
  forbid, token_row, mismatches, validate_row, validate_and_consume_spend_token,
}

-- What a spend token must grant: neither used nor revoked nor expired, for this request, user, agent,
-- currency, tool and action, and for no less than the amount.
pub record Grants (c : Config) (r : Request) (tool action : Option ℕ) (t : SpendToken)
    : Type 0 where
  pub is_spendable : spendable t ≡ true
  pub is_fresh : r.now < t.expires_at
  pub for_request : t.request_hash ≡ c.hash_request r.payment
  pub for_user : t.user_id ≡ r.payment.user_id
  pub for_agent : t.agent_id ≡ r.payment.agent_id
  pub for_currency : t.authorized_currency ≡ r.payment.currency
  pub for_amount : r.payment.amount ≤ t.authorized_amount
  pub for_tool : same? t.mcp_tool_id tool ≡ true
  pub for_action : same? t.authorized_action action ≡ true

row-Grants :
    (c : Config) (r : Request) (tool action : Option ℕ) (t : SpendToken) (s : Server)
    → (validate_row c r tool action (some t) s).0 ≡ next tt
    → Grants c r tool action t
unfolding validate_row mismatches
row-Grants c r tool action t s h = record {
  is_spendable = ground arith;
  is_fresh = ground arith;
  for_request = ground arith;
  for_user = ground arith;
  for_agent = ground arith;
  for_currency = ground arith;
  for_amount = ground arith;
  for_tool = ground arith;
  for_action = ground arith;
}

row-missing :
    (c : Config) (r : Request) (tool action : Option ℕ) (s : Server)
    → (validate_row c r tool action none s).0 ≡ next tt
    → ⊥
unfolding validate_row
row-missing c r tool action s h = ground arith

-- The stored token that the header names and that grants the payment.
pub record IsGranted (c : Config) (r : Request) (tool action : Option ℕ) (s : Server) : Type 0 where
  pub token : ℕ
  pub row : SpendToken
  pub named : r.spend_token ≡ some token
  pub stored : get_spend_token (c.hash_token token) s.spend_tokens ≡ some row
  pub grants : Grants c r tool action row

granted :
    (c : Config) (r : Request) (tool action : Option ℕ) (s : Server) (o : Option ℕ)
    → r.spend_token ≡ o
    → (validate_row c r tool action (token_row c o s.spend_tokens) s).0 ≡ next tt
    → IsGranted c r tool action s
granted c r tool action s none e h = absurd (row-missing c r tool action s h)
granted c r tool action s (some token) e h =
    let rows = s.spend_tokens in
    let Passed = λ (o : Option SpendToken). (validate_row c r tool action o s).0 ≡ next tt in
    elim (Option-cases (get_spend_token (c.hash_token token) rows)) [
      | inl n ↦ absurd (row-missing c r tool action s (subst Passed n h))
      | inr (row, n) ↦ record {
        token = token;
        row = row;
        named = e;
        stored = n;
        grants = row-Grants c r tool action row s (subst Passed n h);
      }
    ]

-- A payment that needs a spend token is let through only if the header names a stored token that is
-- neither used nor revoked nor expired and was granted for this request, user, agent, currency, tool
-- and action and for no less than the amount.
pub next-IsGranted :
    (c : Config) (r : Request) (tool action : Option ℕ) (s : Server)
    → (validate_and_consume_spend_token c r tool action s).0 ≡ next tt
    → IsGranted c r tool action s
unfolding validate_and_consume_spend_token
next-IsGranted c r tool action s h = granted c r tool action s r.spend_token refl h

row-next :
    (c : Config) (r : Request) (tool action : Option ℕ) (token : ℕ) (t : SpendToken) (s : Server)
    → r.spend_token ≡ some token
    → get_spend_token (c.hash_token token) s.spend_tokens ≡ some t
    → Grants c r tool action t
    → validate_row c r tool action (some t) s ≡ (
      next tt,
      record s { spend_tokens = (consume_spend_token r.now (c.hash_token token) s.spend_tokens).1 },
    )
unfolding validate_row mismatches consume_spend_token get_spend_token
row-next c r tool action token t s e n g = ground (
  arith, e, n, g.is_spendable, g.is_fresh, g.for_request, g.for_user, g.for_agent, g.for_currency,
  g.for_amount, g.for_tool, g.for_action,
)

used-invalid :
    (c : Config) (r : Request) (tool action : Option ℕ) (t : SpendToken) (s : Server)
    → t.is_used ≡ true
    → (validate_row c r tool action (some t) s).0 ≡ forbid "SPEND_TOKEN_INVALID"
unfolding validate_row
used-invalid c r tool action t s h = ground arith

token-found :
    (c : Config) (o : Option ℕ) (token : ℕ) (t : SpendToken) (rows : Dict SpendToken)
    → o ≡ some token
    → get_spend_token (c.hash_token token) rows ≡ some t
    → token_row c o rows ≡ some t
token-found c o token t rows e h = ap (λ o. token_row c o rows) e ∙ h

-- If a payment needs a spend token and its header names a stored one that grants it, the payment is
-- let through and the token is used up: whichever payment that needs a spend token next presents it,
-- at whatever time, is refused with SPEND_TOKEN_INVALID.
pub IsGranted-once :
    (c : Config) (r r' : Request) (tool action tool' action' : Option ℕ) (s : Server)
    → IsGranted c r tool action s
    → r'.spend_token ≡ r.spend_token
    → let (answer, s') = validate_and_consume_spend_token c r tool action s in
      (answer ≡ next tt)
      × ((validate_and_consume_spend_token c r' tool' action' s').0 ≡ forbid "SPEND_TOKEN_INVALID")
unfolding validate_and_consume_spend_token
IsGranted-once c r r' tool action tool' action' s g e =
    let key = c.hash_token g.token in
    let rows = s.spend_tokens in
    let rows' = (consume_spend_token r.now key rows).1 in
    let used = consumed r.now g.row in
    let done = row-next c r tool action g.token g.row s g.named g.stored g.grants in
    let s' : Server = record s { spend_tokens = rows' } in
    let after : get_spend_token key rows' ≡ some used =
      unfold get_spend_token consume_spend_token in
      ground (arith, g.stored, lookup-adjust key key (consumed r.now) rows) in
    let gone : used.is_used ≡ true = ground (arith, g.grants.is_spendable) in
    let found = token-found c r.spend_token g.token g.row rows g.named g.stored in
    let found' = token-found c r'.spend_token g.token used rows' (e ∙ g.named) after in
    let validated : validate_and_consume_spend_token c r tool action s ≡ (next tt, s') =
      ap (λ o. validate_row c r tool action o s) found ∙ done in
    let refused : (validate_and_consume_spend_token c r' tool' action' s').0
        ≡ forbid "SPEND_TOKEN_INVALID" =
      ap (λ o. (validate_row c r' tool' action' o s').0) found'
      ∙ used-invalid c r' tool' action' used s' gone in
    (
      ap (λ o. o.0) validated,
      ap (λ o. (validate_and_consume_spend_token c r' tool' action' o.1).0) validated ∙ refused,
    )
