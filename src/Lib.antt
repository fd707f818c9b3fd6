-- ===== src/Lib.antt =====
-- Safe4, the payment firewall for agents: the rules that decide about money, as they are written in
-- the Python code under app/, and what they guarantee.
--
-- A call of `/pay` (app/main.py, `authorize_payment`) goes through a rate limiter, the check of the
-- fee's receipt, the policies on tools and on approvals by a person, the budgets of the user and of the
-- agent, a velocity limit and the intent evaluator; every answer is logged in a hash-chained audit log.
-- The state of all of it is in the tables of app/storage.py, which administrators change through APIs of
-- their own, and a dispatcher delivers the alerts that pile up in the outboxes.
--
-- Which file models what:
-- - Money: `normalize_money` (app/core/config.py) and `compute_firewall_fee` (app/main.py). An amount
--   is a natural number of millionths; the API refuses negative amounts.
-- - Dict: a table as an association list from its primary key. Identifiers, hashes and texts that
--   the code only compares are natural numbers.
-- - Store/*: one file per table, one function per method of app/storage.py. A method that reads and
--   writes returns its result with the new table; the clock's readings are arguments, times and days
--   are natural numbers. Budget, BudgetAlert, Receipt, Idempotency, Audit, Approval, HitlRule,
--   SpendToken, Mcp (with `scan_mcp_description` of app/mcp/models.py), Log. Each method is one step;
--   what two calls do in turn is a sequence of such steps.
-- - RateLimiter: the class of that name in app/main.py, on one window of times for each key.
-- - Text, Intent: app/core/intent.py, on lists of code points. `unicodedata.normalize` and
--   `str.isspace` are functions that the evaluator is given.
-- - Anomaly: app/ops/anomalies.py and the order of the two severity thresholds in app/main.py, with
--   scores as exact fractions.
-- - Payment/State: the request, the settings and the tables of one call of `/pay`. Payment/Flow:
--   app/payment_flow.py, what a refusal writes. Payment/Entry: app/payment_entry_checks.py with
--   the signed fallback of app/protocols/x402.py. Payment/Limits: the budgets, caps, velocity,
--   scope and intent stages of `authorize_payment` in app/main.py. Payment/ToolPolicy:
--   app/mcp/payment_policy.py up to its call of the approval policy. Payment/HitlRules, Payment/Hitl:
--   app/hitl_policy.py, the rules and what a payment does that a rule stops. Payment/SpendGrant: the
--   spend token's check of the same file. Payment/Finalize: app/payment_finalize.py, for an agent
--   without an infrastructure assertion. A stage goes on with a value or ends with an answer, and
--   gives the new tables.
-- - Payment/Exec: the composition of stages. Payment/Authorize: `authorize_payment` of app/main.py, the
--   stages in their order; its child Keeps has the record of the writes that a predicate on the tables
--   must survive, and Policy and Stages bring it through every stage. Payment/Day: calls one after
--   another.
-- - Payment/AuditTrail: what the stages do to the audit log.
-- - Admin/Approvals: app/api/hitl.py. Admin/Receipts: app/api/receipts.py and `issue_receipt` of
--   app/main.py. Admin/Budgets: app/api/budgets.py. Admin/Tools: app/mcp/api.py. An operation returns
--   its value, or its error's status and code, with the new tables.
-- - Service: the calls of `/pay` and of the administrators as steps, and the states that they reach.
-- - Store/Oauth, Oauth: the tables and the three handlers of app/api/oauth.py. Auth: app/auth.py, who
--   calls, with which scopes, and from which workload.
-- - Webhooks: the runs of the dispatcher in app/api/webhooks.py, with the calls of the sender that they
--   make, and its tables. What an endpoint answers
--   is a function of the attempts before, so it may answer differently each time, or raise.
-- - Witnesses: the theorems at concrete inputs.
--
-- The loops are structural recursions on their lists, so no fuel is used. SHA-256, the regular
-- expressions for descriptions of tools and for vendors, HMAC and Unicode's tables are arguments of the
-- definitions that call them; what a theorem assumes about them stands among its hypotheses. A whole call
-- has the tables for itself: what two calls do that interleave is only looked at where a budget is read
-- and stored.
--
-- Not modelled: the AP2 mandates and the receipts of providers, which take other paths through
-- `authorize_payment`; the infrastructure identity in a payment, whose policy is taken to be off there; the
-- three verifiers of assertions, which Auth takes behind their protocol; the audit log of the OAuth
-- handlers but for what it names; the validation of policy documents and of the bodies of the administrators' calls; the
-- acknowledgement of alerts and the outboxes that nothing but the dispatcher reads; the demo pages, the
-- integrations and the scripts. The wording of messages, latencies and the columns that only describe a
-- row are left out.
pub mod Prelude
pub mod Dict
pub mod Money
pub mod Oauth
pub mod Auth
pub mod Store
pub mod RateLimiter
pub mod Text
pub mod Intent
pub mod Anomaly
pub mod Payment
pub mod Admin
pub mod Service
pub mod Webhooks
pub mod Witnesses
