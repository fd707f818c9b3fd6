-- ===== src/Store.antt =====
-- app/storage.py: `FirewallStore`, table by table. A method takes the rows of its table and gives
-- them back with its result. Each holds the store's lock and one connection from its first
-- statement to its commit, so it is one step. Times and days are numbers that grow with time.
pub mod Value
pub mod Budget
pub mod BudgetAlert
pub mod Receipt
pub mod Idempotency
pub mod Audit
pub mod Approval
pub mod HitlRule
pub mod SpendToken
pub mod Mcp
pub mod Oauth
pub mod Log
