-- ===== src/Payment.antt =====
-- The payment decision of app/main.py (`authorize_payment`), stage by stage.
pub mod State
pub mod Flow
pub mod Entry
pub mod Limits
pub mod SpendGrant
pub mod Finalize
pub mod AuditTrail
pub mod ToolPolicy
pub mod HitlRules
pub mod Hitl
pub mod Exec
pub mod Authorize
pub mod Day
