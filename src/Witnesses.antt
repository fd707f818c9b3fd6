-- ===== src/Witnesses.antt =====
-- The theorems applied at concrete inputs.
mod Tables
mod Service
mod Decision
mod Tools
mod Calls
mod Operators
mod Delivery
mod Sessions
