-- ===== src/Tests.antt =====
-- Tests: sample values, and the theorems applied to them.
mod Samples
mod Sessions
mod Money
mod Orders
mod Pin
mod Payments
mod Webhooks
mod Users
mod Accounts
mod Codes
mod Stores
mod Library
