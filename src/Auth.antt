-- ===== src/Auth.antt =====
-- src/auth/auth.service.ts
pub mod Codes
pub mod Crypto
pub mod Pin
pub mod Sessions
pub mod EmailChange
pub mod PinReset
pub mod Passwords
pub mod Google
pub mod Accounts
pub mod Guards
