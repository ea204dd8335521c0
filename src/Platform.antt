-- ===== src/Platform.antt =====
-- What the platform's administrators keep: plans, one-time codes, roles and the audit log.
pub mod Plans
pub mod Otp
pub mod Roles
pub mod Audit
pub mod Once
mod Examples
