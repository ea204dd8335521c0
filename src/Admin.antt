-- ===== src/Admin.antt =====
-- The administrators' part of the main bot, in app/bots/main_bot/filters.py and
-- app/bots/main_bot/handlers/admin.py.
pub mod Roles
pub mod Owners
pub mod Switches
pub mod Logged
pub mod Audited
mod Examples
