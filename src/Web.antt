-- ===== src/Web.antt =====
-- The program's entry points: app/main.py, with the registry of running bots of
-- app/services/bot_manager.py.
pub mod Updates
pub mod Manager
pub mod Payments
pub mod Seen
pub mod Genuine
mod Examples
