-- ===== src/Panel.antt =====
-- The shop owner's panel in the main bot, in app/bots/main_bot/handlers/panel.py.
mod Examples
pub mod Orders
pub mod Pressed
pub mod TopUp
pub mod Quoted
