-- ===== src/Chat.antt =====
-- The customers of a shop bot and what was said: app/services/customer_service.py and
-- app/services/conversation_service.py.
pub mod Customers
pub mod Conversations
pub mod Prompt
pub mod History
mod Examples
