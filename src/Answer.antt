-- ===== src/Answer.antt =====
-- The answers to customers, in app/bots/shop_bot/handlers/customer.py: messages that come together
-- are gathered, held against the rules, answered by an AI service and paid for by the owner, and
-- orders are detected in the conversation.
pub mod Turn
pub mod Debounce
pub mod Detect
pub mod Propose
pub mod Buttons
pub mod Media
pub mod Paid
pub mod Settled
pub mod Charged
pub mod Buffered
pub mod Frame
pub mod Detected
pub mod Offered
pub mod Proposed
pub mod Wallets
pub mod Refused
mod Examples
