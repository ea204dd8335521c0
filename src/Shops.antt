-- ===== src/Shops.antt =====
-- The shop bots, the channels that users have to join, and the posts that a bot learns from.
pub mod Bots
pub mod Channels
pub mod Knowledge
pub mod Primary
