-- ===== src/Limiter.antt =====
-- app/services/rate_limiter.py: the sliding window of each customer of each shop bot.
pub mod Window
pub mod Exact
mod Examples
