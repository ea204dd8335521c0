-- ===== src/Ai.antt =====
-- app/services/ai_service.py and app/services/ai_pool_service.py: the calls of AI services, with
-- their retries, the second service, and the pool of keys with its circuit breakers.
pub mod Client
pub mod Circuit
pub mod Pool
pub mod Keys
pub mod Retry
pub mod Breaker
pub mod Answers
mod Examples
