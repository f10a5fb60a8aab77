-- ===== src/Cache.antt =====
-- apps/core/cache: the Redis cache that the token services and the rate limiter share.
pub mod Breaker
pub mod BreakerRuns
pub mod Api
pub mod Redis
pub mod Async
pub mod Operations
pub mod Accounting
pub mod Requests
pub mod Refines
pub mod Implements
pub mod Memory
mod Tests
