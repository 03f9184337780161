-- ===== src/Redis.antt =====
-- src/libs/redis: keys, locks, limits and tagged caches of the Redis client.
pub mod Keys
pub mod Client
pub mod Lock
pub mod Limit
pub mod Tags
pub mod Tests
