-- ===== src/Throttle.antt =====
-- src/libs/throttle: limits of requests, and their guard.
pub mod Service
pub mod Guard
pub mod Bound
mod Tests
