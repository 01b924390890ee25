-- ===== src/Limits.antt =====
-- The limits on requests and on failed attempts: VOID0000-api/server/middleware/rateLimits, and the
-- counters of VOID0000-api/server/auth/services.
pub mod Bucket
pub mod Lockout
pub mod Counters
pub mod Attempts
pub mod Tests
