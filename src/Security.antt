-- ===== src/Security.antt =====
-- src/server/security: the checks that a worker makes on the packets of its client.
pub mod RateLimiter
pub mod ReplayProtection
pub mod InputValidator
