-- ===== src/Gateway.antt =====
-- The gateway's guards before a command reaches the trading core: apps/backend/src/modules/gateway.
pub mod RateLimit
pub mod Idempotency
mod Tests
