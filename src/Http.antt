-- ===== src/Http.antt =====
-- internal/adapters/http: what stands between the router and the handlers.
pub mod Writer
pub mod Problem
pub mod Idempotency
pub mod Replay
pub mod Inbound
