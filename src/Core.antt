-- ===== src/Core.antt =====
-- backend/app/core: the helpers that several domains share.
pub mod Idempotency
