-- ===== src/Ai.antt =====
-- app/cloudflare_ai: the accounts for Cloudflare's models, and the provider that goes through them.
pub mod Store
pub mod Provider
pub mod Json
pub mod Agent
