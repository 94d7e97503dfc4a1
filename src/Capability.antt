-- ===== src/Capability.antt =====
-- The capability tokens of src/application/service/capability.rs. Its base64 is in Base64, the
-- tokens are in Token, and the modules under them are about both.
pub mod Base64
pub mod Token
pub mod Sample
mod Examples
