-- ===== src/Provider.antt =====
-- What the provider clients share (src/provider_common.cpp).
pub mod Base64
pub mod Redact
pub mod Headers
pub mod Credentials
pub mod Fields
pub mod History
pub mod Blocks
