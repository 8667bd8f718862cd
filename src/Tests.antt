-- ===== src/Tests.antt =====
-- Concrete runs of the modelled code.
mod Parts
mod Generation
mod Base64
mod Transport
mod Redaction
mod Compatible
mod Clients
mod OpenAi
mod Gemini
