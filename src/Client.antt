-- ===== src/Client.antt =====
-- `AIClient` of include/neuralplus/client.hpp and src/client.cpp.
pub mod Usage
pub mod Config
pub mod Input
pub mod Execute
pub mod Generate
pub mod Rounds
