-- ===== src/Types.antt =====
-- The provider-independent data of include/neuralplus/types.hpp and src/types.cpp.
pub mod Enums
pub mod Content
pub mod Message
pub mod Records
pub mod Validity
