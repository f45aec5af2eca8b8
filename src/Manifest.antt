-- ===== src/Manifest.antt =====
-- The manifest of the tests: tools/manifest.
pub mod Variants
pub mod Names
pub mod Content
pub mod References
pub mod Items
pub mod Classify
pub mod TypeData
pub mod Reftests
pub mod Update
