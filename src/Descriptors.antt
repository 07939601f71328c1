-- ===== src/Descriptors.antt =====
-- backend/tallykeep/adapters/descriptor_adapter.py: extended keys and their encoding, what is read off a
-- descriptor, and the two decisions on it. The PSBT that the adapter builds is BDK's work.
pub mod Base58
pub mod Patterns
pub mod Reading
pub mod Parsing
pub mod Classifying
pub mod Agreement
pub mod Derivation
