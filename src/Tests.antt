-- ===== src/Tests.antt =====
-- Runs of the definitions on concrete inputs.
pub mod Floats
pub mod Parsing
pub mod Texts
pub mod Scanning
pub mod Writing
pub mod Values
pub mod Coercing
pub mod Marshaling
