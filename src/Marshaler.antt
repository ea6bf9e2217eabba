-- ===== src/Marshaler.antt =====
-- internal/marshaler: between documents and Go values.
pub mod Tags
pub mod Durations
pub mod Formats
pub mod ByteSlices
pub mod TypeIndex
pub mod Keys
pub mod Texts
pub mod Direct
pub mod Structure
pub mod Verify
