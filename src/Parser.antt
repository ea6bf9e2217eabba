-- ===== src/Parser.antt =====
-- internal/parser: the state machine that turns tokens into a document.
pub mod State
pub mod Recent
pub mod Context
pub mod Handlers
pub mod Machine
pub mod Safety
pub mod Annotations
