-- ===== src/Parser/Handlers.antt =====
-- internal/parser/transitions.go: the transition functions, by state, in the children.
pub mod Outer
pub mod Types
pub mod InNode
pub mod Params
pub mod ArgProp
