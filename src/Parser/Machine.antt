-- ===== src/Parser/Machine.antt =====
-- internal/parser/transitions.go and parser.go: the transition table, the step and the loops.
pub mod Transitions
pub mod Step
pub mod Run
