-- ===== src/Parser/Safety.antt =====
-- internal/parser: the invariant of the two stacks, under which no handler fails for want of a node.
pub mod Stacks
pub mod Outer
pub mod Inside
pub mod Table
pub mod Step
pub mod Reentry
pub mod Total
