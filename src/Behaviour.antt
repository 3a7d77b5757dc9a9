-- ===== src/Behaviour.antt =====
-- The methods of the state and transition classes, one module for each source file, and their
-- virtual table in Virtual.
pub mod Transitions
pub mod States
pub mod PseudoStates
pub mod Hierarchical
pub mod Concurrent
pub mod Virtual
