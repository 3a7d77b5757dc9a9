-- ===== src/Invariance.antt =====
-- Invariants of the run under the methods of src/State.cpp, src/Transition.cpp,
-- src/PseudoState.cpp, src/HierarchicalState.cpp, src/ConcurrentState.cpp and src/Statechart.cpp:
-- what an invariant has to survive, and that it then survives every method at every depth of
-- calls.
pub mod Timeouts
pub mod Steps
pub mod Leaving
pub mod States
pub mod PseudoStates
pub mod Composites
pub mod Charts
pub mod Nesting
