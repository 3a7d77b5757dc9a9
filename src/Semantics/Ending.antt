-- ===== src/Semantics/Ending.antt =====
-- The methods `deactivate` of src/State.cpp, src/HierarchicalState.cpp and src/ConcurrentState.cpp:
-- their calls end.
pub mod Histories
pub mod States
pub mod Composites
pub mod Built
