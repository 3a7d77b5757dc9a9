-- ===== src/Flat.antt =====
-- Charts without composite states, which src/Statechart.cpp and src/State.cpp run as finite-state
-- machines.
pub mod Machine
pub mod Implementing
pub mod Writing
pub mod Firing
pub mod Choosing
pub mod Dispatching
pub mod Reacting
pub mod Sessions
pub mod Conditions
pub mod Safety
