-- ===== src/Construction.antt =====
-- How a chart is built: the paths that Transition::calculateStateSet of src/Transition.cpp
-- computes, and the constructors and factories that link the objects.
pub mod Names
pub mod Paths
pub mod StateSets
pub mod Building
