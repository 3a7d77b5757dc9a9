-- ===== src/Structure.antt =====
-- The objects of a built statechart that never change while it runs:
-- include/CppStatecharts/State.hpp with its subclasses Context, HierarchicalState,
-- ConcurrentState, FinalState, PseudoState. A pointer to a state is a number, and a null pointer
-- is `none`.
use cpp_statecharts.Base.{ℕ, String, Bool, true, false, List, Option}

pub data PseudoStateType : Type 0 where
  start junction fork join history deep_history : PseudoStateType

-- The dynamic class of a state object, which the code asks for by `dynamic_cast`. A Condition is a
-- junction.
pub data Kind : Type 0 where
  simple_state final_state hierarchical_state concurrent_state statechart_root : Kind
  pseudo_state : PseudoStateType → Kind

-- The data members of a state object. A member that the object's class lacks is empty.
pub record State : Type 0 where
  pub name : String
  pub kind : Kind
  pub context : Option ℕ
  pub statechart : Option ℕ
  pub transitions : List ℕ
  pub start_state : Option ℕ
  pub history_state : Option ℕ
  pub regions : List ℕ
  pub incoming : List ℕ

-- The states by their addresses.
abbrev pub States : Type 0
States = ℕ → State

abbrev pub is_statechart : Kind → Bool
is_statechart statechart_root = true
is_statechart _ = false

abbrev pub is_final : Kind → Bool
is_final final_state = true
is_final _ = false

abbrev pub is_pseudo : Kind → Bool
is_pseudo (pseudo_state t) = true
is_pseudo _ = false

abbrev pub is_hierarchical : Kind → Bool
is_hierarchical hierarchical_state = true
is_hierarchical _ = false

abbrev pub is_concurrent : Kind → Bool
is_concurrent concurrent_state = true
is_concurrent _ = false

-- A PseudoState of type History or DeepHistory.
abbrev pub is_history : Kind → Bool
is_history (pseudo_state history) = true
is_history (pseudo_state deep_history) = true
is_history _ = false
