-- ===== src/Chart.antt =====
-- A statechart as its construction leaves it: the states of Structure with their actions, and the
-- transitions of include/CppStatecharts/Transition.hpp and
-- include/CppStatecharts/InternalTransition.hpp.
use cpp_statecharts.Base.{ℕ, String, Bool, Option, none, some, List, is_some}
use cpp_statecharts.Structure.{States, PseudoStateType}
use cpp_statecharts.Event.{Event}
use cpp_statecharts.Metadata.{Metadata}
use cpp_statecharts.Runtime.{M, pure}

-- `Action` and `Guard` of include/CppStatecharts/forward.hpp. A guard only reads its arguments. An
-- action may do anything to the run, also throw.
abbrev pub Action : Type 0 → Type 0
Action W = M W (Unit {0})

abbrev pub Guard : Type 0 → Type 0
Guard W = Metadata → W → Bool

-- `deactivate_list` and `activate_list` are what calculateStateSet filled in; `is_internal` says
-- that the object is an InternalTransition.
pub record Transition (W : Type 0) : Type 0 where
  pub event : Option Event
  pub guard : Option (Guard W)
  pub action : Option (Action W)
  pub deactivate_list : List ℕ
  pub activate_list : List ℕ
  pub is_internal : Bool

pub record StateActions (W : Type 0) : Type 0 where
  pub entry_action : Option (Action W)
  pub do_action : Option (Action W)
  pub exit_action : Option (Action W)

-- `root` is the Statechart object itself, which is a state too.
pub record Chart (W : Type 0) : Type 0 where
  pub states : States
  pub actions : ℕ → StateActions W
  pub transition : ℕ → Transition W
  pub root : ℕ
  pub names : List (String × ℕ)
  pub infinite_loop_threshold : ℕ

module _ {W : Type 0} where
  abbrev pub has_event : Transition W → Bool
  has_event t = is_some t.event

  abbrev pub has_guard : Transition W → Bool
  has_guard t = is_some t.guard

  -- An empty std::function is not called.
  abbrev pub run_action : Option (Action W) → M W (Unit {0})
  run_action none = pure tt
  run_action (some a) = a

  -- A missing guard lets every run pass.
  abbrev pub guard_holds : Option (Guard W) → Metadata → W → Bool
  guard_holds none d w = Bool.true
  guard_holds (some g) d w = g d w

-- The virtual methods of State and the recursive helpers, as one bounded unrolling of them. The
-- methods below call one another through it, as the code does through the virtual table.
pub record Methods (W : Type 0) : Type 0 where
  pub lookup : ℕ → Metadata → W → Option Bool
  pub history_chain : PseudoStateType → ℕ → Metadata → Option (List ℕ)
  pub activate : ℕ → M W Bool
  pub deactivate : ℕ → M W (Unit {0})
  pub dispatch : ℕ → Option Event → M W Bool
