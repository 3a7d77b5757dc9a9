-- ===== src/Construction/Building.antt =====
-- The factories of include/CppStatecharts/Statechart.hpp and the constructors that they run, of
-- src/State.cpp, src/PseudoState.cpp, src/HierarchicalState.cpp, src/ConcurrentState.cpp,
-- src/Condition.cpp, src/Transition.cpp and src/InternalTransition.cpp.
pub mod Ordering
pub mod Trees
pub mod Built
use cpp_statecharts.Base.{
  ℕ, zero, suc, ◌+◌, Bool, true, false, ◌||◌, String, Option, none, some, List, [], ◌∷◌, ◌++◌,
  if◌then◌else◌, ◌==◌, is_some,
}
use text.Mathlib.Text.{◌==◌ as str_eq}
use cpp_statecharts.Structure.{
  State, States, Kind, PseudoStateType, start, join, junction, history, deep_history, simple_state,
  hierarchical_state, pseudo_state, is_concurrent, is_hierarchical, statechart_root,
}
use cpp_statecharts.Event.{Event}
use cpp_statecharts.Chart.{Chart, Transition, StateActions, Action, Guard, has_guard}
use cpp_statecharts.Construction.Names.{is_taken}
use cpp_statecharts.Construction.StateSets.{StateSet, calculate_state_set}

-- A chart under construction: what is built of it, and the addresses of the next state and of the
-- next transition that are allocated.
pub record Builder (W : Type 0) : Type 0 where
  pub chart : Chart W
  pub next_state : ℕ
  pub next_transition : ℕ

abbrev pub update {ℓ} : {A : Type ℓ} → (ℕ → A) → ℕ → A → ℕ → A
update f i a j = if j == i then a else f j

abbrev pub no_actions : {W : Type 0} → StateActions W
no_actions = record { entry_action = none; do_action = none; exit_action = none }

abbrev pub no_transition : {W : Type 0} → Transition W
no_transition = record {
  event = none;
  guard = none;
  action = none;
  deactivate_list = [];
  activate_list = [];
  is_internal = false;
}

abbrev pub new_state : String → Kind → Option ℕ → Option ℕ → State
new_state name kind context chart = record {
  name = name;
  kind = kind;
  context = context;
  statechart = chart;
  transitions = [];
  start_state = none;
  history_state = none;
  regions = [];
  incoming = [];
}

-- The constructor of Statechart: the root, at address 0.
unfoldable pub new_statechart : {W : Type 0} → String → Builder W
new_statechart name = record {
  chart = record {
    states = λ s. new_state name statechart_root none (some 0);
    actions = λ s. no_actions;
    transition = λ t. no_transition;
    root = 0;
    names = [];
    infinite_loop_threshold = 1000;
  };
  next_state = 1;
  next_transition = 0;
}

-- Statechart::setInfiniteLoopThreshold.
unfoldable pub set_infinite_loop_threshold : {W : Type 0} → ℕ → Chart W → Chart W
set_infinite_loop_threshold n c = record c { infinite_loop_threshold = if n == 0 then 1 else n }

-- What the constructor of the state at the given address changes in its parent. None if it throws.
unfoldable pub register : Kind → ℕ → State → Option State
register (pseudo_state start) s p =
    if is_some p.start_state then none else some (record p { start_state = some s })
register (pseudo_state history) s p =
    if is_hierarchical p.kind
    then if is_some p.history_state then none else some (record p { history_state = some s })
    else none
register (pseudo_state deep_history) s p =
    if is_hierarchical p.kind
    then if is_some p.history_state then none else some (record p { history_state = some s })
    else none
register hierarchical_state s p =
    if is_concurrent p.kind then some (record p { regions = p.regions ++ (s ∷ []) }) else some p
register _ s p = some p

-- State::addTransition: a guarded transition is tried before all that are there.
unfoldable pub add_transition : ℕ → Bool → List ℕ → List ℕ
add_transition t guarded ts = if guarded then t ∷ ts else ts ++ (t ∷ [])

abbrev pub is_join_state : Kind → Bool
is_join_state (pseudo_state join) = true
is_join_state _ = false

-- The lists of outgoing and of incoming transitions that Transition::init extends.
unfoldable pub link_start : Option ℕ → ℕ → Bool → States → States
link_start none t guarded states = states
link_start (some s) t guarded states =
    update states s
      (record (states s) { transitions = add_transition t guarded (states s).transitions })

unfoldable pub link_end : Option ℕ → ℕ → States → States
link_end none t states = states
link_end (some s) t states =
    if is_join_state (states s).kind
    then update states s (record (states s) { incoming = (states s).incoming ++ (t ∷ []) })
    else states

module _ {W : Type 0} where
  unfoldable pub place :
      String → Kind → StateActions W → ℕ → Option State → Builder W → Option (ℕ × Builder W)
  place name kind actions p none b = none
  place name kind actions p (some parent) b = some (
    b.next_state,
    record {
      chart = record b.chart {
        states =
            update (update b.chart.states p parent) b.next_state
              (new_state name kind (some p) (some b.chart.root));
        actions = update b.chart.actions b.next_state actions;
        names = (name, b.next_state) ∷ b.chart.names;
      };
      next_state = b.next_state + 1;
      next_transition = b.next_transition;
    },
  )

  -- Statechart::create for a state of the given class; a Condition is created by
  -- `create_condition`. None if an exception is thrown; nothing has changed then.
  unfoldable pub create :
      String → Kind → StateActions W → Option ℕ → Builder W → Option (ℕ × Builder W)
  create name kind actions none b = none
  create name kind actions (some p) b =
      if str_eq name "" || is_taken name b.chart.names
      then none
      else place name kind actions p (register kind b.next_state (b.chart.states p)) b

  unfoldable pub attach :
      Option ℕ → Option ℕ → Transition W → Option StateSet → Builder W → Option (ℕ × Builder W)
  attach from to t none b = none
  attach from to t (some set) b = some (
    b.next_transition,
    record {
      chart = record b.chart {
        states =
            link_end to b.next_transition
              (link_start from b.next_transition (has_guard t) b.chart.states);
        transition = update b.chart.transition b.next_transition (
            if t.is_internal
            then t
            else record t { deactivate_list = set.deactivate; activate_list = set.activate });
      };
      next_state = b.next_state;
      next_transition = b.next_transition + 1;
    },
  )

  -- Statechart::createTransition and Statechart::createInternalTransition, from the members that
  -- the constructor is given. An internal transition clears its lists again. The walks of
  -- calculateStateSet are bounded by the number of states; None if they were longer.
  unfoldable pub create_transition :
      Option ℕ → Option ℕ → Transition W → Builder W → Option (ℕ × Builder W)
  create_transition from to t b =
      attach from to t (calculate_state_set b.next_state b.chart.states from to) b

  abbrev pub then_built :
      Option (ℕ × Builder W) → (ℕ → Builder W → Option (ℕ × Builder W)) → Option (ℕ × Builder W)
  then_built none f = none
  then_built (some (i, b)) f = f i b

  -- The constructor of Condition: a junction with a guarded and an unconditional transition.
  unfoldable pub create_condition :
      String
      → Option ℕ
      → Option (Guard W)
      → Option ℕ
      → Option ℕ
      → Builder W
      → Option (ℕ × Builder W)
  create_condition name parent guard when_true otherwise b =
      then_built (create name (pseudo_state junction) no_actions parent b) λ s b1.
        then_built
          (create_transition (some s) when_true (record no_transition { guard = guard }) b1)
          λ _ b2.
            then_built (create_transition (some s) otherwise no_transition b2) λ _ b3. some (s, b3)
