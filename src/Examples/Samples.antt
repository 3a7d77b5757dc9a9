-- ===== src/Examples/Samples.antt =====
-- Small charts that the examples run, and runs of them.
use cpp_statecharts.Base.{ℕ, ◌+◌, String, true, false, Option, none, some, List, [], ◌∷◌, at_index}
use cpp_statecharts.Structure.{
  State, States, Kind, simple_state, final_state, hierarchical_state, statechart_root,
}
use cpp_statecharts.Event.{Event, signal, id, uuid_eq, equals}
use cpp_statecharts.Metadata.{StateRuntimedata, Metadata}
use cpp_statecharts.Metadata
use cpp_statecharts.Metadata.Table
use cpp_statecharts.Metadata.Substates.{substate}
use cpp_statecharts.Entries.{Scheduler}
use cpp_statecharts.Runtime.{Run, Outcome, done, thrown, fault, out_of_fuel, for_each, first_true}
use cpp_statecharts.Chart.{Chart, Transition, Action}
use cpp_statecharts.Construction.Building.{no_actions, no_transition}
use cpp_statecharts.Behaviour.Transitions
use cpp_statecharts.Behaviour.States
use cpp_statecharts.Behaviour.PseudoStates
use cpp_statecharts.Behaviour.Hierarchical
use cpp_statecharts.Behaviour.Virtual

abbrev pub sample_state : String → Kind → Option ℕ → List ℕ → State
sample_state name kind context transitions = record {
  name = name;
  kind = kind;
  context = context;
  statechart = some 0;
  transitions = transitions;
  start_state = none;
  history_state = none;
  regions = [];
  incoming = [];
}

abbrev pub sample_transition : Option Event → List ℕ → List ℕ → Transition ℕ
sample_transition event deactivate activate = record no_transition {
  event = event;
  deactivate_list = deactivate;
  activate_list = activate;
}

abbrev pub count_up : Action ℕ
count_up r = done tt (record r { world = r.world + 1 })

abbrev pub go : Event
go = signal "go"

-- Two states, `left` and `right`. On `go` the chart moves to the right, and it comes back by
-- itself.
abbrev ping_states : States
ping_states = at_index (sample_state "ping" statechart_root none []) (
    (sample_state "ping" statechart_root none [])
    ∷ (sample_state "left" simple_state (some 0) (0 ∷ 1 ∷ []))
    ∷ (sample_state "right" simple_state (some 0) (2 ∷ []))
    ∷ [])

abbrev pub ping_transition : ℕ → Transition ℕ
ping_transition = at_index no_transition (
    (sample_transition (some (signal "other")) [] [])
    ∷ (record (sample_transition (some go) (1 ∷ []) (2 ∷ [])) { action = some count_up })
    ∷ (sample_transition none (2 ∷ []) (1 ∷ []))
    ∷ [])

abbrev pub ping : ℕ → Chart ℕ
ping threshold = record {
  states = ping_states;
  actions = λ s. no_actions;
  transition = ping_transition;
  root = 0;
  names = ("left", 1) ∷ ("right", 2) ∷ [];
  infinite_loop_threshold = threshold;
}

-- A composite state with an inner state, and a transition inwards, to its end, and out of it.
abbrev nest_states : States
nest_states = at_index (sample_state "nest" statechart_root none []) (
    (sample_state "nest" statechart_root none [])
    ∷ (sample_state "outer" hierarchical_state (some 0) (3 ∷ 4 ∷ []))
    ∷ (sample_state "inner" simple_state (some 1) (0 ∷ 1 ∷ 2 ∷ []))
    ∷ (sample_state "end" final_state (some 1) [])
    ∷ (sample_state "other" simple_state (some 0) [])
    ∷ [])

abbrev nest_transition : ℕ → Transition ℕ
nest_transition = at_index no_transition (
    (sample_transition (some (signal "in")) (2 ∷ []) (2 ∷ []))
    ∷ (sample_transition (some (signal "end")) (2 ∷ []) (3 ∷ []))
    ∷ (sample_transition (some (signal "out")) (2 ∷ 1 ∷ []) (4 ∷ []))
    ∷ (sample_transition (some (signal "in")) (1 ∷ []) (4 ∷ []))
    ∷ (sample_transition none (1 ∷ []) (4 ∷ []))
    ∷ [])

abbrev pub nest : Chart ℕ
nest = record {
  states = nest_states;
  actions = λ s. no_actions;
  transition = nest_transition;
  root = 0;
  names = [];
  infinite_loop_threshold = 5;
}

abbrev pub data_at : ℕ → Option ℕ → StateRuntimedata
data_at address current = record {
  address = address;
  current_time = 0;
  active = true;
  current_state = current;
  stateset = [];
  timeout_events = [];
}

abbrev pub sample_meta : List (ℕ × StateRuntimedata) → Metadata
sample_meta table = record {
  ident = 9;
  statechart = some 0;
  active_states = table;
  activate_observers = 5 ∷ 6 ∷ [];
  deactivate_observers = 7 ∷ [];
  observed = [];
  next_address = 10;
}

abbrev pub idle_scheduler : Scheduler
idle_scheduler = record {
  is_running = true;
  timeout_queue = record { items = []; stop_flag = false };
  pending_entries = [];
  pool = record { tasks = []; workers = []; shutdown_flag = false };
  invalid_ids = [];
  next_id = 0;
}

abbrev pub sample_run : List (ℕ × StateRuntimedata) → Run ℕ
sample_run table = record {
  meta = sample_meta table;
  scheduler = idle_scheduler;
  world = 0;
  clock = λ n. n;
  reads = 0;
}

-- The runs with the left state active, and with the inner one.
abbrev pub left_active : Run ℕ
left_active = sample_run ((0, data_at 1 (some 1)) ∷ (1, data_at 2 none) ∷ [])

abbrev pub inner_active : Run ℕ
inner_active =
    sample_run ((0, data_at 1 (some 1)) ∷ (1, data_at 2 (some 2)) ∷ (2, data_at 3 none) ∷ [])

-- The run in which an outcome ends, or the given one if it has none.
abbrev pub end_of : {A : Type 0} → Run ℕ → Outcome (Run ℕ) A → Run ℕ
end_of r (done a s) = s
end_of r (thrown e s) = s
end_of r fault = r
end_of r out_of_fuel = r

-- A name under which the examples open the program.
unfoldable pub program : Unit {0}
unfolding id uuid_eq equals substate for_each first_true Metadata.get_data Metadata.is_active
    Metadata.create_runtimedata Metadata.notify_activate Metadata.notify_deactivate
    Metadata.note_chart Metadata.enter_parent Metadata.activate Metadata.deactivate Metadata.reset
    Table.find Table.modify Table.erase Transitions.register_region Transitions.allowed
    Transitions.activate_path Transitions.fire Transitions.fire_internal Transitions.execute
    States.enqueue States.arm States.arm_timeouts States.enter States.state_activate
    States.invalidate States.disarm States.disarm_timeouts States.leave States.state_deactivate
    States.state_dispatch PseudoStates.pseudo_lookup PseudoStates.any_allowed
    Hierarchical.save_history Hierarchical.leave_substate Hierarchical.leave_from
    Hierarchical.hierarchical_deactivate Hierarchical.current_at Hierarchical.activate_current
    Hierarchical.enter_start Hierarchical.enter_start_if Hierarchical.first_entry
    Hierarchical.dispatch_substate Hierarchical.own_transition Hierarchical.after_substate
    Hierarchical.hierarchical_dispatch Virtual.completion_step Virtual.completion_loop
    Virtual.dispatch_current Virtual.statechart_dispatch Virtual.activate_of Virtual.deactivate_of
    Virtual.dispatch_of Virtual.override Virtual.methods
program = tt
