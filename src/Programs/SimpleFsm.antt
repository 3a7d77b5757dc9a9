-- ===== src/Programs/SimpleFsm.antt =====
-- doc/examples/SimpleFSM/simple_fsm.cpp.
pub mod Laws
use cpp_statecharts.Base.{ℕ, Bool, true, String, Option, some, List, [], ◌∷◌}
use cpp_statecharts.Structure.{simple_state, pseudo_state, start, final_state}
use cpp_statecharts.Event.{Event, signal}
use cpp_statecharts.Chart.{Chart, Guard}
use cpp_statecharts.Construction.Building.{
  new_statechart, create, create_transition, no_actions, no_transition,
}
use cpp_statecharts.Programs.Making.{
  Console, text, cout, say, begin, acts, entry, on, internal, Make, ◌>>=◌, ◌>>◌, built,
}

pub record FsmParameter : Type 0 where
  pub guard1 : Bool
  pub guard3 : Bool

abbrev pub event1 : Event
event1 = signal "event1"

abbrev pub event2 : Event
event2 = signal "event2"

abbrev pub event3 : Event
event3 = signal "event3"

abbrev pub event5 : Event
event5 = signal "event5"

abbrev pub event6 : Event
event6 = signal "event6"

-- LOG_ACTION of an action of the given name.
abbrev pub logs : String → Console FsmParameter → Console FsmParameter
logs name = cout (text "  [ACTION " ∷ text name ∷ text "]\n" ∷ [])

abbrev pub guard1_active : Guard (Console FsmParameter)
guard1_active d w = w.parameter.guard1

abbrev pub guard3_active : Guard (Console FsmParameter)
guard3_active d w = w.parameter.guard3

-- The chart of `main`.
unfoldable pub make_simple_fsm : Make (Console FsmParameter) ℕ
make_simple_fsm = do
  initial ← create "start" (pseudo_state start) no_actions (some 0)
  final ← create "final" final_state no_actions (some 0)
  state1 ←
      create "State1" simple_state
        (record (entry (acts (logs "action7"))) { exit_action = acts (logs "action8") }) (some 0)
  state2 ←
      create "State2" simple_state
        (record (entry (acts (logs "action9"))) { exit_action = acts (logs "action10") }) (some 0)
  create_transition (some initial) (some state1) no_transition
  create_transition (some state1) (some state2)
      (record (on event1) { guard = some guard1_active; action = acts (logs "action1") })
  create_transition (some state2) (some state1) (on event2)
  create_transition (some state2) (some final) (on event6)
  create_transition (some state1) (some state1)
      (record (internal event3) { guard = some guard3_active; action = acts (logs "action3") })
  create_transition (some state2) (some state2)
      (record (internal event5) { action = acts (logs "action5") })

abbrev pub simple_fsm : Chart (Console FsmParameter)
simple_fsm = built (new_statechart "SimpleFSM") (make_simple_fsm (new_statechart "SimpleFSM"))

-- What `main` does behind the start of the chart, and what it has before.
abbrev pub simple_fsm_script : List ((Console FsmParameter → Console FsmParameter) × Option Event)
simple_fsm_script =
    (say "\n>> event3 (internal transition on State1)\n", some event3)
    ∷ (say "\n>> event1 (State1 -> State2)\n", some event1)
    ∷ (say "\n>> event5 (internal transition on State2)\n", some event5)
    ∷ (say "\n>> event2 (State2 -> State1)\n", some event2)
    ∷ (say "\n>> event1 then event6 to terminate\n", some event1)
    ∷ ((λ w. w), some event6)
    ∷ []

abbrev pub simple_fsm_begin : Console FsmParameter
simple_fsm_begin =
    begin (record { guard1 = true; guard3 = true }) (text "=== SimpleFSM cheat-sheet ===\n" ∷ [])
