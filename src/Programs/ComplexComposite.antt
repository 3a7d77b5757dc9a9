-- ===== src/Programs/ComplexComposite.antt =====
-- doc/examples/ComplexComposite/complex_composite.cpp.
use cpp_statecharts.Base.{ℕ, String, Option, some, List, [], ◌∷◌}
use cpp_statecharts.Structure.{simple_state, pseudo_state, start, hierarchical_state}
use cpp_statecharts.Event.{Event, signal}
use cpp_statecharts.Chart.{Chart, StateActions}
use cpp_statecharts.Construction.Building.{
  new_statechart, create, create_transition, no_actions, no_transition,
}
use cpp_statecharts.Programs.Making.{
  Console, text, cout, say, begin, acts, entry, on, Make, ◌>>=◌, ◌>>◌, built,
}

-- The program's Parameter has no members.
abbrev pub Nothing : Type 0
Nothing = Unit {0}

abbrev pub f_event : Event
f_event = signal "f"

-- ENTRY and EXIT of a state of the given label.
abbrev pub announced : String → StateActions (Console Nothing)
announced label = record (entry (acts (cout (text "  Entering " ∷ text label ∷ text "\n" ∷ [])))) {
  exit_action = acts (cout (text "  Leaving " ∷ text label ∷ text "\n" ∷ []));
}

-- The chart of `main`.
unfoldable pub make_complex_composite : Make (Console Nothing) ℕ
make_complex_composite = do
  initial ← create "start" (pseudo_state start) no_actions (some 0)
  state0 ← create "State0" hierarchical_state (announced "State0") (some 0)
  s0_start ← create "s0Start" (pseudo_state start) no_actions (some state0)
  state1 ← create "State1" hierarchical_state (announced "State1") (some state0)
  s1_start ← create "s1Start" (pseudo_state start) no_actions (some state1)
  state11 ← create "State11" simple_state (announced "State11") (some state1)
  state2 ← create "State2" hierarchical_state (announced "State2") (some state0)
  s2_start ← create "s2Start" (pseudo_state start) no_actions (some state2)
  state21 ← create "State21" hierarchical_state (announced "State21") (some state2)
  s21_start ← create "s21Start" (pseudo_state start) no_actions (some state21)
  state211 ← create "State211" simple_state (announced "State211") (some state21)
  create_transition (some initial) (some state0) no_transition
  create_transition (some s0_start) (some state1) no_transition
  create_transition (some s1_start) (some state11) no_transition
  create_transition (some s2_start) (some state21) no_transition
  create_transition (some s21_start) (some state211) no_transition
  create_transition (some state1) (some state211) (on f_event)

abbrev pub complex_composite : Chart (Console Nothing)
complex_composite =
    built (new_statechart "ComplexComposite")
      (make_complex_composite (new_statechart "ComplexComposite"))

-- What `main` does behind the start of the chart, and what it has before.
abbrev pub complex_composite_script : List ((Console Nothing → Console Nothing) × Option Event)
complex_composite_script = (say "\n>> Dispatch event 'f' : State1 -> State211\n", some f_event) ∷ []

abbrev pub complex_composite_begin : Console Nothing
complex_composite_begin = begin tt (text "=== Complex composite (nested 3-level) ===\n" ∷ [])
