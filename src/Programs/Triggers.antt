-- ===== src/Programs/Triggers.antt =====
-- doc/examples/Triggers/triggers.cpp.
pub mod Laws
use cpp_statecharts.Base.{ℕ, String, Option, some, List, [], ◌∷◌}
use cpp_statecharts.Structure.{simple_state, pseudo_state, start}
use cpp_statecharts.Event.{Event, signal}
use cpp_statecharts.Chart.{Chart, Guard}
use cpp_statecharts.Construction.Building.{
  new_statechart, create, create_transition, no_actions, no_transition,
}
use cpp_statecharts.Programs.Making.{
  Console, text, number, cout, say, begin, acts, entry, on, Make, ◌>>=◌, ◌>>◌, built, ℤ, equals_to,
  greater_than,
}

pub record TriggerParameter : Type 0 where
  pub x : ℤ

abbrev pub e_event : Event
e_event = signal "e"

abbrev pub x_equals_to : ℕ → Guard (Console TriggerParameter)
x_equals_to n d w = equals_to n w.parameter.x

abbrev pub x_greater_than : ℕ → Guard (Console TriggerParameter)
x_greater_than n d w = greater_than n w.parameter.x

abbrev pub show_x : Console TriggerParameter → Console TriggerParameter
show_x w = cout (text "[A] x = " ∷ number w.parameter.x ∷ text "\n" ∷ []) w

-- The chart of `main`.
unfoldable pub make_triggers : Make (Console TriggerParameter) ℕ
make_triggers = do
  initial ← create "start" (pseudo_state start) no_actions (some 0)
  a ← create "A" simple_state (entry (acts show_x)) (some 0)
  b ← create "B" simple_state (entry (acts (say "[B]\n"))) (some 0)
  c ← create "C" simple_state (entry (acts (say "[C]\n"))) (some 0)
  d ← create "D" simple_state (entry (acts (say "[D]\n"))) (some 0)
  create_transition (some initial) (some a) no_transition
  create_transition (some a) (some b) (record (on e_event) { guard = some (x_equals_to 10) })
  create_transition (some a) (some c) (on e_event)
  create_transition (some a) (some d) (record no_transition { guard = some (x_greater_than 10) })

abbrev pub triggers : Chart (Console TriggerParameter)
triggers = built (new_statechart "Triggers") (make_triggers (new_statechart "Triggers"))

-- What a scenario of `main` dispatches behind the start of the chart.
abbrev pub triggers_script :
    List ((Console TriggerParameter → Console TriggerParameter) × Option Event)
triggers_script = ((λ w. w), some e_event) ∷ []

abbrev pub triggers_begin : ℤ → String → Console TriggerParameter
triggers_begin x title = begin (record { x = x }) (text title ∷ [])
