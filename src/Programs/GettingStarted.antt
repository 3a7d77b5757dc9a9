-- ===== src/Programs/GettingStarted.antt =====
-- doc/examples/GettingStarted/getting-started.cpp.
use cpp_statecharts.Base.{ℕ, String, Option, some, [], ◌∷◌}
use cpp_statecharts.Structure.{
  simple_state, pseudo_state, start, final_state, hierarchical_state, concurrent_state, junction,
}
use cpp_statecharts.Event.{Event, Uuid, signal, timeout_event}
use cpp_statecharts.Chart.{Chart, Action, Guard}
use cpp_statecharts.Construction.Building.{
  new_statechart, create, create_transition, no_actions, no_transition,
}
use cpp_statecharts.Programs.Making.{
  Console, text, cout, begin, acts, entry, on, Make, ◌>>=◌, ◌>>◌, built, ℤ, pos, predℤ, equals_to,
}

pub record MyParameter : Type 0 where
  pub value : ℤ

abbrev pub an_event : Event
an_event = signal "AnEvent"

abbrev pub another_event : Event
another_event = signal "AnotherEvent"

abbrev pub set_value : ℤ → Option (Action (Console MyParameter))
set_value v = acts (λ w. record w { parameter = record { value = v } })

abbrev pub decrement_value : Option (Action (Console MyParameter))
decrement_value = acts (λ w. record w { parameter = record { value = predℤ w.parameter.value } })

abbrev pub print : String → Option (Action (Console MyParameter))
print message = acts (cout (text message ∷ text "\n" ∷ []))

abbrev pub value_equals : ℕ → Guard (Console MyParameter)
value_equals n d w = equals_to n w.parameter.value

-- The chart of `main`. The identifier is the one that the timeout event draws.
unfoldable pub make_getting_started : Uuid → Make (Console MyParameter) ℕ
make_getting_started after_1s = do
  state_start ← create "start" (pseudo_state start) no_actions (some 0)
  state_final ← create "final" final_state no_actions (some 0)
  state_a ← create "a" hierarchical_state (entry (set_value (pos 10))) (some 0)
  state_b ← create "b" simple_state no_actions (some state_a)
  state_j ← create "j" (pseudo_state junction) no_actions (some state_a)
  state_a_final ← create "a_final" final_state no_actions (some state_a)
  state_c ← create "c" concurrent_state no_actions (some state_a)
  state_c_r1 ← create "c_r1" hierarchical_state no_actions (some state_c)
  state_c_r1_start ← create "c_r1_start" (pseudo_state start) no_actions (some state_c_r1)
  state_d ←
      create "d" simple_state
        (record (entry (print "c_r1 active")) { exit_action = print "c_r1 inactive" })
        (some state_c_r1)
  state_c_r2 ← create "c_r2" hierarchical_state no_actions (some state_c)
  state_c_r2_start ← create "c_r2_start" (pseudo_state start) no_actions (some state_c_r2)
  state_e ← create "e" simple_state (entry (print "start timeout")) (some state_c_r2)
  state_f ← create "f" simple_state (entry decrement_value) (some state_c_r2)
  create_transition (some state_start) (some state_b) no_transition
  create_transition (some state_b) (some state_c) no_transition
  create_transition (some state_c_r1_start) (some state_d) no_transition
  create_transition (some state_c_r2_start) (some state_e) no_transition
  create_transition (some state_e) (some state_f)
      (record (on (timeout_event after_1s 1000)) { action = print "timeout" })
  create_transition (some state_f) (some state_e) (on another_event)
  create_transition (some state_c) (some state_j) (on an_event)
  create_transition (some state_j) (some state_b)
      (record no_transition { guard = some (value_equals 0) })
  create_transition (some state_j) (some state_a_final) no_transition
  create_transition (some state_a) (some state_final) no_transition

abbrev pub getting_started : Uuid → Chart (Console MyParameter)
getting_started after_1s =
    built (new_statechart "example") (make_getting_started after_1s (new_statechart "example"))

abbrev pub getting_started_begin : Console MyParameter
getting_started_begin = begin (record { value = pos 0 }) (text "Starting the statechart...\n" ∷ [])
