-- ===== src/Examples/Regions.antt =====
-- ConcurrentState::dispatch of src/ConcurrentState.cpp on a state with two regions.
use cpp_statecharts.Base.{at_index, ℕ, ◌≡◌, refl, true, false, none, some, [], ◌∷◌}
use cpp_statecharts.Structure.{
  States, simple_state, hierarchical_state, concurrent_state, statechart_root,
}
use cpp_statecharts.Runtime.{Run, done}
use cpp_statecharts.Chart.{Chart, Methods}
use cpp_statecharts.Construction.Building.{no_actions, no_transition}
use cpp_statecharts.Behaviour.Concurrent.{concurrent_dispatch}
use cpp_statecharts.Behaviour.Virtual.{methods}
use cpp_statecharts.Semantics.Regions.{no_more, offered, concurrent_dispatch-Offered}
use cpp_statecharts.Examples.Samples.{
  sample_state, sample_transition, sample_run, data_at, end_of, go, program,
}

-- A concurrent state, its two regions, and a state in each; only that in the first consumes `go`.
abbrev twin_states : States
twin_states = at_index (sample_state "twin" statechart_root none []) (
    sample_state "twin" statechart_root none []
    ∷ record (sample_state "both" concurrent_state (some 0) []) { regions = 2 ∷ 3 ∷ [] }
    ∷ sample_state "first" hierarchical_state (some 1) []
    ∷ sample_state "second" hierarchical_state (some 1) []
    ∷ sample_state "mover" simple_state (some 2) (0 ∷ [])
    ∷ sample_state "sleeper" simple_state (some 3) []
    ∷ [])

abbrev twin : Chart ℕ
twin = record {
  states = twin_states;
  actions = λ s. no_actions;
  transition = at_index no_transition (sample_transition (some go) (4 ∷ []) (4 ∷ []) ∷ []);
  root = 0;
  names = [];
  infinite_loop_threshold = 5;
}

abbrev both_active : Run ℕ
both_active = sample_run (
    (0, data_at 1 (some 1))
    ∷ (1, data_at 2 none)
    ∷ (2, data_at 3 (some 4))
    ∷ (3, data_at 4 (some 5))
    ∷ (4, data_at 5 none)
    ∷ (5, data_at 6 none)
    ∷ [])

abbrev twin_calls : Methods ℕ
twin_calls = methods twin 4

-- The run that the first region leaves.
abbrev first_moved : Run ℕ
unfolding program
first_moved = end_of both_active (twin_calls.dispatch 2 (some go) both_active)

concurrent_dispatch-Offered_example :
    concurrent_dispatch twin twin_calls 1 (some go) both_active ≡ done true first_moved
unfolding program
concurrent_dispatch-Offered_example =
    concurrent_dispatch-Offered twin twin_calls 1 (some go) {handled = true} {r = both_active}
      {t = first_moved}
      (offered {handled = true} {more = false} refl refl
        (offered {handled = false} {more = false} refl refl no_more))
