-- ===== src/Programs/SimpleOrthogonal.antt =====
-- doc/examples/SimpleOrthogonal/simple_orthogonal.cpp.
use cpp_statecharts.Base.{ℕ, some, [], ◌∷◌}
use cpp_statecharts.Structure.{
  simple_state, pseudo_state, start, final_state, hierarchical_state, concurrent_state,
}
use cpp_statecharts.Chart.{Chart}
use cpp_statecharts.Construction.Building.{
  new_statechart, create, create_transition, no_actions, no_transition,
}
use cpp_statecharts.Programs.Making.{
  Console, text, say, begin, acts, entry, Make, ◌>>=◌, ◌>>◌, built,
}

-- The program's Parameter has no members.
abbrev pub Nothing : Type 0
Nothing = Unit {0}

-- The chart of `main`.
unfoldable pub make_simple_orthogonal : Make (Console Nothing) ℕ
make_simple_orthogonal = do
  initial ← create "start" (pseudo_state start) no_actions (some 0)
  enable_system ←
      create "EnableSystem" concurrent_state
        (record (entry (acts (say "[EnableSystem] entered\n"))) {
          exit_action = acts (say "[EnableSystem] exited\n");
        })
        (some 0)
  region1 ← create "Region1" hierarchical_state no_actions (some enable_system)
  r1_start ← create "r1Start" (pseudo_state start) no_actions (some region1)
  state1 ← create "State1" simple_state (entry (acts (say "  [Region1] State1\n"))) (some region1)
  r1_final ← create "r1Final" final_state no_actions (some region1)
  region2 ← create "Region2" hierarchical_state no_actions (some enable_system)
  r2_start ← create "r2Start" (pseudo_state start) no_actions (some region2)
  state2 ← create "State2" simple_state (entry (acts (say "  [Region2] State2\n"))) (some region2)
  r2_final ← create "r2Final" final_state no_actions (some region2)
  disable_system ←
      create "DisableSystem" simple_state (entry (acts (say "[DisableSystem] entered\n"))) (some 0)
  create_transition (some initial) (some enable_system) no_transition
  create_transition (some r1_start) (some state1) no_transition
  create_transition (some state1) (some r1_final) no_transition
  create_transition (some r2_start) (some state2) no_transition
  create_transition (some state2) (some r2_final) no_transition
  create_transition (some enable_system) (some disable_system) no_transition

abbrev pub simple_orthogonal : Chart (Console Nothing)
simple_orthogonal =
    built (new_statechart "SimpleOrthogonal")
      (make_simple_orthogonal (new_statechart "SimpleOrthogonal"))

abbrev pub simple_orthogonal_begin : Console Nothing
simple_orthogonal_begin = begin tt (text "=== Simple orthogonal (concurrent) state ===\n" ∷ [])
