-- ===== src/Programs/InfiniteLoop.antt =====
-- doc/examples/InfiniteLoop/infinite_loop.cpp.
pub mod Laws
use cpp_statecharts.Base.{ℕ, some, [], ◌∷◌}
use cpp_statecharts.Structure.{simple_state, pseudo_state, start}
use cpp_statecharts.Chart.{Chart}
use cpp_statecharts.Construction.Building.{
  new_statechart, create, create_transition, no_actions, no_transition, set_infinite_loop_threshold,
}
use cpp_statecharts.Programs.Making.{
  Console, text, number, say, begin, acts, entry, Make, ◌>>=◌, ◌>>◌, built, pos,
}

-- The program's Parameter has no members.
abbrev pub Nothing : Type 0
Nothing = Unit {0}

-- The chart of `main`.
unfoldable pub make_infinite_loop : Make (Console Nothing) ℕ
make_infinite_loop = do
  initial ← create "start" (pseudo_state start) no_actions (some 0)
  state1 ← create "State1" simple_state (entry (acts (say "[State1]\n"))) (some 0)
  state2 ← create "State2" simple_state (entry (acts (say "[State2]\n"))) (some 0)
  state3 ← create "State3" simple_state (entry (acts (say "[State3]\n"))) (some 0)
  create_transition (some initial) (some state1) no_transition
  create_transition (some state1) (some state2) no_transition
  create_transition (some state2) (some state3) no_transition
  create_transition (some state3) (some state1) no_transition

abbrev pub infinite_loop_chart : Chart (Console Nothing)
infinite_loop_chart =
    set_infinite_loop_threshold 10
      (built (new_statechart "InfiniteLoop") (make_infinite_loop (new_statechart "InfiniteLoop")))

-- What `main` prints before the start of the chart.
abbrev pub infinite_loop_begin : Console Nothing
infinite_loop_begin = begin tt (
    text "=== Infinite-loop detection demo ===\n"
    ∷ text "Threshold = "
    ∷ number (pos 10)
    ∷ text " trigger-less transitions per dispatch.\n\n"
    ∷ [])
