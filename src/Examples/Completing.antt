-- ===== src/Examples/Completing.antt =====
-- Statechart::dispatch of src/Statechart.cpp on a chart that makes one step without an event.
use cpp_statecharts.Base.{ℕ, ◌≡◌, refl, true, some, arith}
use cpp_statecharts.Runtime.{Run, done, thrown, infinite_loop}
use cpp_statecharts.Chart.{Methods}
use cpp_statecharts.Behaviour.Hierarchical.{dispatch_substate}
use cpp_statecharts.Behaviour.Virtual.{methods, completion_step, statechart_dispatch}
use cpp_statecharts.Semantics.Completion.{
  Fires, rest, fires, Rested, statechart_dispatch_rests, statechart_dispatch_throws,
  statechart_dispatch-Rested,
}
use cpp_statecharts.Examples.Samples.{ping, go, data_at, left_active, end_of, program}

abbrev self : ℕ → Methods ℕ
self threshold = methods (ping threshold) 3

-- The run in which the chart has moved to the right, and the one in which it is back.
abbrev moved : Run ℕ
unfolding program
moved = end_of left_active (dispatch_substate (ping 2) (self 2) (some 1) (some go) left_active)

abbrev back : Run ℕ
unfolding program
back = end_of moved (completion_step (ping 2) (self 2) moved)

moved_handles :
    (threshold : ℕ)
    → dispatch_substate (ping threshold) (self threshold) (some 1) (some go) left_active
      ≡ done true moved
unfolding program
moved_handles threshold = refl

moved-Fires : (threshold : ℕ) → Fires (ping threshold) (self threshold) 1 moved back
unfolding program
moved-Fires threshold = fires refl rest

statechart_dispatch_rests_example :
    statechart_dispatch (ping 2) (self 2) (some go) left_active ≡ done true back
unfolding program
statechart_dispatch_rests_example =
    statechart_dispatch_rests (ping 2) (self 2) (some go) left_active (data_at 1 (some 1)) refl 1
      (moved_handles 2) (omega arith) (moved-Fires 2) refl

statechart_dispatch_throws_example :
    statechart_dispatch (ping 1) (self 1) (some go) left_active ≡ thrown infinite_loop back
unfolding program
statechart_dispatch_throws_example =
    statechart_dispatch_throws (ping 1) (self 1) (some go) left_active (data_at 1 (some 1)) refl
      (moved_handles 1) (moved-Fires 1)

statechart_dispatch-Rested_example :
    (s : Run ℕ) × (dispatch_substate (ping 2) (self 2) (some 1) (some go) left_active ≡ done true s)
    × Rested (ping 2) (self 2) 1 s back
unfolding program
statechart_dispatch-Rested_example =
    statechart_dispatch-Rested (ping 2) (self 2) (some go) left_active (data_at 1 (some 1)) refl
      true back refl
