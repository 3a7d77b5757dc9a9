-- ===== src/Examples/Choosing.antt =====
-- State::dispatch of src/State.cpp, HierarchicalState::dispatch of src/HierarchicalState.cpp and
-- Transition::execute of src/Transition.cpp on small charts.
use cpp_statecharts.Base.{ℕ, ◌≡◌, refl, inl, some, [], ◌∷◌}
use cpp_statecharts.Event.{Event}
use cpp_statecharts.Runtime.{Run}
use cpp_statecharts.Chart.{Methods}
use cpp_statecharts.Behaviour.States.{state_dispatch}
use cpp_statecharts.Behaviour.Virtual.{methods}
use cpp_statecharts.Semantics.Choice.{firing, state_dispatch_first}
use cpp_statecharts.Examples.Samples.{ping, nest, go, left_active, inner_active, end_of, program}

abbrev left_calls : Methods ℕ
left_calls = methods (ping 2) 2

abbrev nest_calls : Methods ℕ
nest_calls = methods nest 4

state_dispatch_first_example :
    state_dispatch (ping 2) left_calls 1 (some go) left_active
    ≡ firing (ping 2) left_calls (some go) left_active 1 left_active
unfolding program
state_dispatch_first_example =
    state_dispatch_first (ping 2) left_calls (some go) left_active 1 1 (0 ∷ []) [] refl
      (inl refl, tt) (refl, refl)

-- The run that the inner state leaves when it is handed the event.
abbrev inner_after : Event → Run ℕ
unfolding program
inner_after e = end_of inner_active (nest_calls.dispatch 2 (some e) inner_active)
