-- ===== src/Behaviour/Virtual.antt =====
-- The virtual table of include/CppStatecharts/State.hpp and its subclasses, Statechart::dispatch of
-- src/Statechart.cpp, and their unrolling to a given depth of calls.
use cpp_statecharts.Base.{ℕ, zero, suc, ◌-◌, Bool, false, Option, none, some, if◌then◌else◌}
use cpp_statecharts.Structure.{
  Kind, simple_state, final_state, hierarchical_state, concurrent_state, statechart_root,
  pseudo_state,
}
use cpp_statecharts.Event.{Event}
use cpp_statecharts.Metadata.{StateRuntimedata, get_data}
use cpp_statecharts.Runtime.{M, pure, ◌>>=◌, gets, throw, infinite_loop, out_of_fuel}
use cpp_statecharts.Chart.{Chart, Methods}
use cpp_statecharts.Metadata.Substates.{substate}
use cpp_statecharts.Behaviour.States.{state_activate, state_deactivate, state_dispatch}
use cpp_statecharts.Behaviour.PseudoStates.{
  pseudo_lookup, calculate_history_chain, pseudo_activate, pseudo_dispatch,
}
use cpp_statecharts.Behaviour.Hierarchical.{
  hierarchical_deactivate, hierarchical_dispatch, dispatch_substate,
}
use cpp_statecharts.Behaviour.Concurrent.{
  concurrent_activate, concurrent_deactivate, concurrent_dispatch,
}

module _ {W : Type 0} (chart : Chart W) (self : Methods W) where
  -- One trigger-less step of the chart: false if there is no current state, or it does not move.
  unfoldable pub completion_step : M W Bool
  completion_step =
      gets (substate chart.root) >>= λ current. dispatch_substate chart self current none

  -- The loop of trigger-less steps, where `left` steps are allowed behind the next one.
  unfoldable pub completion_loop : ℕ → M W (Unit {0})
  completion_loop zero = completion_step >>= λ fired. if fired then throw infinite_loop else pure tt
  completion_loop (suc left) =
      completion_step >>= λ fired. if fired then completion_loop left else pure tt

  unfoldable pub dispatch_current : Option Event → Option StateRuntimedata → M W Bool
  dispatch_current e none = pure false
  dispatch_current e (some d) = dispatch_substate chart self d.current_state e >>= λ handled.
      completion_loop (chart.infinite_loop_threshold - 1) >>= λ _. pure handled

  -- Statechart::dispatch. (The threshold is at least 1.)
  unfoldable pub statechart_dispatch : Option Event → M W Bool
  statechart_dispatch e = gets (get_data chart.root) >>= dispatch_current e

  unfoldable pub activate_of : Kind → ℕ → M W Bool
  activate_of (pseudo_state t) s = pseudo_activate chart self t s
  activate_of concurrent_state s = concurrent_activate chart self s
  activate_of _ s = state_activate chart s

  unfoldable pub deactivate_of : Kind → ℕ → M W (Unit {0})
  deactivate_of hierarchical_state s = hierarchical_deactivate chart self s
  deactivate_of concurrent_state s = concurrent_deactivate chart self s
  deactivate_of _ s = state_deactivate chart s

  unfoldable pub dispatch_of : Kind → ℕ → Option Event → M W Bool
  dispatch_of hierarchical_state s e = hierarchical_dispatch chart self s e
  dispatch_of concurrent_state s e = concurrent_dispatch chart self s e
  dispatch_of (pseudo_state t) s e = pseudo_dispatch chart self t s e
  dispatch_of statechart_root s e = statechart_dispatch e
  dispatch_of simple_state s e = state_dispatch chart self s e
  dispatch_of final_state s e = state_dispatch chart self s e

  -- The methods, where the calls that they make go to `self`.
  unfoldable pub override : Methods W
  override = record {
    lookup = pseudo_lookup chart self;
    history_chain = calculate_history_chain chart self;
    activate = λ s. activate_of (chart.states s).kind s;
    deactivate = λ s. deactivate_of (chart.states s).kind s;
    dispatch = λ s. dispatch_of (chart.states s).kind s;
  }

abbrev pub no_methods : {W : Type 0} → Methods W
no_methods = record {
  lookup = λ s d w. none;
  history_chain = λ t s d. none;
  activate = λ s r. out_of_fuel;
  deactivate = λ s r. out_of_fuel;
  dispatch = λ s e r. out_of_fuel;
}

-- The methods with calls to the given depth.
unfoldable pub methods : {W : Type 0} → Chart W → ℕ → Methods W
methods chart zero = no_methods
methods chart (suc fuel) = override chart (methods chart fuel)
