-- ===== src/Semantics/Ending/Built.antt =====
-- The calls of `deactivate` in charts that the factories of include/CppStatecharts/Statechart.hpp
-- have built.
use cpp_statecharts.Base.{ℕ, ◌+◌, ◌-◌, All-contains, arith}
use cpp_statecharts.Runtime.Bounds.{Terminates}
use cpp_statecharts.Chart.{run_action}
use cpp_statecharts.Construction.Building.{Builder}
use cpp_statecharts.Construction.Building.Trees.{WellBuilt}
use cpp_statecharts.Construction.Building.Built.{Built, Built-WellBuilt}
use cpp_statecharts.Behaviour.Virtual.{methods}
use cpp_statecharts.Invariance.Nesting.{WellNested}
use cpp_statecharts.Semantics.Ending.Histories.{IsTree}
use cpp_statecharts.Semantics.Ending.Composites.{deactivate-Terminates}

module _ {W : Type 0} (b : Builder W) where
  -- The states by their distance from the next address, which falls on the way down.
  abbrev pub age : ℕ → ℕ
  age s = b.next_state - s

  pub WellBuilt-IsTree : WellBuilt b → IsTree b.chart age
  WellBuilt-IsTree built = record {
    below = λ s p h. ground (arith, built.older s p h, built.fresh s);
    regions_below = λ s. All-contains _ (b.chart.states s).regions (built.regions s);
    histories_below = built.histories;
  }

  -- In a chart that the factories have built, run with every current substate a child of its state
  -- and with exit actions that end and keep that, as much fuel as the chart has states, and one more,
  -- is enough for every call of `deactivate`: it ends, by a return, by an exception, or by an access
  -- through a dangling pointer, and leaves every current substate a child of its state.
  pub Built-deactivate :
      (s : ℕ)
      → Built b
      → ((c : ℕ) → Terminates (WellNested b.chart) (run_action (b.chart.actions c).exit_action))
      → Terminates (WellNested b.chart) ((methods b.chart (b.next_state + 1)).deactivate s)
  Built-deactivate s built exits =
      deactivate-Terminates b.chart age (WellBuilt-IsTree (Built-WellBuilt built)) exits
        (b.next_state + 1) s (omega arith)
