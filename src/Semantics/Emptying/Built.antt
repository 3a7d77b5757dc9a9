-- ===== src/Semantics/Emptying/Built.antt =====
-- The calls of `deactivate` in charts that the factories of include/CppStatecharts/Statechart.hpp
-- have built: they end, and leave the substates inactive.
use cpp_statecharts.Base.{ℕ, ◌+◌, ◌⊎◌, inl, inr}
use cpp_statecharts.Runtime.Posts.{Post, Ensures-Post}
use cpp_statecharts.Runtime.{Run, Outcome, done, thrown, fault, out_of_fuel}
use cpp_statecharts.Chart.{run_action}
use cpp_statecharts.Runtime.Bounds.{Ends, Terminates}
use cpp_statecharts.Construction.Building.{Builder}
use cpp_statecharts.Construction.Building.Built.{Built}
use cpp_statecharts.Invariance.Nesting.{WellNested}
use cpp_statecharts.Semantics.Ending.Built.{Built-deactivate}
use cpp_statecharts.Behaviour.Virtual.{methods}
use cpp_statecharts.Invariance.Steps.{ActionKeeps}
use cpp_statecharts.Invariance.Leaving.{deactivate-Keeps}
use cpp_statecharts.Semantics.Emptying.{Quiet, Within, Quiet-StableLeaving}
use cpp_statecharts.Semantics.Emptying.Composites.{deactivate-Quiet}

-- The call ends, and if it returns, the state is inactive.
abbrev pub Leaves : {W A : Type 0} → ℕ → Outcome (Run W) A → Type 0
Leaves x (done a r) = Quiet x r
Leaves x (thrown e r) = Unit
Leaves x fault = Unit
Leaves x out_of_fuel = ⊥

Ends-Leaves :
    {W A : Type 0} (I : Run W → Type 0) (x : ℕ) (o : Outcome (Run W) A)
    → Ends I o
    → Post (Quiet x) o
    → Leaves x o
Ends-Leaves I x (done a r) h p = p
Ends-Leaves I x (thrown e r) h p = tt
Ends-Leaves I x fault h p = tt
Ends-Leaves I x out_of_fuel h p = absurd h

-- In a chart that the factories have built, run with every current substate a child of its state, let
-- the exit actions end, keep that and not activate the state `x`. Then a call of `deactivate` on a
-- state ends, and when it has returned, `x` is inactive, if it was inactive before, is the state
-- itself, or lies in it: the current substates lead down to it from there through active composite
-- states, or to a concurrent state of which it is a region.
pub deactivate-Leaves :
    {W : Type 0} (b : Builder W) (s x : ℕ) (r : Run W)
    → Built b
    → ((c : ℕ) → Terminates (WellNested b.chart) (run_action (b.chart.actions c).exit_action))
    → ((c : ℕ) → ActionKeeps (Quiet x) (b.chart.actions c).exit_action)
    → WellNested b.chart r
    → (Quiet x r) ⊎ (Within b.chart r.meta s x)
    → Leaves x ((methods b.chart (b.next_state + 1)).deactivate s r)
deactivate-Leaves b s x r built ends exits nested h =
    Ends-Leaves (WellNested b.chart) x _ ((Built-deactivate b s built ends).ends r nested) (elim h [
      | inl quiet ↦ Ensures-Post (Quiet x) _ (
          (deactivate-Keeps (Quiet x) (Quiet-StableLeaving b.chart x exits) (b.next_state + 1)
              s).keeps
            r quiet)
      | inr within ↦ deactivate-Quiet b.chart x exits (b.next_state + 1) s r within
    ])
