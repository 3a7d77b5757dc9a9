-- ===== src/Examples/Building.antt =====
-- The factories of include/CppStatecharts/Statechart.hpp on a chart of two states.
use cpp_statecharts.Base.{
  if_ind, ◌==◌, inr, ℕ, ◌≡◌, ◌≢◌, refl, arith, Bool, true, false, String, none, some, List, [], ◌∷◌,
}
use cpp_statecharts.Structure.{simple_state, hierarchical_state, pseudo_state, start, deep_history}
use cpp_statecharts.Construction.Names.{name_lookup, is_taken}
use cpp_statecharts.Construction.Paths.{PathTo, IsDepth}
use cpp_statecharts.Construction.StateSets.{StateSet, calculate_state_set}
use cpp_statecharts.Construction.StateSets.Laws.{Splits, below_chart, calculate_state_set-Splits}
use cpp_statecharts.Construction.Building.{
  Builder, no_actions, new_statechart, register, place, create, add_transition, link_start,
  link_end, attach, create_transition,
}
use cpp_statecharts.Construction.Building.Ordering.{add_all, add_all_order}
use cpp_statecharts.Construction.Building.Trees.{WellBuilt, snd_of}
use cpp_statecharts.Construction.Building.Built.{
  Built, begins, creates, Built-WellBuilt, create-name_lookup,
}
use cpp_statecharts.Runtime.Bounds.{Terminates, Terminates-pure}
use cpp_statecharts.Chart.{StateActions, run_action}
use cpp_statecharts.Behaviour.Virtual.{methods}
use cpp_statecharts.Invariance.Nesting.{WellNested}
use cpp_statecharts.Semantics.Ending.Built.{Built-deactivate}
use cpp_statecharts.Semantics.Emptying.{Quiet, Within, itself, inner}
use cpp_statecharts.Semantics.Emptying.Built.{Leaves, deactivate-Leaves}
use cpp_statecharts.Metadata.{get_data, is_active, modify_data}
use cpp_statecharts.Metadata.Table.{find}
use cpp_statecharts.Metadata.Substates.{substate, Nested}
use cpp_statecharts.Semantics.Remembering.{Trail, store_history-Trail}
use cpp_statecharts.Behaviour.PseudoStates.{store_history}
use cpp_statecharts.Runtime.{Run, done}
use cpp_statecharts.Runtime.Rules.{Keeps-pure}
use cpp_statecharts.Invariance.Steps.{ActionKeeps}
use cpp_statecharts.Examples.Samples.{data_at, sample_run}

-- A name under which the examples open the factories.
unfoldable building : Unit {0}
unfolding name_lookup is_taken new_statechart register place create add_transition link_start
    link_end attach create_transition
building = tt

abbrev chart0 : Builder ℕ
unfolding building
chart0 = new_statechart "chart"

-- The chart with a start state, a composite state, and a state in it.
abbrev chart1 : Builder ℕ
unfolding building
chart1 = snd_of (create "start" (pseudo_state start) no_actions (some 0) chart0) chart0

abbrev chart2 : Builder ℕ
unfolding building
chart2 = snd_of (create "outer" hierarchical_state no_actions (some 0) chart1) chart1

abbrev chart3 : Builder ℕ
unfolding building
chart3 = snd_of (create "inner" simple_state no_actions (some 2) chart2) chart2

chart3-Built : Built chart3
unfolding building
chart3-Built =
    creates {b = chart2} {i = 3} "inner" simple_state no_actions 2
      (creates {b = chart1} {i = 2} "outer" hierarchical_state no_actions 0
        (creates {b = chart0} {i = 1} "start" (pseudo_state start) no_actions 0 (begins "chart")
          (omega arith) refl)
        (omega arith) refl)
      (omega arith) refl

Built-WellBuilt_example : WellBuilt chart3
Built-WellBuilt_example = Built-WellBuilt chart3-Built

-- The exit action of some actions ends and keeps the nesting.
abbrev ExitEnds : StateActions ℕ → Type 0
ExitEnds a = Terminates (WellNested chart3.chart) (run_action a.exit_action)

exits : (c : ℕ) → ExitEnds (chart3.chart.actions c)
unfolding building
exits c =
    let none_ends : ExitEnds no_actions = Terminates-pure (WellNested chart3.chart) tt in
    if_ind ExitEnds (c == 3) (λ _. none_ends)
      (λ _.
        if_ind ExitEnds (c == 2) (λ _. none_ends)
          (λ _. if_ind ExitEnds (c == 1) (λ _. none_ends) (λ _. none_ends)))

Built-deactivate_example :
    Terminates (WellNested chart3.chart) ((methods chart3.chart 5).deactivate 2)
unfolding building
Built-deactivate_example = Built-deactivate chart3 2 chart3-Built exits

create-name_lookup_example :
    (name_lookup "inner" chart2.chart.names ≡ none)
    × (name_lookup "inner" chart3.chart.names ≡ some 3)
    × ((n : String)
        → n ≢ "inner"
        → name_lookup n chart3.chart.names ≡ name_lookup n chart2.chart.names)
unfolding building
create-name_lookup_example =
    create-name_lookup "inner" simple_state no_actions (some 2) chart2 {i = 3} {b' = chart3} refl

chart3-IsDepth : IsDepth chart3.chart.states (below_chart chart3.chart.states) (λ s. s)
unfolding building
chart3-IsDepth = (Built-WellBuilt chart3-Built).older

calculate_state_set-Splits_example :
    (set : StateSet) × (deactivate : List ℕ) × (activate : List ℕ) × (calculate_state_set 4
        chart3.chart.states
        (some 1)
        (some 3)
      ≡ some set)
    × PathTo chart3.chart.states (below_chart chart3.chart.states) 1 deactivate
    × PathTo chart3.chart.states (below_chart chart3.chart.states) 3 activate
    × Splits deactivate activate set
calculate_state_set-Splits_example =
    calculate_state_set-Splits chart3.chart.states (λ s. s) 4 1 3 chart3-IsDepth (omega arith)
      (omega arith) (λ h. omega arith)

abbrev added : List (ℕ × Bool)
added = (0, false) ∷ (1, true) ∷ (2, false) ∷ (3, true) ∷ []

add_all_order_example : add_all added [] ≡ 3 ∷ 1 ∷ 0 ∷ 2 ∷ []
add_all_order_example = add_all_order added

-- Both states of the chart are active, the inner one as the current substate of the outer.
abbrev inside_run : Run ℕ
inside_run = sample_run ((2, data_at 0 (some 3)) ∷ (3, data_at 1 none) ∷ [])

inside_run-WellNested : WellNested chart3.chart inside_run
unfolding building substate get_data find
inside_run-WellNested s c h = ground arith

abbrev ExitQuiet : StateActions ℕ → Type 0
ExitQuiet a = ActionKeeps (Quiet 3) a.exit_action

exits_quiet : (c : ℕ) → ExitQuiet (chart3.chart.actions c)
unfolding building
exits_quiet c =
    let none_keeps : ExitQuiet no_actions = Keeps-pure (Quiet 3) tt in
    if_ind ExitQuiet (c == 3) (λ _. none_keeps)
      (λ _.
        if_ind ExitQuiet (c == 2) (λ _. none_keeps)
          (λ _. if_ind ExitQuiet (c == 1) (λ _. none_keeps) (λ _. none_keeps)))

inner-Within : Within chart3.chart inside_run.meta 2 3
unfolding building is_active substate get_data find
inner-Within = inner refl refl refl itself

deactivate-Leaves_example : Leaves 3 ((methods chart3.chart 5).deactivate 2 inside_run)
unfolding building
deactivate-Leaves_example =
    deactivate-Leaves chart3 2 3 inside_run chart3-Built exits exits_quiet inside_run-WellNested
      (inr inner-Within)

-- The chart with a history in the composite state.
abbrev chart4 : Builder ℕ
unfolding building
chart4 = snd_of (create "memory" (pseudo_state deep_history) no_actions (some 2) chart3) chart3

chart4-Built : Built chart4
unfolding building
chart4-Built =
    creates {b = chart3} {i = 4} "memory" (pseudo_state deep_history) no_actions 2 chart3-Built
      (omega arith) refl

abbrev remembering_run : Run ℕ
remembering_run =
    sample_run ((2, data_at 0 (some 3)) ∷ (3, data_at 1 none) ∷ (4, data_at 2 none) ∷ [])

remembering_run-Nested : Nested chart4.chart.states remembering_run.meta
unfolding building substate get_data find
remembering_run-Nested s c h = ground arith

store_history-Trail_example :
    (l : List ℕ) × (store_history chart4.chart
        (methods chart4.chart 6)
        deep_history
        4
        remembering_run
      ≡ done tt (record remembering_run {
        meta = modify_data 4 (λ d. record d { stateset = l }) remembering_run.meta;
      }))
    × Trail chart4.chart remembering_run.meta deep_history (substate 2 remembering_run.meta) l
unfolding building get_data find
store_history-Trail_example =
    store_history-Trail chart4 deep_history 4 2 (data_at 2 none) remembering_run chart4-Built refl
      refl refl remembering_run-Nested
