-- ===== src/Invariance/Charts.antt =====
-- Every method at every depth of calls, and the interface of src/Statechart.cpp, keep an invariant.
use cpp_statecharts.Base.{
  ℕ, zero, suc, true, false, not, ◌&&◌, ◌||◌, Option, none, some, is_some, [], if_ind,
}
use cpp_statecharts.Structure.{
  Kind, simple_state, final_state, hierarchical_state, concurrent_state, statechart_root,
  pseudo_state,
}
use cpp_statecharts.Event.{Event}
use cpp_statecharts.Metadata.{StateRuntimedata, is_active, reset, get_data}
use cpp_statecharts.Metadata.Substates.{substate}
use cpp_statecharts.Entries.{Entry, is_invalid}
use cpp_statecharts.Runtime.{Run, infinite_loop}
use cpp_statecharts.Runtime.Rules.{
  Ensures, Keeps, Keeps-bind, Keeps-then, Keeps-pure, Keeps-throw, Keeps-gets, Keeps-bounded,
  Keeps-if, Keeps-for_each, Keeps-modify,
}
use cpp_statecharts.Construction.Paths.{path_from}
use cpp_statecharts.Chart.{Chart, Methods}
use cpp_statecharts.Behaviour.Virtual.{
  completion_step, completion_loop, dispatch_current, statechart_dispatch, activate_of, dispatch_of,
  override, methods,
}
use cpp_statecharts.Statechart.{
  dispatch, activate_start, start, restore_state, run_bound, run_entry,
}
use cpp_statecharts.Invariance.Steps.{Stable, MethodsKeep, Stable-StableLeaving}
use cpp_statecharts.Invariance.Leaving.{deactivate_of-Keeps}
use cpp_statecharts.Invariance.States.{
  now-Keeps, entering-Keeps, state_activate-Keeps, state_dispatch-Keeps,
}
use cpp_statecharts.Invariance.PseudoStates.{pseudo_activate-Keeps, pseudo_dispatch-Keeps}
use cpp_statecharts.Invariance.Composites.{
  dispatch_substate-Keeps, hierarchical_dispatch-Keeps, concurrent_activate-Keeps,
  concurrent_dispatch-Keeps,
}

module _ {W : Type 0} {chart : Chart W} (I : Run W → Type 0) (stable : Stable chart I) where
  module _ (self : Methods W) (calls : MethodsKeep I self) where
    completion_step-Keeps : Keeps I (completion_step chart self)
    unfolding completion_step
    completion_step-Keeps =
        Keeps-bind I (Keeps-gets I (substate chart.root))
          (λ c. dispatch_substate-Keeps I stable self calls c none)

    completion_loop-Keeps : (left : ℕ) → Keeps I (completion_loop chart self left)
    unfolding completion_loop
    completion_loop-Keeps zero =
        Keeps-bind I completion_step-Keeps
          (λ b. Keeps-if I b (Keeps-throw I infinite_loop) (Keeps-pure I tt))
    completion_loop-Keeps (suc left) =
        Keeps-bind I completion_step-Keeps
          (λ b. Keeps-if I b (completion_loop-Keeps left) (Keeps-pure I tt))

    dispatch_current-Keeps :
        (e : Option Event) (d : Option StateRuntimedata) → Keeps I (dispatch_current chart self e d)
    unfolding dispatch_current
    dispatch_current-Keeps e none = Keeps-pure I false
    dispatch_current-Keeps e (some d) =
        Keeps-bind I (dispatch_substate-Keeps I stable self calls d.current_state e)
          λ handled. Keeps-bind I (completion_loop-Keeps _) (λ _. Keeps-pure I handled)

    pub statechart_dispatch-Keeps : (e : Option Event) → Keeps I (statechart_dispatch chart self e)
    unfolding statechart_dispatch
    statechart_dispatch-Keeps e =
        Keeps-bind I (Keeps-gets I (get_data chart.root)) (dispatch_current-Keeps e)

    activate_of-Keeps : (k : Kind) (s : ℕ) → Keeps I (activate_of chart self k s)
    unfolding activate_of
    activate_of-Keeps (pseudo_state t) s = pseudo_activate-Keeps I stable self calls t s
    activate_of-Keeps concurrent_state s = concurrent_activate-Keeps I stable self calls s
    activate_of-Keeps _ s = state_activate-Keeps I stable s

    dispatch_of-Keeps :
        (k : Kind) (s : ℕ) (e : Option Event) → Keeps I (dispatch_of chart self k s e)
    unfolding dispatch_of
    dispatch_of-Keeps hierarchical_state s e = hierarchical_dispatch-Keeps I stable self calls s e
    dispatch_of-Keeps concurrent_state s e = concurrent_dispatch-Keeps I stable self calls s e
    dispatch_of-Keeps (pseudo_state t) s e = pseudo_dispatch-Keeps I stable self calls t s e
    dispatch_of-Keeps statechart_root s e = statechart_dispatch-Keeps e
    dispatch_of-Keeps simple_state s e = state_dispatch-Keeps I stable self calls s e
    dispatch_of-Keeps final_state s e = state_dispatch-Keeps I stable self calls s e

    override-MethodsKeep : MethodsKeep I (override chart self)
    unfolding override
    override-MethodsKeep = record {
      activating = λ s. activate_of-Keeps (chart.states s).kind s;
      deactivating = λ s.
          deactivate_of-Keeps I (Stable-StableLeaving stable) self calls.deactivating
            (chart.states s).kind s;
      dispatching = λ s. dispatch_of-Keeps (chart.states s).kind s;
    }

  -- An invariant that survives each single write of the framework and each callback of the chart
  -- holds in whatever run a virtual method returns or throws, at any depth of calls.
  pub methods-MethodsKeep : (fuel : ℕ) → MethodsKeep I (methods chart fuel)
  unfolding methods
  methods-MethodsKeep zero = record {
    activating = λ s. record { keeps = λ r h. tt };
    deactivating = λ s. record { keeps = λ r h. tt };
    dispatching = λ s e. record { keeps = λ r h. tt };
  }
  methods-MethodsKeep (suc fuel) =
      override-MethodsKeep (methods chart fuel) (methods-MethodsKeep fuel)

  pub dispatch-Keeps : (fuel : ℕ) (e : Option Event) → Keeps I (dispatch chart fuel e)
  unfolding dispatch
  dispatch-Keeps fuel e =
      statechart_dispatch-Keeps (methods chart fuel) (methods-MethodsKeep fuel) e

  activate_start-Keeps : (s : Option ℕ) → Keeps I (activate_start chart s)
  unfolding activate_start
  activate_start-Keeps none = Keeps-pure I tt
  activate_start-Keeps (some s) =
      Keeps-bind I (now-Keeps I stable) (λ time. entering-Keeps I stable time s)

  pub start-Keeps : (fuel : ℕ) → Keeps I (start chart fuel)
  unfolding start
  start-Keeps fuel = Keeps-then I (Keeps-modify I reset stable.resetting) (
      Keeps-bind I (now-Keeps I stable) λ time.
        Keeps-then I (entering-Keeps I stable time chart.root) (
          Keeps-then I (activate_start-Keeps (chart.states chart.root).start_state)
            (dispatch-Keeps fuel none)))

  pub restore_state-Keeps : (fuel s : ℕ) → Keeps I (restore_state chart fuel s)
  unfolding restore_state
  restore_state-Keeps fuel s = Keeps-bind I (Keeps-gets I (is_active chart.root)) λ active.
      Keeps-if I active (Keeps-pure I false) (
        Keeps-then I (Keeps-modify I reset stable.resetting) (
          Keeps-bind I (Keeps-bounded I (λ r. path_from fuel chart.states (λ _. false) s []))
            λ path.
              Keeps-then I
                (Keeps-for_each I path (λ a.
                  Keeps-bind I ((methods-MethodsKeep fuel).activating a) (λ _. Keeps-pure I tt)))
                (Keeps-pure I true)))

  run_bound-Keeps :
      (fuel : ℕ) (e : Option Event) (s : Option ℕ) → Keeps I (run_bound chart fuel e s)
  unfolding run_bound
  run_bound-Keeps fuel e none = Keeps-pure I tt
  run_bound-Keeps fuel e (some s) = Keeps-bind I (Keeps-gets I (is_active s)) λ active.
      Keeps-if I active (Keeps-bind I (dispatch-Keeps fuel e) (λ _. Keeps-pure I tt))
        (Keeps-pure I tt)

  run_entry_ends :
      (fuel : ℕ) (entry : Entry) (r : Run W) → I r → Ensures I (run_entry chart fuel entry r)
  unfolding run_entry
  run_entry_ends fuel entry r h =
      if_ind (Ensures I)
        (is_invalid entry.id r.scheduler || not (is_some entry.statechart && is_some entry.data_of))
        (λ _. h) (λ _. (run_bound-Keeps fuel entry.event entry.state).keeps r h)

  pub run_entry-Keeps : (fuel : ℕ) (entry : Entry) → Keeps I (run_entry chart fuel entry)
  run_entry-Keeps fuel entry = record { keeps = run_entry_ends fuel entry }
