-- ===== src/Invariance/Nesting.antt =====
-- The configuration of a chart: a current substate is always a child of the state that holds it.
use cpp_statecharts.Base.{ℕ, ◌≡◌, Option, none, some, arith}
use cpp_statecharts.Event.{Event}
use cpp_statecharts.Metadata.{StateRuntimedata, Metadata, get_data, reset}
use cpp_statecharts.Metadata.Table.{find}
use cpp_statecharts.Metadata.Substates.{
  substate, Nested, activate-Nested, deactivate-Nested, create_runtimedata-Nested,
  modify_data-Nested,
}
use cpp_statecharts.Runtime.{Run}
use cpp_statecharts.Runtime.Rules.{Ensures}
use cpp_statecharts.Chart.{Chart}
use cpp_statecharts.Behaviour.Transitions.{add_region}
use cpp_statecharts.Behaviour.States.{enqueue, push_timeout}
use cpp_statecharts.Statechart.{dispatch, start}
use cpp_statecharts.Invariance.Steps.{Stable, ActionKeeps}
use cpp_statecharts.Invariance.Charts.{dispatch-Keeps, start-Keeps}

module _ {W : Type 0} (chart : Chart W) where
  -- The invariant, of a run.
  abbrev pub WellNested : Run W → Type 0
  WellNested r = Nested chart.states r.meta

  -- The callbacks of the client leave every current substate a child of its state.
  pub record ActionsKeep (I : Run W → Type 0) : Type 0 where
    pub entry_actions : (s : ℕ) → ActionKeeps I (chart.actions s).entry_action
    pub do_actions : (s : ℕ) → ActionKeeps I (chart.actions s).do_action
    pub exit_actions : (s : ℕ) → ActionKeeps I (chart.actions s).exit_action
    pub transition_actions : (t : ℕ) → ActionKeeps I (chart.transition t).action

  add_region_current :
      (x : ℕ) (r : StateRuntimedata) (c : ℕ)
      → (add_region x r).current_state ≡ some c
      → r.current_state ≡ some c
  add_region_current x r c h = ground arith

  push_timeout_current :
      (i : Option ℕ) (r : StateRuntimedata) (c : ℕ)
      → (push_timeout i r).current_state ≡ some c
      → r.current_state ≡ some c
  push_timeout_current none r c h = h
  push_timeout_current (some i) r c h = h

  reset-Nested : (d : Metadata) → Nested chart.states (reset d)
  unfolding substate reset get_data find
  reset-Nested d s c h = cc

  WellNested-Stable : ActionsKeep WellNested → Stable chart WellNested
  unfolding enqueue
  WellNested-Stable a = record {
    ticking = λ r h. h;
    entering = λ time s r h. activate-Nested chart.states time s r.meta h;
    resetting = λ r h. reset-Nested r.meta;
    leaving = λ s r h. deactivate-Nested chart.states s r.meta h;
    creating = λ s r h. create_runtimedata-Nested chart.states s r.meta h;
    targeting = λ s x r h. modify_data-Nested chart.states s _ r.meta (add_region_current x) h;
    recording = λ s l r h. modify_data-Nested chart.states s _ r.meta (λ d c e. e) h;
    emptying = λ s r h. modify_data-Nested chart.states s _ r.meta (λ d c e. cc) h;
    arming = λ s ms e. record { keeps = λ r h. h };
    remembering = λ s i r h. modify_data-Nested chart.states s _ r.meta (push_timeout_current i) h;
    invalidating = λ i r h. h;
    cancelling = λ i r h. h;
    on_entry = a.entry_actions;
    on_do = a.do_actions;
    on_exit = a.exit_actions;
    on_transition = a.transition_actions;
  }

  module _ (actions : ActionsKeep WellNested) where
    -- If the callbacks keep every current substate a child of the state that holds it, then so does
    -- a dispatch, at any depth of calls, whether it returns or throws.
    pub dispatch-WellNested :
        (fuel : ℕ) (e : Option Event) (r : Run W)
        → WellNested r
        → Ensures WellNested (dispatch chart fuel e r)
    dispatch-WellNested fuel e =
        (dispatch-Keeps WellNested (WellNested-Stable actions) fuel e).keeps

    -- If the callbacks keep every current substate a child of the state that holds it, then each of
    -- them is one after a start, whatever the metadata held before it, and whether the start returns
    -- or throws.
    pub start-WellNested : (fuel : ℕ) (r : Run W) → Ensures WellNested (start chart fuel r)
    unfolding start reset
    start-WellNested fuel r =
        (start-Keeps WellNested (WellNested-Stable actions) fuel).keeps
          (record r { meta = reset r.meta }) (reset-Nested r.meta)
