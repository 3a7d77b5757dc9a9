-- ===== src/Invariance/Composites.antt =====
-- The methods of src/HierarchicalState.cpp and src/ConcurrentState.cpp keep an invariant, if the
-- calls that they make do.
use cpp_statecharts.Base.{
  ℕ, Bool, true, false, not, ◌&&◌, ◌||◌, Option, none, some, List, [], ◌∷◌, is_some, contains,
}
use cpp_statecharts.Event.{Event}
use cpp_statecharts.Metadata.{is_active}
use cpp_statecharts.Metadata.Substates.{substate}
use cpp_statecharts.Runtime.{Run}
use cpp_statecharts.Runtime.Rules.{
  Keeps, Keeps-bind, Keeps-then, Keeps-pure, Keeps-gets, Keeps-if, Keeps-first_true, Keeps-read_at,
  Keeps-pointer,
}
use cpp_statecharts.Chart.{Chart, Methods, has_event}
use cpp_statecharts.Behaviour.Hierarchical.{
  points_to_final, current_at, activate_current, enter_start, enter_start_if, first_entry,
  dispatch_substate, own_transition, after_substate, hierarchical_dispatch,
}
use cpp_statecharts.Behaviour.Concurrent.{
  enter_region, enter_regions, enter_all, concurrent_activate, dispatch_regions, finished,
  own_transitions, concurrent_dispatch,
}
use cpp_statecharts.Invariance.Steps.{Stable, MethodsKeep}
use cpp_statecharts.Invariance.States.{
  now-Keeps, entering-Keeps, execute-Keeps, state_activate-Keeps,
}

module _ {W : Type 0} {chart : Chart W} (I : Run W → Type 0) (stable : Stable chart I)
    (self : Methods W) (calls : MethodsKeep I self) where
  current_at-Keeps : (s : ℕ) (d : Option ℕ) → Keeps I (current_at chart self s d)
  unfolding current_at
  current_at-Keeps s none = Keeps-pure I none
  current_at-Keeps s (some address) =
      Keeps-bind I (Keeps-read_at I s address) (λ d. Keeps-pure I d.current_state)

  activate_current-Keeps : (c : Option ℕ) → Keeps I (activate_current chart self c)
  unfolding activate_current
  activate_current-Keeps none = Keeps-pure I tt
  activate_current-Keeps (some c) = Keeps-bind I (calls.activating c) (λ _. Keeps-pure I tt)

  enter_start-Keeps : (s start : ℕ) → Keeps I (enter_start chart self s start)
  unfolding enter_start
  enter_start-Keeps s start = Keeps-bind I (now-Keeps I stable) λ time.
      Keeps-then I (entering-Keeps I stable time start) (
        Keeps-bind I (Keeps-pointer I s) λ d.
          Keeps-bind I (current_at-Keeps s d)
            λ c. Keeps-then I (activate_current-Keeps c) (Keeps-pure I d))

  enter_start_if-Keeps :
      (s address : ℕ) (start : Option ℕ) → Keeps I (enter_start_if chart self s address start)
  unfolding enter_start_if
  enter_start_if-Keeps s address none = Keeps-pure I (some address)
  enter_start_if-Keeps s address (some start) = enter_start-Keeps s start

  first_entry-Keeps : (s : ℕ) (d : Option ℕ) → Keeps I (first_entry chart self s d)
  unfolding first_entry
  first_entry-Keeps s none = Keeps-pure I none
  first_entry-Keeps s (some address) = Keeps-bind I (Keeps-read_at I s address) λ d.
      Keeps-if I (is_some d.current_state) (Keeps-pure I (some address))
        (enter_start_if-Keeps s address _)

  pub dispatch_substate-Keeps :
      (c : Option ℕ) (e : Option Event) → Keeps I (dispatch_substate chart self c e)
  unfolding dispatch_substate
  dispatch_substate-Keeps none e = Keeps-pure I false
  dispatch_substate-Keeps (some c) e = calls.dispatching c e

  own_transition-Keeps :
      (at_end : Bool) (e : Option Event) (t : ℕ) → Keeps I (own_transition chart self at_end e t)
  unfolding own_transition
  own_transition-Keeps at_end e t =
      Keeps-if I (not at_end && not (has_event (chart.transition t))) (Keeps-pure I false) (
        Keeps-if I (at_end && not (has_event (chart.transition t)))
          (Keeps-bind I (execute-Keeps I stable self calls none t)
            (λ b. Keeps-if I b (Keeps-pure I true) (execute-Keeps I stable self calls e t)))
          (execute-Keeps I stable self calls e t))

  after_substate-Keeps :
      (s : ℕ) (e : Option Event) (b : Bool) → Keeps I (after_substate chart self s e b)
  unfolding after_substate
  after_substate-Keeps s e b = Keeps-bind I (Keeps-gets I (is_active s)) λ active.
      Keeps-if I (not active) (Keeps-pure I b) (
        Keeps-bind I (Keeps-gets I (substate s)) λ current.
          Keeps-if I (b && not (points_to_final chart.states current)) (Keeps-pure I b) (
            Keeps-first_true I (chart.states s).transitions
              (own_transition-Keeps (points_to_final chart.states current) e)))

  pub hierarchical_dispatch-Keeps :
      (s : ℕ) (e : Option Event) → Keeps I (hierarchical_dispatch chart self s e)
  unfolding hierarchical_dispatch
  hierarchical_dispatch-Keeps s e = Keeps-bind I (Keeps-gets I (is_active s)) λ active.
      Keeps-if I (not active) (Keeps-pure I false) (
        Keeps-bind I (Keeps-pointer I s) λ before. Keeps-bind I (first_entry-Keeps s before) λ d.
          Keeps-bind I (current_at-Keeps s d)
            λ c. Keeps-bind I (dispatch_substate-Keeps c e) (after_substate-Keeps s e))

  enter_region-Keeps : (h : ℕ) → Keeps I (enter_region chart self h)
  unfolding enter_region
  enter_region-Keeps h = Keeps-bind I (calls.activating h) (λ b.
      Keeps-if I b (Keeps-bind I (calls.dispatching h none) (λ _. Keeps-pure I tt))
        (Keeps-pure I tt))

  enter_regions-Keeps :
      (s address : ℕ) (hs : List ℕ) → Keeps I (enter_regions chart self s address hs)
  unfolding enter_regions
  enter_regions-Keeps s address [] = Keeps-pure I tt
  enter_regions-Keeps s address (h ∷ hs) = Keeps-bind I (Keeps-read_at I s address) λ d.
      Keeps-then I (Keeps-if I (contains h d.stateset) (Keeps-pure I tt) (enter_region-Keeps h))
        (enter_regions-Keeps s address hs)

  enter_all-Keeps : (s : ℕ) (d : Option ℕ) → Keeps I (enter_all chart self s d)
  unfolding enter_all
  enter_all-Keeps s none = Keeps-pure I true
  enter_all-Keeps s (some address) =
      Keeps-bind I (enter_regions-Keeps s address _) (λ _. Keeps-pure I true)

  pub concurrent_activate-Keeps : (s : ℕ) → Keeps I (concurrent_activate chart self s)
  unfolding concurrent_activate
  concurrent_activate-Keeps s = Keeps-bind I (state_activate-Keeps I stable s) λ b.
      Keeps-if I (not b) (Keeps-pure I false) (Keeps-bind I (Keeps-pointer I s) (enter_all-Keeps s))

  dispatch_regions-Keeps :
      (s : ℕ) (e : Option Event) (b : Bool) (hs : List ℕ)
      → Keeps I (dispatch_regions chart self s e b hs)
  unfolding dispatch_regions
  dispatch_regions-Keeps s e b [] = Keeps-pure I b
  dispatch_regions-Keeps s e b (h ∷ hs) = Keeps-bind I (Keeps-gets I (is_active s)) λ active.
      Keeps-if I (not active) (Keeps-pure I b) (
        Keeps-bind I (calls.dispatching h e)
          (λ handled. dispatch_regions-Keeps s e (handled || b) hs))

  own_transitions-Keeps :
      (s : ℕ) (e : Option Event) (ts : List ℕ) → Keeps I (own_transitions chart self s e ts)
  unfolding own_transitions
  own_transitions-Keeps s e [] = Keeps-pure I false
  own_transitions-Keeps s e (t ∷ ts) = Keeps-bind I (Keeps-gets I (is_active s)) λ active.
      Keeps-bind I (Keeps-gets I (finished chart self (chart.states s).regions)) λ complete.
        Keeps-if I (not active) (Keeps-pure I false) (
          Keeps-if I (not (has_event (chart.transition t)) && not complete)
            (own_transitions-Keeps s e ts)
            (Keeps-bind I (execute-Keeps I stable self calls e t)
              (λ b. Keeps-if I b (Keeps-pure I true) (own_transitions-Keeps s e ts))))

  pub concurrent_dispatch-Keeps :
      (s : ℕ) (e : Option Event) → Keeps I (concurrent_dispatch chart self s e)
  unfolding concurrent_dispatch
  concurrent_dispatch-Keeps s e =
      Keeps-bind I (dispatch_regions-Keeps s e false _)
        (λ b. Keeps-if I b (Keeps-pure I true) (own_transitions-Keeps s e _))
