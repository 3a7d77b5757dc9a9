-- ===== src/Behaviour/Concurrent.antt =====
-- src/ConcurrentState.cpp: the methods that ConcurrentState overrides.
use cpp_statecharts.Base.{
  ℕ, Bool, true, false, ◌&&◌, ◌||◌, not, Option, none, some, List, [], ◌∷◌, if◌then◌else◌, contains,
}
use cpp_statecharts.Event.{Event}
use cpp_statecharts.Metadata.{Metadata, get_data, is_active, modify_data}
use cpp_statecharts.Runtime.{M, pure, ◌>>=◌, ◌>>◌, gets, modify, for_each, pointer, read_at}
use cpp_statecharts.Chart.{Chart, Methods, has_event}
use cpp_statecharts.Behaviour.Transitions.{execute}
use cpp_statecharts.Behaviour.States.{state_activate, state_deactivate}
use cpp_statecharts.Behaviour.Hierarchical.{points_to_final}

module _ {W : Type 0} (chart : Chart W) (self : Methods W) where
  -- A region is activated, and makes its first step.
  unfoldable pub enter_region : ℕ → M W (Unit {0})
  enter_region h = self.activate h >>= λ entered.
      if entered then (self.dispatch h none >>= λ _. pure tt) else pure tt

  -- The loop of `activate` over the regions, through the pointer taken before it.
  unfoldable pub enter_regions : ℕ → ℕ → List ℕ → M W (Unit {0})
  enter_regions s address [] = pure tt
  enter_regions s address (h ∷ hs) = do
    d ← read_at s address
    if contains h d.stateset then pure tt else enter_region h
    enter_regions s address hs

  unfoldable pub enter_all : ℕ → Option ℕ → M W Bool
  enter_all s none = pure true
  enter_all s (some address) = enter_regions s address (chart.states s).regions >>= λ _. pure true

  -- ConcurrentState::activate.
  unfoldable pub concurrent_activate : ℕ → M W Bool
  concurrent_activate s = state_activate chart s >>= λ entered.
      if not entered then pure false else (pointer s >>= enter_all s)

  -- ConcurrentState::deactivate.
  unfoldable pub concurrent_deactivate : ℕ → M W (Unit {0})
  concurrent_deactivate s = do
    modify (modify_data s (λ r. record r { stateset = [] }))
    for_each (chart.states s).regions self.deactivate
    state_deactivate chart s

  -- The loop of `dispatch` over the regions: whether one of them handled the event.
  unfoldable pub dispatch_regions : ℕ → Option Event → Bool → List ℕ → M W Bool
  dispatch_regions s e dispatched [] = pure dispatched
  dispatch_regions s e dispatched (h ∷ hs) = gets (is_active s) >>= λ active.
      if not active
      then pure dispatched
      else (self.dispatch h e >>= λ handled. dispatch_regions s e (handled || dispatched) hs)

  -- ConcurrentState::finished.
  unfoldable pub finished : List ℕ → Metadata → Bool
  finished [] d = true
  finished (h ∷ hs) d = elim (get_data h d) [
    | none ↦ false
    | some r ↦ points_to_final chart.states r.current_state && finished hs d
  ]

  -- The loop of `dispatch` over the state's own transitions, which ends when the state is left.
  unfoldable pub own_transitions : ℕ → Option Event → List ℕ → M W Bool
  own_transitions s e [] = pure false
  own_transitions s e (t ∷ ts) = do
    active ← gets (is_active s)
    complete ← gets (finished (chart.states s).regions)
    if not active
        then pure false
        else if not (has_event (chart.transition t)) && not complete
        then own_transitions s e ts
        else (execute chart self e (chart.transition t) >>= λ fired.
            if fired then pure true else own_transitions s e ts)

  -- ConcurrentState::dispatch.
  unfoldable pub concurrent_dispatch : ℕ → Option Event → M W Bool
  concurrent_dispatch s e = dispatch_regions s e false (chart.states s).regions >>= λ dispatched.
      if dispatched then pure true else own_transitions s e (chart.states s).transitions
