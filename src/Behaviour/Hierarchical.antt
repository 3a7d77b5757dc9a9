-- ===== src/Behaviour/Hierarchical.antt =====
-- src/HierarchicalState.cpp: the methods that HierarchicalState overrides.
use cpp_statecharts.Base.{
  ℕ, Bool, true, false, ◌&&◌, not, Option, none, some, if◌then◌else◌, is_some, ptr_eq,
}
use cpp_statecharts.Structure.{State, Kind, PseudoStateType, history, pseudo_state, is_final}
use cpp_statecharts.Event.{Event}
use cpp_statecharts.Metadata.{Metadata, StateRuntimedata, get_data, is_active, modify_data}
use cpp_statecharts.Metadata
use cpp_statecharts.Metadata.Substates.{substate}
use cpp_statecharts.Runtime.{
  M, pure, ◌>>=◌, ◌>>◌, gets, modify, now, first_true, pointer, read_at, write_at,
}
use cpp_statecharts.Chart.{Chart, Methods, has_event}
use cpp_statecharts.Behaviour.Transitions.{execute}
use cpp_statecharts.Behaviour.States.{state_deactivate}
use cpp_statecharts.Behaviour.PseudoStates.{store_history}

-- dynamic_cast<FinalState*> of a pointer that may be null.
abbrev pub points_to_final : (ℕ → State) → Option ℕ → Bool
points_to_final states none = false
points_to_final states (some s) = is_final (states s).kind

-- The type of a history pseudo-state. (Only such states are registered as a history.)
abbrev pub history_type : Kind → PseudoStateType
history_type (pseudo_state t) = t
history_type _ = history

module _ {W : Type 0} (chart : Chart W) (self : Methods W) where
  -- Whether the substate to be left is one that a history records.
  abbrev pub is_recorded : ℕ → Option ℕ → Bool
  is_recorded s current =
      not (ptr_eq current (chart.states s).start_state)
      && not (ptr_eq current (chart.states s).history_state)
      && not (points_to_final chart.states current)

  unfoldable pub save_history : Option ℕ → ℕ → Option ℕ → M W (Unit {0})
  save_history none s current = pure tt
  save_history (some h) s current =
      if is_recorded s current
      then store_history chart self (history_type (chart.states h).kind) h
      else pure tt

  unfoldable pub leave_substate : Option ℕ → M W (Unit {0})
  leave_substate none = pure tt
  leave_substate (some c) = self.deactivate c

  unfoldable pub leave_from : ℕ → Option ℕ → M W (Unit {0})
  leave_from s none = state_deactivate chart s
  leave_from s (some address) = do
    d ← read_at s address
    save_history (chart.states s).history_state s d.current_state
    d ← read_at s address
    leave_substate d.current_state
    write_at s address (λ r. record r { current_state = none })
    state_deactivate chart s

  -- HierarchicalState::deactivate.
  unfoldable pub hierarchical_deactivate : ℕ → M W (Unit {0})
  hierarchical_deactivate s =
      gets (is_active s) >>= λ active. if active then (pointer s >>= leave_from s) else pure tt

  -- The current substate behind a pointer that may be null.
  unfoldable pub current_at : ℕ → Option ℕ → M W (Option ℕ)
  current_at s none = pure none
  current_at s (some address) = do d ← read_at s address; pure d.current_state

  unfoldable pub activate_current : Option ℕ → M W (Unit {0})
  activate_current none = pure tt
  activate_current (some c) = self.activate c >>= λ _. pure tt

  unfoldable pub enter_start : ℕ → ℕ → M W (Option ℕ)
  enter_start s start = do
    time ← now
    modify (Metadata.activate chart.states time start)
    d ← pointer s
    current ← current_at s d
    activate_current current
    pure d

  unfoldable pub enter_start_if : ℕ → ℕ → Option ℕ → M W (Option ℕ)
  enter_start_if s address none = pure (some address)
  enter_start_if s address (some start) = enter_start s start

  -- The start state is entered if no substate is current. The result is the pointer to the state's
  -- runtime data that the caller goes on with.
  unfoldable pub first_entry : ℕ → Option ℕ → M W (Option ℕ)
  first_entry s none = pure none
  first_entry s (some address) = do
    d ← read_at s address
    if is_some d.current_state
        then pure (some address)
        else enter_start_if s address (chart.states s).start_state

  unfoldable pub dispatch_substate : Option ℕ → Option Event → M W Bool
  dispatch_substate none e = pure false
  dispatch_substate (some c) e = self.dispatch c e

  -- One of the state's own transitions, where the current substate is final or not.
  unfoldable pub own_transition : Bool → Option Event → ℕ → M W Bool
  own_transition at_end e t =
      let tr = chart.transition t in
      if not at_end && not (has_event tr)
      then pure false
      else if at_end && not (has_event tr)
      then (execute chart self none tr >>= λ fired.
          if fired then pure true else execute chart self e tr)
      else execute chart self e tr

  unfoldable pub after_substate : ℕ → Option Event → Bool → M W Bool
  after_substate s e handled = gets (is_active s) >>= λ active.
      if not active
      then pure handled
      else (gets (substate s) >>= λ current.
          let at_end = points_to_final chart.states current in
          if handled && not at_end
          then pure handled
          else first_true (chart.states s).transitions (own_transition at_end e))

  -- HierarchicalState::dispatch.
  unfoldable pub hierarchical_dispatch : ℕ → Option Event → M W Bool
  hierarchical_dispatch s e = gets (is_active s) >>= λ active.
      if not active then pure false else (do
        before ← pointer s
        d ← first_entry s before
        current ← current_at s d
        handled ← dispatch_substate current e
        after_substate s e handled)
