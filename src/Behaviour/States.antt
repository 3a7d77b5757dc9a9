-- ===== src/Behaviour/States.antt =====
-- src/State.cpp: the methods that a class of states has unless it overrides them.
use cpp_statecharts.Base.{
  ℕ, ◌+◌, Bool, true, false, Option, none, some, List, [], ◌∷◌, ◌++◌, if◌then◌else◌, is_some,
}
use cpp_statecharts.Event.{Event, timeout_event, signal}
use cpp_statecharts.Metadata.{Metadata, StateRuntimedata, get_data, is_active, modify_data}
use cpp_statecharts.Metadata
use cpp_statecharts.Entries.{is_alive, mark_invalid, enqueue_timeout, cancel_timeout}
use cpp_statecharts.Runtime.{
  M, pure, ◌>>=◌, ◌>>◌, gets, modify, schedule, now, for_each, first_true, fault, done,
}
use cpp_statecharts.Chart.{Chart, Methods, run_action}
use cpp_statecharts.Behaviour.Transitions.{execute}

-- The delay of a trigger that is a TimeoutEvent.
abbrev pub timeout_of : Option Event → Option ℕ
timeout_of none = none
timeout_of (some (signal i)) = none
timeout_of (some (timeout_event u ms)) = some ms

abbrev pub push_timeout : Option ℕ → StateRuntimedata → StateRuntimedata
push_timeout none r = r
push_timeout (some i) r = record r { timeout_events = r.timeout_events ++ (i ∷ []) }

abbrev pub timeouts_of : Option StateRuntimedata → List ℕ
timeouts_of none = []
timeouts_of (some r) = r.timeout_events

module _ {W : Type 0} (chart : Chart W) where
  -- `m_statechart->enqueueTimeout(this, …)`. The clock is read only if an entry is made.
  unfoldable pub enqueue : ℕ → Event → ℕ → M W (Option ℕ)
  enqueue s e ms r =
      let (entry, q) =
        enqueue_timeout (r.clock r.reads) (chart.states s).statechart s r.meta.ident e ms
          r.scheduler in
      done entry (record r {
        scheduler = q;
        reads = if r.scheduler.is_running then r.reads + 1 else r.reads;
      })

  -- The timeout of one transition, enqueued and remembered with the state.
  unfoldable pub arm : ℕ → Option Event → M W (Unit {0})
  arm s none = pure tt
  arm s (some (signal i)) = pure tt
  arm s (some (timeout_event u ms)) = do
    entry ← enqueue s (timeout_event u ms) ms
    modify (modify_data s (push_timeout entry))

  unfoldable pub arm_timeouts : ℕ → M W (Unit {0})
  arm_timeouts s =
      if is_some (chart.states s).statechart
      then for_each (chart.states s).transitions (λ t. arm s (chart.transition t).event)
      else pure tt

  -- What `activate` does for a state that is not active.
  unfoldable pub enter : ℕ → M W Bool
  enter s = do
    time ← now
    modify (Metadata.activate chart.states time s)
    arm_timeouts s
    run_action (chart.actions s).entry_action
    run_action (chart.actions s).do_action
    pure true

  -- State::activate.
  unfoldable pub state_activate : ℕ → M W Bool
  state_activate s = gets (is_active s) >>= λ active. if active then pure false else enter s

  -- `entry->markInvalid()` is a write to the entry, which must still live.
  unfoldable pub invalidate : ℕ → M W (Unit {0})
  invalidate i r =
      if is_alive i r.scheduler
      then done tt (record r { scheduler = mark_invalid i r.scheduler })
      else fault

  unfoldable pub disarm : ℕ → M W (Unit {0})
  disarm i = do invalidate i; schedule (λ q. (tt, cancel_timeout (some i) q))

  unfoldable pub disarm_timeouts : ℕ → M W (Unit {0})
  disarm_timeouts s =
      if is_some (chart.states s).statechart
      then (gets (λ d. timeouts_of (get_data s d)) >>= λ entries. for_each entries disarm)
      else pure tt

  -- What `deactivate` does for an active state.
  unfoldable pub leave : ℕ → M W (Unit {0})
  leave s = do
    disarm_timeouts s
    modify (Metadata.deactivate chart.states s)
    run_action (chart.actions s).exit_action

  -- State::deactivate.
  unfoldable pub state_deactivate : ℕ → M W (Unit {0})
  state_deactivate s = gets (is_active s) >>= λ active. if active then leave s else pure tt

  -- State::dispatch: the first transition that fires handles the event.
  unfoldable pub state_dispatch : Methods W → ℕ → Option Event → M W Bool
  state_dispatch self s e =
      first_true (chart.states s).transitions (λ t. execute chart self e (chart.transition t))
