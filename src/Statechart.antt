-- ===== src/Statechart.antt =====
-- The synchronous interface, and startAsynchron, of include/CppStatecharts/Statechart.hpp and
-- src/Statechart.cpp, and EventQueueEntry::run of src/EventQueueEntry.cpp.
use cpp_statecharts.Base.{
  ℕ, ◌+◌, Bool, true, false, not, ◌||◌, ◌&&◌, String, Option, none, some, [], if◌then◌else◌,
  is_some,
}
use cpp_statecharts.Event.{Event}
use cpp_statecharts.Metadata.{Metadata, is_active, reset}
use cpp_statecharts.Metadata
use cpp_statecharts.Entries.{Entry, is_invalid}
use cpp_statecharts.Runtime.{
  M, done, pure, ◌>>=◌, ◌>>◌, gets, modify, now, throw, bounded, for_each, statechart_exception,
}
use cpp_statecharts.Construction.Names.{name_lookup}
use cpp_statecharts.Construction.Paths.{path_from}
use cpp_statecharts.Asynchronous.{dispatch_asynchron, is_shutdown}
use cpp_statecharts.Chart.{Chart}
use cpp_statecharts.Behaviour.Virtual.{methods, statechart_dispatch}

module _ {W : Type 0} (chart : Chart W) where
  -- Statechart::getStateByName.
  unfoldable pub get_state_by_name : String → M W ℕ
  get_state_by_name n = elim (name_lookup n chart.names) [
    | none ↦ throw statechart_exception
    | some s ↦ pure s
  ]

  -- Metadata::isActive by name; the metadata know the chart once it was started on them.
  unfoldable pub is_active_by_name : String → M W Bool
  is_active_by_name n = gets (λ d. d.statechart) >>= λ c. elim c [
    | none ↦ throw statechart_exception
    | some _ ↦ get_state_by_name n >>= λ s. gets (is_active s)
  ]

  -- Statechart::dispatch, with virtual calls to the given depth.
  unfoldable pub dispatch : ℕ → Option Event → M W Bool
  dispatch fuel e = statechart_dispatch chart (methods chart fuel) e

  unfoldable pub activate_start : Option ℕ → M W (Unit {0})
  activate_start none = pure tt
  activate_start (some s) = do time ← now; modify (Metadata.activate chart.states time s)

  -- Statechart::start.
  unfoldable pub start : ℕ → M W Bool
  start fuel = do
    modify reset
    time ← now
    modify (Metadata.activate chart.states time chart.root)
    activate_start (chart.states chart.root).start_state
    dispatch fuel none

  -- Statechart::restoreState of a state that is not null.
  unfoldable pub restore_state : ℕ → ℕ → M W Bool
  restore_state fuel s = gets (is_active chart.root) >>= λ active.
      if active then pure false else (do
        modify reset
        path ← bounded (path_from fuel chart.states (λ _. false) s [])
        for_each path (λ a. (methods chart fuel).activate a >>= λ _. pure tt)
        pure true)

  -- The call of dispatchAsynchron without an event. The clock is read only if an entry is made.
  unfoldable pub hand_over : M W (Unit {0})
  hand_over r = done tt (record r {
    scheduler = dispatch_asynchron (r.clock r.reads) chart.root r.meta.ident none r.scheduler;
    reads = if is_shutdown r.scheduler then r.reads else r.reads + 1;
  })

  -- Statechart::startAsynchron.
  unfoldable pub start_asynchron : M W (Unit {0})
  start_asynchron = do
    modify reset
    time ← now
    modify (Metadata.activate chart.states time chart.root)
    activate_start (chart.states chart.root).start_state
    hand_over

  unfoldable pub run_bound : ℕ → Option Event → Option ℕ → M W (Unit {0})
  run_bound fuel e none = pure tt
  run_bound fuel e (some s) = gets (is_active s) >>= λ active.
      if active then (dispatch fuel e >>= λ _. pure tt) else pure tt

  -- EventQueueEntry::run on the metadata that the entry is bound to.
  unfoldable pub run_entry : ℕ → Entry → M W (Unit {0})
  run_entry fuel entry r =
      if is_invalid entry.id r.scheduler || not (is_some entry.statechart && is_some entry.data_of)
      then pure tt r
      else run_bound fuel entry.event entry.state r
