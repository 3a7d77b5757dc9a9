-- ===== src/Invariance/Steps.antt =====
-- The writes that the methods of src/ are made of, as what an invariant has to survive.
use cpp_statecharts.Base.{ℕ, ◌+◌, Option, none, some, List}
use cpp_statecharts.Event.{Event}
use cpp_statecharts.Metadata.{StateRuntimedata, Metadata, modify_data, create_runtimedata, reset}
use cpp_statecharts.Metadata
use cpp_statecharts.Entries.{Scheduler, mark_invalid, cancel_timeout}
use cpp_statecharts.Runtime.{Run}
use cpp_statecharts.Runtime.Rules.{Keeps}
use cpp_statecharts.Chart.{Chart, Methods, Action, run_action}
use cpp_statecharts.Behaviour.Transitions.{add_region}
use cpp_statecharts.Behaviour.States.{enqueue, push_timeout}

-- The same run with other metadata.
abbrev pub with_meta : {W : Type 0} → (Metadata → Metadata) → Run W → Run W
with_meta f r = record r { meta = f r.meta }

abbrev pub with_scheduler : {W : Type 0} → (Scheduler → Scheduler) → Run W → Run W
with_scheduler f r = record r { scheduler = f r.scheduler }

-- A callback that keeps the invariant, if there is one.
abbrev pub ActionKeeps : {W : Type 0} → (Run W → Type 0) → Option (Action W) → Type 0
ActionKeeps I a = Keeps I (run_action a)

-- What an invariant of the runs of a chart has to survive: the single writes of the framework,
-- and the callbacks of the client.
pub record Stable {W : Type 0} (chart : Chart W) (I : Run W → Type 0) : Type 0 where
  pub ticking : (r : Run W) → I r → I (record r { reads = r.reads + 1 })
  pub entering :
      (time s : ℕ) (r : Run W) → I r → I (with_meta (Metadata.activate chart.states time s) r)
  pub resetting : (r : Run W) → I r → I (with_meta reset r)
  pub leaving : (s : ℕ) (r : Run W) → I r → I (with_meta (Metadata.deactivate chart.states s) r)
  pub creating : (s : ℕ) (r : Run W) → I r → I (with_meta (create_runtimedata s) r)
  pub targeting :
      (s region : ℕ) (r : Run W) → I r → I (with_meta (modify_data s (add_region region)) r)
  pub recording :
      (s : ℕ) (l : List ℕ) (r : Run W)
      → I r
      → I (with_meta (modify_data s (λ d. record d { stateset = l })) r)
  pub emptying :
      (s : ℕ) (r : Run W)
      → I r
      → I (with_meta (modify_data s (λ d. record d { current_state = none })) r)
  pub arming : (s ms : ℕ) (e : Event) → Keeps I (enqueue chart s e ms)
  pub remembering :
      (s : ℕ) (i : Option ℕ) (r : Run W) → I r → I (with_meta (modify_data s (push_timeout i)) r)
  pub invalidating : (i : ℕ) (r : Run W) → I r → I (with_scheduler (mark_invalid i) r)
  pub cancelling : (i : ℕ) (r : Run W) → I r → I (with_scheduler (cancel_timeout (some i)) r)
  pub on_entry : (s : ℕ) → ActionKeeps I (chart.actions s).entry_action
  pub on_do : (s : ℕ) → ActionKeeps I (chart.actions s).do_action
  pub on_exit : (s : ℕ) → ActionKeeps I (chart.actions s).exit_action
  pub on_transition : (t : ℕ) → ActionKeeps I (chart.transition t).action

-- The methods that a caller reaches keep the invariant.
pub record MethodsKeep {W : Type 0} (I : Run W → Type 0) (self : Methods W) : Type 0 where
  pub activating : (s : ℕ) → Keeps I (self.activate s)
  pub deactivating : (s : ℕ) → Keeps I (self.deactivate s)
  pub dispatching : (s : ℕ) (e : Option Event) → Keeps I (self.dispatch s e)

-- What an invariant has to survive so that `deactivate` keeps it.
pub record StableLeaving {W : Type 0} (chart : Chart W) (I : Run W → Type 0) : Type 0 where
  pub leaving : (s : ℕ) (r : Run W) → I r → I (with_meta (Metadata.deactivate chart.states s) r)
  pub recording :
      (s : ℕ) (l : List ℕ) (r : Run W)
      → I r
      → I (with_meta (modify_data s (λ d. record d { stateset = l })) r)
  pub emptying :
      (s : ℕ) (r : Run W)
      → I r
      → I (with_meta (modify_data s (λ d. record d { current_state = none })) r)
  pub invalidating : (i : ℕ) (r : Run W) → I r → I (with_scheduler (mark_invalid i) r)
  pub cancelling : (i : ℕ) (r : Run W) → I r → I (with_scheduler (cancel_timeout (some i)) r)
  pub on_exit : (s : ℕ) → ActionKeeps I (chart.actions s).exit_action

pub Stable-StableLeaving :
    {W : Type 0} {chart : Chart W} {I : Run W → Type 0} → Stable chart I → StableLeaving chart I
Stable-StableLeaving stable = record {
  leaving = stable.leaving;
  recording = stable.recording;
  emptying = stable.emptying;
  invalidating = stable.invalidating;
  cancelling = stable.cancelling;
  on_exit = stable.on_exit;
}
