-- ===== src/Examples/Running.antt =====
-- Whole dispatches of src/Statechart.cpp, and what they keep, on small charts.
use cpp_statecharts.Base.{ℕ, ◌≡◌, refl, arith, none, some, [], ◌∷◌, zero, suc, ◌+◌}
use cpp_statecharts.Event.{Event, timeout_event}
use cpp_statecharts.Entries.{
  Entry, Scheduler, new_entry, insert_entry, enqueue_timeout, cancel_timeout,
}
use cpp_statecharts.Entries.Orderly.{Orderly, enqueue_timeout-Orderly}
use cpp_statecharts.Runtime.{Run, done}
use cpp_statecharts.Runtime.Rules.{Ensures, Keeps-pure}
use cpp_statecharts.Behaviour.States.{disarm_timeouts}
use cpp_statecharts.Statechart.{dispatch, start, run_entry}
use cpp_statecharts.Invariance.Steps.{ActionKeeps, with_scheduler}
use cpp_statecharts.Invariance.Nesting.{
  ActionsKeep, WellNested, dispatch-WellNested, start-WellNested,
}
use cpp_statecharts.Invariance.Timeouts.{Ordered, dispatch-Orderly}
use cpp_statecharts.Semantics.Leaving.{Silenced, disarm_timeouts-Silenced, run_entry_cancelled}
use cpp_statecharts.Examples.Samples.{
  ping, go, ping_transition, data_at, idle_scheduler, sample_run, left_active, program,
}

-- The callback of the chart keeps whatever does not read the world.
IgnoresWorld : (Run ℕ → Type 0) → Type 0
IgnoresWorld I = (r : Run ℕ) → I r → I (record r { world = r.world + 1 })

ping_transition_actions :
    (I : Run ℕ → Type 0) → IgnoresWorld I → (t : ℕ) → ActionKeeps I (ping_transition t).action
unfolding IgnoresWorld
ping_transition_actions I h zero = Keeps-pure I tt
ping_transition_actions I h (suc zero) = record { keeps = h }
ping_transition_actions I h (suc (suc zero)) = Keeps-pure I tt
ping_transition_actions I h (suc (suc (suc t))) = Keeps-pure I tt

ping_actions : (I : Run ℕ → Type 0) → IgnoresWorld I → ActionsKeep (ping 2) I
ping_actions I h = record {
  entry_actions = λ s. Keeps-pure I tt;
  do_actions = λ s. Keeps-pure I tt;
  exit_actions = λ s. Keeps-pure I tt;
  transition_actions = ping_transition_actions I h;
}

nested_actions : ActionsKeep (ping 2) (WellNested (ping 2))
unfolding IgnoresWorld
nested_actions = ping_actions (WellNested (ping 2)) (λ r h. h)

actions-Ordered : ActionsKeep (ping 2) (Ordered (ping 2))
unfolding IgnoresWorld
actions-Ordered = ping_actions (Ordered (ping 2)) (λ r h. h)

left_active-WellNested : WellNested (ping 2) left_active
unfolding program
left_active-WellNested s c h = ground arith

dispatch-WellNested_example :
    Ensures (WellNested (ping 2)) (dispatch (ping 2) 4 (some go) left_active)
dispatch-WellNested_example =
    dispatch-WellNested (ping 2) nested_actions 4 (some go) left_active left_active-WellNested

start-WellNested_example : Ensures (WellNested (ping 2)) (start (ping 2) 4 left_active)
start-WellNested_example = start-WellNested (ping 2) nested_actions 4 left_active

idle-Orderly : Orderly idle_scheduler
idle-Orderly = record {
  sorted = tt;
  queued_le = λ i. omega arith;
  pending_le = λ i. omega arith;
  fresh = λ i le. refl;
}

abbrev timeout : Event
timeout = timeout_event (record { high = 1; low = 2 }) 30

-- A scheduler with one timeout of the left state, and the run that has it.
abbrev armed : Scheduler
armed = (enqueue_timeout 100 (some 0) 1 9 timeout 30 idle_scheduler).1

armed-Orderly : Orderly armed
armed-Orderly = enqueue_timeout-Orderly 100 (some 0) 1 9 timeout 30 idle_scheduler idle-Orderly

abbrev armed_run : Run ℕ
armed_run =
    record (sample_run
      ((0, data_at 1 (some 1)) ∷ (1, record (data_at 2 none) { timeout_events = 0 ∷ [] }) ∷ [])) {
        scheduler = armed;
      }

dispatch-Orderly_example : Ensures (Ordered (ping 2)) (dispatch (ping 2) 4 (some go) armed_run)
dispatch-Orderly_example =
    dispatch-Orderly (ping 2) 4 (some go) armed_run actions-Ordered armed-Orderly

disarm_timeouts-Silenced_example :
    Silenced (0 ∷ []) armed_run (disarm_timeouts (ping 2) 1 armed_run)
unfolding program enqueue_timeout insert_entry
disarm_timeouts-Silenced_example =
    disarm_timeouts-Silenced (ping 2) 1 armed_run refl armed-Orderly (tt, tt) (refl, tt)

abbrev armed_entry : Entry
armed_entry = new_entry 0 (some 0) (some 1) (some 9) (some timeout) 30 130

run_entry_cancelled_example :
    run_entry (ping 2) 4 armed_entry (with_scheduler (cancel_timeout (some 0)) armed_run)
    ≡ done tt (with_scheduler (cancel_timeout (some 0)) armed_run)
run_entry_cancelled_example = run_entry_cancelled (ping 2) 4 armed_entry armed_run armed-Orderly
