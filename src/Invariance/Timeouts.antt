-- ===== src/Invariance/Timeouts.antt =====
-- The timeouts over whole runs of a chart: the bookkeeping of the scheduler stays in order.
use cpp_statecharts.Base.{ℕ, Option}
use cpp_statecharts.Event.{Event}
use cpp_statecharts.Entries.{Scheduler, mark_invalid}
use cpp_statecharts.Entries.Orderly.{Orderly, enqueue_timeout-Orderly}
use cpp_statecharts.Entries.Cancelling.{cancel_timeout-Cancelled}
use cpp_statecharts.Runtime.{Run}
use cpp_statecharts.Runtime.Rules.{Ensures}
use cpp_statecharts.Chart.{Chart}
use cpp_statecharts.Behaviour.States.{enqueue}
use cpp_statecharts.Statechart.{dispatch}
use cpp_statecharts.Invariance.Steps.{Stable}
use cpp_statecharts.Invariance.Charts.{dispatch-Keeps}
use cpp_statecharts.Invariance.Nesting.{ActionsKeep}

pub mark_invalid-Orderly : (i : ℕ) (q : Scheduler) → Orderly q → Orderly (mark_invalid i q)
unfolding mark_invalid
mark_invalid-Orderly i q h = record {
  sorted = h.sorted;
  queued_le = h.queued_le;
  pending_le = h.pending_le;
  fresh = h.fresh;
}

module _ {W : Type 0} (chart : Chart W) where
  abbrev pub Ordered : Run W → Type 0
  Ordered r = Orderly r.scheduler

  pub Ordered-Stable : ActionsKeep chart Ordered → Stable chart Ordered
  unfolding enqueue
  Ordered-Stable a = record {
    ticking = λ r h. h;
    entering = λ time s r h. h;
    resetting = λ r h. h;
    leaving = λ s r h. h;
    creating = λ s r h. h;
    targeting = λ s x r h. h;
    recording = λ s l r h. h;
    emptying = λ s r h. h;
    arming = λ s ms e. record { keeps = λ r h. enqueue_timeout-Orderly _ _ _ _ _ _ r.scheduler h };
    remembering = λ s i r h. h;
    invalidating = λ i r h. mark_invalid-Orderly i r.scheduler h;
    cancelling = λ i r h. (cancel_timeout-Cancelled i r.scheduler h).orderly;
    on_entry = a.entry_actions;
    on_do = a.do_actions;
    on_exit = a.exit_actions;
    on_transition = a.transition_actions;
  }

  -- If the callbacks leave the timeouts' bookkeeping in order, so does a dispatch that starts
  -- with it in order, whether it returns or throws: the queue is sorted, what waits in it is
  -- pending, and nothing is pending twice.
  pub dispatch-Orderly :
      (fuel : ℕ) (e : Option Event) (r : Run W)
      → ActionsKeep chart Ordered
      → Ordered r
      → Ensures Ordered (dispatch chart fuel e r)
  dispatch-Orderly fuel e r actions =
      (dispatch-Keeps Ordered (Ordered-Stable actions) fuel e).keeps r
