-- ===== src/Semantics/Leaving.antt =====
-- State::deactivate of src/State.cpp and EventQueueEntry::run of src/EventQueueEntry.cpp: the
-- timeouts of a state that was left do nothing any more.
use cpp_statecharts.Base.{
  ℕ, ◌≡◌, ◌≢◌, refl, ap, ◌∙◌, true, some, List, [], ◌∷◌, contains, All, ==_iff, is_some, arith,
}
use cpp_statecharts.Metadata.{get_data}
use cpp_statecharts.Entries.{
  Entry, Scheduler, ids, is_alive, is_invalid, mark_invalid, cancel_timeout,
}
use cpp_statecharts.Entries.Orderly.{occurs, Orderly}
use cpp_statecharts.Entries.Cancelling.{cancel_timeout-Cancelled}
use cpp_statecharts.Runtime.{Run, Outcome, done, for_each}
use cpp_statecharts.Chart.{Chart}
use cpp_statecharts.Behaviour.States.{invalidate, disarm, disarm_timeouts, timeouts_of}
use cpp_statecharts.Statechart.{run_entry}
use cpp_statecharts.Invariance.Steps.{with_scheduler}
use cpp_statecharts.Invariance.Timeouts.{mark_invalid-Orderly}

-- The ids are pairwise different.
abbrev pub Distinct : List ℕ → Type 0
Distinct [] = Unit
Distinct (i ∷ is) = All (λ j. i ≢ j) is × Distinct is

pending-contains : (i : ℕ) (es : List Entry) → occurs i es ≡ 1 → contains i (ids es) ≡ true
pending-contains i [] h = absurd (omega arith)
pending-contains i (e ∷ es) h = ground (arith, pending-contains i es, ==_iff e.id i, ==_iff i e.id)

pending-is_alive : (i : ℕ) (q : Scheduler) → occurs i q.pending_entries ≡ 1 → is_alive i q ≡ true
unfolding is_alive
pending-is_alive i q h = rw (pending-contains i q.pending_entries h) refl

-- A timeout that was cancelled.
abbrev pub IsInert : Scheduler → ℕ → Type 0
IsInert q i = (is_invalid i q ≡ true) × (occurs i q.timeout_queue.items ≡ 0)

-- The scheduler behind the two calls that `deactivate` makes for one timeout.
abbrev disarmed : ℕ → Scheduler → Scheduler
disarmed i q = cancel_timeout (some i) (mark_invalid i q)

-- What one of the calls does to the others' entries.
record Disarmed (i : ℕ) (q r : Scheduler) : Type 0 where
  pub inert : IsInert r i
  pub kept : (j : ℕ) → IsInert q j → IsInert r j
  pub others : (j : ℕ) → i ≢ j → occurs j r.pending_entries ≡ occurs j q.pending_entries
  pub orderly : Orderly r

disarmed-Disarmed : (i : ℕ) (q : Scheduler) → Orderly q → Disarmed i q (disarmed i q)
unfolding mark_invalid is_invalid
disarmed-Disarmed i q h =
    let c = cancel_timeout-Cancelled i (mark_invalid i q) (mark_invalid-Orderly i q h) in
    record {
      inert = (c.flagged, c.unqueued);
      kept = λ j inert. (
        ap (contains j) c.flags ∙ ground (arith, inert.0),
        ground (arith, ==_iff i j, c.unqueued, c.others_queued j, inert.1),
      );
      others = c.others_pending;
      orderly = c.orderly;
    }

-- How the loop over all timeouts of a state ends: it returns, it has touched the scheduler alone,
-- and no timeout of the list can fire any more.
pub record Silenced {W : Type 0} (is : List ℕ) (r : Run W) (o : Outcome (Run W) (Unit {0}))
    : Type 0 where
  pub scheduler : Scheduler
  pub returns : o ≡ done tt (record r { scheduler = scheduler })
  pub silent : All (IsInert scheduler) is
  pub kept : (j : ℕ) → IsInert r.scheduler j → IsInert scheduler j
  pub orderly : Orderly scheduler

module _ {W : Type 0} (chart : Chart W) where
  disarm_pending :
      (i : ℕ) (r : Run W)
      → occurs i r.scheduler.pending_entries ≡ 1
      → disarm chart i r ≡ done tt (with_scheduler (disarmed i) r)
  unfolding disarm invalidate
  disarm_pending i r h = rw (pending-is_alive i r.scheduler h) refl

  still_pending :
      (i : ℕ) (q r : Scheduler) (is : List ℕ)
      → Disarmed i q r
      → All (λ j. i ≢ j) is
      → All (λ j. occurs j q.pending_entries ≡ 1) is
      → All (λ j. occurs j r.pending_entries ≡ 1) is
  still_pending i q r [] d distinct h = tt
  still_pending i q r (j ∷ js) d distinct h =
      (d.others j distinct.0 ∙ h.0, still_pending i q r js d distinct.1 h.1)

  for_each-Silenced :
      (is : List ℕ) (r : Run W)
      → Orderly r.scheduler
      → Distinct is
      → All (λ i. occurs i r.scheduler.pending_entries ≡ 1) is
      → Silenced is r (for_each is (disarm chart) r)
  unfolding for_each
  for_each-Silenced [] r h distinct pending = record {
    scheduler = r.scheduler;
    returns = refl;
    silent = tt;
    kept = λ j inert. inert;
    orderly = h;
  }
  for_each-Silenced (i ∷ is) r h distinct pending =
      let d = disarmed-Disarmed i r.scheduler h in
      let rest =
        for_each-Silenced is (with_scheduler (disarmed i) r) d.orderly distinct.1
          (still_pending i r.scheduler (disarmed i r.scheduler) is d distinct.0 pending.1) in
      record {
        scheduler = rest.scheduler;
        returns = rw (disarm_pending i r pending.0) rest.returns;
        silent = (rest.kept i d.inert, rest.silent);
        kept = λ j inert. rest.kept j (d.kept j inert);
        orderly = rest.orderly;
      }

  -- If a state belongs to a chart, the bookkeeping of the scheduler is in order, the state's
  -- runtime data remember pairwise different timeouts and all of them are pending, then the loop
  -- of `deactivate` over them returns, changes the scheduler alone, and leaves none of them in
  -- the queue and each of them marked invalid.
  pub disarm_timeouts-Silenced :
      (s : ℕ) (r : Run W)
      → is_some (chart.states s).statechart ≡ true
      → Orderly r.scheduler
      → Distinct (timeouts_of (get_data s r.meta))
      → All (λ i. occurs i r.scheduler.pending_entries ≡ 1) (timeouts_of (get_data s r.meta))
      → Silenced (timeouts_of (get_data s r.meta)) r (disarm_timeouts chart s r)
  unfolding disarm_timeouts
  disarm_timeouts-Silenced s r owned h distinct pending =
      rw owned (for_each-Silenced (timeouts_of (get_data s r.meta)) r h distinct pending)

  -- If the bookkeeping of the scheduler is in order, a timeout that is cancelled does nothing
  -- when it is run: neither the configuration nor anything else of the run changes, at any depth
  -- of calls.
  pub run_entry_cancelled :
      (fuel : ℕ) (entry : Entry) (r : Run W)
      → Orderly r.scheduler
      → run_entry chart fuel entry (with_scheduler (cancel_timeout (some entry.id)) r)
        ≡ done tt (with_scheduler (cancel_timeout (some entry.id)) r)
  unfolding run_entry
  run_entry_cancelled fuel entry r h =
      rw (cancel_timeout-Cancelled entry.id r.scheduler h).flagged refl
