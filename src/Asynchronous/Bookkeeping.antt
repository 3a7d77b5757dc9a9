-- ===== src/Asynchronous/Bookkeeping.antt =====
-- The bookkeeping of the timeouts over all histories of src/Statechart.cpp's threads.
use cpp_statecharts.Base.{
  ℕ, ◌≡◌, refl, ap, subst, ◌⊎◌, inl, inr, Option, none, some, List, [], ◌∷◌, if_ind, arith,
}
use cpp_statecharts.Event.{Event, signal, timeout_event}
use cpp_statecharts.DelayQueue
use cpp_statecharts.DelayQueue.{DelayQueue, Round, taken, stopped, waits, round}
use cpp_statecharts.DelayQueue.Order.{IsSorted}
use cpp_statecharts.DelayQueue.Taking.{round_cases}
use cpp_statecharts.ThreadPool.{Step, executes, advances, shuts_down}
use cpp_statecharts.Entries.{Entry, delayed_entry, Scheduler, cancel_timeout}
use cpp_statecharts.Entries.Orderly.{
  occurs, occurs-append, Orderly, insert_entry-Orderly, enqueue_timeout-Orderly,
}
use cpp_statecharts.Entries.Cancelling.{cancel_timeout-Cancelled}
use cpp_statecharts.Asynchronous.{
  TimeoutThread, at_head, taking, testing, asking, posting, returned, awaiting, joining, awaited,
  Phase, not_called, flag_cleared, queue_cleared, queue_stopped, pool_stopped, thread_joined,
  finished, System, with_pool, post_entry, submit, dispatch_asynchron, after_round, time_step,
  shutdown_step, Move, dispatches, works, times, enqueues, cancels, shuts, move, moves,
}

with_pool-Orderly : (s : Step Entry) (q : Scheduler) → Orderly q → Orderly (with_pool s q)
unfolding with_pool
with_pool-Orderly s q h = record {
  sorted = h.sorted;
  queued_le = h.queued_le;
  pending_le = h.pending_le;
  fresh = h.fresh;
}

post_entry-Orderly :
    (e : Entry) (q : Scheduler) → e.id ≡ q.next_id → Orderly q → Orderly (post_entry e q)
unfolding post_entry with_pool
post_entry-Orderly e q own h = record {
  sorted = h.sorted;
  queued_le = λ i. ground (arith, occurs-append i q.pending_entries (e ∷ []), h.queued_le i);
  pending_le =
      λ i. ground (arith, occurs-append i q.pending_entries (e ∷ []), h.pending_le i, h.fresh i);
  fresh = λ i le. ground (arith, occurs-append i q.pending_entries (e ∷ []), h.fresh i);
}

submit-Orderly :
    (now chart data_of : ℕ) (e : Option Event) (q : Scheduler)
    → Orderly q
    → Orderly (submit now chart data_of e q)
unfolding submit
submit-Orderly now chart data_of none q h = post_entry-Orderly _ q refl h
submit-Orderly now chart data_of (some (signal i)) q h = post_entry-Orderly _ q refl h
submit-Orderly now chart data_of (some (timeout_event u ms)) q h = insert_entry-Orderly _ q refl h

abbrev ThenOrderly : {A : Type 0} → A × Scheduler → Type 0
ThenOrderly r = Orderly r.1

taken-Orderly :
    (e : Entry) (left : DelayQueue Entry) (q : Scheduler)
    → q.timeout_queue.items ≡ e ∷ left.items
    → Orderly q
    → Orderly (record q { timeout_queue = left })
taken-Orderly e left q items h = record {
  sorted = (subst (IsSorted delayed_entry) items h.sorted).1;
  queued_le = λ i. ground (arith, h.queued_le i, ap (occurs i) items);
  pending_le = h.pending_le;
  fresh = h.fresh;
}

after_round-Orderly :
    (now : ℕ) (q : Scheduler) (r : Round delayed_entry)
    → round delayed_entry now q.timeout_queue ≡ r
    → Orderly q
    → ThenOrderly (after_round q r)
unfolding after_round
after_round-Orderly now q waits e h = h
after_round-Orderly now q stopped e h = h
after_round-Orderly now q (taken entry left) e h =
    (taken-Orderly entry left q (round_cases delayed_entry now q.timeout_queue e).0 h)

time_step-Orderly :
    (now : ℕ) (t : TimeoutThread) (q : Scheduler) → Orderly q → ThenOrderly (time_step now t q)
unfolding time_step
time_step-Orderly now at_head q h = h
time_step-Orderly now taking q h =
    after_round-Orderly now q (round delayed_entry now q.timeout_queue) refl h
time_step-Orderly now (testing entry) q h = h
time_step-Orderly now (asking entry) q h = h
time_step-Orderly now (posting entry) q h = with_pool-Orderly (executes (some entry)) q h
time_step-Orderly now returned q h = h

-- The bookkeeping is in order, unless shutdown has dropped the pending entries.
abbrev pub InOrderUntilEnd : Phase → Scheduler → Type 0
InOrderUntilEnd p q = (p ≡ finished) ⊎ Orderly q

abbrev ThenInOrder : Phase × Scheduler → Type 0
ThenInOrder r = InOrderUntilEnd r.0 r.1

shutdown_step-Orderly :
    (now : ℕ) (p : Phase) (t : TimeoutThread) (q : Scheduler)
    → Orderly q
    → ThenInOrder (shutdown_step now p t q)
unfolding shutdown_step DelayQueue.clear DelayQueue.stop
shutdown_step-Orderly now not_called t q h =
    if_ind ThenInOrder q.is_running
      (λ _. inr (record {
        sorted = h.sorted;
        queued_le = h.queued_le;
        pending_le = h.pending_le;
        fresh = h.fresh;
      }))
      (λ _. inr h)
shutdown_step-Orderly now flag_cleared t q h = inr (record {
  sorted = tt;
  queued_le = λ i. omega arith;
  pending_le = h.pending_le;
  fresh = h.fresh;
})
shutdown_step-Orderly now queue_cleared t q h = inr (record {
  sorted = h.sorted;
  queued_le = h.queued_le;
  pending_le = h.pending_le;
  fresh = h.fresh;
})
shutdown_step-Orderly now queue_stopped t q h = inr (with_pool-Orderly shuts_down q h)
shutdown_step-Orderly now pool_stopped t q h = inr h
shutdown_step-Orderly now thread_joined t q h = inr h
shutdown_step-Orderly now (awaiting deadline i) t q h = inr h
shutdown_step-Orderly now (joining deadline i) t q h = inr h
shutdown_step-Orderly now (awaited b) t q h = inl refl
shutdown_step-Orderly now finished t q h = inl refl

move-Orderly :
    (m : Move) (s : System)
    → Orderly s.scheduler
    → InOrderUntilEnd (move m s).phase (move m s).scheduler
unfolding move dispatch_asynchron cancel_timeout
move-Orderly (dispatches now chart data_of e) s h = inr (
    if_ind Orderly s.scheduler.pool.shutdown_flag (λ _. h)
      (λ _. submit-Orderly now chart data_of e s.scheduler h))
move-Orderly (works i) s h = inr (with_pool-Orderly (advances i) s.scheduler h)
move-Orderly (times now) s h = inr (time_step-Orderly now s.timeout_thread s.scheduler h)
move-Orderly (enqueues now chart state data_of e ms) s h =
    inr (enqueue_timeout-Orderly now chart state data_of e ms s.scheduler h)
move-Orderly (cancels none) s h = inr h
move-Orderly (cancels (some i)) s h = inr (cancel_timeout-Cancelled i s.scheduler h).orderly
move-Orderly (shuts now) s h = shutdown_step-Orderly now s.phase s.timeout_thread s.scheduler h

move-finished : (m : Move) (s : System) → s.phase ≡ finished → (move m s).phase ≡ finished
unfolding move shutdown_step
move-finished (dispatches now chart data_of e) s h = h
move-finished (works i) s h = h
move-finished (times now) s h = h
move-finished (enqueues now chart state data_of e ms) s h = h
move-finished (cancels i) s h = h
move-finished (shuts now) s h = rw h refl

-- If the bookkeeping of a system is in order it stays so whatever the threads do: until
-- `shutdown` has dropped the pending entries, the queue stays sorted by deadline, every entry
-- that waits in it is kept alive by the vector of pending entries, and none is pending twice.
pub moves-InOrderUntilEnd :
    (ms : List Move) (s : System)
    → InOrderUntilEnd s.phase s.scheduler
    → InOrderUntilEnd (moves ms s).phase (moves ms s).scheduler
unfolding moves
moves-InOrderUntilEnd [] s h = h
moves-InOrderUntilEnd (m ∷ ms) s (inl e) =
    moves-InOrderUntilEnd ms (move m s) (inl (move-finished m s e))
moves-InOrderUntilEnd (m ∷ ms) s (inr h) = moves-InOrderUntilEnd ms (move m s) (move-Orderly m s h)
