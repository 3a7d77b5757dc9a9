-- ===== src/Asynchronous/Closing.antt =====
-- Statechart::shutdown of src/Statechart.cpp over all histories of the threads.
use cpp_statecharts.Base.{
  ℕ, zero, suc, ◌+◌, ◌≤◌, ◌≡◌, refl, sym, ap, ◌∙◌, subst, Option, none, some, leb, get_elem?, true,
  false, List, [], ◌∷◌, if◌then◌else◌, if_ind, arith, Bool-cases, inl, inr,
}
use cpp_statecharts.DelayQueue
use cpp_statecharts.DelayQueue.{round, stopped}
use cpp_statecharts.ThreadPool
use cpp_statecharts.ThreadPool.{Worker, waiting, running, ended, shuts_down, advances, step}
use cpp_statecharts.ThreadPool.SingleWorker.{first_worker}
use cpp_statecharts.Event.{Event}
use cpp_statecharts.Entries.{Entry, Scheduler, enqueue_timeout, cancel_timeout, delayed_entry}
use cpp_statecharts.Asynchronous.{
  TimeoutThread, at_head, taking, returned, has_returned, Phase, not_called, flag_cleared,
  queue_cleared, queue_stopped, pool_stopped, thread_joined, finished, awaiting, joining, awaited,
  await_worker, join_worker, testing, asking, posting, System, with_pool, dispatch_asynchron,
  time_step, shutdown_step, Move, dispatches, works, times, enqueues, cancels, shuts, move, moves,
  new_system,
}
use cpp_statecharts.Asynchronous.Stopping.{
  rank, Joined, SameFlags, same, with_pool-SameFlags, submit-SameFlags, cancel_timeout-SameFlags,
  enqueue_timeout-SameFlags, time_step-Timed, Halting, SystemHalting, keep_flags,
}

joined_returned : (t : TimeoutThread) → has_returned t ≡ true → t ≡ returned
joined_returned at_head h = cc
joined_returned taking h = cc
joined_returned (testing e) h = cc
joined_returned (asking e) h = cc
joined_returned (posting e) h = cc
joined_returned returned h = refl

abbrev ThenHalting : TimeoutThread → Phase × Scheduler → Type 0
ThenHalting t r = Halting r.0 t r.1

-- From the join of the timeout thread on, `shutdown` only reads the flags.
later :
    (p p' : Phase) (t : TimeoutThread) (q : Scheduler)
    → 5 ≤ rank p
    → (Joined p' → q.pool.workers ≡ ended ∷ [])
    → Halting p t q
    → Halting p' t q
later p p' t q from gone h = record {
  not_running = λ le. h.not_running (omega (arith, from));
  no_take = λ le. h.no_take (omega (arith, from));
  no_task = λ le. h.no_task (omega (arith, from));
  no_thread = λ le. h.no_thread from;
  no_worker = gone;
  single = h.single;
}

join-Halting :
    (t : TimeoutThread) (q : Scheduler)
    → Halting pool_stopped t q
    → Halting (if has_returned t then thread_joined else pool_stopped) t q
join-Halting t q h = elim (Bool-cases (has_returned t)) [
  | inl e ↦ rw e (record {
    not_running = λ le. h.not_running (omega arith);
    no_take = λ le. h.no_take (omega arith);
    no_task = λ le. h.no_task (omega arith);
    no_thread = λ le. joined_returned t e;
    no_worker = λ j. absurd j;
    single = h.single;
  })
  | inr e ↦ rw e h
]

-- The head of the loop of awaitTermination, over a pool with one worker.
await-Joined :
    (now deadline i : ℕ) (w : Worker Entry)
    → Joined (await_worker now deadline i (get_elem? (w ∷ []) i))
    → 1 ≤ i
await-Joined now deadline zero w =
    if_ind (λ p. Joined p → 1 ≤ 0) (leb deadline now) (λ _ e. absurd (cc e)) (λ _ j. j)
await-Joined now deadline (suc i) w = λ j. omega arith

join-Joined :
    (deadline i : ℕ) (w : Worker Entry)
    → (Joined (joining deadline i) → w ≡ ended)
    → Joined (join_worker deadline i (get_elem? (w ∷ []) i))
    → w ≡ ended
join-Joined deadline zero ended k j = refl
join-Joined deadline zero waiting k j = absurd (omega (arith, j))
join-Joined deadline zero (running e) k j = absurd (omega (arith, j))
join-Joined deadline (suc i) w k j = k (omega arith)

shutdown_step-Halting :
    (now : ℕ) (p : Phase) (t : TimeoutThread) (q : Scheduler)
    → Halting p t q
    → ThenHalting t (shutdown_step now p t q)
unfolding shutdown_step with_pool step DelayQueue.clear DelayQueue.stop
shutdown_step-Halting now not_called t q h =
    if_ind (ThenHalting t) q.is_running
      (λ _. record {
        not_running = λ le. refl;
        no_take = λ le. absurd (omega arith);
        no_task = λ le. absurd (omega arith);
        no_thread = λ le. absurd (omega arith);
        no_worker = λ j. absurd j;
        single = h.single;
      })
      (λ _. h)
shutdown_step-Halting now flag_cleared t q h = record {
  not_running = λ le. h.not_running (omega arith);
  no_take = λ le. absurd (omega arith);
  no_task = λ le. absurd (omega arith);
  no_thread = λ le. absurd (omega arith);
  no_worker = λ j. absurd j;
  single = h.single;
}
shutdown_step-Halting now queue_cleared t q h = record {
  not_running = λ le. h.not_running (omega arith);
  no_take = λ le. refl;
  no_task = λ le. absurd (omega arith);
  no_thread = λ le. absurd (omega arith);
  no_worker = λ j. absurd j;
  single = h.single;
}
shutdown_step-Halting now queue_stopped t q h = record {
  not_running = λ le. h.not_running (omega arith);
  no_take = λ le. h.no_take (omega arith);
  no_task = λ le. refl;
  no_thread = λ le. absurd (omega arith);
  no_worker = λ j. absurd j;
  single = h.single;
}
shutdown_step-Halting now pool_stopped t q h = join-Halting t q h
shutdown_step-Halting now thread_joined t q h =
    later thread_joined (awaiting (now + 60000) 0) t q (omega arith)
      (λ j. absurd (omega (arith, j))) h
shutdown_step-Halting now (awaiting deadline i) t q h =
    later (awaiting deadline i) _ t q (omega arith)
      (λ j. h.no_worker (
        await-Joined now deadline i h.single.0
          (subst (λ ws. Joined (await_worker now deadline i (get_elem? ws i))) h.single.1 j)))
      h
shutdown_step-Halting now (joining deadline i) t q h =
    later (joining deadline i) _ t q (omega arith)
      (λ j.
        h.single.1
        ∙ ap (λ w. w ∷ [])
            (join-Joined deadline i h.single.0
              (λ k. ap first_worker (sym h.single.1 ∙ h.no_worker k))
              (subst (λ ws. Joined (join_worker deadline i (get_elem? ws i))) h.single.1 j)))
      h
shutdown_step-Halting now (awaited b) t q h = record {
  not_running = λ le. h.not_running (omega arith);
  no_take = λ le. h.no_take (omega arith);
  no_task = λ le. h.no_task (omega arith);
  no_thread = λ le. h.no_thread (omega arith);
  no_worker = λ j. absurd j;
  single = h.single;
}
shutdown_step-Halting now finished t q h = h

move-Halting : (m : Move) (s : System) → SystemHalting s → SystemHalting (move m s)
unfolding move dispatch_asynchron
move-Halting (dispatches now chart data_of e) s h =
    keep_flags s.phase s.timeout_thread s.timeout_thread s.scheduler
      (dispatch_asynchron now chart data_of e s.scheduler)
      (if_ind (SameFlags s.scheduler) s.scheduler.pool.shutdown_flag (λ _. same s.scheduler)
        (λ _. submit-SameFlags now chart data_of e s.scheduler))
      (λ k. k) h
move-Halting (works i) s h =
    keep_flags s.phase s.timeout_thread s.timeout_thread s.scheduler
      (with_pool (advances i) s.scheduler) (with_pool-SameFlags (advances i) s.scheduler) (λ k. k) h
move-Halting (times now) s h =
    let timed = time_step-Timed now s.timeout_thread s.scheduler in
    keep_flags s.phase s.timeout_thread (time_step now s.timeout_thread s.scheduler).0 s.scheduler
      (time_step now s.timeout_thread s.scheduler).1 timed.flags timed.stays h
move-Halting (enqueues now chart state data_of e ms) s h =
    keep_flags s.phase s.timeout_thread s.timeout_thread s.scheduler
      (enqueue_timeout now chart state data_of e ms s.scheduler).1
      (enqueue_timeout-SameFlags now chart state data_of e ms s.scheduler) (λ k. k) h
move-Halting (cancels i) s h =
    keep_flags s.phase s.timeout_thread s.timeout_thread s.scheduler (cancel_timeout i s.scheduler)
      (cancel_timeout-SameFlags i s.scheduler) (λ k. k) h
move-Halting (shuts now) s h = shutdown_step-Halting now s.phase s.timeout_thread s.scheduler h

pub moves-Halting : (ms : List Move) (s : System) → SystemHalting s → SystemHalting (moves ms s)
unfolding moves
moves-Halting [] s h = h
moves-Halting (m ∷ ms) s h = moves-Halting ms (move m s) (move-Halting m s h)

new_system-Halting : SystemHalting new_system
unfolding new_system ThreadPool.make
new_system-Halting = record {
  not_running = λ le. absurd (omega arith);
  no_take = λ le. absurd (omega arith);
  no_task = λ le. absurd (omega arith);
  no_thread = λ le. absurd (omega arith);
  no_worker = λ j. absurd j;
  single = (waiting, refl);
}

pub flags_of_history : (ms : List Move) → SystemHalting (moves ms new_system)
flags_of_history ms = moves-Halting ms new_system new_system-Halting

-- What can no longer happen once `shutdown` has come so far.
pub record Halted (s : System) : Type 0 where
  pub no_timeout :
      1 ≤ rank s.phase
      → (now : ℕ) (chart : Option ℕ) (state data_of : ℕ) (e : Event) (ms : ℕ)
      → enqueue_timeout now chart state data_of e ms s.scheduler ≡ (none, s.scheduler)
  pub no_take :
      3 ≤ rank s.phase → (now : ℕ) → round delayed_entry now s.scheduler.timeout_queue ≡ stopped
  pub no_task :
      4 ≤ rank s.phase
      → (e : Entry) → ThreadPool.execute (some e) s.scheduler.pool ≡ (false, s.scheduler.pool)
  pub no_dispatch :
      4 ≤ rank s.phase
      → (now chart data_of : ℕ) (e : Option Event)
      → dispatch_asynchron now chart data_of e s.scheduler ≡ s.scheduler
  pub no_thread : 5 ≤ rank s.phase → s.timeout_thread ≡ returned
  pub no_worker : s.phase ≡ awaited true → s.scheduler.pool.workers ≡ ended ∷ []

-- In every history of a new chart, whatever its threads and clients do: once `shutdown` has
-- cleared the flag, enqueueTimeout returns null and enqueues nothing; once it has stopped the
-- queue, `take` hands out nothing at any time; once it has shut the pool down, `execute` refuses
-- every task and dispatchAsynchron does nothing; once it has joined the timeout thread, that
-- thread has returned; and when awaitTermination has returned true, the worker has returned.
pub history-Halted : (ms : List Move) → Halted (moves ms new_system)
unfolding enqueue_timeout round ThreadPool.execute dispatch_asynchron
history-Halted ms =
    let h = flags_of_history ms in
    record {
      no_timeout = λ le now chart state data_of e d. rw (h.not_running le) refl;
      no_take = λ le now. rw (h.no_take le) refl;
      no_task = λ le e. rw (h.no_task le) refl;
      no_dispatch = λ le now chart data_of e. rw (h.no_task le) refl;
      no_thread = h.no_thread;
      no_worker = λ e. h.no_worker (subst Joined (sym e) refl);
    }
