-- ===== src/Asynchronous/Stopping.antt =====
-- Statechart::shutdown of src/Statechart.cpp: what it has reached at each point, and that it ends.
use cpp_statecharts.Base.{
  ℕ, ◌≤◌, ◌≡◌, refl, ◌∙◌, true, false, Option, none, some, List, [], ◌∷◌, ◌++◌, if_ind, ◌==◌,
}
use cpp_statecharts.Event.{Event, signal, timeout_event}
use cpp_statecharts.DelayQueue
use cpp_statecharts.DelayQueue.{DelayQueue, Round, taken, stopped, waits, round, remove_first}
use cpp_statecharts.DelayQueue.Taking.{round_cases}
use cpp_statecharts.ThreadPool.{Step, executes, ended}
use cpp_statecharts.ThreadPool.SingleWorker.{IsSingle}
use cpp_statecharts.ThreadPool.Refusing.{Stays, Stays-refl, step-Stays}
use cpp_statecharts.Entries.{
  Entry, delayed_entry, Scheduler, insert_entry, enqueue_timeout, mark_invalid, cancel_from,
  cancel_timeout,
}
use cpp_statecharts.Asynchronous.{
  TimeoutThread, at_head, taking, testing, asking, posting, returned, awaiting, joining, awaited,
  Phase, not_called, flag_cleared, queue_cleared, queue_stopped, pool_stopped, thread_joined,
  finished, System, with_pool, post_entry, submit, after_round, time_step,
}

-- The place of a phase in the order of the calls.
abbrev pub rank : Phase → ℕ
rank not_called = 0
rank flag_cleared = 1
rank queue_cleared = 2
rank queue_stopped = 3
rank pool_stopped = 4
rank thread_joined = 5
rank (awaiting deadline i) = 6
rank (joining deadline i) = 6
rank (awaited b) = 7
rank finished = 8

-- The members that nothing but `shutdown` sets.
pub record SameFlags (q r : Scheduler) : Type 0 where
  pub running : r.is_running ≡ q.is_running
  pub stop : r.timeout_queue.stop_flag ≡ q.timeout_queue.stop_flag
  pub pool : Stays q.pool r.pool

pub same : (q : Scheduler) → SameFlags q q
same q = record { running = refl; stop = refl; pool = Stays-refl q.pool }

pub with_pool-SameFlags : (s : Step Entry) (q : Scheduler) → SameFlags q (with_pool s q)
unfolding with_pool
with_pool-SameFlags s q = record { running = refl; stop = refl; pool = step-Stays s q.pool }

pub submit-SameFlags :
    (now chart data_of : ℕ) (e : Option Event) (q : Scheduler)
    → SameFlags q (submit now chart data_of e q)
unfolding submit post_entry insert_entry DelayQueue.add with_pool
submit-SameFlags now chart data_of none q = record {
  running = refl;
  stop = refl;
  pool = step-Stays _ q.pool;
}
submit-SameFlags now chart data_of (some (signal i)) q = record {
  running = refl;
  stop = refl;
  pool = step-Stays _ q.pool;
}
submit-SameFlags now chart data_of (some (timeout_event u ms)) q = record {
  running = refl;
  stop = refl;
  pool = Stays-refl q.pool;
}

cancel_from-SameFlags :
    (i : ℕ) (before after : List Entry) (q : Scheduler) → SameFlags q (cancel_from i before after q)
unfolding cancel_from DelayQueue.remove
cancel_from-SameFlags i before [] q = same q
cancel_from-SameFlags i before (e ∷ after) q =
    if_ind (SameFlags q) (e.id == i)
      (λ _. record { running = refl; stop = refl; pool = Stays-refl q.pool })
      (λ _. cancel_from-SameFlags i (before ++ (e ∷ [])) after q)

pub cancel_timeout-SameFlags : (i : Option ℕ) (q : Scheduler) → SameFlags q (cancel_timeout i q)
unfolding cancel_timeout mark_invalid
cancel_timeout-SameFlags none q = same q
cancel_timeout-SameFlags (some i) q =
    let cut = cancel_from-SameFlags i [] q.pending_entries (mark_invalid i q) in
    record { running = cut.running; stop = cut.stop; pool = cut.pool }

pub enqueue_timeout-SameFlags :
    (now : ℕ) (chart : Option ℕ) (state data_of : ℕ) (e : Event) (ms : ℕ) (q : Scheduler)
    → SameFlags q (enqueue_timeout now chart state data_of e ms q).1
unfolding enqueue_timeout insert_entry DelayQueue.add
enqueue_timeout-SameFlags now chart state data_of e ms q =
    if_ind (λ (r : Option ℕ × Scheduler). SameFlags q r.1) q.is_running
      (λ _. record { running = refl; stop = refl; pool = Stays-refl q.pool }) (λ _. same q)

-- A step of the timeout thread: the flags stay, and a thread that has returned stays so.
pub record Timed (t : TimeoutThread) (q : Scheduler) (r : TimeoutThread × Scheduler) : Type 0 where
  pub flags : SameFlags q r.1
  pub stays : t ≡ returned → r.0 ≡ returned

after_round-SameFlags :
    (now : ℕ) (q : Scheduler) (r : Round delayed_entry)
    → round delayed_entry now q.timeout_queue ≡ r
    → SameFlags q (after_round q r).1
unfolding after_round
after_round-SameFlags now q waits e = same q
after_round-SameFlags now q stopped e = same q
after_round-SameFlags now q (taken entry left) e =
    let (_, _, left_stop, stop) = round_cases delayed_entry now q.timeout_queue e in
    record { running = refl; stop = cc; pool = Stays-refl q.pool }

pub time_step-Timed : (now : ℕ) (t : TimeoutThread) (q : Scheduler) → Timed t q (time_step now t q)
unfolding time_step
time_step-Timed now at_head q = record { flags = same q; stays = λ h. cc }
time_step-Timed now taking q = record {
  flags = after_round-SameFlags now q (round delayed_entry now q.timeout_queue) refl;
  stays = λ h. cc;
}
time_step-Timed now (testing entry) q = record { flags = same q; stays = λ h. cc }
time_step-Timed now (asking entry) q = record { flags = same q; stays = λ h. cc }
time_step-Timed now (posting entry) q = record {
  flags = with_pool-SameFlags (executes (some entry)) q;
  stays = λ h. cc;
}
time_step-Timed now returned q = record { flags = same q; stays = λ h. refl }

-- The wait for the one worker is over.
abbrev pub Joined : Phase → Type 0
Joined (awaiting deadline i) = 1 ≤ i
Joined (joining deadline i) = 1 ≤ i
Joined (awaited b) = b ≡ true
Joined _ = ⊥

-- The flags that are set once `shutdown` has come so far, and the threads that have returned.
pub record Halting (p : Phase) (t : TimeoutThread) (q : Scheduler) : Type 0 where
  pub not_running : 1 ≤ rank p → q.is_running ≡ false
  pub no_take : 3 ≤ rank p → q.timeout_queue.stop_flag ≡ true
  pub no_task : 4 ≤ rank p → q.pool.shutdown_flag ≡ true
  pub no_thread : 5 ≤ rank p → t ≡ returned
  pub no_worker : Joined p → q.pool.workers ≡ ended ∷ []
  pub single : IsSingle q.pool

abbrev pub SystemHalting : System → Type 0
SystemHalting s = Halting s.phase s.timeout_thread s.scheduler

pub keep_flags :
    (p : Phase) (t u : TimeoutThread) (q r : Scheduler)
    → SameFlags q r
    → (t ≡ returned → u ≡ returned)
    → Halting p t q
    → Halting p u r
keep_flags p t u q r f k h = record {
  not_running = λ le. f.running ∙ h.not_running le;
  no_take = λ le. f.stop ∙ h.no_take le;
  no_task = λ le. f.pool.down (h.no_task le);
  no_thread = λ le. k (h.no_thread le);
  no_worker = λ j. f.pool.gone (h.no_worker j);
  single = f.pool.single h.single;
}
