-- ===== src/Asynchronous.antt =====
-- The asynchronous interface of include/CppStatecharts/Statechart.hpp and src/Statechart.cpp:
-- dispatchAsynchron, the loop of the timeout thread, and shutdown, as a state machine whose steps
-- the threads take in any order. What a worker does while it runs an entry reaches the scheduler by
-- enqueueTimeout and cancelTimeout alone.
pub mod Pooling
pub mod Bookkeeping
pub mod Stopping
pub mod Closing
pub mod Ending
pub mod Firing
use cpp_statecharts.Base.{
  ℕ, ◌+◌, Bool, true, false, Option, none, some, List, [], ◌∷◌, ◌++◌, if◌then◌else◌, leb, get_elem?,
}
use cpp_statecharts.Event.{Event, signal, timeout_event}
use cpp_statecharts.DelayQueue
use cpp_statecharts.DelayQueue.{Round, taken, stopped, waits, round}
use cpp_statecharts.ThreadPool
use cpp_statecharts.ThreadPool.{
  ThreadPool, Worker, waiting, running, ended, Step, executes, shuts_down, advances,
}
use cpp_statecharts.Entries.{
  Entry, delayed_entry, Scheduler, new_entry, insert_entry, enqueue_timeout, cancel_timeout,
  is_invalid,
}

-- Where the timeout thread stands in `timeoutLoop`: at the head of the loop, in `take`, with the
-- entry that `take` has handed out before the test `invalid`, before `isShutdown`, before the
-- pool's `execute`, or past the return.
pub data TimeoutThread : Type 0 where
  at_head taking returned : TimeoutThread
  testing asking posting : Entry → TimeoutThread

-- How far the call of `shutdown` has come that found the chart running. In `awaitTermination` it
-- stands at the head of the loop over the workers, with the deadline and the index, or waits for a
-- worker; `awaited` has the value returned.
pub data Phase : Type 0 where
  not_called flag_cleared queue_cleared queue_stopped pool_stopped thread_joined finished : Phase
  awaiting joining : (deadline i : ℕ) → Phase
  awaited : (all_finished : Bool) → Phase

pub record System : Type 0 where
  pub scheduler : Scheduler
  pub timeout_thread : TimeoutThread
  pub phase : Phase

-- A step of the pool, with the entries as its tasks.
unfoldable pub with_pool : Step Entry → Scheduler → Scheduler
with_pool s q = record q { pool = (ThreadPool.step s q.pool).0 }

-- The entry is kept alive by the vector and handed to the pool.
unfoldable pub post_entry : Entry → Scheduler → Scheduler
post_entry entry q =
    with_pool (executes (some entry))
      (record q { pending_entries = q.pending_entries ++ (entry ∷ []); next_id = q.next_id + 1 })

unfoldable pub submit : ℕ → ℕ → ℕ → Option Event → Scheduler → Scheduler
submit now chart data_of none q =
    post_entry (new_entry q.next_id (some chart) (some chart) (some data_of) none 0 now) q
submit now chart data_of (some (signal i)) q =
    post_entry
      (new_entry q.next_id (some chart) (some chart) (some data_of) (some (signal i)) 0 now) q
submit now chart data_of (some (timeout_event u ms)) q =
    insert_entry
      (new_entry q.next_id (some chart) (some chart) (some data_of) (some (timeout_event u ms)) ms
        (now + ms))
      q

-- Statechart::dispatchAsynchron, at a reading of the clock.
unfoldable pub dispatch_asynchron : ℕ → ℕ → ℕ → Option Event → Scheduler → Scheduler
dispatch_asynchron now chart data_of event q =
    if q.pool.shutdown_flag then q else submit now chart data_of event q

-- Statechart::isShutdown.
unfoldable pub is_shutdown : Scheduler → Bool
is_shutdown q = q.pool.shutdown_flag

unfoldable pub after_round : Scheduler → Round delayed_entry → TimeoutThread × Scheduler
after_round q waits = (taking, q)
after_round q stopped = (returned, q)
after_round q (taken entry left) = (testing entry, record q { timeout_queue = left })

-- A step of the timeout thread, at a reading of the clock: the test of the loop, a round of `take`,
-- one of the two tests behind it, or the call of `execute`. Other threads may come in between.
unfoldable pub time_step : ℕ → TimeoutThread → Scheduler → TimeoutThread × Scheduler
time_step now at_head q = (if q.is_running then taking else returned, q)
time_step now taking q = after_round q (round delayed_entry now q.timeout_queue)
time_step now (testing entry) q = (if is_invalid entry.id q then at_head else asking entry, q)
time_step now (asking entry) q = (if is_shutdown q then returned else posting entry, q)
time_step now (posting entry) q = (at_head, with_pool (executes (some entry)) q)
time_step now returned q = (returned, q)

abbrev pub has_returned : TimeoutThread → Bool
has_returned returned = true
has_returned _ = false

-- The head of the loop of `awaitTermination`. (Every worker is joinable, since the body of
-- `shutdown` runs once.)
abbrev pub await_worker : (now deadline i : ℕ) → Option (Worker Entry) → Phase
await_worker now deadline i none = awaited true
await_worker now deadline i (some w) =
    if leb deadline now then awaited false else joining deadline i

-- The wait for a worker is over when it has returned: the condition of `wait_until` holds then, and
-- the `join` behind it waits without a bound.
abbrev pub join_worker : (deadline i : ℕ) → Option (Worker Entry) → Phase
join_worker deadline i (some ended) = awaiting deadline (i + 1)
join_worker deadline i (some waiting) = joining deadline i
join_worker deadline i (some (running e)) = joining deadline i
join_worker deadline i none = awaited true

-- A step of the thread that is in `shutdown`, at a reading of the clock. It waits for the timeout
-- thread, and then in the pool's awaitTermination for the workers.
unfoldable pub shutdown_step : ℕ → Phase → TimeoutThread → Scheduler → Phase × Scheduler
shutdown_step now not_called t q =
    if q.is_running then (flag_cleared, record q { is_running = false }) else (not_called, q)
shutdown_step now flag_cleared t q =
    (queue_cleared, record q { timeout_queue = DelayQueue.clear delayed_entry q.timeout_queue })
shutdown_step now queue_cleared t q =
    (queue_stopped, record q { timeout_queue = DelayQueue.stop delayed_entry q.timeout_queue })
shutdown_step now queue_stopped t q = (pool_stopped, with_pool shuts_down q)
shutdown_step now pool_stopped t q = (if has_returned t then thread_joined else pool_stopped, q)
shutdown_step now thread_joined t q = (awaiting (now + 60000) 0, q)
shutdown_step now (awaiting deadline i) t q =
    (await_worker now deadline i (get_elem? q.pool.workers i), q)
shutdown_step now (joining deadline i) t q =
    (join_worker deadline i (get_elem? q.pool.workers i), q)
shutdown_step now (awaited all_finished) t q = (finished, record q { pending_entries = [] })
shutdown_step now finished t q = (finished, q)

-- Whose step is next: a client's call of dispatchAsynchron, a worker's, the timeout thread's, a
-- call that a running entry makes, or that of `shutdown`.
pub data Move : Type 0 where
  dispatches : (now chart data_of : ℕ) → Option Event → Move
  works : ℕ → Move
  times : ℕ → Move
  enqueues : ℕ → Option ℕ → (state data_of : ℕ) → Event → ℕ → Move
  cancels : Option ℕ → Move
  shuts : ℕ → Move

unfoldable pub move : Move → System → System
move (dispatches now chart data_of e) s = record s {
  scheduler = dispatch_asynchron now chart data_of e s.scheduler;
}
move (works i) s = record s { scheduler = with_pool (advances i) s.scheduler }
move (times now) s =
    let (t, q) = time_step now s.timeout_thread s.scheduler in
    record s { timeout_thread = t; scheduler = q }
move (enqueues now chart state data_of e ms) s = record s {
  scheduler = (enqueue_timeout now chart state data_of e ms s.scheduler).1;
}
move (cancels i) s = record s { scheduler = cancel_timeout i s.scheduler }
move (shuts now) s =
    let (p, q) = shutdown_step now s.phase s.timeout_thread s.scheduler in
    record s { phase = p; scheduler = q }

unfoldable pub moves : List Move → System → System
moves [] s = s
moves (m ∷ ms) s = moves ms (move m s)

-- The system that the constructor of Statechart leaves: a pool of one worker and the timeout
-- thread.
unfoldable pub new_system : System
new_system = record {
  scheduler = record {
    is_running = true;
    timeout_queue = record { items = []; stop_flag = false };
    pending_entries = [];
    pool = ThreadPool.make 1;
    invalid_ids = [];
    next_id = 0;
  };
  timeout_thread = at_head;
  phase = not_called;
}
