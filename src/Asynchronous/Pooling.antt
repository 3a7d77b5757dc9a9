-- ===== src/Asynchronous/Pooling.antt =====
-- dispatchAsynchron and the timeout thread of src/Statechart.cpp as clients of src/ThreadPool.cpp.
use cpp_statecharts.Base.{
  ℕ, ◌≡◌, refl, ap, ◌∙◌, sym, false, Option, none, some, List, [], ◌∷◌, ◌++◌, if◌then◌else◌, ◌==◌,
  if_ind, if_ind_both,
}
use cpp_statecharts.Event.{Event, signal, timeout_event}
use cpp_statecharts.DelayQueue.{Round, taken, stopped, waits, round}
use cpp_statecharts.ThreadPool.{
  ThreadPool, Step, executes, shuts_down, advances, waiting, step, run, make,
}
use cpp_statecharts.ThreadPool.Fifo.{accepts, finishes}
use cpp_statecharts.ThreadPool.SingleWorker.{backlog, run_in_order}
use cpp_statecharts.Entries.{
  Entry, delayed_entry, Scheduler, new_entry, insert_entry, enqueue_timeout, mark_invalid,
  cancel_from, cancel_timeout,
}
use cpp_statecharts.Asynchronous.{
  TimeoutThread, at_head, taking, testing, asking, posting, returned, awaiting, joining, awaited,
  Phase, not_called, flag_cleared, queue_cleared, queue_stopped, pool_stopped, thread_joined,
  finished, System, with_pool, post_entry, submit, dispatch_asynchron, after_round, time_step,
  shutdown_step, Move, dispatches, works, times, enqueues, cancels, shuts, move, moves, new_system,
}

-- The steps that the pool makes in one move.
abbrev submit_steps : ℕ → ℕ → ℕ → Option Event → Scheduler → List (Step Entry)
submit_steps now chart data_of none q =
    executes (some (new_entry q.next_id (some chart) (some chart) (some data_of) none 0 now)) ∷ []
submit_steps now chart data_of (some (signal i)) q =
    executes
      (some (new_entry q.next_id (some chart) (some chart) (some data_of) (some (signal i)) 0 now))
    ∷ []
submit_steps now chart data_of (some (timeout_event u ms)) q = []

abbrev time_steps : TimeoutThread → List (Step Entry)
time_steps (posting entry) = executes (some entry) ∷ []
time_steps _ = []

abbrev shutdown_steps : Phase → List (Step Entry)
shutdown_steps queue_stopped = shuts_down ∷ []
shutdown_steps _ = []

abbrev move_steps : Move → System → List (Step Entry)
move_steps (dispatches now chart data_of e) s =
    if s.scheduler.pool.shutdown_flag then [] else submit_steps now chart data_of e s.scheduler
move_steps (works i) s = advances i ∷ []
move_steps (times now) s = time_steps s.timeout_thread
move_steps (enqueues now chart state data_of e ms) s = []
move_steps (cancels i) s = []
move_steps (shuts now) s = shutdown_steps s.phase

-- The steps of the pool in a history of the chart: the entries that are handed to it, the steps
-- of its worker, and its shutdown.
abbrev pub pool_steps : List Move → System → List (Step Entry)
pool_steps [] s = []
pool_steps (m ∷ ms) s = move_steps m s ++ pool_steps ms (move m s)

-- The scheduler's pool is the one that the steps lead to.
abbrev Follows : List (Step Entry) → Scheduler → Scheduler → Type 0
Follows steps q r = r.pool ≡ (run steps q.pool).0

one_step : (s : Step Entry) (q : Scheduler) → Follows (s ∷ []) q (with_pool s q)
unfolding run with_pool
one_step s q = refl

no_step : (q r : Scheduler) → r.pool ≡ q.pool → Follows [] q r
unfolding run
no_step q r h = h

cancel_from-pool :
    (i : ℕ) (before after : List Entry) (q : Scheduler)
    → (cancel_from i before after q).pool ≡ q.pool
unfolding cancel_from
cancel_from-pool i before [] q = refl
cancel_from-pool i before (e ∷ after) q =
    if_ind (λ (r : Scheduler). r.pool ≡ q.pool) (e.id == i) (λ _. refl)
      (λ _. cancel_from-pool i (before ++ (e ∷ [])) after q)

cancel_timeout-pool : (i : Option ℕ) (q : Scheduler) → (cancel_timeout i q).pool ≡ q.pool
unfolding cancel_timeout mark_invalid
cancel_timeout-pool none q = refl
cancel_timeout-pool (some i) q = cancel_from-pool i [] q.pending_entries (mark_invalid i q)

enqueue_timeout-pool :
    (now : ℕ) (chart : Option ℕ) (state data_of : ℕ) (e : Event) (ms : ℕ) (q : Scheduler)
    → (enqueue_timeout now chart state data_of e ms q).1.pool ≡ q.pool
unfolding enqueue_timeout insert_entry
enqueue_timeout-pool now chart state data_of e ms q =
    if_ind (λ (r : Option ℕ × Scheduler). r.1.pool ≡ q.pool) q.is_running (λ _. refl) (λ _. refl)

submit-Follows :
    (now chart data_of : ℕ) (e : Option Event) (q : Scheduler)
    → Follows (submit_steps now chart data_of e q) q (submit now chart data_of e q)
unfolding submit post_entry insert_entry run with_pool
submit-Follows now chart data_of none q = refl
submit-Follows now chart data_of (some (signal i)) q = refl
submit-Follows now chart data_of (some (timeout_event u ms)) q = refl

after_round-Follows : (q : Scheduler) (r : Round delayed_entry) → Follows [] q (after_round q r).1
unfolding after_round
after_round-Follows q waits = no_step q q refl
after_round-Follows q stopped = no_step q q refl
after_round-Follows q (taken entry left) = no_step q (record q { timeout_queue = left }) refl

time_step-Follows :
    (now : ℕ) (t : TimeoutThread) (q : Scheduler) → Follows (time_steps t) q (time_step now t q).1
unfolding time_step
time_step-Follows now at_head q = no_step q q refl
time_step-Follows now taking q = after_round-Follows q (round delayed_entry now q.timeout_queue)
time_step-Follows now (testing entry) q = no_step q q refl
time_step-Follows now (asking entry) q = no_step q q refl
time_step-Follows now (posting entry) q = one_step (executes (some entry)) q
time_step-Follows now returned q = no_step q q refl

shutdown_step-Follows :
    (now : ℕ) (p : Phase) (t : TimeoutThread) (q : Scheduler)
    → Follows (shutdown_steps p) q (shutdown_step now p t q).1
unfolding shutdown_step
shutdown_step-Follows now not_called t q =
    if_ind (λ (r : Phase × Scheduler). Follows [] q r.1) q.is_running
      (λ _. no_step q (record q { is_running = false }) refl) (λ _. no_step q q refl)
shutdown_step-Follows now flag_cleared t q = no_step q (shutdown_step now flag_cleared t q).1 refl
shutdown_step-Follows now queue_cleared t q = no_step q (shutdown_step now queue_cleared t q).1 refl
shutdown_step-Follows now queue_stopped t q = one_step shuts_down q
shutdown_step-Follows now pool_stopped t q = no_step q q refl
shutdown_step-Follows now thread_joined t q = no_step q q refl
shutdown_step-Follows now (awaiting deadline i) t q = no_step q q refl
shutdown_step-Follows now (joining deadline i) t q = no_step q q refl
shutdown_step-Follows now (awaited b) t q = no_step q (record q { pending_entries = [] }) refl
shutdown_step-Follows now finished t q = no_step q q refl

move-Follows : (m : Move) (s : System) → Follows (move_steps m s) s.scheduler (move m s).scheduler
unfolding move dispatch_asynchron
move-Follows (dispatches now chart data_of e) s =
    if_ind_both (λ steps r. Follows steps s.scheduler r) s.scheduler.pool.shutdown_flag
      (λ _. no_step s.scheduler s.scheduler refl)
      (λ _. submit-Follows now chart data_of e s.scheduler)
move-Follows (works i) s = one_step (advances i) s.scheduler
move-Follows (times now) s = time_step-Follows now s.timeout_thread s.scheduler
move-Follows (enqueues now chart state data_of e ms) s =
    no_step s.scheduler (enqueue_timeout now chart state data_of e ms s.scheduler).1
      (enqueue_timeout-pool now chart state data_of e ms s.scheduler)
move-Follows (cancels i) s =
    no_step s.scheduler (cancel_timeout i s.scheduler) (cancel_timeout-pool i s.scheduler)
move-Follows (shuts now) s = shutdown_step-Follows now s.phase s.timeout_thread s.scheduler

run-append :
    (xs ys : List (Step Entry)) (p : ThreadPool Entry)
    → (run (xs ++ ys) p).0 ≡ (run ys (run xs p).0).0
unfolding run
run-append [] ys p = refl
run-append (x ∷ xs) ys p = run-append xs ys (step x p).0

moves-Follows :
    (ms : List Move) (s : System) → Follows (pool_steps ms s) s.scheduler (moves ms s).scheduler
unfolding moves
moves-Follows [] s = no_step s.scheduler s.scheduler refl
moves-Follows (m ∷ ms) s =
    moves-Follows ms (move m s)
    ∙ ap (λ p. (run (pool_steps ms (move m s)) p).0) (move-Follows m s)
    ∙ sym (run-append (move_steps m s) (pool_steps ms (move m s)) s.scheduler.pool)

-- What the pool of a history has done: it is a history of the pool itself, and what it has
-- finished, then what it is at and what is queued, are the entries that were handed to it, in
-- that order.
pub record InOrder (steps : List (Step Entry)) (pool : ThreadPool Entry) : Type 0 where
  pub refines : pool ≡ (run steps (make 1)).0
  pub in_order : accepts (run steps (make 1)).1 ≡ finishes (run steps (make 1)).1 ++ backlog pool

-- In every history of a new chart its pool makes only steps of the pool, and finishes the entries
-- that dispatchAsynchron and the timeout thread hand to it in the order in which they do.
pub moves-InOrder :
    (ms : List Move) → InOrder (pool_steps ms new_system) (moves ms new_system).scheduler.pool
unfolding new_system make
moves-InOrder ms =
    let same = moves-Follows ms new_system in
    record {
      refines = same;
      in_order =
          run_in_order (pool_steps ms new_system) (make 1) (waiting, refl)
          ∙ ap (λ p. finishes (run (pool_steps ms new_system) (make 1)).1 ++ backlog p) (sym same);
    }
