-- ===== src/Examples/Threads.antt =====
-- The threads of src/Statechart.cpp: a signal, a timeout that fires, one that is cancelled, and a
-- shutdown.
use cpp_statecharts.Base.{◌≡◌, refl, ◌⊎◌, inr, arith, some, length, List, [], ◌∷◌}
use cpp_statecharts.Event.{Event, timeout_event}
use cpp_statecharts.ThreadPool
use cpp_statecharts.Entries.{enqueue_timeout, insert_entry, is_invalid}
use cpp_statecharts.DelayQueue
use cpp_statecharts.DelayQueue.{round}
use cpp_statecharts.Entries.Orderly.{Orderly}
use cpp_statecharts.Asynchronous.{
  time_step, Move, dispatches, works, times, enqueues, cancels, shuts, move, moves, new_system,
  dispatch_asynchron, submit, post_entry, with_pool, shutdown_step, after_round, is_shutdown,
}
use cpp_statecharts.Asynchronous.Pooling.{InOrder, pool_steps, moves-InOrder}
use cpp_statecharts.Asynchronous.Bookkeeping.{InOrderUntilEnd, moves-InOrderUntilEnd}
use cpp_statecharts.Asynchronous.Firing.{Fired, time_step-Fired}
use cpp_statecharts.Asynchronous.Ending.{Reaches, Finished, shutdown_ends}
use cpp_statecharts.Asynchronous.Closing.{Halted, history-Halted}
use cpp_statecharts.Examples.Samples.{go}

abbrev delayed : Event
delayed = timeout_event (record { high = 1; low = 2 }) 30

abbrev calls : List Move
calls =
    dispatches 100 0 9 (some go)
    ∷ enqueues 100 (some 0) 1 9 delayed 30
    ∷ works 0
    ∷ times 100
    ∷ dispatches 101 0 9 (some delayed)
    ∷ cancels (some 1)
    ∷ times 129
    ∷ works 0
    ∷ times 131
    ∷ works 0
    ∷ shuts 140
    ∷ []

moves-InOrder_example :
    InOrder (pool_steps calls new_system) (moves calls new_system).scheduler.pool
moves-InOrder_example = moves-InOrder calls

new_system-Orderly : Orderly new_system.scheduler
unfolding new_system
new_system-Orderly = record {
  sorted = tt;
  queued_le = λ i. omega arith;
  pending_le = λ i. omega arith;
  fresh = λ i le. refl;
}

moves-InOrderUntilEnd_example :
    InOrderUntilEnd (moves calls new_system).phase (moves calls new_system).scheduler
moves-InOrderUntilEnd_example = moves-InOrderUntilEnd calls new_system (inr new_system-Orderly)

-- A timeout is due; the timeout thread has taken it and passed both tests.
abbrev at_hand_over : List Move
at_hand_over =
    enqueues 100 (some 0) 1 9 delayed 30 ∷ times 100 ∷ times 131 ∷ times 131 ∷ times 132 ∷ []

time_step-Fired_example :
    ((move (times 133) (moves at_hand_over new_system)).scheduler.pool
      ≡ (moves at_hand_over new_system).scheduler.pool)
    ⊎ Fired at_hand_over
        (moves at_hand_over new_system).scheduler
        (move (times 133) (moves at_hand_over new_system)).scheduler
time_step-Fired_example = time_step-Fired at_hand_over 133

-- It is handed over.
hand_over_test : length (move (times 133) (moves at_hand_over new_system)).scheduler.pool.tasks ≡ 1
unfolding moves move enqueue_timeout insert_entry new_system with_pool ThreadPool.step
    ThreadPool.make time_step after_round round is_shutdown is_invalid DelayQueue.add
    DelayQueue.insert_at_bound
hand_over_test = refl

history-Halted_example : Halted (moves calls new_system)
history-Halted_example = history-Halted calls

-- The same for a shutdown that is called while the timeout thread waits in `take`.
abbrev early_calls : List Move
early_calls = dispatches 100 0 9 (some go) ∷ times 100 ∷ shuts 110 ∷ []

shutdown_ends_example : Reaches 200 (Finished 200) (moves early_calls new_system)
unfolding moves move dispatch_asynchron submit post_entry with_pool ThreadPool.step ThreadPool.make
    time_step shutdown_step new_system
shutdown_ends_example = shutdown_ends 200 early_calls (omega arith)
