-- ===== src/Examples/Timing.antt =====
-- include/CppStatecharts/DelayQueue.hpp and the timeouts of include/CppStatecharts/Statechart.hpp
-- at concrete inputs.
use cpp_statecharts.Base.{ℕ, ◌≡◌, ◌≤◌, refl, arith, ◌==◌, false, some, List, [], ◌∷◌, All}
use cpp_statecharts.Event.{timeout_event}
use cpp_statecharts.DelayQueue
use cpp_statecharts.DelayQueue.{
  DelayQueue, Delayed, Op, adds, removes, stops, Round, taken, waits, take, apply, apply_all,
  insert_at_bound, round,
}
use cpp_statecharts.DelayQueue.Order.{IsSorted, apply_all-IsSorted, Placed, add-Placed}
use cpp_statecharts.DelayQueue.Taking.{Wakes, take-taken}
use cpp_statecharts.Entries.{Scheduler, enqueue_timeout, cancel_timeout}
use cpp_statecharts.Entries.Orderly.{Orderly, enqueue_timeout-Orderly}
use cpp_statecharts.Entries.Cancelling.{Cancelled, cancel_timeout-Cancelled}
use cpp_statecharts.Examples.Samples.{idle_scheduler}

-- Elements that are their own deadline, with a second component that tells ties apart.
abbrev pair_delayed : Delayed (ℕ × ℕ)
pair_delayed = record { deadline = λ x. x.0; same = λ x y. x.1 == y.1 }

abbrev queue : DelayQueue (ℕ × ℕ)
queue = record { items = (3, 1) ∷ (7, 2) ∷ []; stop_flag = false }

queue-IsSorted : IsSorted pair_delayed queue.items
queue-IsSorted = ((omega arith, tt), (tt, tt))

apply_all-IsSorted_example :
    IsSorted pair_delayed (apply_all pair_delayed (adds (5, 3) ∷ removes (7, 2) ∷ []) queue).items
apply_all-IsSorted_example =
    apply_all-IsSorted pair_delayed (adds (5, 3) ∷ removes (7, 2) ∷ []) queue queue-IsSorted

add-Placed_example :
    Placed pair_delayed (7, 9) queue.items (DelayQueue.add pair_delayed (7, 9) queue).items
add-Placed_example = add-Placed pair_delayed (7, 9) queue queue-IsSorted

-- The thread wakes up too early, and then after another thread has added an earlier element.
abbrev wake_ups : List (List (Op pair_delayed) × ℕ)
wake_ups = ([], 1) ∷ (adds (2, 4) ∷ [], 2) ∷ []

take-taken_example :
    (ops : List (Op pair_delayed)) × (now : ℕ) × Wakes pair_delayed wake_ups ops now
    × ((apply_all pair_delayed ops queue).stop_flag ≡ false)
    × ((apply_all pair_delayed ops queue).items ≡ (2, 4) ∷ queue.items)
    × (2 ≤ now)
    × All (λ y. 2 ≤ y.0) queue.items
    × IsSorted pair_delayed queue.items
unfolding take round apply_all insert_at_bound apply DelayQueue.add
take-taken_example =
    take-taken pair_delayed wake_ups queue {x = (2, 4)} {left = queue} queue-IsSorted refl

start-Orderly : Orderly idle_scheduler
start-Orderly = record {
  sorted = tt;
  queued_le = λ i. omega arith;
  pending_le = λ i. omega arith;
  fresh = λ i le. refl;
}

abbrev one_timeout : Scheduler
one_timeout =
    (enqueue_timeout 100 (some 0) 1 9 (timeout_event (record { high = 1; low = 2 }) 30) 30
      idle_scheduler).1

cancel_timeout-Cancelled_example : Cancelled 0 one_timeout (cancel_timeout (some 0) one_timeout)
cancel_timeout-Cancelled_example = cancel_timeout-Cancelled 0 one_timeout (
    enqueue_timeout-Orderly 100 (some 0) 1 9 (timeout_event (record { high = 1; low = 2 }) 30) 30
      idle_scheduler start-Orderly)
