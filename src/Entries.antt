-- ===== src/Entries.antt =====
-- include/CppStatecharts/EventQueueEntry.hpp, and the data members of include/CppStatecharts/
-- Statechart.hpp that the timeouts and the asynchronous dispatch use.
pub mod Orderly
pub mod Cancelling
use cpp_statecharts.Base.{
  ℕ, ◌+◌, Bool, true, false, ◌||◌, Option, none, some, List, [], ◌∷◌, ◌++◌, if◌then◌else◌, ◌==◌,
  contains, map,
}
use cpp_statecharts.Event.{Event}
use cpp_statecharts.DelayQueue
use cpp_statecharts.DelayQueue.{DelayQueue, Delayed}
use cpp_statecharts.ThreadPool.{ThreadPool, Worker, running, waiting, ended}

-- The members of an EventQueueEntry that its constructor sets for good. `m_invalid` changes, and is
-- kept beside the entries. `id` is the address of the object too.
pub record Entry : Type 0 where
  pub id : ℕ
  pub statechart : Option ℕ
  pub state : Option ℕ
  pub data_of : Option ℕ
  pub event : Option Event
  pub relative_timeout : ℕ
  pub deadline : ℕ

abbrev pub delayed_entry : Delayed Entry
delayed_entry = record { deadline = λ e. e.deadline; same = λ a b. a.id == b.id }

-- The members of a Statechart that change while it runs, with the flags `m_invalid` of all
-- entries as the list of the ids where it is set, and the counter of ids.
pub record Scheduler : Type 0 where
  pub is_running : Bool
  pub timeout_queue : DelayQueue Entry
  pub pending_entries : List Entry
  pub pool : ThreadPool Entry
  pub invalid_ids : List ℕ
  pub next_id : ℕ

abbrev pub ids : List Entry → List ℕ
ids = map (λ e. e.id)

abbrev pub running_entries : List (Worker Entry) → List Entry
running_entries [] = []
running_entries (running e ∷ ws) = e ∷ running_entries ws
running_entries (_ ∷ ws) = running_entries ws

-- The object of an entry lives while a vector, the queue or a task holds a shared pointer to it.
unfoldable pub is_alive : ℕ → Scheduler → Bool
is_alive i q =
    contains i (ids q.pending_entries)
    || contains i (ids q.timeout_queue.items)
    || contains i (ids q.pool.tasks)
    || contains i (ids (running_entries q.pool.workers))

unfoldable pub is_invalid : ℕ → Scheduler → Bool
is_invalid i q = contains i q.invalid_ids

unfoldable pub mark_invalid : ℕ → Scheduler → Scheduler
mark_invalid i q = record q { invalid_ids = i ∷ q.invalid_ids }

-- The constructor of EventQueueEntry, at an id that the counter gives.
abbrev pub new_entry : ℕ → Option ℕ → Option ℕ → Option ℕ → Option Event → ℕ → ℕ → Entry
new_entry id chart state data_of event timeout deadline = record {
  id = id;
  statechart = chart;
  state = state;
  data_of = data_of;
  event = event;
  relative_timeout = timeout;
  deadline = deadline;
}

-- An entry is kept alive by the vector and waits in the queue.
unfoldable pub insert_entry : Entry → Scheduler → Scheduler
insert_entry entry q = record q {
  pending_entries = q.pending_entries ++ (entry ∷ []);
  timeout_queue = DelayQueue.add delayed_entry entry q.timeout_queue;
  next_id = q.next_id + 1;
}

-- Statechart::enqueueTimeout, at a reading of the clock: null if the chart does not run.
unfoldable pub enqueue_timeout : ℕ → Option ℕ → ℕ → ℕ → Event → ℕ → Scheduler → Option ℕ × Scheduler
enqueue_timeout now chart state data_of event timeout q =
    if q.is_running
    then (
      some q.next_id,
      insert_entry
          (new_entry q.next_id chart (some state) (some data_of) (some event) timeout
            (now + timeout))
          q,
    )
    else (none, q)

-- The loop of `cancelTimeout`: the first pending entry that is the given one leaves the queue and
-- the vector.
unfoldable pub cancel_from : ℕ → List Entry → List Entry → Scheduler → Scheduler
cancel_from i before [] q = q
cancel_from i before (e ∷ after) q =
    if e.id == i
    then record q {
      timeout_queue = DelayQueue.remove delayed_entry e q.timeout_queue;
      pending_entries = before ++ after;
    }
    else cancel_from i (before ++ (e ∷ [])) after q

-- Statechart::cancelTimeout.
unfoldable pub cancel_timeout : Option ℕ → Scheduler → Scheduler
cancel_timeout none q = q
cancel_timeout (some i) q = cancel_from i [] q.pending_entries (mark_invalid i q)
