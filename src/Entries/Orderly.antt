-- ===== src/Entries/Orderly.antt =====
-- The bookkeeping of include/CppStatecharts/Statechart.hpp over its entries: each entry that
-- waits in the queue is kept alive by the vector of pending entries, once.
use cpp_statecharts.Base.{
  ℕ, ◌+◌, ◌-◌, ◌≤◌, ◌≡◌, refl, Option, some, List, [], ◌∷◌, ◌++◌, if◌then◌else◌, ◌==◌, arith,
  if_ind,
}
use cpp_statecharts.Event.{Event}
use cpp_statecharts.DelayQueue
use cpp_statecharts.DelayQueue.{DelayQueue, insert_at_bound, remove_first, Op, adds, removes, apply}
use cpp_statecharts.DelayQueue.Order.{IsSorted, apply-IsSorted}
use cpp_statecharts.Entries.{
  Entry, delayed_entry, Scheduler, insert_entry, enqueue_timeout, new_entry,
}

-- How often an entry of the given id occurs.
abbrev pub occurs : ℕ → List Entry → ℕ
occurs i [] = 0
occurs i (e ∷ es) = (if e.id == i then 1 else 0) + occurs i es

pub occurs-append : (i : ℕ) (xs ys : List Entry) → occurs i (xs ++ ys) ≡ occurs i xs + occurs i ys
occurs-append i [] ys = omega arith
occurs-append i (x ∷ xs) ys = omega (arith, occurs-append i xs ys)

pub occurs-insert :
    (i : ℕ) (e : Entry) (es : List Entry)
    → occurs i (insert_at_bound delayed_entry e es) ≡ (if e.id == i then 1 else 0) + occurs i es
unfolding insert_at_bound
occurs-insert i e [] = refl
occurs-insert i e (x ∷ xs) = ground (arith, occurs-insert i e xs)

pub occurs-remove :
    (i : ℕ) (e : Entry) (es : List Entry)
    → occurs i (remove_first delayed_entry e es) ≡ occurs i es - (if e.id == i then 1 else 0)
unfolding remove_first
occurs-remove i e [] = ground arith
occurs-remove i e (x ∷ xs) = ground (arith, occurs-remove i e xs)

-- The queue is in the order of the deadlines, what waits in it is pending, no id is pending twice,
-- and ids are handed out in order.
pub record Orderly (q : Scheduler) : Type 0 where
  pub sorted : IsSorted delayed_entry q.timeout_queue.items
  pub queued_le : (i : ℕ) → occurs i q.timeout_queue.items ≤ occurs i q.pending_entries
  pub pending_le : (i : ℕ) → occurs i q.pending_entries ≤ 1
  pub fresh : (i : ℕ) → q.next_id ≤ i → occurs i q.pending_entries ≡ 0

pub insert_entry-Orderly :
    (e : Entry) (q : Scheduler) → e.id ≡ q.next_id → Orderly q → Orderly (insert_entry e q)
unfolding insert_entry DelayQueue.add DelayQueue.apply
insert_entry-Orderly e q own h = record {
  sorted = apply-IsSorted delayed_entry (adds e) q.timeout_queue h.sorted;
  queued_le = λ i. ground (
    arith,
    occurs-insert i e q.timeout_queue.items,
    occurs-append i q.pending_entries (e ∷ []),
    h.queued_le i,
  );
  pending_le =
      λ i. ground (arith, occurs-append i q.pending_entries (e ∷ []), h.pending_le i, h.fresh i);
  fresh = λ i le. ground (arith, occurs-append i q.pending_entries (e ∷ []), h.fresh i);
}

-- `enqueueTimeout` keeps the bookkeeping in order, whether the chart runs or not.
pub enqueue_timeout-Orderly :
    (now : ℕ) (chart : Option ℕ) (state data_of : ℕ) (event : Event) (timeout : ℕ) (q : Scheduler)
    → Orderly q
    → Orderly (enqueue_timeout now chart state data_of event timeout q).1
unfolding enqueue_timeout
enqueue_timeout-Orderly now chart state data_of event timeout q h =
    if_ind (λ (r : Option ℕ × Scheduler). Orderly r.1) q.is_running
      (λ _.
        insert_entry-Orderly
          (new_entry q.next_id chart (some state) (some data_of) (some event) timeout
            (now + timeout))
          q refl h)
      (λ _. h)
