-- ===== src/Entries/Cancelling.antt =====
-- Statechart::cancelTimeout of include/CppStatecharts/Statechart.hpp.
use cpp_statecharts.Base.{
  ℕ, ◌+◌, ◌-◌, ◌≤◌, ◌≡◌, ◌≢◌, refl, ap, ◌∙◌, true, some, List, [], ◌∷◌, ◌++◌, if◌then◌else◌, ◌==◌,
  ==_iff, contains, arith, if_ind,
}
use cpp_statecharts.DelayQueue
use cpp_statecharts.DelayQueue.{remove_first, Op, adds, removes, apply}
use cpp_statecharts.DelayQueue.Order.{IsSorted, apply-IsSorted}
use cpp_statecharts.Entries.{
  Entry, delayed_entry, Scheduler, mark_invalid, cancel_from, cancel_timeout, is_invalid,
}
use cpp_statecharts.Entries.Orderly.{occurs, occurs-append, occurs-remove, Orderly}

-- What the loop of `cancelTimeout` leaves of a scheduler: one entry of the id less, in the vector
-- and in the queue, and the same flags.
record Cut (i : ℕ) (q r : Scheduler) : Type 0 where
  pub pending :
      (j : ℕ) → occurs j r.pending_entries ≡ occurs j q.pending_entries - (if i == j then 1 else 0)
  pub queued :
      (j : ℕ)
      → occurs j r.timeout_queue.items ≡ occurs j q.timeout_queue.items - (if i == j then 1 else 0)
  pub flags : r.invalid_ids ≡ q.invalid_ids
  pub counter : r.next_id ≡ q.next_id
  pub sorted :
      IsSorted delayed_entry q.timeout_queue.items → IsSorted delayed_entry r.timeout_queue.items

cancel_from-Cut :
    (i : ℕ) (before after : List Entry) (q : Scheduler)
    → ((j : ℕ) → occurs j q.pending_entries ≡ occurs j before + occurs j after)
    → occurs i before ≡ 0
    → ((j : ℕ) → occurs j q.timeout_queue.items ≤ occurs j q.pending_entries)
    → Cut i q (cancel_from i before after q)
unfolding cancel_from DelayQueue.remove DelayQueue.apply
cancel_from-Cut i before [] q split none_before le = record {
  pending = λ j. ground (arith, ==_iff i j, split j, split i);
  queued = λ j. ground (arith, ==_iff i j, split i, le i);
  flags = refl;
  counter = refl;
  sorted = λ s. s;
}
cancel_from-Cut i before (e ∷ after) q split none_before le =
    if_ind (λ r. Cut i q r) (e.id == i)
      (λ same. record {
        pending = λ j. ground (
          arith,
          occurs-append j before after,
          split j,
          ==_iff e.id i,
          ==_iff i j,
          ==_iff e.id j,
        );
        queued = λ j. ground (
          arith,
          occurs-remove j e q.timeout_queue.items,
          ==_iff e.id i,
          ==_iff i j,
          ==_iff e.id j,
        );
        flags = refl;
        counter = refl;
        sorted = apply-IsSorted delayed_entry (removes e) q.timeout_queue;
      })
      (λ other.
        cancel_from-Cut i (before ++ (e ∷ [])) after q
          (λ j. ground (arith, split j, occurs-append j before (e ∷ [])))
          (ground (arith, occurs-append i before (e ∷ []), none_before, other)) le)

-- What `cancelTimeout` promises of a token: its flag is set, it waits neither in the queue nor in
-- the vector, and every other entry does as often as before.
pub record Cancelled (i : ℕ) (q r : Scheduler) : Type 0 where
  pub flagged : is_invalid i r ≡ true
  pub flags : r.invalid_ids ≡ i ∷ q.invalid_ids
  pub unqueued : occurs i r.timeout_queue.items ≡ 0
  pub released : occurs i r.pending_entries ≡ 0
  pub others_queued :
      (j : ℕ) → i ≢ j → occurs j r.timeout_queue.items ≡ occurs j q.timeout_queue.items
  pub others_pending : (j : ℕ) → i ≢ j → occurs j r.pending_entries ≡ occurs j q.pending_entries
  pub orderly : Orderly r

-- On a scheduler whose bookkeeping is in order, `cancelTimeout` of any token sets the flag of the
-- entry, takes it out of the queue and of the pending entries, touches no other entry, and keeps
-- the bookkeeping in order.
pub cancel_timeout-Cancelled :
    (i : ℕ) (q : Scheduler) → Orderly q → Cancelled i q (cancel_timeout (some i) q)
unfolding cancel_timeout mark_invalid is_invalid
cancel_timeout-Cancelled i q h =
    let cut =
      cancel_from-Cut i [] q.pending_entries (mark_invalid i q) (λ j. omega arith) refl
        h.queued_le in
    record {
      flagged = ap (contains i) cut.flags ∙ ground (arith, ==_iff i i);
      flags = cut.flags;
      unqueued = ground (arith, cut.queued i, ==_iff i i, h.queued_le i, h.pending_le i);
      released = ground (arith, cut.pending i, ==_iff i i, h.pending_le i);
      others_queued = λ j other. ground (arith, cut.queued j, ==_iff i j);
      others_pending = λ j other. ground (arith, cut.pending j, ==_iff i j);
      orderly = record {
        sorted = cut.sorted h.sorted;
        queued_le = λ j. ground (arith, cut.queued j, cut.pending j, h.queued_le j);
        pending_le = λ j. ground (arith, cut.pending j, h.pending_le j);
        fresh = λ j le. ground (arith, cut.pending j, cut.counter, h.fresh j);
      };
    }
