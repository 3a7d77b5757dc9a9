-- ===== src/DelayQueue.antt =====
-- include/CppStatecharts/DelayQueue.hpp: the queue of elements by deadline, over any element type
-- with a deadline and a test for identity. The condition variable has no state: a thread that waits
-- is one whose round of `take` gave no result yet.
pub mod Order
pub mod Taking
use cpp_statecharts.Base.{
  ℕ, Bool, true, false, Option, none, some, List, [], ◌∷◌, if◌then◌else◌, ltb, leb, length,
}

pub record DelayQueue {ℓ} (T : Type ℓ) : Type ℓ where
  pub items : List T
  pub stop_flag : Bool

-- What `take` needs of an element, and the test `==` that `remove` uses.
pub record Delayed {ℓ} (T : Type ℓ) : Type ℓ where
  pub deadline : T → ℕ
  pub same : T → T → Bool

module _ {ℓ} {T : Type ℓ} (delayed : Delayed T) where
  open delayed use {deadline, same}

  -- `std::lower_bound` finds the first element whose deadline is not below the given one, and the
  -- new element goes in front of it.
  unfoldable pub insert_at_bound : T → List T → List T
  insert_at_bound x [] = x ∷ []
  insert_at_bound x (y ∷ ys) =
      if ltb (deadline y) (deadline x) then y ∷ insert_at_bound x ys else x ∷ y ∷ ys

  unfoldable pub add : T → DelayQueue T → DelayQueue T
  add x q = record q { items = insert_at_bound x q.items }

  unfoldable pub remove_first : T → List T → List T
  remove_first x [] = []
  remove_first x (y ∷ ys) = if same y x then ys else y ∷ remove_first x ys

  unfoldable pub remove : T → DelayQueue T → DelayQueue T
  remove x q = record q { items = remove_first x q.items }

  unfoldable pub clear : DelayQueue T → DelayQueue T
  clear q = record q { items = [] }

  unfoldable pub stop : DelayQueue T → DelayQueue T
  stop q = record q { stop_flag = true }

  unfoldable pub resume : DelayQueue T → DelayQueue T
  resume q = record q { stop_flag = false }

  unfoldable pub size : DelayQueue T → ℕ
  size q = length q.items

  -- The result of one round of the loop of `take`: a value is handed out with the queue that is
  -- left, `nullopt` is returned, or the thread waits.
  pub data Round : Type ℓ where
    taken : T → DelayQueue T → Round
    stopped : Round
    waits : Round

  round_items : ℕ → DelayQueue T → List T → Round
  round_items now q [] = waits
  round_items now q (x ∷ xs) =
      if leb (deadline x) now then taken x (record q { items = xs }) else waits

  unfoldable pub round : ℕ → DelayQueue T → Round
  unfolding round_items
  round now q = if q.stop_flag then stopped else round_items now q q.items

  -- What other threads do while a thread waits in `take`.
  pub data Op : Type ℓ where
    adds removes : T → Op
    clears stops resumes : Op

  unfoldable pub apply : Op → DelayQueue T → DelayQueue T
  unfolding add remove clear stop resume
  apply (adds x) q = add x q
  apply (removes x) q = remove x q
  apply clears q = clear q
  apply stops q = stop q
  apply resumes q = resume q

  unfoldable pub apply_all : List Op → DelayQueue T → DelayQueue T
  unfolding apply
  apply_all [] q = q
  apply_all (op ∷ ops) q = apply_all ops (apply op q)

  -- A round that gives no result is followed by another one.
  or_next : Round → Round → Round
  or_next waits next = next
  or_next stopped next = stopped
  or_next (taken x left) next = taken x left

  -- One call of `take`. Each entry of the schedule is a wake-up: what the other threads did since
  -- the last round, and the reading of the clock. With no wake-up left the call still waits.
  unfoldable pub take : List (List Op × ℕ) → DelayQueue T → Round
  unfolding or_next
  take [] q = waits
  take ((ops, now) ∷ rest) q =
      let q' = apply_all ops q in let next = take rest q' in or_next (round now q') next
