-- ===== src/ThreadPool/Termination.antt =====
-- ThreadPool::awaitTermination of src/ThreadPool.cpp. When the thread function of a worker returns
-- is up to its tasks, so it is given; time passes only while the caller waits for a worker.
use cpp_statecharts.Base.{
  ℕ, ◌≤◌, ◌<◌, ◌≡◌, refl, Bool, true, false, List, [], ◌∷◌, All, if◌then◌else◌, leb, arith, if_ind,
  ◌+◌,
}
use Prim.Native.Nat.{max}

pub record Thread : Type 0 where
  pub joinable : Bool
  pub ends_at : ℕ

-- The value returned, the threads afterwards, and the time of the return.
pub record Awaited : Type 0 where
  pub all_finished : Bool
  pub threads : List Thread
  pub returned_at : ℕ

keep_thread : Thread → Awaited → Awaited
keep_thread t a = record a { threads = t ∷ a.threads }

-- The loop over the workers. The `wait_until` ends at the deadline at the latest, and the `join`
-- behind it ends when the thread function has returned.
await_from : ℕ → ℕ → List Thread → Awaited
unfolding keep_thread
await_from deadline now [] = record { all_finished = true; threads = []; returned_at = now }
await_from deadline now (t ∷ ts) =
    let skip = keep_thread t (await_from deadline now ts) in
    let joined =
      keep_thread (record t { joinable = false }) (await_from deadline (max now t.ends_at) ts) in
    if t.joinable
    then if leb deadline now
      then record { all_finished = false; threads = t ∷ ts; returned_at = now }
      else joined
    else skip

pub await_termination : ℕ → ℕ → List Thread → Awaited
unfolding await_from
await_termination timeout now ts = await_from (now + timeout) now ts

abbrev pub IsJoined : Thread → Type 0
IsJoined t = t.joinable ≡ false

-- What the value returned says: true, that every thread was joined; false, that the deadline had
-- passed.
abbrev pub Reported : ℕ → Awaited → Type 0
Reported deadline a =
    (a.all_finished ≡ true → All IsJoined a.threads)
    × (a.all_finished ≡ false → deadline ≤ a.returned_at)

await_from-Reported :
    (deadline now : ℕ) (ts : List Thread) → Reported deadline (await_from deadline now ts)
unfolding await_from
await_from-Reported deadline now [] = (λ _. tt, λ h. cc)
await_from-Reported deadline now (t ∷ ts) =
    if_ind (Reported deadline) t.joinable
      (λ _.
        if_ind (Reported deadline) (leb deadline now) (λ e. (λ h. cc, λ _. ground arith))
          (λ _.
            let (yes', no') = await_from-Reported deadline (max now t.ends_at) ts in
            (λ h. (refl, yes' h), no')))
      (λ e. let (yes', no') = await_from-Reported deadline now ts in (λ h. (e, yes' h), no'))

-- If `awaitTermination` returns true every worker was joined, and if it returns false the timeout has
-- passed.
pub await_termination-Reported :
    (timeout now : ℕ) (ts : List Thread)
    → Reported (now + timeout) (await_termination timeout now ts)
unfolding await_termination
await_termination-Reported timeout now ts = await_from-Reported (now + timeout) now ts

-- The timeout does not bound `awaitTermination`: with one running worker and any timeout but zero the call
-- returns true, and not before the worker has ended, however late that is.
pub await_termination_late :
    (timeout now ends : ℕ)
    → 0 < timeout
    → let a = await_termination timeout now (record { joinable = true; ends_at = ends } ∷ []) in
      (a.all_finished ≡ true) × (ends ≤ a.returned_at)
unfolding await_termination
await_termination_late timeout now ends h = ground arith
