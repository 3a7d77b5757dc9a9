-- ===== src/ThreadPool.antt =====
-- include/CppStatecharts/ThreadPool.hpp and src/ThreadPool.cpp: the pool as a state machine, over
-- any type of tasks. Each member function locks the mutex around its change of the queue, so a
-- change is one step, and a schedule says whose step comes next.
pub mod Fifo
pub mod SingleWorker
pub mod Draining
pub mod Refusing
pub mod Termination
use cpp_statecharts.Base.{
  ℕ, zero, suc, ◌+◌, Bool, true, false, Option, none, some, List, [], ◌∷◌, ◌++◌, if◌then◌else◌, ltb,
  get_elem?, set, replicate,
}

-- Where a worker stands in `workerLoop`: at the wait, in a task, or past the return.
pub data Worker {ℓ} (T : Type ℓ) : Type ℓ where
  waiting : Worker T
  running : T → Worker T
  ended : Worker T

pub record ThreadPool {ℓ} (T : Type ℓ) : Type ℓ where
  pub tasks : List T
  pub workers : List (Worker T)
  pub shutdown_flag : Bool

-- What an onlooker sees of a step.
pub data Event {ℓ} (T : Type ℓ) : Type ℓ where
  accepted rejected started finished : T → Event T

-- Whose step is next: a client's call, or that of the worker at an index. A task that throws is
-- caught, so a worker's task ends in one way.
pub data Step {ℓ} (T : Type ℓ) : Type ℓ where
  executes : Option T → Step T
  shuts_down : Step T
  advances : ℕ → Step T

module _ {ℓ} {T : Type ℓ} where
  -- The constructor clamps the number of workers to at least 1.
  unfoldable pub make : ℕ → ThreadPool T
  make threads = record {
    tasks = [];
    workers = replicate (if ltb threads 1 then 1 else threads) waiting;
    shutdown_flag = false;
  }

  -- An empty callable is `none`.
  unfoldable pub execute : Option T → ThreadPool T → Bool × ThreadPool T
  execute none p = (false, p)
  execute (some t) p =
      if p.shutdown_flag then (false, p) else (true, record p { tasks = p.tasks ++ (t ∷ []) })

  unfoldable pub shutdown : ThreadPool T → ThreadPool T
  shutdown p = record p { shutdown_flag = true }

  -- The body of the loop up to the task: a worker that is woken looks at the queue and the flag.
  wake : ℕ → ThreadPool T → List T → ThreadPool T × List (Event T)
  wake i p [] =
      if p.shutdown_flag then (record p { workers = set p.workers i ended }, []) else (p, [])
  wake i p (t ∷ rest) =
      (record p { tasks = rest; workers = set p.workers i (running t) }, started t ∷ [])

  advance : ℕ → ThreadPool T → Option (Worker T) → ThreadPool T × List (Event T)
  unfolding wake
  advance i p none = (p, [])
  advance i p (some ended) = (p, [])
  advance i p (some waiting) = wake i p p.tasks
  advance i p (some (running t)) = (record p { workers = set p.workers i waiting }, finished t ∷ [])

  note_execute : Option T → Bool → List (Event T)
  note_execute none done = []
  note_execute (some t) done = if done then accepted t ∷ [] else rejected t ∷ []

  unfoldable pub step : Step T → ThreadPool T → ThreadPool T × List (Event T)
  unfolding execute shutdown advance note_execute
  step (executes o) p = let (done, q) = execute o p in (q, note_execute o done)
  step shuts_down p = (shutdown p, [])
  step (advances i) p = advance i p (get_elem? p.workers i)

  unfoldable pub run : List (Step T) → ThreadPool T → ThreadPool T × List (Event T)
  run [] p = (p, [])
  run (s ∷ rest) p = let (q, seen) = step s p in let (r, more) = run rest q in (r, seen ++ more)
