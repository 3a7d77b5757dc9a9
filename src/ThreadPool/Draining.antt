-- ===== src/ThreadPool/Draining.antt =====
-- src/ThreadPool.cpp: what `shutdown` leaves to be done, and when a worker returns.
use cpp_statecharts.Base.{
  ℕ, ◌≡◌, refl, sym, ap, ◌∙◌, true, Option, none, some, List, [], ◌∷◌, ◌++◌, append-nil, get_elem?,
  Bool-cases, inl, inr, if_ind, All, All-map, All-set, All-replicate, All-get_elem?,
}
use cpp_statecharts.ThreadPool.{
  Worker, waiting, running, ended, ThreadPool, Event, Step, executes, shuts_down, advances,
  shutdown, wake, advance, step, run, make,
}
use cpp_statecharts.ThreadPool.Fifo.{accepts, starts, finishes, run_fifo}

module _ {ℓ} {T : Type ℓ} where
  -- If the worker has returned, the pool is shut down and its queue is empty.
  abbrev pub EndsLast : ThreadPool T → Worker T → Type ℓ
  EndsLast p w = w ≡ ended → (p.shutdown_flag ≡ true) × (p.tasks ≡ [])

  abbrev pub AllEndLast : ThreadPool T → Type ℓ
  AllEndLast p = All (EndsLast p) p.workers

  wake-AllEndLast :
      (i : ℕ) (p : ThreadPool T) (ts : List T)
      → p.tasks ≡ ts
      → AllEndLast p
      → AllEndLast (wake i p ts).0
  unfolding wake
  wake-AllEndLast i p [] e h =
      if_ind (λ (r : ThreadPool T × List (Event T)). AllEndLast r.0) p.shutdown_flag
        (λ b. All-set _ p.workers i ended (λ _. (b, e)) h) (λ b. h)
  wake-AllEndLast i p (t ∷ ts) e h =
      All-set _ p.workers i (running t) (λ x. cc)
        (All-map _ _ p.workers (λ w late x. absurd (cc ((late x).1, e))) h)

  advance-AllEndLast :
      (i : ℕ) (p : ThreadPool T) (o : Option (Worker T))
      → AllEndLast p
      → AllEndLast (advance i p o).0
  unfolding advance
  advance-AllEndLast i p none h = h
  advance-AllEndLast i p (some ended) h = h
  advance-AllEndLast i p (some waiting) h = wake-AllEndLast i p p.tasks refl h
  advance-AllEndLast i p (some (running t)) h = All-set _ p.workers i waiting (λ x. cc) h

  step-AllEndLast : (s : Step T) (p : ThreadPool T) → AllEndLast p → AllEndLast (step s p).0
  unfolding step
  step-AllEndLast (executes none) p h = h
  step-AllEndLast (executes (some t)) p h = elim (Bool-cases p.shutdown_flag) [
    | inl b ↦ simp b h
    | inr b ↦ simp b (All-map _ _ p.workers (λ w late x. absurd (cc ((late x).0, b))) h)
  ]
  step-AllEndLast shuts_down p h = All-map _ _ p.workers (λ w late x. (refl, (late x).1)) h
  step-AllEndLast (advances i) p h = advance-AllEndLast i p (get_elem? p.workers i) h

  run-AllEndLast :
      (steps : List (Step T)) (p : ThreadPool T) → AllEndLast p → AllEndLast (run steps p).0
  unfolding run
  run-AllEndLast [] p h = h
  run-AllEndLast (s ∷ rest) p h = run-AllEndLast rest (step s p).0 (step-AllEndLast s p h)

  -- In every history of a new pool, of any size, a worker returns only once the pool is shut down
  -- and every task that was accepted has been started, in the order of acceptance.
  pub run_ended :
      (threads : ℕ) (steps : List (Step T)) (i : ℕ)
      → get_elem? (run steps (make threads)).0.workers i ≡ some ended
      → ((run steps (make threads)).0.shutdown_flag ≡ true)
        × (starts (run steps (make threads)).1 ≡ accepts (run steps (make threads)).1)
  unfolding make
  run_ended threads steps i h =
      let last =
        All-get_elem? _ (run steps (make threads)).0.workers i
          (run-AllEndLast steps (make threads) (All-replicate _ _ waiting (λ x. cc))) h refl in
      (
        last.0,
        sym (
            run_fifo steps (make threads)
            ∙ ap (◌++◌ (starts (run steps (make threads)).1)) last.1
            ∙ append-nil _),
      )

  -- The steps that a worker makes alone: it takes each task that is queued and runs it, and then
  -- looks at the queue once more.
  abbrev pub alone : List T → List (Step T)
  alone [] = advances 0 ∷ []
  alone (t ∷ ts) = advances 0 ∷ advances 0 ∷ alone ts

  drained : List T → ThreadPool T
  drained ts = record { tasks = ts; workers = waiting ∷ []; shutdown_flag = true }

  alone_drains :
      (ts : List T)
      → ((run (alone ts) (drained ts)).0
          ≡ record { tasks = []; workers = ended ∷ []; shutdown_flag = true })
        × (finishes (run (alone ts) (drained ts)).1 ≡ ts)
  unfolding run step advance wake drained
  alone_drains [] = (refl, refl)
  alone_drains (t ∷ ts) = let h = alone_drains ts in (h.0, ap (◌∷◌ t) h.1)

  -- After `shutdown` a lone worker finishes every queued task in order and then returns.
  pub shutdown_drains :
      (p : ThreadPool T)
      → p.workers ≡ waiting ∷ []
      → ((run (alone p.tasks) (shutdown p)).0
          ≡ record { tasks = []; workers = ended ∷ []; shutdown_flag = true })
        × (finishes (run (alone p.tasks) (shutdown p)).1 ≡ p.tasks)
  unfolding shutdown drained
  shutdown_drains p e = simp e (alone_drains p.tasks)

  -- A pool that is shut down, with one worker.
  abbrev pub lone : Worker T → List T → ThreadPool T
  lone w ts = record { tasks = ts; workers = w ∷ []; shutdown_flag = true }

  pub lone_ends : (step (advances 0) (lone waiting [])).0 ≡ lone ended []
  unfolding step advance wake
  lone_ends = refl

  pub lone_starts :
      (t : T) (ts : List T) → (step (advances 0) (lone waiting (t ∷ ts))).0 ≡ lone (running t) ts
  unfolding step advance wake
  lone_starts t ts = refl

  pub lone_finishes :
      (t : T) (ts : List T) → (step (advances 0) (lone (running t) ts)).0 ≡ lone waiting ts
  unfolding step advance
  lone_finishes t ts = refl
