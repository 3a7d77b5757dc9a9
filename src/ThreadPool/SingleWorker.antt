-- ===== src/ThreadPool/SingleWorker.antt =====
-- src/ThreadPool.cpp with the one worker that src/Statechart.cpp asks for.
use cpp_statecharts.Base.{
  ℕ, zero, suc, ◌≡◌, refl, sym, subst, none, some, List, [], ◌∷◌, ◌++◌, append_assoc, append-nil,
  get_elem?, Bool-cases, inl, inr,
}
use cpp_statecharts.ThreadPool.{
  Worker, waiting, running, ended, ThreadPool, Event, Step, executes, shuts_down, advances, wake,
  advance, step, run,
}
use cpp_statecharts.ThreadPool.Fifo.{accepts, finishes, accepts-append, finishes-append, chain_fifo}

module _ {ℓ} {T : Type ℓ} where
  -- The task that a worker is in, if any.
  abbrev pub task_of : Worker T → List T
  task_of waiting = []
  task_of (running t) = t ∷ []
  task_of ended = []

  -- The worker of a pool that has one.
  abbrev pub first_worker : List (Worker T) → Worker T
  first_worker [] = ended
  first_worker (w ∷ ws) = w

  -- What the pool has accepted and not finished: the task at work, then the queue.
  abbrev pub backlog : ThreadPool T → List T
  backlog p = task_of (first_worker p.workers) ++ p.tasks

  -- The pool has exactly one worker.
  abbrev pub IsSingle : ThreadPool T → Type ℓ
  IsSingle p = (w : Worker T) × (p.workers ≡ w ∷ [])

  record Kept (p q : ThreadPool T) (es : List (Event T)) : Type ℓ where
    single : IsSingle q
    order : backlog p ++ accepts es ≡ finishes es ++ backlog q

  wake-Kept :
      (p : ThreadPool T) (ts : List T)
      → p.workers ≡ waiting ∷ []
      → p.tasks ≡ ts
      → Kept p (wake zero p ts).0 (wake zero p ts).1
  unfolding wake
  wake-Kept p [] e h = elim (Bool-cases p.shutdown_flag) [
    | inl b ↦ rw b (record { single = (ended, rw e refl); order = rw e (append-nil p.tasks) })
    | inr b ↦ rw b (record { single = (waiting, e); order = append-nil (backlog p) })
  ]
  wake-Kept p (t ∷ ts) e h = record {
    single = (running t, rw e refl);
    order = rw (e, h) (append-nil (t ∷ ts));
  }

  advance-Kept :
      (i : ℕ) (w : Worker T) (p : ThreadPool T)
      → p.workers ≡ w ∷ []
      → Kept p (advance i p (get_elem? (w ∷ []) i)).0 (advance i p (get_elem? (w ∷ []) i)).1
  unfolding advance
  advance-Kept zero waiting p e = wake-Kept p p.tasks e refl
  advance-Kept zero (running t) p e = record {
    single = (waiting, rw e refl);
    order = rw e (append-nil (t ∷ p.tasks));
  }
  advance-Kept zero ended p e = record { single = (ended, e); order = append-nil (backlog p) }
  advance-Kept (suc i) w p e = record { single = (w, e); order = append-nil (backlog p) }

  step-Kept : (s : Step T) (p : ThreadPool T) → IsSingle p → Kept p (step s p).0 (step s p).1
  unfolding step
  step-Kept (executes none) p h = record { single = h; order = append-nil (backlog p) }
  step-Kept (executes (some t)) p h = elim (Bool-cases p.shutdown_flag) [
    | inl e ↦ rw e (record { single = h; order = append-nil (backlog p) })
    | inr e ↦ rw e (record {
      single = h;
      order = append_assoc (task_of (first_worker p.workers)) p.tasks (t ∷ []);
    })
  ]
  step-Kept shuts_down p h = record { single = h; order = append-nil (backlog p) }
  step-Kept (advances i) p (w, e) =
      subst (λ ws. Kept p (advance i p (get_elem? ws i)).0 (advance i p (get_elem? ws i)).1) (sym e)
        (advance-Kept i w p e)

  pub step-IsSingle : (s : Step T) (p : ThreadPool T) → IsSingle p → IsSingle (step s p).0
  step-IsSingle s p h = (step-Kept s p h).single

  run-Kept :
      (steps : List (Step T)) (p : ThreadPool T)
      → IsSingle p
      → Kept p (run steps p).0 (run steps p).1
  unfolding run
  run-Kept [] p h = record { single = h; order = append-nil (backlog p) }
  run-Kept (s ∷ rest) p h =
      let first = step-Kept s p h in
      let second = run-Kept rest (step s p).0 first.single in
      record {
        single = second.single;
        order =
            chain_fifo (backlog p) (accepts (step s p).1) (finishes (step s p).1)
              (backlog (step s p).0) (accepts (run rest (step s p).0).1)
              (finishes (run rest (step s p).0).1) (backlog (run rest (step s p).0).0)
              (accepts-append (step s p).1 (run rest (step s p).0).1)
              (finishes-append (step s p).1 (run rest (step s p).0).1) first.order second.order;
      }

  -- With one worker the tasks are finished in the order in which they were accepted: at any moment
  -- those finished, then the one at work, then those queued are the ones accepted, in that order.
  pub run_in_order :
      (steps : List (Step T)) (p : ThreadPool T)
      → IsSingle p
      → backlog p ++ accepts (run steps p).1 ≡ finishes (run steps p).1 ++ backlog (run steps p).0
  run_in_order steps p h = (run-Kept steps p h).order
