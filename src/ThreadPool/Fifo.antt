-- ===== src/ThreadPool/Fifo.antt =====
-- src/ThreadPool.cpp: in which order tasks are accepted, started and finished.
use cpp_statecharts.Base.{
  ℕ, ◌≡◌, refl, sym, ap, ◌∙◌, Option, none, some, List, [], ◌∷◌, ◌++◌, append_assoc, append-nil,
  arith, get_elem?, Bool-cases, inl, inr,
}
use cpp_statecharts.ThreadPool.{
  Worker, waiting, running, ended, ThreadPool, Event, accepted, started, finished, Step, executes,
  shuts_down, advances, wake, advance, step, run,
}

module _ {ℓ} {T : Type ℓ} where
  -- The tasks that the pool accepted, and those that its workers began and finished, oldest first.
  abbrev pub accepts : List (Event T) → List T
  accepts [] = []
  accepts (accepted t ∷ es) = t ∷ accepts es
  accepts (_ ∷ es) = accepts es

  abbrev pub starts : List (Event T) → List T
  starts [] = []
  starts (started t ∷ es) = t ∷ starts es
  starts (_ ∷ es) = starts es

  abbrev pub finishes : List (Event T) → List T
  finishes [] = []
  finishes (finished t ∷ es) = t ∷ finishes es
  finishes (_ ∷ es) = finishes es

  pub accepts-append : (xs ys : List (Event T)) → accepts (xs ++ ys) ≡ accepts xs ++ accepts ys
  accepts-append [] ys = refl
  accepts-append (accepted t ∷ es) ys = ap (◌∷◌ t) (accepts-append es ys)
  accepts-append (_ ∷ es) ys = accepts-append es ys

  starts-append : (xs ys : List (Event T)) → starts (xs ++ ys) ≡ starts xs ++ starts ys
  starts-append [] ys = refl
  starts-append (started t ∷ es) ys = ap (◌∷◌ t) (starts-append es ys)
  starts-append (_ ∷ es) ys = starts-append es ys

  pub finishes-append : (xs ys : List (Event T)) → finishes (xs ++ ys) ≡ finishes xs ++ finishes ys
  finishes-append [] ys = refl
  finishes-append (finished t ∷ es) ys = ap (◌∷◌ t) (finishes-append es ys)
  finishes-append (_ ∷ es) ys = finishes-append es ys

  -- Two stretches of a queue, one after the other.
  pub chain_fifo :
      (q a s q' a' s' q'' : List T) {aa ss : List T}
      → aa ≡ a ++ a'
      → ss ≡ s ++ s'
      → q ++ a ≡ s ++ q'
      → q' ++ a' ≡ s' ++ q''
      → q ++ aa ≡ ss ++ q''
  chain_fifo q a s q' a' s' q'' ea es first second =
      rw (ea, es)
        (sym (append_assoc q a a')
          ∙ ap (λ l. l ++ a') first
          ∙ append_assoc s q' a'
          ∙ ap (◌++◌ s) second
          ∙ sym (append_assoc s s' q''))

  wake_fifo :
      (i : ℕ) (p : ThreadPool T) (ts : List T)
      → p.tasks ≡ ts
      → p.tasks ++ accepts (wake i p ts).1 ≡ starts (wake i p ts).1 ++ (wake i p ts).0.tasks
  unfolding wake
  wake_fifo i p [] e = ground (arith, append-nil p.tasks)
  wake_fifo i p (t ∷ ts) e = append-nil p.tasks ∙ e

  advance_fifo :
      (i : ℕ) (p : ThreadPool T) (o : Option (Worker T))
      → p.tasks ++ accepts (advance i p o).1 ≡ starts (advance i p o).1 ++ (advance i p o).0.tasks
  unfolding advance
  advance_fifo i p none = append-nil p.tasks
  advance_fifo i p (some ended) = append-nil p.tasks
  advance_fifo i p (some waiting) = wake_fifo i p p.tasks refl
  advance_fifo i p (some (running t)) = append-nil p.tasks

  pub step_fifo :
      (s : Step T) (p : ThreadPool T)
      → p.tasks ++ accepts (step s p).1 ≡ starts (step s p).1 ++ (step s p).0.tasks
  unfolding step
  step_fifo (executes none) p = append-nil p.tasks
  step_fifo (executes (some t)) p = elim (Bool-cases p.shutdown_flag) [
    | inl e ↦ rw e (append-nil p.tasks)
    | inr e ↦ rw e refl
  ]
  step_fifo shuts_down p = append-nil p.tasks
  step_fifo (advances i) p = advance_fifo i p (get_elem? p.workers i)

  -- In every interleaving of clients and workers the tasks are started in the order in which they
  -- were accepted, and each that was not yet started is in the queue: none is lost or made up.
  pub run_fifo :
      (steps : List (Step T)) (p : ThreadPool T)
      → p.tasks ++ accepts (run steps p).1 ≡ starts (run steps p).1 ++ (run steps p).0.tasks
  unfolding run
  run_fifo [] p = append-nil p.tasks
  run_fifo (s ∷ rest) p =
      chain_fifo p.tasks (accepts (step s p).1) (starts (step s p).1) (step s p).0.tasks
        (accepts (run rest (step s p).0).1) (starts (run rest (step s p).0).1)
        (run rest (step s p).0).0.tasks (accepts-append (step s p).1 (run rest (step s p).0).1)
        (starts-append (step s p).1 (run rest (step s p).0).1) (step_fifo s p)
        (run_fifo rest (step s p).0)
