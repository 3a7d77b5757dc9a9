-- ===== src/ThreadPool/Refusing.antt =====
-- ThreadPool::shutdown of src/ThreadPool.cpp is final.
use cpp_statecharts.Base.{
  ℕ, zero, suc, ◌≡◌, refl, Bool, true, Option, none, some, List, [], ◌∷◌, get_elem?, if_ind,
}
use cpp_statecharts.ThreadPool.{
  Worker, waiting, running, ended, ThreadPool, Event, Step, executes, shuts_down, advances, wake,
  advance, step,
}
use cpp_statecharts.ThreadPool.SingleWorker.{IsSingle, step-IsSingle}

module _ {ℓ} {T : Type ℓ} where
  abbrev IsDown : ThreadPool T × List (Event T) → Type 0
  IsDown r = r.0.shutdown_flag ≡ true

  wake-IsDown :
      (i : ℕ) (p : ThreadPool T) (ts : List T) → p.shutdown_flag ≡ true → IsDown (wake i p ts)
  unfolding wake
  wake-IsDown i p [] h = if_ind IsDown p.shutdown_flag (λ _. h) (λ _. h)
  wake-IsDown i p (t ∷ ts) h = h

  advance-IsDown :
      (i : ℕ) (p : ThreadPool T) (o : Option (Worker T))
      → p.shutdown_flag ≡ true
      → IsDown (advance i p o)
  unfolding advance
  advance-IsDown i p none h = h
  advance-IsDown i p (some waiting) h = wake-IsDown i p p.tasks h
  advance-IsDown i p (some (running t)) h = h
  advance-IsDown i p (some ended) h = h

  pub step-shutdown_flag :
      (s : Step T) (p : ThreadPool T) → p.shutdown_flag ≡ true → (step s p).0.shutdown_flag ≡ true
  unfolding step
  step-shutdown_flag (executes none) p h = h
  step-shutdown_flag (executes (some t)) p h =
      if_ind (λ (r : Bool × ThreadPool T). r.1.shutdown_flag ≡ true) p.shutdown_flag (λ _. h)
        (λ _. h)
  step-shutdown_flag shuts_down p h = refl
  step-shutdown_flag (advances i) p h = advance-IsDown i p (get_elem? p.workers i) h

  -- A lone worker that has returned stays so.
  pub step-ended :
      (s : Step T) (p : ThreadPool T) → p.workers ≡ ended ∷ [] → (step s p).0.workers ≡ ended ∷ []
  unfolding step advance
  step-ended (executes none) p h = h
  step-ended (executes (some t)) p h =
      if_ind (λ (r : Bool × ThreadPool T). r.1.workers ≡ ended ∷ []) p.shutdown_flag (λ _. h)
        (λ _. h)
  step-ended shuts_down p h = h
  step-ended (advances zero) p h = rw h refl
  step-ended (advances (suc i)) p h = rw h refl

  -- What no step of a pool with one worker undoes.
  pub record Stays (p q : ThreadPool T) : Type ℓ where
    pub down : p.shutdown_flag ≡ true → q.shutdown_flag ≡ true
    pub single : IsSingle p → IsSingle q
    pub gone : p.workers ≡ ended ∷ [] → q.workers ≡ ended ∷ []

  pub Stays-refl : (p : ThreadPool T) → Stays p p
  Stays-refl p = record { down = λ h. h; single = λ h. h; gone = λ h. h }

  pub step-Stays : (s : Step T) (p : ThreadPool T) → Stays p (step s p).0
  step-Stays s p = record {
    down = step-shutdown_flag s p;
    single = step-IsSingle s p;
    gone = step-ended s p;
  }
