-- ===== src/Asynchronous/Firing.antt =====
-- The timeout thread of src/Statechart.cpp: which timeouts it hands to the pool.
use cpp_statecharts.Base.{
  ℕ, ◌≤◌, ◌≡◌, refl, sym, ap, subst, ◌∙◌, ◌⊎◌, inl, inr, false, List, [], ◌∷◌, ◌++◌, Bool-cases,
  if_ind,
}
use cpp_statecharts.DelayQueue.{Round, taken, stopped, waits, round}
use cpp_statecharts.DelayQueue.Taking.{round_cases}
use cpp_statecharts.ThreadPool.{step}
use cpp_statecharts.Entries.{Entry, delayed_entry, Scheduler, is_invalid}
use cpp_statecharts.Asynchronous.{
  TimeoutThread, at_head, taking, testing, asking, posting, returned, System, with_pool,
  is_shutdown, after_round, time_step, Move, dispatches, works, times, enqueues, cancels, shuts,
  move, moves, new_system,
}

-- A move of a history from the system, with what holds before it.
pub record Earlier (Cause : Move → System → Type 0) (ms : List Move) (s : System) : Type 0 where
  pub before : List Move
  pub cause : Move
  pub after : List Move
  pub split : ms ≡ before ++ (cause ∷ after)
  pub held : Cause cause (moves before s)

-- If only a move with a cause leads to the property, and a history ends with it, then it began with
-- it or had such a move.
earlier :
    (P : TimeoutThread → Type 0) (Cause : Move → System → Type 0)
    → ((m : Move) (u : System) → P (move m u).timeout_thread → (P u.timeout_thread) ⊎ (Cause m u))
    → (ms : List Move) (s : System) → P (moves ms s).timeout_thread
    → (P s.timeout_thread) ⊎ (Earlier Cause ms s)
unfolding moves
earlier P Cause k [] s h = inl h
earlier P Cause k (m ∷ ms) s h = elim (earlier P Cause k ms (move m s) h) [
  | inl p ↦ elim (k m s p) [
    | inl q ↦ inl q
    | inr c ↦ inr (record { before = []; cause = m; after = ms; split = refl; held = c })
  ]
  | inr e ↦ inr (record {
    before = m ∷ e.before;
    cause = e.cause;
    after = e.after;
    split = ap (◌∷◌ m) e.split;
    held = e.held;
  })
]

-- The thread has the entry from `take`, and it has found it valid.
abbrev Holds : Entry → TimeoutThread → Type 0
Holds e (testing x) = x ≡ e
Holds e (asking x) = x ≡ e
Holds e (posting x) = x ≡ e
Holds e _ = ⊥

abbrev Passed : Entry → TimeoutThread → Type 0
Passed e (asking x) = x ≡ e
Passed e (posting x) = x ≡ e
Passed e _ = ⊥

-- The thread's step that takes the entry from the queue: it is the first, and due.
pub record Takes (e : Entry) (m : Move) (s : System) : Type 0 where
  pub clock : ℕ
  pub step : m ≡ times clock
  pub in_take : s.timeout_thread ≡ taking
  pub others : List Entry
  pub first : s.scheduler.timeout_queue.items ≡ e ∷ others
  pub due : e.deadline ≤ clock

-- The thread's step that tests the entry, and finds it not cancelled.
pub record Tests (e : Entry) (m : Move) (s : System) : Type 0 where
  pub clock : ℕ
  pub step : m ≡ times clock
  pub at_test : s.timeout_thread ≡ testing e
  pub valid : is_invalid e.id s.scheduler ≡ false

round-Takes :
    (e : Entry) (now : ℕ) (s : System) (r : Round delayed_entry)
    → s.timeout_thread ≡ taking
    → round delayed_entry now s.scheduler.timeout_queue ≡ r
    → Holds e (after_round s.scheduler r).0
    → Takes e (times now) s
unfolding after_round
round-Takes e now s waits t q h = absurd h
round-Takes e now s stopped t q h = absurd h
round-Takes e now s (taken entry left) t q h =
    let (items, due, _, _) = round_cases delayed_entry now s.scheduler.timeout_queue q in
    record {
      clock = now;
      step = refl;
      in_take = t;
      others = left.items;
      first = items ∙ ap (λ x. x ∷ left.items) h;
      due = subst (λ (x : Entry). x.deadline ≤ now) h due;
    }

time_step-Takes :
    (e : Entry) (now : ℕ) (s : System) (t : TimeoutThread)
    → s.timeout_thread ≡ t
    → Holds e (time_step now t s.scheduler).0
    → (Holds e t) ⊎ (Takes e (times now) s)
unfolding time_step
time_step-Takes e now s at_head q =
    if_ind (λ u. Holds e u → (Holds e at_head) ⊎ (Takes e (times now) s)) s.scheduler.is_running
      (λ _ h. absurd h) (λ _ h. absurd h)
time_step-Takes e now s taking q =
    λ h. inr (round-Takes e now s (round delayed_entry now s.scheduler.timeout_queue) q refl h)
time_step-Takes e now s (testing x) q =
    if_ind (λ u. Holds e u → (x ≡ e) ⊎ (Takes e (times now) s)) (is_invalid x.id s.scheduler)
      (λ _ h. absurd h) (λ _ h. inl h)
time_step-Takes e now s (asking x) q =
    if_ind (λ u. Holds e u → (x ≡ e) ⊎ (Takes e (times now) s)) (is_shutdown s.scheduler)
      (λ _ h. absurd h) (λ _ h. inl h)
time_step-Takes e now s (posting x) q = λ h. absurd h
time_step-Takes e now s returned q = λ h. absurd h

move-Takes :
    (e : Entry) (m : Move) (s : System)
    → Holds e (move m s).timeout_thread
    → (Holds e s.timeout_thread) ⊎ (Takes e m s)
unfolding move
move-Takes e (dispatches now chart data_of o) s h = inl h
move-Takes e (works i) s h = inl h
move-Takes e (times now) s h = time_step-Takes e now s s.timeout_thread refl h
move-Takes e (enqueues now chart state data_of o ms) s h = inl h
move-Takes e (cancels i) s h = inl h
move-Takes e (shuts now) s h = inl h

no_test_in_take :
    (e : Entry) (q : Scheduler) (r : Round delayed_entry) → Passed e (after_round q r).0 → ⊥
unfolding after_round
no_test_in_take e q waits h = h
no_test_in_take e q stopped h = h
no_test_in_take e q (taken entry left) h = h

time_step-Tests :
    (e : Entry) (now : ℕ) (s : System) (t : TimeoutThread)
    → s.timeout_thread ≡ t
    → Passed e (time_step now t s.scheduler).0
    → (Passed e t) ⊎ (Tests e (times now) s)
unfolding time_step
time_step-Tests e now s at_head q =
    if_ind (λ u. Passed e u → (Passed e at_head) ⊎ (Tests e (times now) s)) s.scheduler.is_running
      (λ _ h. absurd h) (λ _ h. absurd h)
time_step-Tests e now s taking q = λ h.
    absurd (no_test_in_take e s.scheduler (round delayed_entry now s.scheduler.timeout_queue) h)
time_step-Tests e now s (testing x) q =
    if_ind (λ u. Passed e u → (Passed e (testing x)) ⊎ (Tests e (times now) s))
      (is_invalid x.id s.scheduler) (λ _ h. absurd h)
      (λ valid h. inr (record {
        clock = now;
        step = refl;
        at_test = q ∙ ap testing h;
        valid = subst (λ (y : Entry). is_invalid y.id s.scheduler ≡ false) h valid;
      }))
time_step-Tests e now s (asking x) q =
    if_ind (λ u. Passed e u → (x ≡ e) ⊎ (Tests e (times now) s)) (is_shutdown s.scheduler)
      (λ _ h. absurd h) (λ _ h. inl h)
time_step-Tests e now s (posting x) q = λ h. absurd h
time_step-Tests e now s returned q = λ h. absurd h

move-Tests :
    (e : Entry) (m : Move) (s : System)
    → Passed e (move m s).timeout_thread
    → (Passed e s.timeout_thread) ⊎ (Tests e m s)
unfolding move
move-Tests e (dispatches now chart data_of o) s h = inl h
move-Tests e (works i) s h = inl h
move-Tests e (times now) s h = time_step-Tests e now s s.timeout_thread refl h
move-Tests e (enqueues now chart state data_of o ms) s h = inl h
move-Tests e (cancels i) s h = inl h
move-Tests e (shuts now) s h = inl h

-- The entry was taken, and later tested, in a history that has brought the timeout thread to hand it
-- over.
pub record Origin (ms : List Move) (e : Entry) : Type 0 where
  pub tested : Earlier (Tests e) ms new_system
  pub taken : Earlier (Takes e) tested.before new_system

posting-Origin :
    (ms : List Move) (e : Entry) → (moves ms new_system).timeout_thread ≡ posting e → Origin ms e
unfolding new_system
posting-Origin ms e t =
    elim (earlier (Passed e) (Tests e) (move-Tests e) ms new_system
      (subst (Passed e) (sym t) refl)) [
        | inl h ↦ absurd h
        | inr tested ↦
            elim (earlier (Holds e) (Takes e) (move-Takes e) tested.before new_system
              (subst (Holds e) (sym tested.held.at_test) refl)) [
                | inl h ↦ absurd h
                | inr first ↦ record { tested = tested; taken = first }
              ]
      ]

-- The timeout thread hands an entry to the pool: that was open, and the entry is its last task.
pub record Fired (ms : List Move) (q r : Scheduler) : Type 0 where
  pub entry : Entry
  pub origin : Origin ms entry
  pub open_pool : q.pool.shutdown_flag ≡ false
  pub posted : r.pool.tasks ≡ q.pool.tasks ++ (entry ∷ [])

after_round-pool : (q : Scheduler) (r : Round delayed_entry) → (after_round q r).1.pool ≡ q.pool
unfolding after_round
after_round-pool q waits = refl
after_round-pool q stopped = refl
after_round-pool q (taken entry left) = refl

by_thread :
    (ms : List Move) (now : ℕ) (q : Scheduler) (t : TimeoutThread)
    → (moves ms new_system).timeout_thread ≡ t
    → ((time_step now t q).1.pool ≡ q.pool) ⊎ Fired ms q (time_step now t q).1
unfolding time_step with_pool step
by_thread ms now q at_head h = inl refl
by_thread ms now q taking h = inl (after_round-pool q (round delayed_entry now q.timeout_queue))
by_thread ms now q (testing e) h = inl refl
by_thread ms now q (asking e) h = inl refl
by_thread ms now q (posting e) h = elim (Bool-cases q.pool.shutdown_flag) [
  | inl down ↦ inl (simp down refl)
  | inr up ↦
      inr (record {
        entry = e;
        origin = posting-Origin ms e h;
        open_pool = up;
        posted = simp up refl;
      })
]
by_thread ms now q returned h = inl refl

-- In every history of a new chart, a next step of the timeout thread leaves the pool as it is, or
-- hands it exactly one entry, while the pool is not shut down. The thread has then, at an earlier
-- move, taken this entry from the front of the queue when its deadline had passed, and, at a move
-- between, found that it was not cancelled.
pub time_step-Fired :
    (ms : List Move) (now : ℕ)
    → ((move (times now) (moves ms new_system)).scheduler.pool
        ≡ (moves ms new_system).scheduler.pool)
      ⊎ Fired ms (moves ms new_system).scheduler (move (times now) (moves ms new_system)).scheduler
unfolding move
time_step-Fired ms now =
    by_thread ms now (moves ms new_system).scheduler (moves ms new_system).timeout_thread refl
