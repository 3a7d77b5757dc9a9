-- ===== src/Asynchronous/Ending.antt =====
-- Statechart::shutdown of src/Statechart.cpp can always come to its end.
use cpp_statecharts.Base.{
  ℕ, zero, suc, ◌+◌, ◌≤◌, ◌≡◌, refl, true, List, [], ◌∷◌, ◌++◌, All, All-append, leb, arith,
  Bool-cases, inl, inr, subst, sym, Bool, false,
}
use cpp_statecharts.DelayQueue.{round}
use cpp_statecharts.ThreadPool.{Worker, waiting, running, ended}
use cpp_statecharts.ThreadPool.Draining.{lone, lone_ends, lone_starts, lone_finishes}
use cpp_statecharts.Entries.{Entry, Scheduler, is_invalid}
use cpp_statecharts.Asynchronous.{
  TimeoutThread, at_head, taking, testing, asking, posting, returned, Phase, not_called,
  flag_cleared, queue_cleared, queue_stopped, pool_stopped, thread_joined, awaiting, joining,
  awaited, finished, System, with_pool, is_shutdown, after_round, time_step, shutdown_step, Move,
  works, times, shuts, move, moves, new_system,
}
use cpp_statecharts.Asynchronous.Stopping.{rank, SystemHalting}
use cpp_statecharts.Asynchronous.Closing.{flags_of_history, moves-Halting}

-- A step of the call of `shutdown`, of the timeout thread or of the worker, at the given reading of
-- the clock: no client calls, and no entry that runs does.
abbrev pub IsOwn : ℕ → Move → Type 0
IsOwn now (shuts n) = n ≡ now
IsOwn now (times n) = n ≡ now
IsOwn now (works i) = i ≡ 0
IsOwn now _ = ⊥

module _ (now : ℕ) where
  -- Own steps lead from the system to one with the property.
  pub record Reaches (P : System → Type 0) (s : System) : Type 0 where
    pub steps : List Move
    pub own : All (IsOwn now) steps
    pub there : P (moves steps s)

  moves-append : (xs ys : List Move) (s : System) → moves (xs ++ ys) s ≡ moves ys (moves xs s)
  unfolding moves
  moves-append [] ys s = refl
  moves-append (m ∷ xs) ys s = moves-append xs ys (move m s)

  here : (P : System → Type 0) (s : System) → P s → Reaches P s
  unfolding moves
  here P s h = record { steps = []; own = tt; there = h }

  one_more :
      (P : System → Type 0) (m : Move) (s : System)
      → IsOwn now m
      → Reaches P (move m s)
      → Reaches P s
  unfolding moves
  one_more P m s own h = record { steps = m ∷ h.steps; own = (own, h.own); there = h.there }

  -- A stage may use that the flags are those of a history.
  and_then :
      (P Q : System → Type 0) (s : System)
      → SystemHalting s
      → Reaches P s
      → ((u : System) → SystemHalting u → P u → Reaches Q u)
      → Reaches Q s
  and_then P Q s flags h k =
      let rest = k (moves h.steps s) (moves-Halting h.steps s flags) h.there in
      record {
        steps = h.steps ++ rest.steps;
        own = All-append (IsOwn now) h.steps rest.steps h.own rest.own;
        there = subst Q (sym (moves-append h.steps rest.steps s)) rest.there;
      }

  abbrev system_at : Phase → TimeoutThread → Scheduler → System
  system_at p t q = record { scheduler = q; timeout_thread = t; phase = p }

  abbrev PoolStopped : System → Type 0
  PoolStopped s = 4 ≤ rank s.phase

  abbrev ThreadReturned : System → Type 0
  ThreadReturned s = (4 ≤ rank s.phase) × (s.timeout_thread ≡ returned)

  abbrev WorkerEnded : System → Type 0
  WorkerEnded s = ThreadReturned s × (s.scheduler.pool.workers ≡ ended ∷ [])

  abbrev pub Finished : System → Type 0
  Finished s = s.phase ≡ finished

  shut : (P : System → Type 0) (s : System) → Reaches P (move (shuts now) s) → Reaches P s
  shut P s h = one_more P (shuts now) s refl h

  to_pool :
      (p : Phase) (t : TimeoutThread) (q : Scheduler)
      → 1 ≤ rank p
      → Reaches PoolStopped (system_at p t q)
  unfolding move shutdown_step
  to_pool not_called t q le = absurd (omega arith)
  to_pool flag_cleared t q le = shut _ _ (shut _ _ (shut _ _ (here _ _ (omega arith))))
  to_pool queue_cleared t q le = shut _ _ (shut _ _ (here _ _ (omega arith)))
  to_pool queue_stopped t q le = shut _ _ (here _ _ (omega arith))
  to_pool pool_stopped t q le = here _ _ (omega arith)
  to_pool thread_joined t q le = here _ _ (omega arith)
  to_pool (awaiting deadline i) t q le = here _ _ (omega arith)
  to_pool (joining deadline i) t q le = here _ _ (omega arith)
  to_pool (awaited b) t q le = here _ _ (omega arith)
  to_pool finished t q le = here _ _ (omega arith)

  tick : (P : System → Type 0) (s : System) → Reaches P (move (times now) s) → Reaches P s
  tick P s h = one_more P (times now) s refl h

  -- The timeout thread returns, at the latest behind the entry that it is at.
  thread_returns :
      (p : Phase) (t : TimeoutThread) (q : Scheduler)
      → 4 ≤ rank p
      → q.is_running ≡ false
      → q.timeout_queue.stop_flag ≡ true
      → q.pool.shutdown_flag ≡ true
      → Reaches ThreadReturned (system_at p t q)
  unfolding move time_step after_round round is_shutdown with_pool
  thread_returns p at_head q le run stop down = tick _ _ (here _ _ (le, rw run refl))
  thread_returns p taking q le run stop down = tick _ _ (here _ _ (rw stop (le, refl)))
  thread_returns p (testing e) q le run stop down = elim (Bool-cases (is_invalid e.id q)) [
    | inl i ↦ tick _ _ (rw i (tick _ _ (here _ _ (le, rw run refl))))
    | inr i ↦ tick _ _ (rw i (tick _ _ (here _ _ (le, rw down refl))))
  ]
  thread_returns p (asking e) q le run stop down = tick _ _ (here _ _ (le, rw down refl))
  thread_returns p (posting e) q le run stop down = tick _ _ (tick _ _ (here _ _ (le, rw run refl)))
  thread_returns p returned q le run stop down = here _ _ (le, refl)

  abbrev at_work : Phase → Scheduler → Worker Entry → List Entry → System
  at_work p q w ts = system_at p returned (record q { pool = lone w ts })

  work : (P : System → Type 0) (s : System) → Reaches P (move (works 0) s) → Reaches P s
  work P s h = one_more P (works 0) s refl h

  worker_ends :
      (p : Phase) (q : Scheduler) (ts : List Entry)
      → 4 ≤ rank p
      → Reaches WorkerEnded (at_work p q waiting ts)
  unfolding move with_pool
  worker_ends p q [] le = work _ _ (rw (lone_ends {T = Entry}) (here _ _ ((le, refl), refl)))
  worker_ends p q (t ∷ ts) le =
      work _ _ (rw (lone_starts t ts) (work _ _ (rw (lone_finishes t ts) (worker_ends p q ts le))))

  work_ends :
      (p : Phase) (q : Scheduler) (w : Worker Entry) (ts : List Entry)
      → 4 ≤ rank p
      → Reaches WorkerEnded (at_work p q w ts)
  unfolding move with_pool
  work_ends p q waiting ts le = worker_ends p q ts le
  work_ends p q (running t) ts le = work _ _ (rw (lone_finishes t ts) (worker_ends p q ts le))
  work_ends p q ended ts le = here _ _ ((le, refl), refl)

  abbrev rebuilt : System → TimeoutThread → List (Worker Entry) → Bool → System
  rebuilt s t ws down = system_at s.phase t (record s.scheduler {
    pool = record { tasks = s.scheduler.pool.tasks; workers = ws; shutdown_flag = down };
  })

  pool_ends :
      (s : System) (w : Worker Entry)
      → 4 ≤ rank s.phase
      → s.timeout_thread ≡ returned
      → s.scheduler.pool.workers ≡ w ∷ []
      → s.scheduler.pool.shutdown_flag ≡ true
      → Reaches WorkerEnded s
  pool_ends s w le t e down =
      let with_flag : Reaches WorkerEnded
          (rebuilt s returned (w ∷ []) s.scheduler.pool.shutdown_flag) =
        subst (λ b. Reaches WorkerEnded (rebuilt s returned (w ∷ []) b)) (sym down)
          (work_ends s.phase s.scheduler w s.scheduler.pool.tasks le) in
      let with_workers : Reaches WorkerEnded
          (rebuilt s returned s.scheduler.pool.workers s.scheduler.pool.shutdown_flag) =
        subst (λ ws. Reaches WorkerEnded (rebuilt s returned ws s.scheduler.pool.shutdown_flag))
          (sym e) with_flag in
      subst
        (λ u.
          Reaches WorkerEnded (rebuilt s u s.scheduler.pool.workers s.scheduler.pool.shutdown_flag))
        (sym t) with_workers

  -- The loop of awaitTermination ends: the worker has returned.
  loop_ends :
      (deadline i : ℕ) (q : Scheduler)
      → q.pool.workers ≡ ended ∷ []
      → Reaches Finished (system_at (awaiting deadline (suc i)) returned q)
  unfolding move shutdown_step
  loop_ends deadline i q e = shut _ _ (simp e (shut _ _ (here _ _ refl)))

  join_ends :
      (deadline i : ℕ) (q : Scheduler)
      → q.pool.workers ≡ ended ∷ []
      → Reaches Finished (system_at (joining deadline i) returned q)
  unfolding move shutdown_step
  join_ends deadline zero q e = shut _ _ (simp e (loop_ends deadline 0 q e))
  join_ends deadline (suc i) q e = shut _ _ (simp e (shut _ _ (here _ _ refl)))

  await_ends :
      (deadline i : ℕ) (q : Scheduler)
      → q.pool.workers ≡ ended ∷ []
      → Reaches Finished (system_at (awaiting deadline i) returned q)
  unfolding move shutdown_step
  await_ends deadline zero q e = elim (Bool-cases (leb deadline now)) [
    | inl late ↦ shut _ _ (simp (e, late) (shut _ _ (here _ _ refl)))
    | inr early ↦ shut _ _ (simp (e, early) (join_ends deadline 0 q e))
  ]
  await_ends deadline (suc i) q e = loop_ends deadline i q e

  last_ends :
      (p : Phase) (q : Scheduler)
      → 4 ≤ rank p
      → q.pool.workers ≡ ended ∷ []
      → Reaches Finished (system_at p returned q)
  unfolding move shutdown_step
  last_ends not_called q le e = absurd (omega arith)
  last_ends flag_cleared q le e = absurd (omega arith)
  last_ends queue_cleared q le e = absurd (omega arith)
  last_ends queue_stopped q le e = absurd (omega arith)
  last_ends pool_stopped q le e = shut _ _ (shut _ _ (await_ends (now + 60000) 0 q e))
  last_ends thread_joined q le e = shut _ _ (await_ends (now + 60000) 0 q e)
  last_ends (awaiting deadline i) q le e = await_ends deadline i q e
  last_ends (joining deadline i) q le e = join_ends deadline i q e
  last_ends (awaited b) q le e = shut _ _ (here _ _ refl)
  last_ends finished q le e = here _ _ refl

  -- In every history of a new chart in which `shutdown` was called, whatever its threads and clients
  -- have done since and whatever the clock reads, steps of `shutdown`, of the timeout thread and of
  -- the worker alone lead to its end: it waits for no client and there is no deadlock. (A step of a
  -- worker that is in a task is the end of that task.)
  pub shutdown_ends :
      (ms : List Move)
      → 1 ≤ rank (moves ms new_system).phase
      → Reaches Finished (moves ms new_system)
  shutdown_ends ms le =
      let s = moves ms new_system in
      let h = flags_of_history ms in
      and_then PoolStopped Finished s h (to_pool s.phase s.timeout_thread s.scheduler le) λ u hu lu.
        and_then ThreadReturned Finished u hu
          (thread_returns u.phase u.timeout_thread u.scheduler lu
            (hu.not_running (omega (arith, lu))) (hu.no_take (omega (arith, lu))) (hu.no_task lu))
          λ v hv (lv, tv).
            and_then WorkerEnded Finished v hv
              (pool_ends v hv.single.0 lv tv hv.single.1 (hv.no_task lv))
              λ x hx ((lx, tx), ex).
                subst (λ t. Reaches Finished (system_at x.phase t x.scheduler)) (sym tx)
                  (last_ends x.phase x.scheduler lx ex)
