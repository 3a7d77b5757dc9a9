-- ===== src/Semantics/Ending/States.antt =====
-- State::deactivate of src/State.cpp ends.
use cpp_statecharts.Base.{ℕ, List, [], ◌∷◌, All, if◌then◌else◌, if_ind, is_some}
use cpp_statecharts.Metadata.{get_data, is_active}
use cpp_statecharts.Metadata.Substates.{deactivate-Nested}
use cpp_statecharts.Entries.{is_alive}
use cpp_statecharts.Runtime.{Run, pure, for_each}
use cpp_statecharts.Runtime.Bounds.{
  Ends, Terminates, Terminates-then, Terminates-pure, Terminates-gets, Terminates-if,
  Terminates-for_each, Terminates-modify,
}
use cpp_statecharts.Chart.{Chart, run_action}
use cpp_statecharts.Behaviour.States.{
  invalidate, disarm, disarm_timeouts, leave, state_deactivate, timeouts_of,
}
use cpp_statecharts.Invariance.Nesting.{WellNested}

module _ {W : Type 0} (chart : Chart W)
    (exits : (s : ℕ)
      → Terminates (WellNested chart) (run_action (chart.actions s).exit_action)) where
  abbrev I : Run W → Type 0
  I = WellNested chart

  invalidate-Ends : (i : ℕ) (r : Run W) → I r → Ends I (invalidate chart i r)
  unfolding invalidate
  invalidate-Ends i r h = if_ind (Ends I) (is_alive i r.scheduler) (λ _. h) (λ _. tt)

  disarm-Terminates : (i : ℕ) → Terminates I (disarm chart i)
  unfolding disarm
  disarm-Terminates i =
      Terminates-then I (record { ends = invalidate-Ends i }) (record { ends = λ r h. h })

  disarms-Terminates : (entries : List ℕ) → All (λ i. Terminates I (disarm chart i)) entries
  disarms-Terminates [] = tt
  disarms-Terminates (i ∷ is) = (disarm-Terminates i, disarms-Terminates is)

  disarm_timeouts-Terminates : (s : ℕ) → Terminates I (disarm_timeouts chart s)
  unfolding disarm_timeouts
  disarm_timeouts-Terminates s =
      Terminates-if I (is_some (chart.states s).statechart)
        (Terminates-gets I (λ d. timeouts_of (get_data s d))
          (λ entries. for_each entries (disarm chart))
          (λ r h.
            (Terminates-for_each I (timeouts_of (get_data s r.meta)) (disarm chart)
                (disarms-Terminates (timeouts_of (get_data s r.meta)))).ends
              r h))
        (Terminates-pure I tt)

  leave-Terminates : (s : ℕ) → Terminates I (leave chart s)
  unfolding leave
  leave-Terminates s = Terminates-then I (disarm_timeouts-Terminates s) (
      Terminates-then I (Terminates-modify I _ (λ r h. deactivate-Nested chart.states s r.meta h))
        (exits s))

  pub state_deactivate-Terminates : (s : ℕ) → Terminates I (state_deactivate chart s)
  unfolding state_deactivate
  state_deactivate-Terminates s =
      Terminates-gets I (is_active s) (λ active. if active then leave chart s else pure tt)
        (λ r h.
          (Terminates-if I (is_active s r.meta) (leave-Terminates s) (Terminates-pure I tt)).ends r
            h)
