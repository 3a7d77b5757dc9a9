-- ===== src/Invariance/Leaving.antt =====
-- The methods `deactivate` of src/State.cpp, src/HierarchicalState.cpp and src/ConcurrentState.cpp
-- keep an invariant, if the calls that they make do.
use cpp_statecharts.Base.{ℕ, zero, suc, Option, none, some, [], Bool-cases, inl, inr}
use cpp_statecharts.Structure.{Kind, PseudoStateType, hierarchical_state, concurrent_state}
use cpp_statecharts.Metadata.{StateRuntimedata, is_active}
use cpp_statecharts.Entries.{is_alive}
use cpp_statecharts.Runtime.{Run}
use cpp_statecharts.Runtime.Rules.{
  Ensures, Keeps, Keeps-bind, Keeps-then, Keeps-pure, Keeps-gets, Keeps-bounded, Keeps-if,
  Keeps-for_each, Keeps-read_at, Keeps-modify, Keeps-write_at, Keeps-pointer,
}
use cpp_statecharts.Chart.{Chart, Methods}
use cpp_statecharts.Behaviour.States.{invalidate, disarm, disarm_timeouts, leave, state_deactivate}
use cpp_statecharts.Behaviour.PseudoStates.{store_if, store_history}
use cpp_statecharts.Behaviour.Hierarchical.{
  is_recorded, save_history, leave_substate, leave_from, hierarchical_deactivate,
}
use cpp_statecharts.Behaviour.Concurrent.{concurrent_deactivate}
use cpp_statecharts.Behaviour.Virtual.{deactivate_of, override, methods}
use cpp_statecharts.Invariance.Steps.{StableLeaving}

module _ {W : Type 0} {chart : Chart W} (I : Run W → Type 0) (stable : StableLeaving chart I) where
  invalidate_ends : (i : ℕ) (r : Run W) → I r → Ensures I (invalidate chart i r)
  unfolding invalidate
  invalidate_ends i r h = elim (Bool-cases (is_alive i r.scheduler)) [
    | inl e ↦ rw e (stable.invalidating i r h)
    | inr e ↦ rw e tt
  ]

  disarm-Keeps : (i : ℕ) → Keeps I (disarm chart i)
  unfolding disarm
  disarm-Keeps i =
      Keeps-then I (record { keeps = invalidate_ends i }) (record { keeps = stable.cancelling i })

  disarm_timeouts-Keeps : (s : ℕ) → Keeps I (disarm_timeouts chart s)
  unfolding disarm_timeouts
  disarm_timeouts-Keeps s =
      Keeps-if I _
        (Keeps-bind I (Keeps-gets I _) (λ entries. Keeps-for_each I entries disarm-Keeps))
        (Keeps-pure I tt)

  leave-Keeps : (s : ℕ) → Keeps I (leave chart s)
  unfolding leave
  leave-Keeps s =
      Keeps-then I (disarm_timeouts-Keeps s)
        (Keeps-then I (Keeps-modify I _ (stable.leaving s)) (stable.on_exit s))

  pub state_deactivate-Keeps : (s : ℕ) → Keeps I (state_deactivate chart s)
  unfolding state_deactivate
  state_deactivate-Keeps s =
      Keeps-bind I (Keeps-gets I _) (λ b. Keeps-if I b (leave-Keeps s) (Keeps-pure I tt))

  module _ (self : Methods W) (calls : (s : ℕ) → Keeps I (self.deactivate s)) where
    store_if-Keeps :
        (t : PseudoStateType) (s : ℕ) (p : Option ℕ) (d : Option StateRuntimedata)
        → Keeps I (store_if chart self t s p d)
    unfolding store_if
    store_if-Keeps t s none d = Keeps-pure I tt
    store_if-Keeps t s (some p) none = Keeps-pure I tt
    store_if-Keeps t s (some p) (some d) =
        Keeps-bind I (Keeps-bounded I _) (λ chain. Keeps-modify I _ (stable.recording s chain))

    pub store_history-Keeps : (t : PseudoStateType) (s : ℕ) → Keeps I (store_history chart self t s)
    unfolding store_history
    store_history-Keeps t s = Keeps-bind I (Keeps-gets I _) (store_if-Keeps t s _)

    save_history-Keeps :
        (h : Option ℕ) (s : ℕ) (c : Option ℕ) → Keeps I (save_history chart self h s c)
    unfolding save_history
    save_history-Keeps none s c = Keeps-pure I tt
    save_history-Keeps (some h) s c =
        Keeps-if I (is_recorded chart self s c) (store_history-Keeps _ h) (Keeps-pure I tt)

    leave_substate-Keeps : (c : Option ℕ) → Keeps I (leave_substate chart self c)
    unfolding leave_substate
    leave_substate-Keeps none = Keeps-pure I tt
    leave_substate-Keeps (some c) = calls c

    leave_from-Keeps : (s : ℕ) (d : Option ℕ) → Keeps I (leave_from chart self s d)
    unfolding leave_from
    leave_from-Keeps s none = state_deactivate-Keeps s
    leave_from-Keeps s (some address) = Keeps-bind I (Keeps-read_at I s address) λ d.
        Keeps-then I (save_history-Keeps _ s d.current_state) (
          Keeps-bind I (Keeps-read_at I s address) λ d'.
            Keeps-then I (leave_substate-Keeps d'.current_state) (
              Keeps-then I (Keeps-write_at I s address _ (stable.emptying s))
                (state_deactivate-Keeps s)))

    pub hierarchical_deactivate-Keeps : (s : ℕ) → Keeps I (hierarchical_deactivate chart self s)
    unfolding hierarchical_deactivate
    hierarchical_deactivate-Keeps s = Keeps-bind I (Keeps-gets I (is_active s)) λ active.
        Keeps-if I active (Keeps-bind I (Keeps-pointer I s) (leave_from-Keeps s)) (Keeps-pure I tt)

    pub concurrent_deactivate-Keeps : (s : ℕ) → Keeps I (concurrent_deactivate chart self s)
    unfolding concurrent_deactivate
    concurrent_deactivate-Keeps s =
        Keeps-then I (Keeps-modify I _ (stable.recording s []))
          (Keeps-then I (Keeps-for_each I _ calls) (state_deactivate-Keeps s))

    pub deactivate_of-Keeps : (k : Kind) (s : ℕ) → Keeps I (deactivate_of chart self k s)
    unfolding deactivate_of
    deactivate_of-Keeps hierarchical_state s = hierarchical_deactivate-Keeps s
    deactivate_of-Keeps concurrent_state s = concurrent_deactivate-Keeps s
    deactivate_of-Keeps _ s = state_deactivate-Keeps s

  -- `deactivate`, at any bound on the depth of calls, keeps what its writes and the exit actions do.
  pub deactivate-Keeps : (fuel s : ℕ) → Keeps I ((methods chart fuel).deactivate s)
  unfolding methods override
  deactivate-Keeps zero s = record { keeps = λ r h. tt }
  deactivate-Keeps (suc n) s =
      deactivate_of-Keeps (methods chart n) (deactivate-Keeps n) (chart.states s).kind s
