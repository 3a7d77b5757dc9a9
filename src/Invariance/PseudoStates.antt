-- ===== src/Invariance/PseudoStates.antt =====
-- The methods of src/PseudoState.cpp keep an invariant, if the calls that they make do.
use cpp_statecharts.Base.{ℕ, true, Option, none, some, List, [], ◌∷◌, Bool-cases, inl, inr}
use cpp_statecharts.Structure.{PseudoStateType, start, junction, fork, join, history, deep_history}
use cpp_statecharts.Event.{Event}
use cpp_statecharts.Runtime.{Run}
use cpp_statecharts.Runtime.Rules.{
  Ensures, Keeps, Keeps-bind, Keeps-then, Keeps-pure, Keeps-gets, Keeps-for_each, Keeps-pointer,
  Keeps-read_at,
}
use cpp_statecharts.Chart.{Chart, Methods, guard_holds}
use cpp_statecharts.Behaviour.PseudoStates.{
  restore, restore_from, register_path, fork_regions, after_entry, pseudo_activate,
  history_dispatch, dispatch_resumed, fork_dispatch, pseudo_dispatch,
}
use cpp_statecharts.Invariance.Steps.{Stable, MethodsKeep}
use cpp_statecharts.Invariance.States.{
  now-Keeps, entering-Keeps, register_region-Keeps, execute-Keeps, state_dispatch-Keeps,
}

module _ {W : Type 0} {chart : Chart W} (I : Run W → Type 0) (stable : Stable chart I)
    (self : Methods W) (calls : MethodsKeep I self) where
  restore-Keeps : (s address : ℕ) (l : List ℕ) → Keeps I (restore chart self s address l)
  unfolding restore
  restore-Keeps s address [] = Keeps-pure I tt
  restore-Keeps s address (c ∷ cs) =
      Keeps-then I (calls.activating c)
        (Keeps-then I (Keeps-read_at I s address) (restore-Keeps s address cs))

  restore_from-Keeps : (s : ℕ) (d : Option ℕ) → Keeps I (restore_from chart self s d)
  unfolding restore_from
  restore_from-Keeps s none = Keeps-pure I tt
  restore_from-Keeps s (some address) =
      Keeps-bind I (Keeps-read_at I s address) (λ d. restore-Keeps s address d.stateset)

  register_path-Keeps : (path : List ℕ) → Keeps I (register_path chart self path)
  unfolding register_path
  register_path-Keeps [] = Keeps-pure I tt
  register_path-Keeps (s ∷ rest) =
      Keeps-then I (register_region-Keeps I stable _ s rest) (register_path-Keeps rest)

  fork_regions_ends : (t : ℕ) (r : Run W) → I r → Ensures I (fork_regions chart self t r)
  unfolding fork_regions
  fork_regions_ends t r h =
      elim (Bool-cases (guard_holds (chart.transition t).guard r.meta r.world)) [
        | inl e ↦ rw e ((register_path-Keeps (chart.transition t).activate_list).keeps r h)
        | inr e ↦ rw e h
      ]

  after_entry-Keeps :
      (t : PseudoStateType) (s : ℕ) (d : Option ℕ) → Keeps I (after_entry chart self t s d)
  unfolding after_entry
  after_entry-Keeps history s d = restore_from-Keeps s d
  after_entry-Keeps deep_history s d = restore_from-Keeps s d
  after_entry-Keeps fork s d = Keeps-for_each I _ (λ t. record { keeps = fork_regions_ends t })
  after_entry-Keeps start s d = Keeps-pure I tt
  after_entry-Keeps junction s d = Keeps-pure I tt
  after_entry-Keeps join s d = Keeps-pure I tt

  pub pseudo_activate-Keeps :
      (t : PseudoStateType) (s : ℕ) → Keeps I (pseudo_activate chart self t s)
  unfolding pseudo_activate
  pseudo_activate-Keeps t s = Keeps-bind I (now-Keeps I stable) λ time.
      Keeps-then I (entering-Keeps I stable time s) (
        Keeps-bind I (Keeps-pointer I s) λ d.
          Keeps-then I (stable.on_entry s)
            (Keeps-then I (after_entry-Keeps t s d) (Keeps-pure I true)))

  dispatch_resumed-Keeps :
      (s : ℕ) (e : Option Event) (c : Option ℕ) → Keeps I (dispatch_resumed chart self s e c)
  unfolding dispatch_resumed
  dispatch_resumed-Keeps s e none = state_dispatch-Keeps I stable self calls s e
  dispatch_resumed-Keeps s e (some c) = calls.dispatching c e

  history_dispatch-Keeps : (s : ℕ) (e : Option Event) → Keeps I (history_dispatch chart self s e)
  unfolding history_dispatch
  history_dispatch-Keeps s e = Keeps-bind I (Keeps-gets I _) (dispatch_resumed-Keeps s e)

  fork_dispatch-Keeps : (s : ℕ) (e : Option Event) → Keeps I (fork_dispatch chart self s e)
  unfolding fork_dispatch
  fork_dispatch-Keeps s e =
      Keeps-then I
        (Keeps-for_each I _
          (λ t. Keeps-bind I (execute-Keeps I stable self calls e t) (λ _. Keeps-pure I tt)))
        (Keeps-pure I true)

  pub pseudo_dispatch-Keeps :
      (t : PseudoStateType) (s : ℕ) (e : Option Event) → Keeps I (pseudo_dispatch chart self t s e)
  unfolding pseudo_dispatch
  pseudo_dispatch-Keeps history s e = history_dispatch-Keeps s e
  pseudo_dispatch-Keeps deep_history s e = history_dispatch-Keeps s e
  pseudo_dispatch-Keeps fork s e = fork_dispatch-Keeps s e
  pseudo_dispatch-Keeps start s e = state_dispatch-Keeps I stable self calls s e
  pseudo_dispatch-Keeps junction s e = state_dispatch-Keeps I stable self calls s e
  pseudo_dispatch-Keeps join s e = state_dispatch-Keeps I stable self calls s e
