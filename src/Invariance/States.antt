-- ===== src/Invariance/States.antt =====
-- The methods of each class keep an invariant, if the calls that they make do.
use cpp_statecharts.Base.{ℕ, true, false, Option, none, some, List, [], ◌∷◌, Bool-cases, inl, inr}
use cpp_statecharts.Structure.{Kind, is_concurrent}
use cpp_statecharts.Event.{Event, signal, timeout_event}
use cpp_statecharts.Metadata.{
  StateRuntimedata, Metadata, modify_data, create_runtimedata, get_data, is_active,
}
use cpp_statecharts.Metadata
use cpp_statecharts.Runtime.{Run, now, modify}
use cpp_statecharts.Runtime.Rules.{
  Keeps, Keeps-bind, Keeps-then, Keeps-pure, Keeps-gets, Keeps-bounded, Keeps-if, Keeps-for_each,
  Keeps-first_true, Keeps-modify,
}
use cpp_statecharts.Chart.{Chart, Methods}
use cpp_statecharts.Behaviour.Transitions.{
  register_region, activate_path, fire, fire_internal, execute, misses, allowed,
}
use cpp_statecharts.Behaviour.States.{arm, arm_timeouts, enter, state_activate, state_dispatch}
use cpp_statecharts.Invariance.Steps.{Stable, MethodsKeep, with_meta}

module _ {W : Type 0} {chart : Chart W} (I : Run W → Type 0) (stable : Stable chart I) where
  pub now-Keeps : Keeps I now
  now-Keeps = record { keeps = stable.ticking }

  pub entering-Keeps : (time s : ℕ) → Keeps I (modify (Metadata.activate chart.states time s))
  entering-Keeps time s = Keeps-modify I _ (stable.entering time s)

  arm-Keeps : (s : ℕ) (o : Option Event) → Keeps I (arm chart s o)
  unfolding arm
  arm-Keeps s none = Keeps-pure I tt
  arm-Keeps s (some (signal i)) = Keeps-pure I tt
  arm-Keeps s (some (timeout_event u ms)) =
      Keeps-bind I (stable.arming s ms _) (λ i. Keeps-modify I _ (stable.remembering s i))

  arm_timeouts-Keeps : (s : ℕ) → Keeps I (arm_timeouts chart s)
  unfolding arm_timeouts
  arm_timeouts-Keeps s = Keeps-if I _ (Keeps-for_each I _ (λ t. arm-Keeps s _)) (Keeps-pure I tt)

  enter-Keeps : (s : ℕ) → Keeps I (enter chart s)
  unfolding enter
  enter-Keeps s = Keeps-bind I now-Keeps λ time. Keeps-then I (entering-Keeps time s) (
      Keeps-then I (arm_timeouts-Keeps s)
        (Keeps-then I (stable.on_entry s) (Keeps-then I (stable.on_do s) (Keeps-pure I true))))

  pub state_activate-Keeps : (s : ℕ) → Keeps I (state_activate chart s)
  unfolding state_activate
  state_activate-Keeps s =
      Keeps-bind I (Keeps-gets I _) (λ b. Keeps-if I b (Keeps-pure I false) (enter-Keeps s))

  region_ends :
      (k : Kind) (s : ℕ) (rest : List ℕ) (r : Run W)
      → I r
      → I (with_meta (register_region k s rest) r)
  unfolding register_region
  region_ends k s [] r h = h
  region_ends k s (x ∷ xs) r h = elim (Bool-cases (is_concurrent k)) [
    | inl e ↦ rw e (stable.targeting s x _ (stable.creating s r h))
    | inr e ↦ rw e h
  ]

  pub register_region-Keeps :
      (k : Kind) (s : ℕ) (rest : List ℕ) → Keeps I (modify (register_region k s rest))
  register_region-Keeps k s rest = Keeps-modify I _ (region_ends k s rest)

  module _ (self : Methods W) (calls : MethodsKeep I self) where
    activate_path-Keeps : (path : List ℕ) → Keeps I (activate_path chart self path)
    unfolding activate_path
    activate_path-Keeps [] = Keeps-pure I tt
    activate_path-Keeps (s ∷ rest) =
        Keeps-then I (register_region-Keeps _ s rest)
          (Keeps-then I (calls.activating s) (activate_path-Keeps rest))

    fire-Keeps : (t : ℕ) → Keeps I (fire chart self (chart.transition t))
    unfolding fire
    fire-Keeps t = Keeps-then I (Keeps-for_each I _ calls.deactivating) (
        Keeps-then I (stable.on_transition t)
          (Keeps-then I (activate_path-Keeps _) (Keeps-pure I true)))

    fire_internal-Keeps : (t : ℕ) → Keeps I (fire_internal chart self (chart.transition t))
    unfolding fire_internal
    fire_internal-Keeps t = Keeps-then I (stable.on_transition t) (Keeps-pure I true)

    pub execute-Keeps :
        (e : Option Event) (t : ℕ) → Keeps I (execute chart self e (chart.transition t))
    unfolding execute
    execute-Keeps e t = Keeps-if I (misses (chart.transition t).event e) (Keeps-pure I false) (
        Keeps-bind I (Keeps-bounded I (λ r. allowed chart self (chart.transition t) r.meta r.world))
          (λ b.
            Keeps-if I b
              (Keeps-if I (chart.transition t).is_internal (fire_internal-Keeps t) (fire-Keeps t))
              (Keeps-pure I false)))

    pub state_dispatch-Keeps : (s : ℕ) (e : Option Event) → Keeps I (state_dispatch chart self s e)
    unfolding state_dispatch
    state_dispatch-Keeps s e = Keeps-first_true I _ (execute-Keeps e)
