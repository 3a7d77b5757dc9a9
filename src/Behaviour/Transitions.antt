-- ===== src/Behaviour/Transitions.antt =====
-- src/Transition.cpp and src/InternalTransition.cpp: whether a transition may fire, and firing it.
use cpp_statecharts.Base.{
  ℕ, Bool, true, false, not, Option, none, some, List, [], ◌∷◌, ◌++◌, if◌then◌else◌, contains,
}
use cpp_statecharts.Structure.{Kind, is_concurrent, is_pseudo}
use cpp_statecharts.Event.{Event, equals}
use cpp_statecharts.Metadata.{Metadata, StateRuntimedata, create_runtimedata, modify_data}
use cpp_statecharts.Runtime.{M, pure, ◌>>=◌, ◌>>◌, bounded, modify, for_each}
use cpp_statecharts.Chart.{Chart, Transition, Methods, run_action, guard_holds}

abbrev pub last? : List ℕ → Option ℕ
last? [] = none
last? (x ∷ []) = some x
last? (x ∷ y ∷ r) = last? (y ∷ r)

-- A trigger does not match: there is one, and it does not consume the event or the event is null.
abbrev pub misses : Option Event → Option Event → Bool
misses none e = false
misses (some trigger) none = true
misses (some trigger) (some e) = not (equals trigger (some e))

-- The next state of an activation path becomes a region that the concurrent state will not enter by
-- itself.
abbrev pub add_region : ℕ → StateRuntimedata → StateRuntimedata
add_region region r =
    if contains region r.stateset then r else record r { stateset = r.stateset ++ (region ∷ []) }

unfoldable pub register_region : Kind → ℕ → List ℕ → Metadata → Metadata
register_region k s [] d = d
register_region k s (region ∷ rest) d =
    if is_concurrent k then modify_data s (add_region region) (create_runtimedata s d) else d

module _ {W : Type 0} (chart : Chart W) (self : Methods W) where
  -- The target is looked up if the last state of the path is a pseudo-state.
  abbrev pub target_allows : Option ℕ → Metadata → W → Option Bool
  target_allows none d w = some true
  target_allows (some s) d w =
      if is_pseudo (chart.states s).kind then self.lookup s d w else some true

  -- Transition::allowed, overridden by InternalTransition::allowed.
  unfoldable pub allowed : Transition W → Metadata → W → Option Bool
  allowed t d w =
      if guard_holds t.guard d w
      then if t.is_internal then some true else target_allows (last? t.activate_list) d w
      else some false

  -- The loop that activates the states of the path from the outside inwards.
  unfoldable pub activate_path : List ℕ → M W (Unit {0})
  activate_path [] = pure tt
  activate_path (s ∷ rest) = do
    modify (register_region (chart.states s).kind s rest)
    self.activate s
    activate_path rest

  -- Transition::execute behind its tests.
  unfoldable pub fire : Transition W → M W Bool
  fire t = do
    for_each t.deactivate_list self.deactivate
    run_action t.action
    activate_path t.activate_list
    pure true

  -- InternalTransition::execute behind its tests.
  unfoldable pub fire_internal : Transition W → M W Bool
  fire_internal t = do run_action t.action; pure true

  unfoldable pub execute : Option Event → Transition W → M W Bool
  execute e t =
      if misses t.event e
      then pure false
      else (λ r. bounded (allowed t r.meta r.world) r) >>= λ ok.
          if ok then if t.is_internal then fire_internal t else fire t else pure false
