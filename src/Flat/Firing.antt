-- ===== src/Flat/Firing.antt =====
-- src/State.cpp and src/Transition.cpp in a flat chart: leaving a state, entering one, and firing a
-- transition.
use cpp_statecharts.Base.{
  ℕ, ◌+◌, ◌≡◌, refl, true, Option, none, some, List, [], ◌∷◌, contains, Bool-cases, inl, inr, ◌∙◌,
  ap, is_some,
}
use cpp_statecharts.Structure.{
  Kind, PseudoStateType, simple_state, final_state, pseudo_state, start, junction, is_pseudo,
  hierarchical_state, concurrent_state, statechart_root, fork, join, history, deep_history,
}
use cpp_statecharts.Event.{Event, signal, timeout_event}
use cpp_statecharts.Metadata.{Metadata, StateRuntimedata, get_data, is_active}
use cpp_statecharts.Metadata
use cpp_statecharts.Runtime.{Run, M, Outcome, done, bind_outcome, for_each}
use cpp_statecharts.Chart.{Chart, Methods}
use cpp_statecharts.Behaviour.States.{
  arm, arm_timeouts, enter, state_activate, disarm_timeouts, leave, state_deactivate, timeouts_of,
}
use cpp_statecharts.Behaviour.PseudoStates.{after_entry, pseudo_activate}
use cpp_statecharts.Behaviour.Virtual.{activate_of, deactivate_of}
use cpp_statecharts.Flat.Machine.{Machine, Edge}
use cpp_statecharts.Flat.Implementing.{IsFlat, IsUntimed, AreEdges, IsState, Represents}
use cpp_statecharts.Flat.Writing.{left_alone, left_root, entered-Represents}

-- What follows a computation that returns.
pub step :
    {W A B : Type 0} {o : Outcome (Run W) A} {a : A} {r : Run W} (f : A → M W B)
    {p : Outcome (Run W) B}
    → o ≡ done a r
    → f a r ≡ p
    → bind_outcome o f ≡ p
step f e h = ap (λ o. bind_outcome o f) e ∙ h

module _ {W : Type 0} (chart : Chart W) (m : Machine W) where
  -- The run behind `deactivate`, and the one behind `activate`.
  abbrev pub after_leaving : ℕ → Run W → Run W
  after_leaving c r = record r {
    meta = Metadata.deactivate chart.states c r.meta;
    world = m.on_exit c r.world;
  }

  abbrev pub after_entering : ℕ → Run W → Run W
  after_entering s r = record r {
    meta = Metadata.activate chart.states (r.clock r.reads) s r.meta;
    world = m.on_do s (m.on_entry s r.world);
    reads = r.reads + 1;
  }

  disarm_none :
      (c : ℕ) (r : Run W)
      → timeouts_of (get_data c r.meta) ≡ []
      → disarm_timeouts chart c r ≡ done tt r
  unfolding disarm_timeouts for_each
  disarm_none c r h = elim (Bool-cases (is_some (chart.states c).statechart)) [
    | inl e ↦ rw (e, h) refl
    | inr e ↦ rw e refl
  ]

  arm_none :
      (s : ℕ) (o trigger : Option Event) (r : Run W)
      → o ≡ trigger
      → IsUntimed trigger
      → arm chart s o r ≡ done tt r
  unfolding arm
  arm_none s o none r e h = rw e refl
  arm_none s o (some (signal i)) r e h = rw e refl
  arm_none s o (some (timeout_event u ms)) r e h = absurd h

  module _ (ids : List ℕ) where
    pub deactivate_run :
        {c : ℕ} {w : W} {r : Run W}
        → IsState chart m ids c
        → Represents chart m ids c w r
        → state_deactivate chart c r ≡ done tt (after_leaving c r)
    unfolding state_deactivate leave is_active
    deactivate_run {c = c} {r = r} state h =
        rw (h.known, h.active)
          (step _ (disarm_none c r (rw h.known h.untimed))
            (state.exit (record r { meta = Metadata.deactivate chart.states c r.meta })))

    arm_all :
        (s : ℕ) (ts : List ℕ) (edges : List (Edge W)) (r : Run W)
        → AreEdges chart m ids s ts edges
        → for_each ts (λ t. arm chart s (chart.transition t).event) r ≡ done tt r
    unfolding for_each
    arm_all s [] [] r h = refl
    arm_all s [] (edge ∷ edges) r h = absurd h
    arm_all s (t ∷ ts) [] r h = absurd h
    arm_all s (t ∷ ts) (edge ∷ edges) r h =
        step _ (arm_none s (chart.transition t).event edge.trigger r h.0.trigger h.0.untimed)
          (arm_all s ts edges r h.1)

    arm_timeouts_none :
        (s : ℕ) (r : Run W) → IsState chart m ids s → arm_timeouts chart s r ≡ done tt r
    unfolding arm_timeouts
    arm_timeouts_none s r state = elim (Bool-cases (is_some (chart.states s).statechart)) [
      | inl e ↦ rw e (arm_all s (chart.states s).transitions (m.edges s) r state.edges)
      | inr e ↦ rw e refl
    ]

    enter_run :
        (s : ℕ) (r : Run W)
        → IsState chart m ids s
        → get_data s r.meta ≡ none
        → state_activate chart s r ≡ done true (after_entering s r)
    unfolding state_activate enter is_active
    enter_run s r state none_yet =
        let r1 : Run W = record r {
          meta = Metadata.activate chart.states (r.clock r.reads) s r.meta;
          reads = r.reads + 1;
        } in
        rw none_yet (
          step _ (arm_timeouts_none s r1 state) (
            step _ (state.entry r1)
              (step _ (state.doing (record r1 { world = m.on_entry s r.world })) refl)))

    pseudo_enter_run :
        (self : Methods W) (t : PseudoStateType) (s : ℕ) (r : Run W)
        → IsFlat (pseudo_state t)
        → IsState chart m ids s
        → is_pseudo (chart.states s).kind ≡ true
        → pseudo_activate chart self t s r ≡ done true (after_entering s r)
    unfolding pseudo_activate after_entry
    pseudo_enter_run self start s r flat state pseudo =
        rw (state.pseudo_idle (m.on_entry s r.world) pseudo) (step _ (state.entry _) refl)
    pseudo_enter_run self junction s r flat state pseudo =
        rw (state.pseudo_idle (m.on_entry s r.world) pseudo) (step _ (state.entry _) refl)
    pseudo_enter_run self fork s r flat state pseudo = absurd flat
    pseudo_enter_run self join s r flat state pseudo = absurd flat
    pseudo_enter_run self history s r flat state pseudo = absurd flat
    pseudo_enter_run self deep_history s r flat state pseudo = absurd flat

    pub activate_kind :
        (self : Methods W) (k : Kind) (s : ℕ) (r : Run W)
        → (chart.states s).kind ≡ k
        → IsFlat k
        → IsState chart m ids s
        → get_data s r.meta ≡ none
        → activate_of chart self k s r ≡ done true (after_entering s r)
    unfolding activate_of
    activate_kind self simple_state s r e flat state none_yet = enter_run s r state none_yet
    activate_kind self final_state s r e flat state none_yet = enter_run s r state none_yet
    activate_kind self (pseudo_state t) s r e flat state none_yet =
        pseudo_enter_run self t s r flat state (ap is_pseudo e)
    activate_kind self hierarchical_state s r e flat state none_yet = absurd flat
    activate_kind self concurrent_state s r e flat state none_yet = absurd flat
    activate_kind self statechart_root s r e flat state none_yet = absurd flat

    pub deactivate_kind :
        (self : Methods W) (k : Kind) (c : ℕ) (r : Run W)
        → IsFlat k
        → deactivate_of chart self k c r ≡ state_deactivate chart c r
    unfolding deactivate_of
    deactivate_kind self simple_state c r flat = refl
    deactivate_kind self final_state c r flat = refl
    deactivate_kind self (pseudo_state t) c r flat = refl
    deactivate_kind self hierarchical_state c r flat = absurd flat
    deactivate_kind self concurrent_state c r flat = absurd flat
    deactivate_kind self statechart_root c r flat = absurd flat

    -- Leaving the state of the machine and entering another, with a change of the data between.
    abbrev pub after_firing : (c s : ℕ) → (W → W) → Run W → Run W
    after_firing c s f r =
        let left : Run W = after_leaving c r in
        after_entering s (record left { world = f left.world })

    pub fired-Represents :
        (c s : ℕ) (f : W → W) {w : W} {r : Run W}
        → IsState chart m ids c
        → IsState chart m ids s
        → contains s ids ≡ true
        → Represents chart m ids c w r
        → Represents chart m ids s (after_firing c s f r).world (after_firing c s f r)
    fired-Represents c s f {r = r} from to mem h =
        entered-Represents s (r.clock r.reads) (Metadata.deactivate chart.states c r.meta)
          h.root_data (after_firing c s f r) to mem (left_root from h)
          (λ x ne. left_alone x from h ne) refl
