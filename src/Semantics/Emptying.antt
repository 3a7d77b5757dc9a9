-- ===== src/Semantics/Emptying.antt =====
-- Which states a call of `deactivate` leaves; the method of src/State.cpp leaves its state inactive.
pub mod Composites
pub mod Built
use cpp_statecharts.Base.{
  ℕ, zero, suc, ◌+◌, ◌⊎◌, ◌≡◌, refl, ◌∙◌, ◌==◌, true, false, Option, none, some, List, [], ◌∷◌,
  subst, Bool-cases, Option-cases, inl, inr, contains, arith,
}
use cpp_statecharts.Structure.{
  Kind, PseudoStateType, simple_state, final_state, hierarchical_state, concurrent_state,
  statechart_root, pseudo_state,
}
use cpp_statecharts.Metadata.{StateRuntimedata, Metadata, get_data, is_active, modify_data}
use cpp_statecharts.Metadata.Alike.{Alike, Alike-refl, recorded-Alike, is_active-modify_data}
use cpp_statecharts.Runtime.Posts.{Post, Post-bind, Post-after, Ensures-Post}
use cpp_statecharts.Metadata.Laws.{is_active-deactivate}
use cpp_statecharts.Metadata.Substates.{substate}
use cpp_statecharts.Runtime.{
  Run, Outcome, done, thrown, fault, out_of_fuel, M, ◌>>=◌, ◌>>◌, bounded, for_each, modify,
  write_at, read_at, address_of,
}
use cpp_statecharts.Runtime.Rules.{Keeps, Keeps-then, Keeps-for_each, Keeps-write_at}
use cpp_statecharts.Chart.{Chart, Methods, run_action}
use cpp_statecharts.Runtime.Bounds.{Ends, Terminates}
use cpp_statecharts.Construction.Building.{Builder}
use cpp_statecharts.Invariance.Nesting.{WellNested}
use cpp_statecharts.Semantics.Ending.Built.{Built-deactivate}
use cpp_statecharts.Behaviour.States.{disarm_timeouts, leave, state_deactivate}
use cpp_statecharts.Behaviour.PseudoStates.{chain_below, store_if, store_history}
use cpp_statecharts.Behaviour.Hierarchical.{
  is_recorded, save_history, leave_substate, leave_from, hierarchical_deactivate,
}
use cpp_statecharts.Behaviour.Concurrent.{concurrent_deactivate}
use cpp_statecharts.Behaviour.Virtual.{deactivate_of, override, methods}
use cpp_statecharts.Invariance.Steps.{StableLeaving, ActionKeeps}
use cpp_statecharts.Invariance.Leaving.{state_deactivate-Keeps, deactivate-Keeps}

abbrev pub Quiet : {W : Type 0} → ℕ → Run W → Type 0
Quiet x r = is_active x r.meta ≡ false

module _ {W : Type 0} (chart : Chart W) where
  -- What a call of `deactivate` on `s` leaves: the state; the current substates of an active
  -- composite state, and what a call on them leaves; the regions of a concurrent state.
  pub data Within (d : Metadata) : ℕ → ℕ → Type 0 where
    itself : {s : ℕ} → Within d s s
    inner :
        {s c x : ℕ}
        → (chart.states s).kind ≡ hierarchical_state
        → is_active s d ≡ true
        → substate s d ≡ some c
        → Within d c x
        → Within d s x
    region :
        {s x : ℕ}
        → (chart.states s).kind ≡ concurrent_state
        → contains x (chart.states s).regions ≡ true
        → Within d s x

  pub Within-Alike : {d d' : Metadata} {s x : ℕ} → Alike d d' → Within d s x → Within d' s x
  Within-Alike a itself = itself
  Within-Alike {s = s} a (inner k h e w) =
      inner k (a.activity s ∙ h) (a.currents s ∙ e) (Within-Alike a w)
  Within-Alike a (region k m) = region k m

  -- No exit action activates the state `x`.
  module _ (x : ℕ) (exits : (s : ℕ) → ActionKeeps (Quiet x) (chart.actions s).exit_action) where
    pub Quiet-StableLeaving : StableLeaving chart (Quiet x)
    Quiet-StableLeaving = record {
      leaving = λ s r h. ground (arith, is_active-deactivate chart.states s x r.meta, h);
      recording = λ s l r h. is_active-modify_data s x _ r.meta (λ d. refl) ∙ h;
      emptying = λ s r h. is_active-modify_data s x _ r.meta (λ d. refl) ∙ h;
      invalidating = λ i r h. h;
      cancelling = λ i r h. h;
      on_exit = exits;
    }

    left-Quiet : (r : Run W) → Post (Quiet x) (leave chart x r)
    unfolding leave
    left-Quiet r = Post-after (Quiet x) (disarm_timeouts chart x r) _ λ a q.
        Ensures-Post (Quiet x) _
          ((exits x).keeps _ (ground (arith, is_active-deactivate chart.states x x q.meta)))

    pub state_deactivate-Quiet : (r : Run W) → Post (Quiet x) (state_deactivate chart x r)
    unfolding state_deactivate
    state_deactivate-Quiet r = elim (Bool-cases (is_active x r.meta)) [
      | inl e ↦ rw e (left-Quiet r)
      | inr e ↦ rw e e
    ]
