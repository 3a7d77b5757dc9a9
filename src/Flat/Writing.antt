-- ===== src/Flat/Writing.antt =====
-- src/Metadata.cpp in a flat chart: leaving the one active state and entering another.
use cpp_statecharts.Base.{
  ℕ, ◌≡◌, ◌≢◌, refl, ◌==◌, true, false, none, some, List, contains, arith, Bool-cases, inl, inr,
  ◌∙◌, ap,
}
use cpp_statecharts.Structure.{
  Kind, simple_state, final_state, pseudo_state, start, junction, is_history, hierarchical_state,
  concurrent_state, statechart_root, fork, join, history, deep_history,
}
use cpp_statecharts.Metadata.{Metadata, StateRuntimedata, get_data, is_active}
use cpp_statecharts.Metadata
use cpp_statecharts.Metadata.Laws.{
  get_data-activate, get_data-deactivate, with_current, entered, data_or_new,
}
use cpp_statecharts.Runtime.{Run}
use cpp_statecharts.Chart.{Chart}
use cpp_statecharts.Flat.Machine.{Machine}
use cpp_statecharts.Flat.Implementing.{IsFlat, IsState, Represents}

flat-not_history : (k : Kind) → IsFlat k → is_history k ≡ false
flat-not_history simple_state h = refl
flat-not_history final_state h = refl
flat-not_history (pseudo_state start) h = refl
flat-not_history (pseudo_state junction) h = refl
flat-not_history (pseudo_state history) h = absurd h
flat-not_history (pseudo_state deep_history) h = absurd h
flat-not_history (pseudo_state fork) h = refl
flat-not_history (pseudo_state join) h = refl
flat-not_history hierarchical_state h = refl
flat-not_history concurrent_state h = refl
flat-not_history statechart_root h = refl

module _ {W : Type 0} {chart : Chart W} {m : Machine W} {ids : List ℕ} where
  -- Behind `deactivate` the root alone has runtime data, as before.
  pub left_alone :
      {c : ℕ} {w : W} {r : Run W} (s : ℕ)
      → IsState chart m ids c
      → Represents chart m ids c w r
      → s ≢ chart.root
      → get_data s (Metadata.deactivate chart.states c r.meta) ≡ none
  left_alone {c = c} {r = r} s state h ne = elim (Bool-cases (c == s)) [
    | inl e ↦
        get_data-deactivate chart.states c s r.meta
        ∙ rw (e, flat-not_history (chart.states c).kind state.flat) refl
    | inr e ↦
        get_data-deactivate chart.states c s r.meta
        ∙ rw e (h.alone s ne (λ q. absurd (ground (arith, q, e))))
  ]

  pub left_root :
      {c : ℕ} {w : W} {r : Run W}
      → IsState chart m ids c
      → (h : Represents chart m ids c w r)
      → get_data chart.root (Metadata.deactivate chart.states c r.meta) ≡ some h.root_data
  left_root {c = c} {r = r} state h =
      ground
        (arith, get_data-deactivate chart.states c chart.root r.meta, h.root_known, state.not_root)

  -- With the root's runtime data alone, `activate` of a state is all that the machine sees of it.
  pub entered-Represents :
      (s time : ℕ) (d : Metadata) (rd : StateRuntimedata) (r : Run W)
      → IsState chart m ids s
      → contains s ids ≡ true
      → get_data chart.root d ≡ some rd
      → ((x : ℕ) → x ≢ chart.root → get_data x d ≡ none)
      → r.meta ≡ Metadata.activate chart.states time s d
      → Represents chart m ids s r.world r
  entered-Represents s time d rd r state mem root alone e = record {
    member = mem;
    root_data = with_current s rd;
    root_known =
        ap (get_data chart.root) e
        ∙ get_data-activate chart.states time s chart.root d
        ∙ ground (arith, state.context, state.not_root, root);
    current = refl;
    state_data = entered time (data_or_new s d);
    known =
        ap (get_data s) e
        ∙ get_data-activate chart.states time s s d
        ∙ ground (arith, state.context, state.not_root);
    active = refl;
    untimed = rw (alone s state.not_root) refl;
    alone = λ x ne ns.
        ap (get_data x) e
        ∙ get_data-activate chart.states time s x d
        ∙ ground (arith, state.context, alone x ne, ne, ns);
    world = refl;
  }
