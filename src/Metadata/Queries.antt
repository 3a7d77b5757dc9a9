-- ===== src/Metadata/Queries.antt =====
-- src/Metadata.cpp: isRunning, getActiveStates and the observers.
use cpp_statecharts.Base.{
  ℕ, ◌≡◌, ◌≢◌, refl, ◌↔◌, Bool, true, false, ◌&&◌, not, Option, none, some, List, [], ◌∷◌, ◌++◌,
  map, if◌then◌else◌, is_some, arith, All,
}
use cpp_statecharts.Structure.{
  States, Kind, simple_state, final_state, hierarchical_state, concurrent_state, statechart_root,
  pseudo_state, is_history, is_final, is_statechart, is_pseudo,
}
use cpp_statecharts.Metadata.{
  StateRuntimedata, Metadata, activated, deactivated, get_data, is_active, create_if,
  create_runtimedata, modify_data, enter_parent, activate, deactivate, reset, notify_activate,
  notify_deactivate, note_chart, running_from, is_running, get_active_states,
}
use cpp_statecharts.Metadata.Table.{find, keys}

-- The flag after one state of the given class.
abbrev flag_after : Kind → Bool → Bool
flag_after k running =
    if is_statechart k
    then running
    else if is_pseudo k
    then running
    else running && not (is_final k)

flag_after_iff : (k : Kind) (b : Bool) → (flag_after k b ≡ true) ↔ ((b ≡ true) × (k ≢ final_state))
flag_after_iff final_state true = (λ h. cc, λ h. absurd (h.1 refl))
flag_after_iff final_state false = (λ h. cc, λ h. cc)
flag_after_iff simple_state b = (λ h. (ground arith, λ e. cc), λ h. ground arith)
flag_after_iff hierarchical_state b = (λ h. (ground arith, λ e. cc), λ h. ground arith)
flag_after_iff concurrent_state b = (λ h. (ground arith, λ e. cc), λ h. ground arith)
flag_after_iff statechart_root b = (λ h. (h, λ e. cc), λ h. h.0)
flag_after_iff (pseudo_state t) b = (λ h. (h, λ e. cc), λ h. h.0)

running_from_iff :
    (states : States) (running : Bool) (ss : List ℕ)
    → (running_from states running ss ≡ true)
      ↔ ((running ≡ true) × All (λ s. (states s).kind ≢ final_state) ss)
unfolding running_from
running_from_iff states running [] = (λ h. (h, tt), λ h. h.0)
running_from_iff states running (s ∷ ss) =
    let rest = running_from_iff states (flag_after (states s).kind running) ss in
    let first = flag_after_iff (states s).kind running in
    (
      λ h. let (f, r) = rest.0 h in let (b, k) = first.0 f in (b, (k, r)),
      λ (b, (k, r)). rest.1 (first.1 (b, k), r),
    )

-- `isRunning` says that no final state is among the states with runtime data. So it holds of
-- metadata with no state at all, and fails as soon as one region has come to its end.
pub is_running_iff :
    (states : States) (d : Metadata)
    → (is_running states d ≡ true) ↔ All (λ s. (states s).kind ≢ final_state) (get_active_states d)
unfolding is_running get_active_states
is_running_iff states d =
    let h = running_from_iff states true (keys d.active_states) in
    (λ e. (h.0 e).1, λ a. h.1 (refl, a))

-- After `reset` no state has runtime data, none is active, and the metadata are bound to no chart;
-- the observers stay registered.
pub reset_clears :
    (d : Metadata) (j : ℕ)
    → (get_data j (reset d) ≡ none)
      × (is_active j (reset d) ≡ false)
      × ((reset d).statechart ≡ none)
      × ((reset d).activate_observers ≡ d.activate_observers)
      × ((reset d).deactivate_observers ≡ d.deactivate_observers)
unfolding reset is_active find
reset_clears d j = (refl, refl, refl, refl, refl)

observed-enter_parent :
    (s : ℕ) (p : Option ℕ) (d : Metadata)
    → ((enter_parent s p d).observed ≡ d.observed)
      × ((enter_parent s p d).activate_observers ≡ d.activate_observers)
unfolding enter_parent
observed-enter_parent s none d = (refl, refl)
observed-enter_parent s (some p) d = (refl, refl)

observed-create :
    (s : ℕ) (d : Metadata) (o : Option StateRuntimedata)
    → ((create_if s d o).observed ≡ d.observed)
      × ((create_if s d o).activate_observers ≡ d.activate_observers)
observed-create s d none = (refl, refl)
observed-create s d (some r) = (refl, refl)

observed-note_chart :
    (s : ℕ) (k : Kind) (d : Metadata)
    → ((note_chart s k d).observed ≡ d.observed)
      × ((note_chart s k d).activate_observers ≡ d.activate_observers)
unfolding note_chart
observed-note_chart s k d = ground arith

-- Each call of `activate` tells every observer of activations once, in the order of registration,
-- also if the state was active already.
pub observed-activate :
    (states : States) (now s : ℕ) (d : Metadata)
    → (activate states now s d).observed
      ≡ d.observed ++ map (λ o. activated o s) d.activate_observers
unfolding activate notify_activate create_runtimedata
observed-activate states now s d = ground (
  arith,
  observed-note_chart s (states s).kind d,
  observed-create s (note_chart s (states s).kind d)
      (find s (note_chart s (states s).kind d).active_states),
  observed-enter_parent s (states s).context (
      modify_data s (λ r. record r { active = true; current_time = now; current_state = none })
        (create_if s (note_chart s (states s).kind d)
          (find s (note_chart s (states s).kind d).active_states))),
)

-- `deactivate` tells every observer of deactivations once if the state had runtime data and is no
-- history pseudo-state, and otherwise tells none.
pub observed-deactivate :
    (states : States) (s : ℕ) (d : Metadata)
    → (deactivate states s d).observed ≡ (
        if is_some (get_data s d) && not (is_history (states s).kind)
        then d.observed ++ map (λ o. deactivated o s) d.deactivate_observers
        else d.observed)
unfolding deactivate notify_deactivate get_data
observed-deactivate states s d = ground arith
