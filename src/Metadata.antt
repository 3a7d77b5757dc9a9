-- ===== src/Metadata.antt =====
-- include/CppStatecharts/StateRuntimedata.hpp, include/CppStatecharts/Metadata.hpp and
-- src/Metadata.cpp: the runtime data of the active states, and the observers of their changes.
pub mod Table
pub mod Laws
pub mod Substates
pub mod Alike
pub mod Queries
use cpp_statecharts.Base.{
  ℕ, ◌+◌, Bool, true, false, ◌&&◌, not, Option, none, some, List, [], ◌∷◌, ◌++◌, map, if◌then◌else◌,
}
use cpp_statecharts.Structure.{State, States, Kind, is_statechart, is_pseudo, is_final, is_history}
use Table.{find, modify, erase, keys}

-- `address` tells the objects apart that `make_unique` allocates, so that a pointer kept across a
-- call can be seen to dangle. `timeout_events` holds ids of queue entries.
pub record StateRuntimedata : Type 0 where
  pub address : ℕ
  pub current_time : ℕ
  pub active : Bool
  pub current_state : Option ℕ
  pub stateset : List ℕ
  pub timeout_events : List ℕ

-- A call of an observer, by the observer's place in registration and the state it was told of.
pub data Notice : Type 0 where
  activated : (observer state : ℕ) → Notice
  deactivated : (observer state : ℕ) → Notice

-- `ident` is the address of the object itself; `observed` is what its observers were told, oldest
-- first; `next_address` is the allocator of StateRuntimedata objects.
pub record Metadata : Type 0 where
  pub ident : ℕ
  pub statechart : Option ℕ
  pub active_states : List (ℕ × StateRuntimedata)
  pub activate_observers : List ℕ
  pub deactivate_observers : List ℕ
  pub observed : List Notice
  pub next_address : ℕ

abbrev pub new_runtimedata : ℕ → StateRuntimedata
new_runtimedata address = record {
  address = address;
  current_time = 0;
  active = false;
  current_state = none;
  stateset = [];
  timeout_events = [];
}

unfoldable pub get_data : ℕ → Metadata → Option StateRuntimedata
get_data s d = find s d.active_states

abbrev active_of : Option StateRuntimedata → Bool
active_of none = false
active_of (some r) = r.active

unfoldable pub is_active : ℕ → Metadata → Bool
unfolding get_data
is_active s d = active_of (get_data s d)

abbrev create_if : ℕ → Metadata → Option StateRuntimedata → Metadata
create_if s d none = record d {
  active_states = (s, new_runtimedata d.next_address) ∷ d.active_states;
  next_address = d.next_address + 1;
}
create_if s d (some r) = d

unfoldable pub create_runtimedata : ℕ → Metadata → Metadata
create_runtimedata s d = create_if s d (find s d.active_states)

-- A write through the pointer that `getData` returned; none if it returned null.
abbrev pub modify_data : ℕ → (StateRuntimedata → StateRuntimedata) → Metadata → Metadata
modify_data s f d = record d { active_states = modify s f d.active_states }

unfoldable pub notify_activate : ℕ → Metadata → Metadata
notify_activate s d = record d {
  observed = d.observed ++ map (λ o. activated o s) d.activate_observers;
}

unfoldable pub notify_deactivate : ℕ → Metadata → Metadata
notify_deactivate s d = record d {
  observed = d.observed ++ map (λ o. deactivated o s) d.deactivate_observers;
}

unfoldable pub note_chart : ℕ → Kind → Metadata → Metadata
note_chart s k d = if is_statechart k then record d { statechart = some s } else d

-- The parent's current state becomes the state, if the parent has runtime data.
unfoldable pub enter_parent : ℕ → Option ℕ → Metadata → Metadata
enter_parent s none d = d
enter_parent s (some p) d = modify_data p (λ r. record r { current_state = some s }) d

unfoldable pub activate : States → ℕ → ℕ → Metadata → Metadata
activate states now s d = notify_activate s (
    enter_parent s (states s).context (
      modify_data s (λ r. record r { active = true; current_time = now; current_state = none })
        (create_runtimedata s (note_chart s (states s).kind d))))

abbrev deactivate_if : Kind → ℕ → Metadata → Option StateRuntimedata → Metadata
deactivate_if k s d none = d
deactivate_if k s d (some r) =
    if is_history k
    then modify_data s (λ r. record r { active = false }) d
    else notify_deactivate s (record d { active_states = erase s d.active_states })

unfoldable pub deactivate : States → ℕ → Metadata → Metadata
deactivate states s d = deactivate_if (states s).kind s d (find s d.active_states)

unfoldable pub reset : Metadata → Metadata
reset d = record d { active_states = []; statechart = none }

unfoldable pub get_active_states : Metadata → List ℕ
get_active_states d = keys d.active_states

running_from : States → Bool → List ℕ → Bool
running_from states running [] = running
running_from states running (s ∷ rest) =
    running_from states
      (if is_statechart (states s).kind
        then running
        else if is_pseudo (states s).kind
        then running
        else running && not (is_final (states s).kind))
      rest

unfoldable pub is_running : States → Metadata → Bool
unfolding running_from
is_running states d = running_from states true (keys d.active_states)

-- An empty callback, the flag false, is not registered.
pub add_activate_observer : ℕ → Bool → Metadata → Metadata
add_activate_observer o callable d =
    if callable then record d { activate_observers = d.activate_observers ++ (o ∷ []) } else d

pub add_deactivate_observer : ℕ → Bool → Metadata → Metadata
add_deactivate_observer o callable d =
    if callable then record d { deactivate_observers = d.deactivate_observers ++ (o ∷ []) } else d
