-- ===== src/Metadata/Laws.antt =====
-- src/Metadata.cpp: what `activate` and `deactivate` change, for every state.
use mathlib.Core.Option
use cpp_statecharts.Base.{
  ℕ, ◌≡◌, refl, ◌==◌, Bool, true, false, Option, none, some, if◌then◌else◌, arith, Option-cases,
  inl, inr,
}
use cpp_statecharts.Structure.{Kind, States, is_history}
use cpp_statecharts.Metadata.{
  StateRuntimedata, Metadata, new_runtimedata, get_data, is_active, create_if, create_runtimedata,
  modify_data, enter_parent, activate, deactivate, notify_activate, notify_deactivate, note_chart,
}
use cpp_statecharts.Metadata.Table.{find, find-modify, find-erase}

-- The runtime data of a state, or those that are allocated for it.
abbrev pub data_or_new : ℕ → Metadata → StateRuntimedata
data_or_new s d = Option.get_or (get_data s d) (new_runtimedata d.next_address)

pub get_data-create_runtimedata :
    (s j : ℕ) (d : Metadata)
    → get_data j (create_runtimedata s d)
      ≡ (if s == j then some (data_or_new s d) else get_data j d)
unfolding get_data create_runtimedata find
get_data-create_runtimedata s j d = elim (Option-cases (find s d.active_states)) [
  | inl e ↦ rw (e, create_if) refl
  | inr (r, e) ↦ ground arith
]

pub get_data-modify_data :
    (s j : ℕ) (f : StateRuntimedata → StateRuntimedata) (d : Metadata)
    → get_data j (modify_data s f d)
      ≡ (if s == j then Option.map f (get_data j d) else get_data j d)
unfolding get_data
get_data-modify_data s j f d = find-modify s j f d.active_states

-- The runtime data that `activate` leaves for the state itself.
abbrev pub entered : ℕ → StateRuntimedata → StateRuntimedata
entered now r = record r { active = true; current_time = now; current_state = none }

abbrev pub with_current : ℕ → StateRuntimedata → StateRuntimedata
with_current s r = record r { current_state = some s }

abbrev pub is_parent : Option ℕ → ℕ → Bool
is_parent none j = false
is_parent (some p) j = p == j

-- The state's own runtime data before its parent is told.
abbrev pub self_entered : ℕ → ℕ → ℕ → Metadata → Option StateRuntimedata
self_entered now s j d = if s == j then some (entered now (data_or_new s d)) else get_data j d

get_data-note_chart :
    (s j : ℕ) (k : Kind) (d : Metadata) → get_data j (note_chart s k d) ≡ get_data j d
unfolding note_chart get_data
get_data-note_chart s j k d = ground arith

next_address-note_chart :
    (s : ℕ) (k : Kind) (d : Metadata) → (note_chart s k d).next_address ≡ d.next_address
unfolding note_chart
next_address-note_chart s k d = ground arith

get_data-enter_parent :
    (s j : ℕ) (p : Option ℕ) (d : Metadata)
    → get_data j (enter_parent s p d)
      ≡ (if is_parent p j then Option.map (with_current s) (get_data j d) else get_data j d)
unfolding enter_parent
get_data-enter_parent s j none d = refl
get_data-enter_parent s j (some p) d = get_data-modify_data p j (with_current s) d

get_data-notify_activate :
    (s j : ℕ) (d : Metadata) → get_data j (notify_activate s d) ≡ get_data j d
unfolding notify_activate get_data
get_data-notify_activate s j d = refl

-- After `activate` the state is active, entered now and without a current state; its parent, if it
-- has runtime data, has the state as its current one; all other runtime data are as they were.
pub get_data-activate :
    (states : States) (now s j : ℕ) (d : Metadata)
    → get_data j (activate states now s d) ≡ (
        if is_parent (states s).context j
        then Option.map (with_current s) (self_entered now s j d)
        else self_entered now s j d)
unfolding activate
get_data-activate states now s j d =
    simp
      (
        get_data-notify_activate, get_data-enter_parent, get_data-modify_data,
        get_data-create_runtimedata, get_data-note_chart, next_address-note_chart,
      )
      (ground arith)

get_data-notify_deactivate :
    (s j : ℕ) (d : Metadata) → get_data j (notify_deactivate s d) ≡ get_data j d
unfolding notify_deactivate get_data
get_data-notify_deactivate s j d = refl

abbrev pub inactive : StateRuntimedata → StateRuntimedata
inactive r = record r { active = false }

-- After `deactivate` the state has no runtime data, except that a history pseudo-state keeps its
-- own and is inactive; those of all other states, its parent's included, are as they were.
pub get_data-deactivate :
    (states : States) (s j : ℕ) (d : Metadata)
    → get_data j (deactivate states s d) ≡ (
        if s == j
        then if is_history (states s).kind then Option.map inactive (get_data j d) else none
        else get_data j d)
unfolding deactivate get_data notify_deactivate
get_data-deactivate states s j d =
    ground (arith, find-erase s j d.active_states, find-modify s j inactive d.active_states)

-- `activate` makes the state active and changes no other state's activity.
pub is_active-activate :
    (states : States) (now s j : ℕ) (d : Metadata)
    → is_active j (activate states now s d) ≡ (if s == j then true else is_active j d)
unfolding is_active
is_active-activate states now s j d = rw get_data-activate (ground arith)

-- `deactivate` makes the state inactive, be it a history or not, and changes no other's activity.
pub is_active-deactivate :
    (states : States) (s j : ℕ) (d : Metadata)
    → is_active j (deactivate states s d) ≡ (if s == j then false else is_active j d)
unfolding is_active
is_active-deactivate states s j d = rw get_data-deactivate (ground arith)
