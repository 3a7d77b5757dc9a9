-- ===== src/Metadata/Alike.antt =====
-- src/Metadata.cpp: writes to the runtime data that leave activity and current substates as they are.
use cpp_statecharts.Base.{ℕ, ◌≡◌, refl, List, arith, Option-cases, inl, inr}
use cpp_statecharts.Metadata.{StateRuntimedata, Metadata, get_data, is_active, modify_data}
use cpp_statecharts.Metadata.Laws.{get_data-modify_data}
use cpp_statecharts.Metadata.Substates.{substate}

-- The same states are active and current.
pub record Alike (d d' : Metadata) : Type 0 where
  pub activity : (s : ℕ) → is_active s d' ≡ is_active s d
  pub currents : (s : ℕ) → substate s d' ≡ substate s d

pub is_active-modify_data :
    (s x : ℕ) (f : StateRuntimedata → StateRuntimedata) (d : Metadata)
    → ((r : StateRuntimedata) → (f r).active ≡ r.active)
    → is_active x (modify_data s f d) ≡ is_active x d
unfolding is_active
is_active-modify_data s x f d same = elim (Option-cases (get_data x d)) [
  | inl e ↦ ground (arith, get_data-modify_data s x f d, e)
  | inr (r, e) ↦ ground (arith, get_data-modify_data s x f d, e, same r)
]

pub substate-modify_data :
    (s x : ℕ) (f : StateRuntimedata → StateRuntimedata) (d : Metadata)
    → ((r : StateRuntimedata) → (f r).current_state ≡ r.current_state)
    → substate x (modify_data s f d) ≡ substate x d
unfolding substate
substate-modify_data s x f d same = elim (Option-cases (get_data x d)) [
  | inl e ↦ ground (arith, get_data-modify_data s x f d, e)
  | inr (r, e) ↦ ground (arith, get_data-modify_data s x f d, e, same r)
]

pub recorded-Alike :
    (s : ℕ) (l : List ℕ) (d : Metadata) → Alike d (modify_data s (λ r. record r { stateset = l }) d)
recorded-Alike s l d = record {
  activity = λ x. is_active-modify_data s x _ d (λ r. refl);
  currents = λ x. substate-modify_data s x _ d (λ r. refl);
}

pub Alike-refl : (d : Metadata) → Alike d d
Alike-refl d = record { activity = λ s. refl; currents = λ s. refl }
