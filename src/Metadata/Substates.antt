-- ===== src/Metadata/Substates.antt =====
-- src/Metadata.cpp: the current substates, as the writes of `activate` and `deactivate` leave them.
use cpp_statecharts.Base.{ℕ, ◌≡◌, refl, Option, none, some, arith}
use cpp_statecharts.Structure.{States}
use cpp_statecharts.Metadata.{
  StateRuntimedata, Metadata, get_data, create_runtimedata, modify_data, activate, deactivate,
}
use cpp_statecharts.Metadata.Laws.{
  get_data-create_runtimedata, get_data-modify_data, get_data-activate, get_data-deactivate,
}

abbrev current_of : Option StateRuntimedata → Option ℕ
current_of none = none
current_of (some r) = r.current_state

-- The current substate of a state, if it has runtime data and a current substate.
unfoldable pub substate : ℕ → Metadata → Option ℕ
substate s d = current_of (get_data s d)

-- Every current substate is a child of the state that holds it.
abbrev pub Nested : States → Metadata → Type 0
Nested states d = (s c : ℕ) → substate s d ≡ some c → (states c).context ≡ some s

pub activate-Nested :
    (states : States) (now s : ℕ) (d : Metadata)
    → Nested states d
    → Nested states (activate states now s d)
unfolding substate
activate-Nested states now s d h p c e = ground (arith, get_data-activate states now s p d, h p c)

pub deactivate-Nested :
    (states : States) (s : ℕ) (d : Metadata)
    → Nested states d
    → Nested states (deactivate states s d)
unfolding substate
deactivate-Nested states s d h p c e = ground (arith, get_data-deactivate states s p d, h p c)

pub create_runtimedata-Nested :
    (states : States) (s : ℕ) (d : Metadata)
    → Nested states d
    → Nested states (create_runtimedata s d)
unfolding substate
create_runtimedata-Nested states s d h p c e =
    ground (arith, get_data-create_runtimedata s p d, h p c)

-- A write that keeps or clears the current substate.
pub modify_data-Nested :
    (states : States) (s : ℕ) (f : StateRuntimedata → StateRuntimedata) (d : Metadata)
    → ((r : StateRuntimedata) → (c : ℕ) → (f r).current_state ≡ some c → r.current_state ≡ some c)
    → Nested states d
    → Nested states (modify_data s f d)
unfolding substate
modify_data-Nested states s f d keep h p c e = go (get_data p d) refl
  where
    go : (o : Option StateRuntimedata) → get_data p d ≡ o → (states c).context ≡ some p
    go none q = ground (arith, get_data-modify_data s p f d)
    go (some r) q = ground (arith, get_data-modify_data s p f d, keep r c, h p c)
