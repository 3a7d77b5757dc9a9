-- ===== src/Semantics/Internal.antt =====
-- src/InternalTransition.cpp beside src/Transition.cpp: the overriding methods do what the
-- inherited ones would.
use cpp_statecharts.Base.{◌≡◌, refl, Bool, true, false, Option, [], Bool-cases, inl, inr, arith}
use cpp_statecharts.Event.{Event}
use cpp_statecharts.Runtime.{Run, for_each}
use cpp_statecharts.Chart.{Chart, Transition, Methods}
use cpp_statecharts.Behaviour.Transitions.{
  misses, allowed, activate_path, fire, fire_internal, execute,
}

module _ {W : Type 0} (chart : Chart W) (self : Methods W) where
  -- A transition with the lists that the constructor of InternalTransition leaves, as an object of
  -- either class.
  abbrev pub emptied : Bool → Transition W → Transition W
  emptied internal t = record t { deactivate_list = []; activate_list = []; is_internal = internal }

  -- InternalTransition overrides `execute` and `allowed` in vain: with its empty lists the
  -- methods of Transition do the same, on every event and in every run.
  pub execute_internal :
      (e : Option Event) (t : Transition W) (r : Run W)
      → execute chart self e (emptied true t) r ≡ execute chart self e (emptied false t) r
  unfolding execute allowed fire fire_internal for_each activate_path
  execute_internal e t r = elim (Bool-cases (misses t.event e)) [
    | inl m ↦ rw m refl
    | inr m ↦ rw m (ground arith)
  ]
