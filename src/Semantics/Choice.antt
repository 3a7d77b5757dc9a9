-- ===== src/Semantics/Choice.antt =====
-- Transition::execute of src/Transition.cpp and State::dispatch of src/State.cpp: which transition
-- fires.
use cpp_statecharts.Base.{
  ℕ, ◌≡◌, refl, ◌⊎◌, inl, inr, Bool, true, false, Option, some, List, [], ◌∷◌, ◌++◌, All,
  if◌then◌else◌, Bool-cases, if_ind,
}
use cpp_statecharts.Event.{Event}
use cpp_statecharts.Runtime.{
  Run, Outcome, done, thrown, fault, out_of_fuel, M, pure, bind_outcome, ◌>>◌, for_each, first_true,
}
use cpp_statecharts.Chart.{Chart, Transition, Methods, run_action}
use cpp_statecharts.Behaviour.Transitions.{
  misses, allowed, activate_path, fire, fire_internal, execute,
}
use cpp_statecharts.Behaviour.States.{state_dispatch}

module _ {W : Type 0} (chart : Chart W) (self : Methods W) (e : Option Event) (r : Run W) where
  -- The transition does not fire on the event: its trigger does not match, or it is not allowed.
  abbrev pub Refused : ℕ → Type 0
  Refused t =
      (misses (chart.transition t).event e ≡ true)
      ⊎ (allowed chart self (chart.transition t) r.meta r.world ≡ some false)

  -- The trigger matches, and guard and target allow the transition.
  abbrev pub Enabled : ℕ → Type 0
  Enabled t =
      (misses (chart.transition t).event e ≡ false)
      × (allowed chart self (chart.transition t) r.meta r.world ≡ some true)

  -- What a transition does when it fires.
  abbrev pub firing : ℕ → M W Bool
  firing t =
      if (chart.transition t).is_internal
      then fire_internal chart self (chart.transition t)
      else fire chart self (chart.transition t)

  -- A transition that is refused leaves the run as it was.
  pub execute-Refused :
      (t : ℕ) → Refused t → execute chart self e (chart.transition t) r ≡ done false r
  unfolding execute
  execute-Refused t (inl h) = rw h refl
  execute-Refused t (inr h) = elim (Bool-cases (misses (chart.transition t).event e)) [
    | inl m ↦ rw m refl
    | inr m ↦ rw (m, h) refl
  ]

  pub execute-Enabled :
      (t : ℕ) → Enabled t → execute chart self e (chart.transition t) r ≡ firing t r
  unfolding execute
  execute-Enabled t (m, h) = rw (m, h) refl

-- A computation whose value, if it returns, is true.
abbrev pub ReturnsTrue : {W : Type 0} → M W Bool → Type 0
ReturnsTrue {W} m =
    (r : Run W) (f : Bool → M W Bool)
    → ((s : Run W) → f true s ≡ done true s)
    → bind_outcome (m r) f ≡ m r

outcome_true :
    {W A : Type 0} (o : Outcome (Run W) A) (n : M W Bool) (f : Bool → M W Bool)
    → ReturnsTrue n
    → ((s : Run W) → f true s ≡ done true s)
    → bind_outcome (bind_outcome o (λ _. n)) f ≡ bind_outcome o (λ _. n)
outcome_true (done u s) n f t h = t s f h
outcome_true (thrown x s) n f t h = refl
outcome_true fault n f t h = refl
outcome_true out_of_fuel n f t h = refl

then-ReturnsTrue : {W A : Type 0} (m : M W A) (n : M W Bool) → ReturnsTrue n → ReturnsTrue (m >> n)
then-ReturnsTrue m n t r f h = outcome_true (m r) n f t h

true-ReturnsTrue : {W : Type 0} → ReturnsTrue {W = W} (pure true)
true-ReturnsTrue r f h = h r

module _ {W : Type 0} (chart : Chart W) (self : Methods W) where
  fire-ReturnsTrue : (t : Transition W) → ReturnsTrue (fire chart self t)
  unfolding fire
  fire-ReturnsTrue t =
      let enter = activate_path chart self t.activate_list in
      let act = run_action t.action >> (enter >> pure true) in
      then-ReturnsTrue (for_each t.deactivate_list self.deactivate) act (
        then-ReturnsTrue (run_action t.action) (enter >> pure true)
          (then-ReturnsTrue enter (pure true) true-ReturnsTrue))

  fire_internal-ReturnsTrue : (t : Transition W) → ReturnsTrue (fire_internal chart self t)
  unfolding fire_internal
  fire_internal-ReturnsTrue t = then-ReturnsTrue (run_action t.action) (pure true) true-ReturnsTrue

  pub firing-ReturnsTrue :
      (e : Option Event) (q : Run W) (t : ℕ) → ReturnsTrue (firing chart self e q t)
  firing-ReturnsTrue e q t =
      if_ind ReturnsTrue (chart.transition t).is_internal
        (λ _. fire_internal-ReturnsTrue (chart.transition t))
        (λ _. fire-ReturnsTrue (chart.transition t))

  first_true-Enabled :
      (e : Option Event) (r : Run W) (before after : List ℕ) (t : ℕ)
      → All (Refused chart self e r) before
      → Enabled chart self e r t
      → first_true (before ++ (t ∷ after)) (λ u. execute chart self e (chart.transition u)) r
        ≡ firing chart self e r t r
  unfolding first_true
  first_true-Enabled e r [] after t none' on =
      rw (execute-Enabled chart self e r t on) (firing-ReturnsTrue e r t r _ (λ s. refl))
  first_true-Enabled e r (u ∷ us) after t (off, rest) on =
      rw (execute-Refused chart self e r u off) (first_true-Enabled e r us after t rest on)

  -- `State::dispatch` fires the first enabled transition of the state and none else: what it does
  -- is what that transition does, whatever stands behind it.
  pub state_dispatch_first :
      (e : Option Event) (r : Run W) (s t : ℕ) (before after : List ℕ)
      → (chart.states s).transitions ≡ before ++ (t ∷ after)
      → All (Refused chart self e r) before
      → Enabled chart self e r t
      → state_dispatch chart self s e r ≡ firing chart self e r t r
  unfolding state_dispatch
  state_dispatch_first e r s t before after split off on =
      rw split (first_true-Enabled e r before after t off on)

  none_enabled :
      (e : Option Event) (r : Run W) (ts : List ℕ)
      → All (Refused chart self e r) ts
      → first_true ts (λ u. execute chart self e (chart.transition u)) r ≡ done false r
  unfolding first_true
  none_enabled e r [] off = refl
  none_enabled e r (u ∷ us) (off, rest) =
      rw (execute-Refused chart self e r u off) (none_enabled e r us rest)

  -- If every transition of the state is refused, `State::dispatch` returns false and changes
  -- nothing.
  pub state_dispatch_none :
      (e : Option Event) (r : Run W) (s : ℕ)
      → All (Refused chart self e r) (chart.states s).transitions
      → state_dispatch chart self s e r ≡ done false r
  unfolding state_dispatch
  state_dispatch_none e r s off = none_enabled e r (chart.states s).transitions off
