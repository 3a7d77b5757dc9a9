-- ===== src/Flat/Reacting.antt =====
-- Statechart::dispatch and Statechart::start of src/Statechart.cpp in a flat chart, as reactions of
-- the machine.
use cpp_statecharts.Base.{
  ℕ, zero, suc, ◌-◌, ◌≡◌, refl, Bool, true, false, Option, none, some, List, [], ◌∷◌, if◌then◌else◌,
  sym, ap, is_some, subst,
}
use cpp_statecharts.Structure.{
  Kind, simple_state, final_state, pseudo_state, start, junction, hierarchical_state,
  concurrent_state, statechart_root, fork, join, history, deep_history,
}
use cpp_statecharts.Event.{Event}
use cpp_statecharts.Metadata.Substates.{substate}
use cpp_statecharts.Runtime.{
  Run, M, Outcome, done, thrown, bind_outcome, first_true, pure, throw, infinite_loop, ◌>>=◌,
}
use cpp_statecharts.Chart.{Chart, Methods}
use cpp_statecharts.Behaviour.Transitions.{execute}
use cpp_statecharts.Behaviour.States.{state_dispatch}
use cpp_statecharts.Behaviour.PseudoStates.{pseudo_dispatch}
use cpp_statecharts.Behaviour.Hierarchical.{dispatch_substate}
use cpp_statecharts.Behaviour.Virtual.{
  completion_step, completion_loop, dispatch_current, statechart_dispatch, dispatch_of, override,
  methods,
}
use cpp_statecharts.Statechart.{dispatch}
use cpp_statecharts.Flat.Machine.{
  Machine, Edge, ready, pick, moved, step as machine_step, settle, react, Verdict, rested, looped,
}
use cpp_statecharts.Flat.Implementing.{IsFlat, AreEdges, IsState, Implements, Represents}
use cpp_statecharts.Flat.Firing.{step}
use cpp_statecharts.Flat.Choosing.{member_meets}
use cpp_statecharts.Flat.Dispatching.{Moves, execute-Moves}

module _ {W : Type 0} (chart : Chart W) (m : Machine W) (ids : List ℕ)
    (impl : Implements chart m ids) where
  -- The outcome of a dispatch is the machine's step, or a return of false that changes nothing.
  abbrev pub Steps : Run W → Option (ℕ × W) → Outcome (Run W) Bool → Type 0
  Steps r none o = o ≡ done false r
  Steps r (some (c, w)) o = (s : Run W) × (o ≡ done true s) × Represents chart m ids c w s

  -- The first transition of a list behind the outcome of the test of its first member.
  first_moves :
      (c : ℕ) (w : W) (r : Run W) (b : Bool) (edge : Edge W) (rest : Option (Edge W))
      (o : Outcome (Run W) Bool) (next : M W Bool)
      → Moves chart m ids impl c w r (if b then some edge else none) o
      → Steps r (moved m c w rest) (next r)
      → Steps r
          (moved m c w (if b then some edge else rest))
          (bind_outcome o (λ fired. if fired then pure true else next))
  first_moves c w r true edge rest o next h k = (h.0, step _ h.1 refl, h.2)
  first_moves c w r false edge rest o next h k = rw h k

  first_true-Steps :
      (n c : ℕ) (e : Option Event) (ts : List ℕ) (edges : List (Edge W)) (r : Run W)
      → Represents chart m ids c r.world r
      → AreEdges chart m ids c ts edges
      → Steps r
          (moved m c r.world (pick m e r.world edges))
          (first_true ts (λ t. execute chart (methods chart (suc n)) e (chart.transition t)) r)
  unfolding first_true pick
  first_true-Steps n c e [] [] r h a = refl
  first_true-Steps n c e [] (edge ∷ edges) r h a = absurd a
  first_true-Steps n c e (t ∷ ts) [] r h a = absurd a
  first_true-Steps n c e (t ∷ ts) (edge ∷ edges) r h a =
      first_moves c r.world r (ready m e r.world edge) edge (pick m e r.world edges)
        (execute chart (methods chart (suc n)) e (chart.transition t) r)
        (first_true ts (λ t'. execute chart (methods chart (suc n)) e (chart.transition t')))
        (execute-Moves chart m ids impl n c e (chart.transition t) edge r h a.0)
        (first_true-Steps n c e ts edges r h a.1)

  flat_dispatch :
      (self : Methods W) (k : Kind) (c : ℕ) (e : Option Event)
      → IsFlat k
      → dispatch_of chart self k c e ≡ state_dispatch chart self c e
  unfolding dispatch_of pseudo_dispatch
  flat_dispatch self simple_state c e flat = refl
  flat_dispatch self final_state c e flat = refl
  flat_dispatch self (pseudo_state start) c e flat = refl
  flat_dispatch self (pseudo_state junction) c e flat = refl
  flat_dispatch self (pseudo_state fork) c e flat = absurd flat
  flat_dispatch self (pseudo_state join) c e flat = absurd flat
  flat_dispatch self (pseudo_state history) c e flat = absurd flat
  flat_dispatch self (pseudo_state deep_history) c e flat = absurd flat
  flat_dispatch self hierarchical_state c e flat = absurd flat
  flat_dispatch self concurrent_state c e flat = absurd flat
  flat_dispatch self statechart_root c e flat = absurd flat

  here-Steps :
      (n c : ℕ) (e : Option Event) (r : Run W)
      → Represents chart m ids c r.world r
      → Steps r (machine_step m e c r.world) ((methods chart (suc (suc n))).dispatch c e r)
  unfolding methods override state_dispatch machine_step
  here-Steps n c e r h =
      let is : IsState chart m ids c = member_meets chart m ids impl c h.member in
      rw (flat_dispatch (methods chart (suc n)) (chart.states c).kind c e is.flat)
        (first_true-Steps n c e (chart.states c).transitions (m.edges c) r h is.edges)

  at_world :
      {c : ℕ} {w : W} {r : Run W}
      → Represents chart m ids c w r
      → Represents chart m ids c r.world r
  at_world {c = c} {r = r} h = subst (λ w. Represents chart m ids c w r) (sym h.world) h

  -- The dispatch of the current state is one step of the machine.
  state-Steps :
      (n c : ℕ) (w : W) (e : Option Event) (r : Run W)
      → Represents chart m ids c w r
      → Steps r (machine_step m e c w) ((methods chart (suc (suc n))).dispatch c e r)
  state-Steps n c w e r h =
      subst (λ v. Steps r (machine_step m e c v) ((methods chart (suc (suc n))).dispatch c e r))
        h.world (here-Steps n c e r (at_world h))

  completion-Steps :
      (n c : ℕ) (w : W) (r : Run W)
      → Represents chart m ids c w r
      → Steps r (machine_step m none c w) (completion_step chart (methods chart (suc (suc n))) r)
  unfolding completion_step dispatch_substate substate
  completion-Steps n c w r h = rw (h.root_known, h.current) (state-Steps n c w none r h)

  -- The outcome of the loop is the verdict: a return at rest, or InfiniteLoopException.
  abbrev pub Ends : {A : Type 0} → A → Verdict W → Outcome (Run W) A → Type 0
  Ends a (rested c w) o = (s : Run W) × (o ≡ done a s) × Represents chart m ids c w s
  Ends a (looped c w) o = (s : Run W) × (o ≡ thrown infinite_loop s) × Represents chart m ids c w s

  last-Ends :
      (c : ℕ) (w : W) (r : Run W) (o : Option (ℕ × W)) (p : Outcome (Run W) Bool)
      → Represents chart m ids c w r
      → Steps r o p
      → Ends tt
          (elim o [ none ↦ rested c w | some (c', w') ↦ looped c' w' ])
          (bind_outcome p (λ fired. if fired then throw infinite_loop else pure tt))
  last-Ends c w r none p h k = (r, step _ k refl, h)
  last-Ends c w r (some (c', w')) p h k = (k.0, step _ k.1 refl, k.2)

  more-Ends :
      (c : ℕ) (w : W) (r : Run W) (o : Option (ℕ × W)) (p : Outcome (Run W) Bool)
      (on : ℕ → W → Verdict W) (next : M W (Unit {0}))
      → Represents chart m ids c w r
      → Steps r o p
      → ((c' : ℕ) (w' : W) (s : Run W)
          → Represents chart m ids c' w' s
          → Ends tt (on c' w') (next s))
      → Ends tt
          (elim o [ none ↦ rested c w | some (c', w') ↦ on c' w' ])
          (bind_outcome p (λ fired. if fired then next else pure tt))
  more-Ends c w r none p on next h k ih = (r, step _ k refl, h)
  more-Ends c w r (some (c', w')) p on next h k ih = rw k.1 (ih c' w' k.0 k.2)

  loop-Ends :
      (n left c : ℕ) (w : W) (r : Run W)
      → Represents chart m ids c w r
      → Ends tt (settle m left c w) (completion_loop chart (methods chart (suc (suc n))) left r)
  unfolding completion_loop settle
  loop-Ends n zero c w r h =
      last-Ends c w r (machine_step m none c w) _ h (completion-Steps n c w r h)
  loop-Ends n (suc left) c w r h =
      more-Ends c w r (machine_step m none c w) _ (settle m left)
        (completion_loop chart (methods chart (suc (suc n))) left) h (completion-Steps n c w r h)
        (loop-Ends n left)

  loop-returns :
      (b : Bool) (v : Verdict W) (o : Outcome (Run W) (Unit {0}))
      → Ends tt v o
      → Ends b v (bind_outcome o (λ _. pure b))
  loop-returns b (rested c w) o h = (h.0, step _ h.1 refl, h.2)
  loop-returns b (looped c w) o h = (h.0, ap (λ p. bind_outcome p (λ _. pure b)) h.1, h.2)

  event-Ends :
      (left n c : ℕ) (w : W) (r : Run W) (o : Option (ℕ × W)) (p : Outcome (Run W) Bool)
      → Represents chart m ids c w r
      → Steps r o p
      → Ends
          (is_some o)
          (elim o [ none ↦ settle m left c w | some (c', w') ↦ settle m left c' w' ])
          (bind_outcome p (λ handled.
            completion_loop chart (methods chart (suc (suc n))) left >>= λ _. pure handled))
  event-Ends left n c w r none p h k =
      rw k (loop-returns false (settle m left c w) _ (loop-Ends n left c w r h))
  event-Ends left n c w r (some (c', w')) p h k =
      rw k.1 (loop-returns true (settle m left c' w') _ (loop-Ends n left c' w' k.0 k.2))

  -- In a chart that implements the machine, from a run that stands in the state `c` with the data
  -- `w`, a dispatch with two or more levels of calls tells whether the machine reacts to the event,
  -- and returns where the machine comes to rest; if the machine still moves after as many steps
  -- without an event as the threshold (at least one), it throws InfiniteLoopException there.
  pub dispatch_refines :
      (n c : ℕ) (w : W) (e : Option Event) (r : Run W)
      → Represents chart m ids c w r
      → Ends
          (is_some (machine_step m e c w))
          (react m (chart.infinite_loop_threshold - 1) e c w)
          (dispatch chart (suc (suc n)) e r)
  unfolding dispatch statechart_dispatch dispatch_current dispatch_substate react
  dispatch_refines n c w e r h =
      rw (h.root_known, h.current)
        (event-Ends (chart.infinite_loop_threshold - 1) n c w r (machine_step m e c w) _ h
          (state-Steps n c w e r h))
