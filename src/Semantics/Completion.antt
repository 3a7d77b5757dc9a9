-- ===== src/Semantics/Completion.antt =====
-- The loop of trigger-less steps in Statechart::dispatch of src/Statechart.cpp.
use cpp_statecharts.Base.{
  ℕ, zero, suc, ◌-◌, ◌≤◌, ◌≡◌, refl, subst, ◌∙◌, Bool, true, false, Option, some, if◌then◌else◌,
  arith,
}
use cpp_statecharts.Event.{Event}
use cpp_statecharts.Metadata.{StateRuntimedata, get_data}
use cpp_statecharts.Runtime.{
  Run, Outcome, done, thrown, fault, out_of_fuel, pure, bind_outcome, ◌>>=◌, throw, infinite_loop,
}
use cpp_statecharts.Chart.{Chart, Methods}
use cpp_statecharts.Behaviour.Hierarchical.{dispatch_substate}
use cpp_statecharts.Behaviour.Virtual.{
  completion_step, completion_loop, dispatch_current, statechart_dispatch,
}

module _ {W : Type 0} (chart : Chart W) (self : Methods W) where
  -- The number of trigger-less steps that fire from one run to another, one after the other.
  pub data Fires : ℕ → Run W → Run W → Type 0 where
    rest : {r : Run W} → Fires zero r r
    fires :
        {n : ℕ} {r s t : Run W}
        → completion_step chart self r ≡ done true s
        → Fires n s t
        → Fires (suc n) r t

  -- If one more step fires than are allowed behind the first, the loop throws where it stands then,
  -- whatever the chart would do next.
  completion_loop_throws :
      (left : ℕ) {r t : Run W}
      → Fires (suc left) r t
      → completion_loop chart self left r ≡ thrown infinite_loop t
  unfolding completion_loop
  completion_loop_throws zero (fires e rest) = rw e refl
  completion_loop_throws (suc left) (fires e h) = rw e (completion_loop_throws left h)

  -- If fewer steps fire and the chart is then at rest, the loop ends there.
  completion_loop_rests :
      (left n : ℕ) {r t u : Run W}
      → n ≤ left
      → Fires n r t
      → completion_step chart self t ≡ done false u
      → completion_loop chart self left r ≡ done tt u
  unfolding completion_loop
  completion_loop_rests zero zero h rest q = rw q refl
  completion_loop_rests (suc left) zero h rest q = rw q refl
  completion_loop_rests zero (suc n) h f q = absurd (omega arith)
  completion_loop_rests (suc left) (suc n) h (fires e f) q =
      rw e (completion_loop_rests left n (omega arith) f q)

  -- How a loop ends that returns.
  pub record Rested (left : ℕ) (r u : Run W) : Type 0 where
    pub count : ℕ
    pub last : Run W
    pub count_le : count ≤ left
    pub fired : Fires count r last
    pub at_rest : completion_step chart self last ≡ done false u

  fires-Rested :
      {left : ℕ} {r s u : Run W}
      → completion_step chart self r ≡ done true s
      → Rested left s u
      → Rested (suc left) r u
  fires-Rested e h = record {
    count = suc h.count;
    last = h.last;
    count_le = omega (arith, h.count_le);
    fired = fires e h.fired;
    at_rest = h.at_rest;
  }

  -- The loop behind the outcome of one step.
  loop_from :
      (left : ℕ) (r u : Run W) (o : Outcome (Run W) Bool)
      → completion_step chart self r ≡ o
      → bind_outcome o (λ fired. if fired then completion_loop chart self left else pure tt)
        ≡ done tt u
      → ((s : Run W) → completion_loop chart self left s ≡ done tt u → Rested left s u)
      → Rested (suc left) r u
  loop_from left r u (done true s) e h ih = fires-Rested e (ih s h)
  loop_from left r u (done false s) e h ih = record {
    count = 0;
    last = r;
    count_le = omega arith;
    fired = rest;
    at_rest = e ∙ cc;
  }
  loop_from left r u (thrown x s) e h ih = absurd (cc h)
  loop_from left r u fault e h ih = absurd (cc h)
  loop_from left r u out_of_fuel e h ih = absurd (cc h)

  last_from :
      (r u : Run W) (o : Outcome (Run W) Bool)
      → completion_step chart self r ≡ o
      → bind_outcome o (λ fired. if fired then throw infinite_loop else pure tt) ≡ done tt u
      → Rested zero r u
  last_from r u (done true s) e h = absurd (cc h)
  last_from r u (done false s) e h = record {
    count = 0;
    last = r;
    count_le = omega arith;
    fired = rest;
    at_rest = e ∙ cc;
  }
  last_from r u (thrown x s) e h = absurd (cc h)
  last_from r u fault e h = absurd (cc h)
  last_from r u out_of_fuel e h = absurd (cc h)

  completion_loop-Rested :
      (left : ℕ) (r u : Run W) → completion_loop chart self left r ≡ done tt u → Rested left r u
  unfolding completion_loop
  completion_loop-Rested zero r u h = last_from r u (completion_step chart self r) refl h
  completion_loop-Rested (suc left) r u h =
      loop_from left r u (completion_step chart self r) refl h
        (λ s. completion_loop-Rested left s u)

  module _ (e : Option Event) (r : Run W) (d : StateRuntimedata)
      (known : get_data chart.root r.meta ≡ some d) where
    -- In a chart that has runtime data: if the current substate handles the event or not, then
    -- fewer trigger-less steps fire than the threshold (none, where it is 0), and the chart is
    -- then at rest, `dispatch` returns whether the event was handled.
    pub statechart_dispatch_rests :
        (n : ℕ) {handled : Bool} {s t u : Run W}
        → dispatch_substate chart self d.current_state e r ≡ done handled s
        → n ≤ chart.infinite_loop_threshold - 1
        → Fires n s t
        → completion_step chart self t ≡ done false u
        → statechart_dispatch chart self e r ≡ done handled u
    unfolding statechart_dispatch dispatch_current
    statechart_dispatch_rests n first le fired quiet =
        rw
          (
            known,
            dispatch_current,
            first,
            completion_loop_rests (chart.infinite_loop_threshold - 1) n le fired quiet,
          )
          refl

    -- In a chart that has runtime data: if the dispatch to the current substate returns and then
    -- as many trigger-less steps fire as the threshold says (one, where it is 0), `dispatch`
    -- throws an InfiniteLoopException as soon as the last of them has fired, also where the chart
    -- would have come to rest there.
    pub statechart_dispatch_throws :
        {handled : Bool} {s t : Run W}
        → dispatch_substate chart self d.current_state e r ≡ done handled s
        → Fires (suc (chart.infinite_loop_threshold - 1)) s t
        → statechart_dispatch chart self e r ≡ thrown infinite_loop t
    unfolding statechart_dispatch dispatch_current
    statechart_dispatch_throws first fired =
        rw
          (
            known,
            dispatch_current,
            first,
            completion_loop_throws (chart.infinite_loop_threshold - 1) fired,
          )
          refl

    loop_of :
        (o : Outcome (Run W) Bool) (left : ℕ) {handled : Bool} {u : Run W}
        → dispatch_substate chart self d.current_state e r ≡ o
        → bind_outcome o (λ handled'. completion_loop chart self left >>= λ _. pure handled')
          ≡ done handled u
        → (s : Run W) × (dispatch_substate chart self d.current_state e r ≡ done handled s)
          × (completion_loop chart self left s ≡ done tt u)
    loop_of (done b s) left {handled} {u} first h =
        let (same, loop) = loop_value (completion_loop chart self left s) b refl h in
        (
          s,
          subst (λ x. dispatch_substate chart self d.current_state e r ≡ done x s) same first,
          loop,
        )
      where
        loop_value :
            (l : Outcome (Run W) (Unit {0})) (b : Bool)
            → completion_loop chart self left s ≡ l
            → bind_outcome l (λ _. pure b) ≡ done handled u
            → (b ≡ handled) × (completion_loop chart self left s ≡ done tt u)
        loop_value (done tt' v) b q h' = (cc h', q ∙ cc h')
        loop_value (thrown x v) b q h' = absurd (cc h')
        loop_value fault b q h' = absurd (cc h')
        loop_value out_of_fuel b q h' = absurd (cc h')
    loop_of (thrown x s) left first h = absurd (cc h)
    loop_of fault left first h = absurd (cc h)
    loop_of out_of_fuel left first h = absurd (cc h)

    -- Run to completion: if `dispatch` returns in a chart that has runtime data, the current
    -- substate has handled the event or not, and then fewer trigger-less steps have fired than
    -- the threshold (none, where it is 0), up to one that did not.
    pub statechart_dispatch-Rested :
        (handled : Bool) (u : Run W)
        → statechart_dispatch chart self e r ≡ done handled u
        → (s : Run W) × (dispatch_substate chart self d.current_state e r ≡ done handled s)
          × Rested (chart.infinite_loop_threshold - 1) s u
    unfolding statechart_dispatch dispatch_current
    statechart_dispatch-Rested handled u h =
        let (s, first, loop) =
          loop_of (dispatch_substate chart self d.current_state e r)
            (chart.infinite_loop_threshold - 1) refl (rw (known, dispatch_current) at h) in
        (s, first, completion_loop-Rested (chart.infinite_loop_threshold - 1) s u loop)
