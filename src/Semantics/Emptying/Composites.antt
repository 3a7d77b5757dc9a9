-- ===== src/Semantics/Emptying/Composites.antt =====
-- The methods `deactivate` of src/HierarchicalState.cpp and src/ConcurrentState.cpp, and of any state:
-- which states are inactive behind them.
use cpp_statecharts.Base.{
  ℕ, zero, suc, ◌≡◌, ◌∙◌, ◌==◌, true, Option, none, some, List, [], ◌∷◌, subst, Bool-cases,
  Option-cases, inl, inr, contains, arith,
}
use cpp_statecharts.Structure.{
  Kind, PseudoStateType, simple_state, final_state, hierarchical_state, concurrent_state,
  statechart_root, pseudo_state,
}
use cpp_statecharts.Metadata.{StateRuntimedata, get_data, is_active, modify_data}
use cpp_statecharts.Metadata.Alike.{Alike, Alike-refl, recorded-Alike}
use cpp_statecharts.Runtime.Posts.{Post, Post-bind, Post-after, Ensures-Post}
use cpp_statecharts.Metadata.Substates.{substate}
use cpp_statecharts.Runtime.{
  Run, M, ◌>>=◌, ◌>>◌, bounded, for_each, modify, write_at, read_at, address_of,
}
use cpp_statecharts.Runtime.Rules.{Keeps, Keeps-then, Keeps-for_each, Keeps-write_at}
use cpp_statecharts.Chart.{Chart, Methods}
use cpp_statecharts.Behaviour.States.{state_deactivate}
use cpp_statecharts.Behaviour.PseudoStates.{chain_below, store_if, store_history}
use cpp_statecharts.Behaviour.Hierarchical.{
  is_recorded, save_history, leave_substate, leave_from, hierarchical_deactivate,
}
use cpp_statecharts.Behaviour.Concurrent.{concurrent_deactivate}
use cpp_statecharts.Behaviour.Virtual.{deactivate_of, override, methods}
use cpp_statecharts.Invariance.Steps.{ActionKeeps}
use cpp_statecharts.Invariance.Leaving.{state_deactivate-Keeps, deactivate-Keeps}
use cpp_statecharts.Semantics.Emptying.{
  Quiet, Within, itself, inner, region, Within-Alike, Quiet-StableLeaving, state_deactivate-Quiet,
}

module _ {W : Type 0} (chart : Chart W) (x : ℕ)
    (exits : (s : ℕ) → ActionKeeps (Quiet x) (chart.actions s).exit_action) where
  -- The methods of a state whose calls of `deactivate` leave `x`, where it is within.
  module _ (self : Methods W) (calls : (s : ℕ) → Keeps (Quiet x) (self.deactivate s))
      (deeper : (s : ℕ) (r : Run W)
        → Within chart r.meta s x
        → Post (Quiet x) (self.deactivate s r)) where
    own_leave : (o : Option ℕ) (r : Run W) → Post (Quiet x) (leave_from chart self x o r)
    unfolding leave_from
    own_leave none r = state_deactivate-Quiet chart x exits r
    own_leave (some address) r = Post-after (Quiet x) (read_at x address r) _ λ d r1.
        Post-after (Quiet x)
          (save_history chart self (chart.states x).history_state x d.current_state r1) _
          λ a r2. Post-after (Quiet x) (read_at x address r2) _ λ d' r3.
            Post-after (Quiet x) (leave_substate chart self d'.current_state r3) _ λ b r4.
              Post-after (Quiet x) (write_at x address _ r4) _
                λ c r5. state_deactivate-Quiet chart x exits r5

    own_hierarchical : (r : Run W) → Post (Quiet x) (hierarchical_deactivate chart self x r)
    unfolding hierarchical_deactivate
    own_hierarchical r = elim (Bool-cases (is_active x r.meta)) [
      | inl e ↦ rw e (own_leave (address_of (get_data x r.meta)) r)
      | inr e ↦ rw e e
    ]

    -- What the storing of a history leaves as it is.
    store_if-Alike :
        (t : PseudoStateType) (h : ℕ) (p : Option ℕ) (d : Option StateRuntimedata) (r : Run W)
        → Post (λ q. Alike r.meta q.meta) (store_if chart self t h p d r)
    unfolding store_if
    store_if-Alike t h none d r = Alike-refl r.meta
    store_if-Alike t h (some p) none r = Alike-refl r.meta
    store_if-Alike t h (some p) (some d) r =
        go (chain_below chart self t (substate p r.meta) r.meta)
      where
        go :
            (o : Option (List ℕ))
            → Post
                (λ q. Alike r.meta q.meta)
                ((bounded o >>= λ l. modify (modify_data h (λ d. record d { stateset = l }))) r)
        go none = tt
        go (some l) = recorded-Alike h l r.meta

    save_history-Alike :
        (s : ℕ) (h : Option ℕ) (current : Option ℕ) (r : Run W)
        → Post (λ q. Alike r.meta q.meta) (save_history chart self h s current r)
    unfolding save_history store_history
    save_history-Alike s none current r = Alike-refl r.meta
    save_history-Alike s (some h) current r = elim (Bool-cases (is_recorded chart self s current)) [
      | inl e ↦ rw e (store_if-Alike _ h (chart.states h).context (get_data h r.meta) r)
      | inr e ↦ rw e (Alike-refl r.meta)
    ]

    -- A read of the current substate, where that is known.
    read_then :
        (s address c : ℕ) (f : StateRuntimedata → M W (Unit {0})) (r : Run W)
        → substate s r.meta ≡ some c
        → ((d : StateRuntimedata) → d.current_state ≡ some c → Post (Quiet x) (f d r))
        → Post (Quiet x) ((read_at s address >>= f) r)
    unfolding substate
    read_then s address c f r e k = elim (Option-cases (get_data s r.meta)) [
      | inl q ↦ rw q tt
      | inr (d, q) ↦ rw q (elim (Bool-cases (d.address == address)) [
        | inl a ↦ rw a (k d (ground (arith, e, q)))
        | inr a ↦ rw a tt
      ])
    ]

    inner_rest :
        (s address c : ℕ) (r : Run W) (d : StateRuntimedata)
        → Within chart r.meta c x
        → d.current_state ≡ some c
        → Post (Quiet x) (
            (leave_substate chart self d.current_state
                >> (write_at s address (λ t. record t { current_state = none })
                    >> state_deactivate chart s))
              r)
    unfolding leave_substate
    inner_rest s address c r d w e = rw e (
        Post-bind (Quiet x) (Quiet x) (self.deactivate c r) _ (deeper c r w) λ a q h.
          Ensures-Post (Quiet x) _ (
            (Keeps-then (Quiet x)
                (Keeps-write_at (Quiet x) s address _
                  ((Quiet-StableLeaving chart x exits).emptying s))
                (state_deactivate-Keeps (Quiet x) (Quiet-StableLeaving chart x exits) s)).keeps
              q h))

    inner_leave :
        (s address c : ℕ) (r : Run W)
        → substate s r.meta ≡ some c
        → Within chart r.meta c x
        → Post (Quiet x) (leave_from chart self s (some address) r)
    unfolding leave_from
    inner_leave s address c r e w = read_then s address c _ r e λ d _.
        Post-bind (Quiet x) (λ q. Alike r.meta q.meta)
          (save_history chart self (chart.states s).history_state s d.current_state r) _
          (save_history-Alike s (chart.states s).history_state d.current_state r)
          λ a q alike.
            read_then s address c _ q (alike.currents s ∙ e)
              λ d' e'. inner_rest s address c q d' (Within-Alike chart alike w) e'

    inner_hierarchical :
        (s c : ℕ) (r : Run W)
        → is_active s r.meta ≡ true
        → substate s r.meta ≡ some c
        → Within chart r.meta c x
        → Post (Quiet x) (hierarchical_deactivate chart self s r)
    unfolding hierarchical_deactivate substate
    inner_hierarchical s c r h e w = elim (Option-cases (get_data s r.meta)) [
      | inl q ↦ absurd (ground (arith, e, q))
      | inr (d, q) ↦ rw (h, q) (inner_leave s d.address c r e w)
    ]

    -- The loop over the regions leaves each of them.
    leave_regions :
        (regions : List ℕ) (r : Run W)
        → contains x regions ≡ true
        → Post (Quiet x) (for_each regions self.deactivate r)
    unfolding for_each
    leave_regions [] r m = absurd (ground (arith, m))
    leave_regions (h ∷ hs) r m = elim (Bool-cases (h == x)) [
      | inl q ↦
          Post-bind (Quiet x) (Quiet x) (self.deactivate h r) _
            (deeper h r (subst (Within chart r.meta h) (ground (arith, q)) itself))
            λ a t k. Ensures-Post (Quiet x) _ ((Keeps-for_each (Quiet x) hs calls).keeps t k)
      | inr q ↦
          Post-after (Quiet x) (self.deactivate h r) _
            λ a t. leave_regions hs t (ground (arith, m, q))
    ]

    concurrent-Quiet :
        (s : ℕ) (r : Run W)
        → contains x (chart.states s).regions ≡ true
        → Post (Quiet x) (concurrent_deactivate chart self s r)
    unfolding concurrent_deactivate
    concurrent-Quiet s r m =
        Post-bind (Quiet x) (Quiet x) (for_each (chart.states s).regions self.deactivate _) _
          (leave_regions (chart.states s).regions _ m)
          λ a q h.
            Ensures-Post (Quiet x) _
              ((state_deactivate-Keeps (Quiet x) (Quiet-StableLeaving chart x exits) s).keeps q h)

    own_concurrent : (r : Run W) → Post (Quiet x) (concurrent_deactivate chart self x r)
    unfolding concurrent_deactivate
    own_concurrent r =
        Post-after (Quiet x) (for_each (chart.states x).regions self.deactivate _) _
          λ a q. state_deactivate-Quiet chart x exits q

    own-Quiet : (k : Kind) (r : Run W) → Post (Quiet x) (deactivate_of chart self k x r)
    unfolding deactivate_of
    own-Quiet hierarchical_state r = own_hierarchical r
    own-Quiet concurrent_state r = own_concurrent r
    own-Quiet simple_state r = state_deactivate-Quiet chart x exits r
    own-Quiet final_state r = state_deactivate-Quiet chart x exits r
    own-Quiet statechart_root r = state_deactivate-Quiet chart x exits r
    own-Quiet (pseudo_state t) r = state_deactivate-Quiet chart x exits r

    Within-Quiet :
        (s : ℕ) (r : Run W)
        → Within chart r.meta s x
        → Post (Quiet x) (deactivate_of chart self (chart.states s).kind s r)
    unfolding deactivate_of
    Within-Quiet s r itself = own-Quiet (chart.states x).kind r
    Within-Quiet s r (inner {c = c} k h e w) = rw k (inner_hierarchical s c r h e w)
    Within-Quiet s r (region k m) = rw k (concurrent-Quiet s r m)

  -- Where no exit action activates the state, a call of `deactivate` that returns leaves it
  -- inactive, if it lies within the one that is left.
  pub deactivate-Quiet :
      (fuel s : ℕ) (r : Run W)
      → Within chart r.meta s x
      → Post (Quiet x) ((methods chart fuel).deactivate s r)
  unfolding methods override
  deactivate-Quiet zero s r w = tt
  deactivate-Quiet (suc n) s r w =
      Within-Quiet (methods chart n)
        (deactivate-Keeps (Quiet x) (Quiet-StableLeaving chart x exits) n) (deactivate-Quiet n) s r
        w
