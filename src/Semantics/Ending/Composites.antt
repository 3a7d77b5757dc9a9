-- ===== src/Semantics/Ending/Composites.antt =====
-- The methods `deactivate` of src/HierarchicalState.cpp and src/ConcurrentState.cpp: their calls
-- end, and the fuel that the height of a state gives is enough.
use cpp_statecharts.Base.{
  ℕ, zero, suc, ◌<◌, ◌≡◌, refl, ◌∙◌, Option, none, some, List, All-map, if◌then◌else◌, arith,
}
use cpp_statecharts.Structure.{
  Kind, PseudoStateType, simple_state, final_state, hierarchical_state, concurrent_state,
  statechart_root, pseudo_state,
}
use cpp_statecharts.Metadata.{StateRuntimedata, Metadata, get_data, is_active, modify_data}
use cpp_statecharts.Metadata.Substates.{substate, Nested, modify_data-Nested}
use cpp_statecharts.Runtime.{Run, M, pure, ◌>>=◌, ◌>>◌, bounded, modify, pointer, write_at}
use cpp_statecharts.Runtime.Bounds.{
  Ends, Ends-bind, Terminates, Terminates-then, Terminates-pure, Terminates-gets, Terminates-if,
  Terminates-for_each, Terminates-modify, Terminates-read_at, Terminates-write_at,
}
use cpp_statecharts.Chart.{Chart, Methods, run_action}
use cpp_statecharts.Behaviour.States.{state_deactivate}
use cpp_statecharts.Behaviour.PseudoStates.{chain_below, store_if, store_history}
use cpp_statecharts.Behaviour.Hierarchical.{
  is_recorded, save_history, history_type, leave_substate, leave_from, hierarchical_deactivate,
}
use cpp_statecharts.Behaviour.Concurrent.{concurrent_deactivate}
use cpp_statecharts.Behaviour.Virtual.{deactivate_of, override, methods}
use cpp_statecharts.Invariance.Nesting.{WellNested}
use cpp_statecharts.Semantics.Ending.Histories.{
  IsTree, Found, chain_below-Found, history_chain-Found,
}
use cpp_statecharts.Semantics.Ending.States.{state_deactivate-Terminates}

module _ {W : Type 0} (chart : Chart W) (height : ℕ → ℕ) (tree : IsTree chart height)
    (exits : (s : ℕ)
      → Terminates (WellNested chart) (run_action (chart.actions s).exit_action)) where
  abbrev I : Run W → Type 0
  I = WellNested chart

  -- The methods of a state whose calls go to substates that lie lower.
  module _ (self : Methods W) (s : ℕ)
      (lower : (c : ℕ) → height c < height s → Terminates I (self.deactivate c))
      (chains : (t : PseudoStateType) (c : ℕ) (d : Metadata)
        → Nested chart.states d
        → height c < height s
        → Found chart height tree (self.history_chain t c d)) where
    recording :
        (h : ℕ) (l : List ℕ)
        → Terminates I (modify (modify_data h (λ d. record d { stateset = l })))
    recording h l =
        Terminates-modify I _ (λ r i. modify_data-Nested chart.states h _ r.meta (λ d c e. e) i)

    chain-Ends :
        (t : PseudoStateType) (h : ℕ) (r : Run W)
        → I r
        → (o : Option (List ℕ)) → Found chart height tree o
        → Ends I ((bounded o >>= λ l. modify (modify_data h (λ d. record d { stateset = l }))) r)
    chain-Ends t h r i none (l, e) = absurd (cc e)
    chain-Ends t h r i (some l) f = (recording h l).ends r i

    store_if-Ends :
        (t : PseudoStateType) (h : ℕ) (o : Option ℕ) (d : Option StateRuntimedata) (r : Run W)
        → o ≡ some s
        → I r
        → Ends I (store_if chart self t h o d r)
    unfolding store_if
    store_if-Ends t h none d r e i = i
    store_if-Ends t h (some p) none r e i = i
    store_if-Ends t h (some p) (some d) r e i =
        chain-Ends t h r i (chain_below chart self t (substate p r.meta) r.meta) (
          chain_below-Found chart height tree self t r.meta (substate p r.meta)
            (λ c k. chains t c r.meta i (tree.below c s (i p c k ∙ e))))

    save_history-Terminates :
        (h : Option ℕ) (current : Option ℕ)
        → (chart.states s).history_state ≡ h
        → Terminates I (save_history chart self h s current)
    unfolding save_history store_history
    save_history-Terminates none current e = Terminates-pure I tt
    save_history-Terminates (some h) current e =
        Terminates-if I (is_recorded chart self s current)
          (Terminates-gets I (get_data h)
            (store_if chart self (history_type (chart.states h).kind) h (chart.states h).context)
            (λ r i.
              store_if-Ends (history_type (chart.states h).kind) h (chart.states h).context
                (get_data h r.meta) r (tree.histories_below s h e) i))
          (Terminates-pure I tt)

    leave_substate-Ends :
        (o : Option ℕ) (r : Run W)
        → ((c : ℕ) → o ≡ some c → height c < height s)
        → I r
        → Ends I (leave_substate chart self o r)
    unfolding leave_substate
    leave_substate-Ends none r k i = i
    leave_substate-Ends (some c) r k i = (lower c (k c refl)).ends r i

    -- What `deactivate` does once it has read the current substate again.
    abbrev leave_rest : ℕ → StateRuntimedata → M W (Unit {0})
    leave_rest address d =
        leave_substate chart self d.current_state
        >> (write_at s address (λ r. record r { current_state = none }) >> state_deactivate chart s)

    leave_rest-Ends :
        (address : ℕ) (d : StateRuntimedata) (r : Run W)
        → get_data s r.meta ≡ some d
        → I r
        → Ends I (leave_rest address d r)
    unfolding substate
    leave_rest-Ends address d r e i =
        Ends-bind I (leave_substate chart self d.current_state r) _
          (leave_substate-Ends d.current_state r (λ c k. tree.below c s (i s c (rw e k))) i)
          (λ a q _ j.
            (Terminates-then I
                (Terminates-write_at I s address _
                  (λ t k. modify_data-Nested chart.states s _ t.meta (λ x c y. cc) k))
                (state_deactivate-Terminates chart exits s)).ends
              q j)

    leave_from-Terminates : (o : Option ℕ) → Terminates I (leave_from chart self s o)
    unfolding leave_from
    leave_from-Terminates none = state_deactivate-Terminates chart exits s
    leave_from-Terminates (some address) = Terminates-read_at I s address _ λ d r e i.
        (Terminates-then I
            (save_history-Terminates (chart.states s).history_state d.current_state refl)
            (Terminates-read_at I s address (leave_rest address) (leave_rest-Ends address))).ends
          r i

    hierarchical_deactivate-Terminates : Terminates I (hierarchical_deactivate chart self s)
    unfolding hierarchical_deactivate
    hierarchical_deactivate-Terminates =
        Terminates-gets I (is_active s)
          (λ active. if active then (pointer s >>= leave_from chart self s) else pure tt)
          (λ r h.
            (Terminates-if I (is_active s r.meta)
                (Terminates-gets I _ (leave_from chart self s)
                  (λ q i. (leave_from-Terminates _).ends q i))
                (Terminates-pure I tt)).ends
              r h)

    concurrent_deactivate-Terminates : Terminates I (concurrent_deactivate chart self s)
    unfolding concurrent_deactivate
    concurrent_deactivate-Terminates =
        Terminates-then I
          (Terminates-modify I _ (λ r i. modify_data-Nested chart.states s _ r.meta (λ d c e. e) i))
          (Terminates-then I
            (Terminates-for_each I (chart.states s).regions self.deactivate (
              All-map _ _ (chart.states s).regions (λ h e. lower h (tree.below h s e))
                (tree.regions_below s)))
            (state_deactivate-Terminates chart exits s))

    deactivate_of-Terminates : (k : Kind) → Terminates I (deactivate_of chart self k s)
    unfolding deactivate_of
    deactivate_of-Terminates hierarchical_state = hierarchical_deactivate-Terminates
    deactivate_of-Terminates concurrent_state = concurrent_deactivate-Terminates
    deactivate_of-Terminates simple_state = state_deactivate-Terminates chart exits s
    deactivate_of-Terminates final_state = state_deactivate-Terminates chart exits s
    deactivate_of-Terminates statechart_root = state_deactivate-Terminates chart exits s
    deactivate_of-Terminates (pseudo_state t) = state_deactivate-Terminates chart exits s

  -- In a tree of states, started with every current substate a child of its state, and with exit
  -- actions that end and keep that: a call of `deactivate` ends with more fuel than the state is
  -- high, by a return or by an exception, unless it meets a dangling pointer; the fuel never runs
  -- out.
  pub deactivate-Terminates :
      (fuel s : ℕ) → height s < fuel → Terminates I ((methods chart fuel).deactivate s)
  unfolding methods override
  deactivate-Terminates zero s le = absurd (omega arith)
  deactivate-Terminates (suc n) s le =
      deactivate_of-Terminates (methods chart n) s (λ c lt. deactivate-Terminates n c (omega arith))
        (λ t c d h lt. history_chain-Found chart height tree n t c d h (omega arith))
        (chart.states s).kind
