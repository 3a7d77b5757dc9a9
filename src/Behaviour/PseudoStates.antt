-- ===== src/Behaviour/PseudoStates.antt =====
-- src/PseudoState.cpp.
use cpp_statecharts.Base.{
  ℕ, Bool, true, false, ◌&&◌, not, Option, none, some, List, [], ◌∷◌, if◌then◌else◌, ptr_eq,
}
use cpp_statecharts.Structure.{
  Kind, PseudoStateType, start, junction, fork, join, history, deep_history, pseudo_state,
  is_hierarchical,
}
use cpp_statecharts.Event.{Event}
use cpp_statecharts.Metadata.{Metadata, StateRuntimedata, get_data, is_active, modify_data}
use cpp_statecharts.Metadata
use cpp_statecharts.Metadata.Substates.{substate}
use cpp_statecharts.Runtime.{
  M, pure, ◌>>=◌, ◌>>◌, bounded, gets, modify, now, for_each, pointer, read_at,
}
use cpp_statecharts.Chart.{Chart, Methods, guard_holds, run_action}
use cpp_statecharts.Behaviour.Transitions.{allowed, execute, register_region}
use cpp_statecharts.Behaviour.States.{state_dispatch}

module _ {W : Type 0} (chart : Chart W) (self : Methods W) where
  -- Some transition of the list is allowed; the tests end at the first that is.
  unfoldable pub any_allowed : List ℕ → Metadata → W → Option Bool
  any_allowed [] d w = some false
  any_allowed (t ∷ ts) d w =
      let rest = any_allowed ts d w in
      elim (allowed chart self (chart.transition t) d w) [
        | none ↦ none
        | some true ↦ some true
        | some false ↦ rest
      ]

  -- The source of an incoming transition of a join: the first state that it leaves.
  abbrev pub source_is_active : List ℕ → Metadata → Bool
  source_is_active [] d = false
  source_is_active (s ∷ ss) d = is_active s d

  unfoldable pub join_ready : List ℕ → Metadata → W → Bool
  join_ready [] d w = true
  join_ready (t ∷ ts) d w =
      source_is_active (chart.transition t).deactivate_list d
      && guard_holds (chart.transition t).guard d w
      && join_ready ts d w

  abbrev pub is_join : Kind → Bool
  is_join (pseudo_state join) = true
  is_join _ = false

  -- PseudoState::lookup.
  unfoldable pub pseudo_lookup : ℕ → Metadata → W → Option Bool
  pseudo_lookup s d w =
      if is_join (chart.states s).kind && not (join_ready (chart.states s).incoming d w)
      then some false
      else any_allowed (chart.states s).transitions d w

  -- calculateHistoryChain.
  abbrev pub chain_below : PseudoStateType → Option ℕ → Metadata → Option (List ℕ)
  chain_below t none d = some []
  chain_below t (some c) d = self.history_chain t c d

  abbrev pub cons_chain : ℕ → Option (List ℕ) → Option (List ℕ)
  cons_chain s none = none
  cons_chain s (some l) = some (s ∷ l)

  abbrev pub is_shallow : PseudoStateType → Bool
  is_shallow history = true
  is_shallow _ = false

  unfoldable pub calculate_history_chain : PseudoStateType → ℕ → Metadata → Option (List ℕ)
  calculate_history_chain t s d =
      if is_shallow t
      then some (s ∷ [])
      else if is_hierarchical (chart.states s).kind
      then cons_chain s (chain_below t (substate s d) d)
      else some (s ∷ [])

  -- The loop of `activate` over the recorded states, through the pointer taken before it.
  unfoldable pub restore : ℕ → ℕ → List ℕ → M W (Unit {0})
  restore s address [] = pure tt
  restore s address (c ∷ cs) = do self.activate c; read_at s address; restore s address cs

  unfoldable pub restore_from : ℕ → Option ℕ → M W (Unit {0})
  restore_from s none = pure tt
  restore_from s (some address) = do d ← read_at s address; restore s address d.stateset

  -- The loop of `activate` of a fork over the path of a transition.
  unfoldable pub register_path : List ℕ → M W (Unit {0})
  register_path [] = pure tt
  register_path (s ∷ rest) = do
    modify (register_region (chart.states s).kind s rest)
    register_path rest

  unfoldable pub fork_regions : ℕ → M W (Unit {0})
  fork_regions t r =
      if guard_holds (chart.transition t).guard r.meta r.world
      then register_path (chart.transition t).activate_list r
      else pure tt r

  unfoldable pub after_entry : PseudoStateType → ℕ → Option ℕ → M W (Unit {0})
  after_entry history s d = restore_from s d
  after_entry deep_history s d = restore_from s d
  after_entry fork s d = for_each (chart.states s).transitions fork_regions
  after_entry start s d = pure tt
  after_entry junction s d = pure tt
  after_entry join s d = pure tt

  -- PseudoState::activate, of a pseudo-state of the given type.
  unfoldable pub pseudo_activate : PseudoStateType → ℕ → M W Bool
  pseudo_activate t s = do
    time ← now
    modify (Metadata.activate chart.states time s)
    d ← pointer s
    run_action (chart.actions s).entry_action
    after_entry t s d
    pure true

  -- The current substate of the context, if there is one other than the pseudo-state itself.
  unfoldable pub resumed : ℕ → Metadata → Option ℕ
  resumed s d = elim (chart.states s).context [
    | none ↦ none
    | some p ↦ if ptr_eq (substate p d) (some s) then none else substate p d
  ]

  unfoldable pub dispatch_resumed : ℕ → Option Event → Option ℕ → M W Bool
  dispatch_resumed s e none = state_dispatch chart self s e
  dispatch_resumed s e (some c) = self.dispatch c e

  unfoldable pub history_dispatch : ℕ → Option Event → M W Bool
  history_dispatch s e = gets (resumed s) >>= dispatch_resumed s e

  unfoldable pub fork_dispatch : ℕ → Option Event → M W Bool
  fork_dispatch s e = do
    for_each (chart.states s).transitions
        (λ t. execute chart self e (chart.transition t) >>= λ _. pure tt)
    pure true

  -- PseudoState::dispatch, of a pseudo-state of the given type.
  unfoldable pub pseudo_dispatch : PseudoStateType → ℕ → Option Event → M W Bool
  pseudo_dispatch history s e = history_dispatch s e
  pseudo_dispatch deep_history s e = history_dispatch s e
  pseudo_dispatch fork s e = fork_dispatch s e
  pseudo_dispatch start s e = state_dispatch chart self s e
  pseudo_dispatch junction s e = state_dispatch chart self s e
  pseudo_dispatch join s e = state_dispatch chart self s e

  -- PseudoState::storeHistory, of a pseudo-state of the given type.
  unfoldable pub store_if :
      PseudoStateType → ℕ → Option ℕ → Option StateRuntimedata → M W (Unit {0})
  store_if t s none d = pure tt
  store_if t s (some p) none = pure tt
  store_if t s (some p) (some d) =
      (λ r. bounded (chain_below t (substate p r.meta) r.meta) r) >>= λ chain.
      modify (modify_data s (λ r. record r { stateset = chain }))

  unfoldable pub store_history : PseudoStateType → ℕ → M W (Unit {0})
  store_history t s = gets (get_data s) >>= λ d. store_if t s (chart.states s).context d
