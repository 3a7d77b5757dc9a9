-- ===== src/Semantics/Remembering.antt =====
-- PseudoState::storeHistory and calculateHistoryChain of src/PseudoState.cpp: what a history records.
use cpp_statecharts.Base.{
  ℕ, zero, suc, ◌+◌, ◌≡◌, refl, true, false, Option, none, some, List, [], ◌∷◌, subst, Bool-cases,
  inl, inr, arith,
}
use cpp_statecharts.Structure.{
  PseudoStateType, history, deep_history, start, junction, fork, join, pseudo_state, is_history,
  is_hierarchical,
}
use cpp_statecharts.Metadata.{StateRuntimedata, Metadata, get_data, modify_data}
use cpp_statecharts.Metadata.Substates.{substate, Nested}
use cpp_statecharts.Runtime.{Run, done}
use cpp_statecharts.Chart.{Chart, Methods}
use cpp_statecharts.Construction.Building.{Builder}
use cpp_statecharts.Construction.Building.Built.{Built, Built-WellBuilt}
use cpp_statecharts.Behaviour.PseudoStates.{
  calculate_history_chain, chain_below, cons_chain, store_if, store_history,
}
use cpp_statecharts.Behaviour.Virtual.{override, methods}
use cpp_statecharts.Semantics.Ending.Built.{age, WellBuilt-IsTree}
use cpp_statecharts.Semantics.Ending.Histories.{chain_below-Found, history_chain-Found}

module _ {W : Type 0} (chart : Chart W) (d : Metadata) where
  -- What a history records of the current substates, from one of them on: that one alone, or all of
  -- them down to a state without substates.
  pub data Trail : PseudoStateType → Option ℕ → List ℕ → Type 0 where
    nowhere : {t : PseudoStateType} → Trail t none []
    shallow : {c : ℕ} → Trail history (some c) (c ∷ [])
    bottom :
        {c : ℕ}
        → is_hierarchical (chart.states c).kind ≡ false
        → Trail deep_history (some c) (c ∷ [])
    deeper :
        {c : ℕ} {l : List ℕ}
        → is_hierarchical (chart.states c).kind ≡ true
        → Trail deep_history (substate c d) l
        → Trail deep_history (some c) (c ∷ l)

  abbrev pub Records : PseudoStateType → Option ℕ → Option (List ℕ) → Type 0
  Records t c o = (l : List ℕ) → o ≡ some l → Trail t c l

  below-Records :
      (self : Methods W) (t : PseudoStateType) (o : Option ℕ)
      → ((c : ℕ) → Records t (some c) (self.history_chain t c d))
      → Records t o (chain_below chart self t o d)
  below-Records self t none h l e = subst (Trail t none) (cc e) nowhere
  below-Records self t (some c) h l e = h c l e

  cons-Records :
      (self : Methods W) (s : ℕ) (o : Option (List ℕ))
      → is_hierarchical (chart.states s).kind ≡ true
      → Records deep_history (substate s d) o
      → Records deep_history (some s) (cons_chain chart self s o)
  cons-Records self s none k h l e = absurd (cc e)
  cons-Records self s (some m) k h l e =
      subst (Trail deep_history (some s)) (cc e) (deeper k (h m refl))

  history_chain-Records :
      (n s : ℕ) → Records history (some s) ((methods chart n).history_chain history s d)
  unfolding methods override calculate_history_chain
  history_chain-Records zero s l e = absurd (cc e)
  history_chain-Records (suc n) s l e = subst (Trail history (some s)) (cc e) shallow

  deep_chain-Records :
      (n s : ℕ) → Records deep_history (some s) ((methods chart n).history_chain deep_history s d)
  unfolding methods override calculate_history_chain
  deep_chain-Records zero s = λ l e. absurd (cc e)
  deep_chain-Records (suc n) s = elim (Bool-cases (is_hierarchical (chart.states s).kind)) [
    | inl k ↦ rw k (
        cons-Records (methods chart n) s _ k
          (below-Records (methods chart n) deep_history (substate s d) (deep_chain-Records n)))
    | inr k ↦ rw k (λ l e. subst (Trail deep_history (some s)) (cc e) (bottom k))
  ]

  chain-Records :
      (n s : ℕ) (t : PseudoStateType)
      → is_history (pseudo_state t) ≡ true
      → Records t (some s) ((methods chart n).history_chain t s d)
  chain-Records n s history h = history_chain-Records n s
  chain-Records n s deep_history h = deep_chain-Records n s
  chain-Records n s start h = absurd (cc h)
  chain-Records n s junction h = absurd (cc h)
  chain-Records n s fork h = absurd (cc h)
  chain-Records n s join h = absurd (cc h)

-- A history pseudo-state `h` with runtime data, in a chart that the factories have built, run with
-- every current substate a child of its state: storing returns, changes nothing but the recorded
-- states of `h`, and these are the current substate of its composite state `p`, if there is one, and
-- for a deep history also the current substate of that, and so on down to a state that is not
-- composite or has no current substate.
pub store_history-Trail :
    {W : Type 0} (b : Builder W) (t : PseudoStateType) (h p : ℕ) (x : StateRuntimedata) (r : Run W)
    → Built b
    → is_history (pseudo_state t) ≡ true
    → (b.chart.states h).context ≡ some p
    → get_data h r.meta ≡ some x
    → Nested b.chart.states r.meta
    → (l : List ℕ) × (store_history b.chart (methods b.chart (b.next_state + 1)) t h r
        ≡ done tt (record r { meta = modify_data h (λ d. record d { stateset = l }) r.meta }))
      × Trail b.chart r.meta t (substate p r.meta) l
unfolding store_history store_if
store_history-Trail b t h p x r built k c e nested =
    let (l, q) =
      chain_below-Found b.chart (age b) (WellBuilt-IsTree b (Built-WellBuilt built))
        (methods b.chart (b.next_state + 1)) t r.meta (substate p r.meta)
        (λ s _.
          history_chain-Found b.chart (age b) (WellBuilt-IsTree b (Built-WellBuilt built))
            (b.next_state + 1) t s r.meta nested (omega arith)) in
    (
      l,
      rw (e, c, q) refl,
      below-Records b.chart r.meta (methods b.chart (b.next_state + 1)) t (substate p r.meta)
          (λ s. chain-Records b.chart r.meta (b.next_state + 1) s t k) l q,
    )
