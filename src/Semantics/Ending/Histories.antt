-- ===== src/Semantics/Ending/Histories.antt =====
-- calculateHistoryChain of src/PseudoState.cpp in a tree of states.
use cpp_statecharts.Base.{
  ℕ, zero, suc, ◌<◌, ◌≡◌, refl, Option, none, some, List, [], ◌∷◌, All, if_ind, arith,
}
use cpp_statecharts.Structure.{PseudoStateType, is_hierarchical}
use cpp_statecharts.Metadata.{Metadata}
use cpp_statecharts.Metadata.Substates.{substate, Nested}
use cpp_statecharts.Chart.{Chart, Methods}
use cpp_statecharts.Behaviour.PseudoStates.{
  calculate_history_chain, chain_below, cons_chain, is_shallow,
}
use cpp_statecharts.Behaviour.Virtual.{override, methods}

-- A height of the states that falls on the way down, with regions and histories below their state.
pub record IsTree {W : Type 0} (chart : Chart W) (height : ℕ → ℕ) : Type 0 where
  pub below : (s p : ℕ) → (chart.states s).context ≡ some p → height s < height p
  pub regions_below :
      (s : ℕ) → All (λ h. (chart.states h).context ≡ some s) (chart.states s).regions
  pub histories_below :
      (s h : ℕ) → (chart.states s).history_state ≡ some h → (chart.states h).context ≡ some s

module _ {W : Type 0} (chart : Chart W) (height : ℕ → ℕ) (tree : IsTree chart height) where
  -- The chain of a history is found within the height.
  abbrev pub Found : Option (List ℕ) → Type 0
  Found o = (l : List ℕ) × (o ≡ some l)

  cons_chain-Found :
      (s : ℕ) (self : Methods W) (o : Option (List ℕ)) → Found o → Found (cons_chain chart self s o)
  cons_chain-Found s self none (l, e) = absurd (cc e)
  cons_chain-Found s self (some l) h = (s ∷ l, refl)

  pub chain_below-Found :
      (self : Methods W) (t : PseudoStateType) (d : Metadata) (o : Option ℕ)
      → ((c : ℕ) → o ≡ some c → Found (self.history_chain t c d))
      → Found (chain_below chart self t o d)
  chain_below-Found self t d none h = ([], refl)
  chain_below-Found self t d (some c) h = h c refl

  pub history_chain-Found :
      (n : ℕ) (t : PseudoStateType) (s : ℕ) (d : Metadata)
      → Nested chart.states d
      → height s < n
      → Found ((methods chart n).history_chain t s d)
  unfolding methods override calculate_history_chain
  history_chain-Found zero t s d h le = absurd (omega arith)
  history_chain-Found (suc n) t s d h le =
      if_ind Found (is_shallow chart (methods chart n) t) (λ _. (s ∷ [], refl))
        (λ _.
          if_ind Found (is_hierarchical (chart.states s).kind)
            (λ _. cons_chain-Found s (methods chart n) _ (
              chain_below-Found (methods chart n) t d (substate s d)
                (λ c e. history_chain-Found n t c d h (omega (arith, tree.below c s (h s c e))))))
            (λ _. (s ∷ [], refl)))
