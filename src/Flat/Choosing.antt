-- ===== src/Flat/Choosing.antt =====
-- PseudoState::lookup of src/PseudoState.cpp and Transition::allowed of src/Transition.cpp in a flat
-- chart: where the machine's choices lead on.
use cpp_statecharts.Base.{
  ℕ, suc, ◌≡◌, ◌==◌, ◌||◌, refl, Bool, true, false, Option, none, some, List, [], ◌∷◌, contains,
  arith, if◌then◌else◌, Bool-cases, inl, inr, sym, ◌∙◌, All, subst,
}
use cpp_statecharts.Structure.{
  Kind, simple_state, final_state, pseudo_state, start, junction, is_pseudo, hierarchical_state,
  concurrent_state, statechart_root, fork, join, history, deep_history,
}
use cpp_statecharts.Metadata.{Metadata}
use cpp_statecharts.Chart.{Chart, Methods, Transition}
use cpp_statecharts.Behaviour.Transitions.{last?, target_allows, allowed}
use cpp_statecharts.Behaviour.PseudoStates.{any_allowed, pseudo_lookup, is_join}
use cpp_statecharts.Behaviour.Virtual.{override, methods}
use cpp_statecharts.Flat.Machine.{Machine, Edge, any_guard, leads_on}
use cpp_statecharts.Flat.Implementing.{
  is_junction, is_start, IsFlat, IsEdge, AreEdges, Leads, IsState, OutOfChoice, LeadsOut,
  Implements,
}

pub member_holds : (P : ℕ → Type 0) (ids : List ℕ) (s : ℕ) → All P ids → contains s ids ≡ true → P s
member_holds P [] s h e = absurd (ground (arith, e))
member_holds P (x ∷ xs) s h e = elim (Bool-cases (x == s)) [
  | inl q ↦ subst P (ground (arith, q)) h.0
  | inr q ↦ member_holds P xs s h.1 (ground (arith, e, q))
]

module _ {W : Type 0} (chart : Chart W) (m : Machine W) (ids : List ℕ)
    (impl : Implements chart m ids) where
  pub member_meets : (s : ℕ) → contains s ids ≡ true → IsState chart m ids s
  member_meets s h = member_holds (IsState chart m ids) ids s impl h

  choice_pseudo : (k : Kind) → IsFlat k → is_start k ≡ false → is_pseudo k ≡ is_junction k
  choice_pseudo simple_state h e = refl
  choice_pseudo final_state h e = refl
  choice_pseudo (pseudo_state start) h e = e
  choice_pseudo (pseudo_state junction) h e = refl
  choice_pseudo (pseudo_state fork) h e = absurd h
  choice_pseudo (pseudo_state join) h e = absurd h
  choice_pseudo (pseudo_state history) h e = absurd h
  choice_pseudo (pseudo_state deep_history) h e = absurd h
  choice_pseudo hierarchical_state h e = absurd h
  choice_pseudo concurrent_state h e = absurd h
  choice_pseudo statechart_root h e = absurd h

  target_pseudo :
      (s : ℕ)
      → IsState chart m ids s
      → is_start (chart.states s).kind ≡ false
      → is_pseudo (chart.states s).kind ≡ m.is_choice s
  target_pseudo s state h = choice_pseudo (chart.states s).kind state.flat h ∙ sym state.choice

  plain_target :
      (self : Methods W) (c : ℕ) (t : Transition W) (target : Option ℕ) (d : Metadata) (w : W)
      → Leads chart m ids c t target
      → LeadsOut chart m ids target
      → (if t.is_internal then some true else target_allows chart self (last? t.activate_list) d w)
        ≡ some true
  plain_target self c t none d w h out = rw h refl
  plain_target self c t (some s) d w (h, dl, al, mem, ns) out =
      rw (h, al, target_pseudo s (member_meets s mem) ns, out) refl

  out_of_choice_allowed :
      (self : Methods W) (c : ℕ) (t : Transition W) (edge : Edge W) (d : Metadata) (w : W)
      → IsEdge chart m ids c t edge
      → LeadsOut chart m ids edge.target
      → allowed chart self t d w ≡ some (edge.guard w)
  unfolding allowed
  out_of_choice_allowed self c t edge d w h out =
      rw (h.guard d w) (elim (Bool-cases (edge.guard w)) [
        | inl e ↦ rw e (plain_target self c t edge.target d w h.leads out)
        | inr e ↦ rw e refl
      ])

  or_rest :
      {o : Option Bool} (b : Bool) {rest : Option Bool} (x : Bool)
      → o ≡ some b
      → rest ≡ some x
      → elim o [ none ↦ none | some true ↦ some true | some false ↦ rest ] ≡ some (b || x)
  or_rest true x e h = rw e refl
  or_rest false x e h = rw e h

  choice_open :
      (self : Methods W) (c : ℕ) (ts : List ℕ) (edges : List (Edge W)) (d : Metadata) (w : W)
      → AreEdges chart m ids c ts edges
      → All (λ edge. LeadsOut chart m ids edge.target) edges
      → any_allowed chart self ts d w ≡ some (any_guard m edges w)
  unfolding any_allowed any_guard
  choice_open self c [] [] d w h out = refl
  choice_open self c [] (edge ∷ edges) d w h out = absurd h
  choice_open self c (t ∷ ts) [] d w h out = absurd h
  choice_open self c (t ∷ ts) (edge ∷ edges) d w h out =
      or_rest (edge.guard w) (any_guard m edges w)
        (out_of_choice_allowed self c (chart.transition t) edge d w h.0 out.0)
        (choice_open self c ts edges d w h.1 out.1)

  not_join : (self : Methods W) (k : Kind) (s : ℕ) → IsFlat k → is_join chart self k ≡ false
  not_join self simple_state s h = refl
  not_join self final_state s h = refl
  not_join self (pseudo_state start) s h = refl
  not_join self (pseudo_state junction) s h = refl
  not_join self (pseudo_state fork) s h = absurd h
  not_join self (pseudo_state join) s h = absurd h
  not_join self (pseudo_state history) s h = absurd h
  not_join self (pseudo_state deep_history) s h = absurd h
  not_join self hierarchical_state s h = absurd h
  not_join self concurrent_state s h = absurd h
  not_join self statechart_root s h = absurd h

  pub target_open :
      (n s : ℕ) (d : Metadata) (w : W)
      → IsState chart m ids s
      → is_start (chart.states s).kind ≡ false
      → target_allows chart (methods chart (suc n)) (some s) d w ≡ some (leads_on m (some s) w)
  unfolding methods override pseudo_lookup
  target_open n s d w state ns = elim (Bool-cases (m.is_choice s)) [
    | inl e ↦
        rw
          (
            target_pseudo s state ns,
            e,
            not_join (methods chart n) (chart.states s).kind s state.flat,
          )
          (choice_open (methods chart n) s (chart.states s).transitions (m.edges s) d w state.edges
            (subst (λ b. OutOfChoice chart m ids b (m.edges s)) e state.out))
    | inr e ↦ rw (target_pseudo s state ns, e) refl
  ]
