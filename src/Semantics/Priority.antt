-- ===== src/Semantics/Priority.antt =====
-- HierarchicalState::dispatch of src/HierarchicalState.cpp: the current substate comes first.
use cpp_statecharts.Base.{
  ℕ, ◌≡◌, ◌∙◌, refl, Bool, true, false, not, ◌&&◌, Option, none, some, ==_self, List, [], ◌∷◌, All,
  if◌then◌else◌, Bool-cases, inl, inr,
}
use cpp_statecharts.Event.{Event}
use cpp_statecharts.Metadata.{StateRuntimedata, get_data, is_active}
use cpp_statecharts.Metadata.Substates.{substate}
use cpp_statecharts.Runtime.{
  Run, Outcome, done, thrown, fault, out_of_fuel, M, pure, bind_outcome, ◌>>=◌, first_true, read_at,
}
use cpp_statecharts.Chart.{Chart, Methods, has_event}
use cpp_statecharts.Behaviour.Transitions.{execute}
use cpp_statecharts.Semantics.Choice.{Refused, execute-Refused}
use cpp_statecharts.Behaviour.Hierarchical.{
  points_to_final, first_entry, current_at, dispatch_substate, own_transition, after_substate,
  hierarchical_dispatch,
}

module _ {W : Type 0} (chart : Chart W) (self : Methods W) (e : Option Event) where
  -- The calls of Transition::execute that a composite state makes for its own transitions, each
  -- with the event that it passes: at the end those without an event come first without the event
  -- of the dispatch, and then with it; before the end they are left out.
  abbrev pub attempts : Bool → List ℕ → List (Option Event × ℕ)
  attempts at_end [] = []
  attempts true (t ∷ ts) =
      if has_event (chart.transition t)
      then (e, t) ∷ attempts true ts
      else (none, t) ∷ (e, t) ∷ attempts true ts
  attempts false (t ∷ ts) =
      if has_event (chart.transition t) then (e, t) ∷ attempts false ts else attempts false ts

  abbrev pub attempt : Option Event × ℕ → M W Bool
  attempt (x, t) = execute chart self x (chart.transition t)

  -- The attempt fails: the trigger does not match, or guard and target refuse.
  abbrev pub Fails : Run W → Option Event × ℕ → Type 0
  Fails r (x, t) = Refused chart self x r t

  -- What a composite state does behind the dispatch of its substate.
  abbrev pub answer : ℕ → Bool → Run W → Outcome (Run W) Bool
  answer s handled r' =
      let at_end = points_to_final chart.states (substate s r'.meta) in
      if not (is_active s r'.meta)
      then done handled r'
      else if handled && not at_end
      then done true r'
      else first_true (attempts at_end (chart.states s).transitions) attempt r'

  abbrev or_else : M W Bool → Bool → M W Bool
  or_else rest b = if b then pure true else rest

  same_rest :
      (o : Outcome (Run W) Bool) (m n : M W Bool)
      → ((u : Run W) → m u ≡ n u)
      → bind_outcome o (or_else m) ≡ bind_outcome o (or_else n)
  same_rest (done true u) m n h = refl
  same_rest (done false u) m n h = h u
  same_rest (thrown x u) m n h = refl
  same_rest fault m n h = refl
  same_rest out_of_fuel m n h = refl

  -- Two attempts in one are two attempts.
  split_attempt :
      (o : Outcome (Run W) Bool) (second m n : M W Bool)
      → ((u : Run W) → m u ≡ n u)
      → bind_outcome (bind_outcome o (or_else second)) (or_else m)
        ≡ bind_outcome o (or_else (second >>= or_else n))
  split_attempt (done true u) second m n h = refl
  split_attempt (done false u) second m n h = same_rest (second u) m n h
  split_attempt (thrown x u) second m n h = refl
  split_attempt fault second m n h = refl
  split_attempt out_of_fuel second m n h = refl

  own-attempts :
      (at_end : Bool) (ts : List ℕ) (r : Run W)
      → first_true ts (own_transition chart self at_end e) r
        ≡ first_true (attempts at_end ts) attempt r
  unfolding first_true own_transition
  own-attempts at_end [] r = refl
  own-attempts true (t ∷ ts) r = elim (Bool-cases (has_event (chart.transition t))) [
    | inl h ↦
        rw h (same_rest (execute chart self e (chart.transition t) r) _ _ (own-attempts true ts))
    | inr h ↦ rw h (
        split_attempt (execute chart self none (chart.transition t) r)
          (execute chart self e (chart.transition t)) _ _ (own-attempts true ts))
  ]
  own-attempts false (t ∷ ts) r = elim (Bool-cases (has_event (chart.transition t))) [
    | inl h ↦
        rw h (same_rest (execute chart self e (chart.transition t) r) _ _ (own-attempts false ts))
    | inr h ↦ rw h (own-attempts false ts r)
  ]

  no_attempt :
      (tries : List (Option Event × ℕ)) (r : Run W)
      → All (Fails r) tries
      → first_true tries attempt r ≡ done false r
  unfolding first_true
  no_attempt [] r off = refl
  no_attempt ((y, u) ∷ us) r (off, rest) =
      rw (execute-Refused chart self y r u off) (no_attempt us r rest)

module _ {W : Type 0} (chart : Chart W) (self : Methods W) (s c : ℕ) (e : Option Event) (r : Run W)
    (d : StateRuntimedata) (active : is_active s r.meta ≡ true) (known : get_data s r.meta ≡ some d)
    (current : d.current_state ≡ some c) where
  to_substate :
      hierarchical_dispatch chart self s e r
      ≡ bind_outcome (self.dispatch c e r) (after_substate chart self s e)
  unfolding hierarchical_dispatch first_entry current_at dispatch_substate
  to_substate = simp (active, known, ==_self, current, read_at)

  after_substate-answer :
      (handled : Bool) (r' : Run W)
      → after_substate chart self s e handled r' ≡ answer chart self e s handled r'
  unfolding after_substate
  after_substate-answer true r' = elim (Bool-cases (is_active s r'.meta)) [
    | inr left ↦ rw left refl
    | inl stays ↦ rw stays (elim (Bool-cases (points_to_final chart.states (substate s r'.meta))) [
      | inl q ↦ rw q (own-attempts chart self e true (chart.states s).transitions r')
      | inr q ↦ rw q refl
    ])
  ]
  after_substate-answer false r' = elim (Bool-cases (is_active s r'.meta)) [
    | inr left ↦ rw left refl
    | inl stays ↦ rw stays (
        own-attempts chart self e (points_to_final chart.states (substate s r'.meta))
          (chart.states s).transitions r')
  ]

  module _ (handled : Bool) (r' : Run W) (first : self.dispatch c e r ≡ done handled r') where
    pub hierarchical_dispatch_inner :
        hierarchical_dispatch chart self s e r ≡ answer chart self e s handled r'
    hierarchical_dispatch_inner = to_substate ∙ rw first (after_substate-answer handled r')

    module _ (at_end : Bool) (stays : is_active s r'.meta ≡ true)
        (q : points_to_final chart.states (substate s r'.meta) ≡ at_end)
        (h : (handled && not at_end) ≡ false) where
      own_attempts :
          hierarchical_dispatch chart self s e r
          ≡ first_true
              (attempts chart self e at_end (chart.states s).transitions)
              (attempt chart self e)
              r'
      own_attempts = hierarchical_dispatch_inner ∙ rw (stays, q) (rw h refl)

      -- In the same case, if all these attempts are refused, the dispatch returns false and leaves
      -- the run as the substate left it.
      pub hierarchical_dispatch_refused :
          All (Fails chart self e r') (attempts chart self e at_end (chart.states s).transitions)
          → hierarchical_dispatch chart self s e r ≡ done false r'
      hierarchical_dispatch_refused off = own_attempts ∙ no_attempt chart self e _ r' off
