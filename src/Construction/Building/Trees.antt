-- ===== src/Construction/Building/Trees.antt =====
-- What holds of every chart that the factories of include/CppStatecharts/Statechart.hpp build.
use cpp_statecharts.Base.{
  ℕ, ◌+◌, ◌≤◌, ◌<◌, ◌≡◌, refl, ap, subst, Bool, ◌||◌, String, Option, none, some, arith, Bool-cases,
  inl, inr, ◌⊎◌, true, [], ◌∷◌, ◌++◌, contains, contains-snoc,
}
use text.Mathlib.Text.{◌==◌ as str_eq}
use cpp_statecharts.Structure.{
  State, States, Kind, start, join, junction, fork, history, deep_history, simple_state,
  final_state, concurrent_state, hierarchical_state, pseudo_state, statechart_root,
}
use cpp_statecharts.Chart.{Transition, StateActions, has_guard}
use cpp_statecharts.Construction.Names.{is_taken}
use cpp_statecharts.Construction.StateSets.{StateSet}
use cpp_statecharts.Construction.Building.{
  Builder, new_statechart, register, place, create, link_start, link_end, attach, new_state, update,
}

-- Each state is younger than its context, and so is below the next address; a start state, a
-- history and a region are children of the state that holds them.
pub record WellBuilt {W : Type 0} (b : Builder W) : Type 0 where
  pub older : (s p : ℕ) → (b.chart.states s).context ≡ some p → p < s
  pub starts :
      (s c : ℕ) → (b.chart.states s).start_state ≡ some c → (b.chart.states c).context ≡ some s
  pub histories :
      (s c : ℕ) → (b.chart.states s).history_state ≡ some c → (b.chart.states c).context ≡ some s
  pub regions :
      (s c : ℕ) → contains c (b.chart.states s).regions ≡ true → (b.chart.states c).context ≡ some s
  pub fresh : (s : ℕ) → b.next_state ≤ s → (b.chart.states s).context ≡ none

pub new_statechart-WellBuilt :
    {W : Type 0} (name : String) → WellBuilt (new_statechart {W = W} name)
unfolding new_statechart
new_statechart-WellBuilt name = record {
  older = λ s p h. absurd (cc h);
  starts = λ s c h. absurd (cc h);
  histories = λ s c h. absurd (cc h);
  regions = λ s c h. absurd (cc h);
  fresh = λ s h. refl;
}

-- What a constructor may change in the parent: its start state or its history becomes the new
-- state.
record Registers (i : ℕ) (p q : State) : Type 0 where
  context_same : q.context ≡ p.context
  start_set : (q.start_state ≡ p.start_state) ⊎ (q.start_state ≡ some i)
  history_set : (q.history_state ≡ p.history_state) ⊎ (q.history_state ≡ some i)
  regions_set : (q.regions ≡ p.regions) ⊎ (q.regions ≡ p.regions ++ (i ∷ []))

register-Registers : (k : Kind) (i : ℕ) (p q : State) → register k i p ≡ some q → Registers i p q
unfolding register
register-Registers (pseudo_state start) i p q h = ground arith
register-Registers (pseudo_state history) i p q h = ground arith
register-Registers (pseudo_state deep_history) i p q h = ground arith
register-Registers (pseudo_state junction) i p q h = ground arith
register-Registers (pseudo_state fork) i p q h = ground arith
register-Registers (pseudo_state join) i p q h = ground arith
register-Registers hierarchical_state i p q h = ground arith
register-Registers simple_state i p q h = ground arith
register-Registers final_state i p q h = ground arith
register-Registers concurrent_state i p q h = ground arith
register-Registers statechart_root i p q h = ground arith

module _ {W : Type 0} (b : Builder W) (name : String) (k : Kind) (actions : StateActions W) (p : ℕ)
    (q : State) (built : WellBuilt b) (valid : p < b.next_state)
    (registers : Registers b.next_state (b.chart.states p) q) where
  placed_states : States
  placed_states =
      update (update b.chart.states p q) b.next_state
        (new_state name k (some p) (some b.chart.root))

  placed_older : (s c : ℕ) → (placed_states s).context ≡ some c → c < s
  unfolding placed_states
  placed_older s c h = ground (arith, built.older s c, built.older p c, registers)

  placed_starts :
      (s c : ℕ) → (placed_states s).start_state ≡ some c → (placed_states c).context ≡ some s
  unfolding placed_states
  placed_starts s c h = ground (arith, built.starts s c, built.starts p c, built.fresh c, registers)

  placed_histories :
      (s c : ℕ) → (placed_states s).history_state ≡ some c → (placed_states c).context ≡ some s
  unfolding placed_states
  placed_histories s c h =
      ground (arith, built.histories s c, built.histories p c, built.fresh c, registers)

  placed_regions :
      (s c : ℕ) → contains c (placed_states s).regions ≡ true → (placed_states c).context ≡ some s
  unfolding placed_states
  placed_regions s c h = ground (
    arith,
    built.regions s c,
    built.regions p c,
    built.fresh c,
    contains-snoc c (b.chart.states p).regions b.next_state,
    registers,
  )

  placed_fresh : (s : ℕ) → b.next_state + 1 ≤ s → (placed_states s).context ≡ none
  unfolding placed_states
  placed_fresh s h = ground (arith, built.fresh s, built.fresh p, registers)

-- The builder of a result, or another one.
abbrev pub snd_of : {W : Type 0} → Option (ℕ × Builder W) → Builder W → Builder W
snd_of none b = b
snd_of (some (i, c)) b = c

place-WellBuilt :
    {W : Type 0} (name : String) (k : Kind) (actions : StateActions W) (p : ℕ) (o : Option State)
    (b : Builder W) {i : ℕ} {b' : Builder W}
    → ((q : State) → o ≡ some q → Registers b.next_state (b.chart.states p) q)
    → WellBuilt b
    → p < b.next_state
    → place name k actions p o b ≡ some (i, b')
    → WellBuilt b'
unfolding place placed_states
place-WellBuilt name k actions p none b reg built valid h = absurd (cc h)
place-WellBuilt name k actions p (some q) b {i} {b'} reg built valid h =
    subst WellBuilt same (record {
      older = placed_older b name k actions p q built valid (reg q refl);
      starts = placed_starts b name k actions p q built valid (reg q refl);
      histories = placed_histories b name k actions p q built valid (reg q refl);
      regions = placed_regions b name k actions p q built valid (reg q refl);
      fresh = placed_fresh b name k actions p q built valid (reg q refl);
    })
  where
    same : (snd_of (place name k actions p (some q) b) b) ≡ b'
    same = ap (λ r. snd_of r b) h

-- A state that `create` returns leaves the chart well built, if the parent it was given is one of
-- the chart's states.
pub create-WellBuilt :
    {W : Type 0} (name : String) (k : Kind) (actions : StateActions W) (p : ℕ) (b : Builder W)
    {i : ℕ} {b' : Builder W}
    → WellBuilt b
    → p < b.next_state
    → create name k actions (some p) b ≡ some (i, b')
    → WellBuilt b'
unfolding create
create-WellBuilt name k actions p b built valid h =
    elim (Bool-cases (str_eq name "" || is_taken name b.chart.names)) [
      | inl e ↦ absurd (cc (rw e at h))
      | inr e ↦
          place-WellBuilt name k actions p (register k b.next_state (b.chart.states p)) b
            (λ q. register-Registers k b.next_state (b.chart.states p) q) built valid (rw e at h)
    ]

-- Linking a transition leaves the members of each state that the invariant is about.
record SameTree (x y : State) : Type 0 where
  context_eq : x.context ≡ y.context
  start_eq : x.start_state ≡ y.start_state
  history_eq : x.history_state ≡ y.history_state
  regions_eq : x.regions ≡ y.regions

link_start-SameTree :
    (from : Option ℕ) (t : ℕ) (guarded : Bool) (states : States) (s : ℕ)
    → SameTree (link_start from t guarded states s) (states s)
unfolding link_start
link_start-SameTree none t guarded states s = ground arith
link_start-SameTree (some a) t guarded states s = ground arith

link_end-SameTree :
    (to : Option ℕ) (t : ℕ) (states : States) (s : ℕ) → SameTree (link_end to t states s) (states s)
unfolding link_end
link_end-SameTree none t states s = ground arith
link_end-SameTree (some a) t states s = ground arith

linked :
    (from to : Option ℕ) (t : ℕ) (guarded : Bool) (states : States) (s : ℕ)
    → SameTree (link_end to t (link_start from t guarded states) s) (states s)
linked from to t guarded states s = ground (
  arith,
  link_end-SameTree to t (link_start from t guarded states) s,
  link_start-SameTree from t guarded states s,
)

pub attach-WellBuilt :
    {W : Type 0} (from to : Option ℕ) (t : Transition W) (set : Option StateSet) (b : Builder W)
    {i : ℕ} {b' : Builder W}
    → WellBuilt b
    → attach from to t set b ≡ some (i, b')
    → WellBuilt b'
unfolding attach
attach-WellBuilt from to t none b built h = absurd (cc h)
attach-WellBuilt from to t (some set) b {i} {b'} built h = subst WellBuilt same (record {
  older = λ s p e. ground (arith, built.older s p, tree s);
  starts = λ s c e. ground (arith, built.starts s c, tree s, tree c);
  histories = λ s c e. ground (arith, built.histories s c, tree s, tree c);
  regions = λ s c e. ground (arith, built.regions s c, tree s, tree c);
  fresh = λ s e. ground (arith, built.fresh s, tree s);
})
  where
    same : (snd_of (attach from to t (some set) b) b) ≡ b'
    same = ap (λ r. snd_of r b) h

    tree :
        (s : ℕ)
        → SameTree
            (link_end to b.next_transition
              (link_start from b.next_transition (has_guard t) b.chart.states)
              s)
            (b.chart.states s)
    tree = linked from to b.next_transition (has_guard t) b.chart.states
