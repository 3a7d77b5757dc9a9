-- ===== src/Construction/Building/Built.antt =====
-- The charts that a client can build with the factories of include/CppStatecharts/Statechart.hpp.
use cpp_statecharts.Base.{
  ℕ, ◌<◌, ◌≡◌, ◌≢◌, refl, ap, false, ◌||◌, String, Option, none, some, List, [], ◌∷◌, ◌⊎◌, arith,
  Bool-cases, inl, inr, ptr_eq,
}
use text.Mathlib.Text.{◌==◌ as str_eq}
use text.Mathlib.TextEquality.{eq_iff}
use cpp_statecharts.Structure.{State, Kind, is_statechart}
use cpp_statecharts.Chart.{Transition, StateActions}
use cpp_statecharts.Construction.Names.{name_lookup, is_taken, is_taken-name_lookup}
use cpp_statecharts.Construction.Paths.{path_from-PathTo}
use cpp_statecharts.Construction.StateSets.{state_set, path_to, calculate_state_set}
use cpp_statecharts.Construction.Building.{
  Builder, new_statechart, register, place, create, attach, create_transition,
}
use cpp_statecharts.Construction.Building.Trees.{
  WellBuilt, new_statechart-WellBuilt, create-WellBuilt, attach-WellBuilt, snd_of,
}

-- A pointer to one of the states of the chart, or null.
abbrev pub IsValid : {W : Type 0} → Builder W → Option ℕ → Type 0
IsValid b none = Unit
IsValid b (some s) = s < b.next_state

-- A chart that is reached by calls of the factories, with pointers that they returned.
pub data Built {W : Type 0} : Builder W → Type 0 where
  begins : (name : String) → Built (new_statechart name)
  creates :
      {b b' : Builder W} {i : ℕ} (name : String) (k : Kind) (actions : StateActions W) (p : ℕ)
      → Built b
      → p < b.next_state
      → create name k actions (some p) b ≡ some (i, b')
      → Built b'
  connects :
      {b b' : Builder W} {i : ℕ} (from to : Option ℕ) (t : Transition W)
      → Built b
      → IsValid b from
      → IsValid b to
      → create_transition from to t b ≡ some (i, b')
      → Built b'

-- In every chart that the factories build each state is younger than its context, so the contexts
-- form a tree, and each start state, each history and each region is a child of the state that
-- holds it.
pub Built-WellBuilt : {W : Type 0} {b : Builder W} → Built b → WellBuilt b
unfolding create_transition
Built-WellBuilt (begins name) = new_statechart-WellBuilt name
Built-WellBuilt (creates name k actions p r valid h) =
    create-WellBuilt name k actions p _ (Built-WellBuilt r) valid h
Built-WellBuilt (connects from to t r hf ht h) =
    attach-WellBuilt from to t _ _ (Built-WellBuilt r) h

path_to_total :
    {W : Type 0} (b : Builder W) (s : Option ℕ)
    → WellBuilt b
    → IsValid b s
    → (path : List ℕ) × (path_to b.next_state b.chart.states s ≡ some path)
unfolding path_to
path_to_total b none built valid = ([], refl)
path_to_total b (some s) built valid =
    let (path, found, _) =
      path_from-PathTo b.chart.states (λ p. is_statechart (b.chart.states p).kind) (λ a. a)
        b.next_state s built.older valid in
    (path, found)

-- In a chart that the factories have built, `createTransition` always succeeds on states of the
-- chart and on null pointers: the walks to the root end.
pub create_transition_total :
    {W : Type 0} (b : Builder W) (from to : Option ℕ) (t : Transition W)
    → Built b
    → IsValid b from
    → IsValid b to
    → (b' : Builder W) × (create_transition from to t b ≡ some (b.next_transition, b'))
unfolding create_transition calculate_state_set attach
create_transition_total b from to t built hf ht =
    let (ds, found_from) = path_to_total b from (Built-WellBuilt built) hf in
    let (as', found_to) = path_to_total b to (Built-WellBuilt built) ht in
    (
      snd_of (attach from to t (some (state_set (ptr_eq from to) ds as')) b) b,
      rw (found_from, found_to) refl,
    )

-- `create` refuses an empty name, a null parent and a name that `getStateByName` finds.
pub create_refuses :
    {W : Type 0} (name : String) (k : Kind) (actions : StateActions W) (p : Option ℕ)
    (b : Builder W)
    → (name ≡ "") ⊎ ((p ≡ none) ⊎ ((s : ℕ) × (name_lookup name b.chart.names ≡ some s)))
    → create name k actions p b ≡ none
unfolding create
create_refuses name k actions none b h = refl
create_refuses name k actions (some p) b (inl e) = ground (arith, (eq_iff name "").1 e)
create_refuses name k actions (some p) b (inr (inl e)) = absurd (cc e)
create_refuses name k actions (some p) b (inr (inr (s, e))) =
    ground (arith, is_taken-name_lookup name b.chart.names)

abbrev fst_of : {W : Type 0} → Option (ℕ × Builder W) → ℕ → ℕ
fst_of none j = j
fst_of (some (i, c)) j = i

placed_names :
    {W : Type 0} (name : String) (k : Kind) (actions : StateActions W) (p : ℕ) (o : Option State)
    (b : Builder W) {i : ℕ} {b' : Builder W}
    → place name k actions p o b ≡ some (i, b')
    → b'.chart.names ≡ (name, i) ∷ b.chart.names
unfolding place
placed_names name k actions p none b h = absurd (cc h)
placed_names name k actions p (some q) b {i} {b'} h = cc (ap (λ r. fst_of r i) h)

created_names :
    {W : Type 0} (name : String) (k : Kind) (actions : StateActions W) (p : Option ℕ)
    (b : Builder W) {i : ℕ} {b' : Builder W}
    → create name k actions p b ≡ some (i, b')
    → (is_taken name b.chart.names ≡ false) × (b'.chart.names ≡ (name, i) ∷ b.chart.names)
unfolding create
created_names name k actions none b h = absurd (cc h)
created_names name k actions (some p) b h =
    elim (Bool-cases (str_eq name "" || is_taken name b.chart.names)) [
      | inl e ↦ absurd (cc (rw e at h))
      | inr e ↦ (
        ground arith,
        placed_names name k actions p (register k b.next_state (b.chart.states p)) b (rw e at h),
      )
    ]

-- A state that `create` returns is found under its name, which no state had before, and all other
-- names are found as they were.
pub create-name_lookup :
    {W : Type 0} (name : String) (k : Kind) (actions : StateActions W) (p : Option ℕ)
    (b : Builder W) {i : ℕ} {b' : Builder W}
    → create name k actions p b ≡ some (i, b')
    → (name_lookup name b.chart.names ≡ none)
      × (name_lookup name b'.chart.names ≡ some i)
      × ((n : String) → n ≢ name → name_lookup n b'.chart.names ≡ name_lookup n b.chart.names)
unfolding name_lookup
create-name_lookup name k actions p b h =
    let (free, names) = created_names name k actions p b h in
    (
      ground (arith, is_taken-name_lookup name b.chart.names),
      rw names (ground (arith, (eq_iff name name).1 refl)),
      λ n ne. rw names (ground (arith, eq_iff name n)),
    )
