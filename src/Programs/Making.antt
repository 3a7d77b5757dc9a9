-- ===== src/Programs/Making.antt =====
-- What the programs of doc/examples have in common: their standard output, their callbacks, and the
-- calls of the factories one after another.
use cpp_statecharts.Base.{
  ℕ, zero, suc, ◌+◌, ◌==◌, ltb, String, Bool, true, false, Option, none, some, List, [], ◌∷◌, ◌++◌,
}
use cpp_statecharts.Runtime.{done}
use cpp_statecharts.Event.{Event}
use cpp_statecharts.Chart.{Chart, Action, StateActions, Transition}
use cpp_statecharts.Construction.Names
use cpp_statecharts.Construction.Paths
use cpp_statecharts.Construction.StateSets
use cpp_statecharts.Construction.Building
use cpp_statecharts.Construction.Building.{Builder, no_actions, no_transition}

-- The values of an `int`. Its overflow is not modelled.
pub data ℤ : Type 0 where
  pos : ℕ → ℤ
  negsuc : ℕ → ℤ

abbrev pub succℤ : ℤ → ℤ
succℤ (pos n) = pos (n + 1)
succℤ (negsuc zero) = pos 0
succℤ (negsuc (suc n)) = negsuc n

abbrev pub predℤ : ℤ → ℤ
predℤ (pos zero) = negsuc 0
predℤ (pos (suc n)) = pos n
predℤ (negsuc n) = negsuc (n + 1)

-- `p < n`, `p == n` and `p > n` for a natural number `n`.
unfoldable pub less_than : ℕ → ℤ → Bool
less_than n (pos p) = ltb p n
less_than n (negsuc p) = true

unfoldable pub equals_to : ℕ → ℤ → Bool
equals_to n (pos p) = p == n
equals_to n (negsuc p) = false

unfoldable pub greater_than : ℕ → ℤ → Bool
greater_than n (pos p) = ltb n p
greater_than n (negsuc p) = false

-- What `std::cout <<` was given.
pub data Piece : Type 0 where
  text : String → Piece
  number : ℤ → Piece
  flag : Bool → Piece

-- A program's Parameter and its standard output.
pub record Console (P : Type 0) : Type 0 where
  pub parameter : P
  pub output : List Piece

abbrev pub cout : {P : Type 0} → List Piece → Console P → Console P
cout pieces w = record w { output = w.output ++ pieces }

-- A line of text.
abbrev pub say : {P : Type 0} → String → Console P → Console P
say line = cout (text line ∷ [])

-- What a program has before it starts its chart.
abbrev pub begin : {P : Type 0} → P → List Piece → Console P
begin p title = record { parameter = p; output = title }

-- A callback that only changes what it is given.
abbrev pub acts : {W : Type 0} → (W → W) → Option (Action W)
acts f = some (λ r. done tt (record r { world = f r.world }))

-- The actions of a state; the callbacks that are left out are empty.
abbrev pub entry : {W : Type 0} → Option (Action W) → StateActions W
entry a = record no_actions { entry_action = a }

abbrev pub on : {W : Type 0} → Event → Transition W
on e = record no_transition { event = some e }

-- createInternalTransition; its state is both ends.
abbrev pub internal : {W : Type 0} → Event → Transition W
internal e = record (on e) { is_internal = true }

-- The calls of the factories in `main`, on the chart under construction; none if one of them throws.
abbrev pub Make : Type 0 → Type 0 → Type 0
Make W A = Builder W → Option (A × Builder W)

module _ {W : Type 0} where
  abbrev pub pass_on :
      {A B : Type 0} → Option (A × Builder W) → (A → Make W B) → Option (B × Builder W)
  pass_on none f = none
  pass_on (some (a, b)) f = f a b

  infixl 5 ◌>>=◌ ◌>>◌
  abbrev pub ◌>>=◌ : {A B : Type 0} → Make W A → (A → Make W B) → Make W B
  ◌>>=◌ m f b = pass_on (m b) f

  abbrev pub ◌>>◌ : {A B : Type 0} → Make W A → Make W B → Make W B
  ◌>>◌ m k b = pass_on (m b) (λ _. k)

  -- The chart that was built; the one that it began with if an exception was thrown.
  abbrev pub built : {A : Type 0} → Builder W → Option (A × Builder W) → Chart W
  built b none = b.chart
  built b (some (a, b')) = b'.chart

-- A name under which the proofs about the programs open the factories.
unfoldable pub making : Unit {0}
unfolding Names.is_taken Paths.parent Paths.path_from StateSets.path_to StateSets.common
    StateSets.lca StateSets.insert_all StateSets.state_set StateSets.calculate_state_set
    Building.new_statechart Building.register Building.place Building.create Building.add_transition
    Building.link_start Building.link_end Building.attach Building.create_transition
    Building.create_condition Building.set_infinite_loop_threshold
making = tt
