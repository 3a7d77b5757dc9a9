-- ===== src/Runtime/Bounds.antt =====
-- A logic for the effects of Runtime: computations for which the fuel is enough.
use cpp_statecharts.Base.{
  ℕ, Bool, true, false, Option, none, some, List, [], ◌∷◌, if◌then◌else◌, All, ◌≡◌, refl, arith,
}
use cpp_statecharts.Metadata.{StateRuntimedata, Metadata, get_data, modify_data}
use cpp_statecharts.Runtime.{
  Run, Outcome, done, thrown, fault, out_of_fuel, M, pure, bind_outcome, ◌>>=◌, ◌>>◌, gets, modify,
  for_each, deref_data, or_fault, read_at, write_at,
}

-- The outcome is not the end of the fuel, and the predicate holds of the run in which it ends.
abbrev pub Ends : {S A : Type 0} → (S → Type 0) → Outcome S A → Type 0
Ends I (done a r) = I r
Ends I (thrown e r) = I r
Ends I fault = Unit
Ends I out_of_fuel = ⊥

-- A computation that ends and keeps an invariant of runs.
pub record Terminates {W A : Type 0} (I : Run W → Type 0) (m : M W A) : Type 0 where
  pub ends : (r : Run W) → I r → Ends I (m r)

module _ {W : Type 0} (I : Run W → Type 0) where
  pub Ends-bind :
      {A B : Type 0} (o : Outcome (Run W) A) (f : A → M W B)
      → Ends I o
      → ((a : A) (r : Run W) → o ≡ done a r → I r → Ends I (f a r))
      → Ends I (bind_outcome o f)
  Ends-bind (done a r) f h k = k a r refl h
  Ends-bind (thrown e r) f h k = h
  Ends-bind fault f h k = tt
  Ends-bind out_of_fuel f h k = absurd h

  pub Terminates-bind :
      {A B : Type 0} {m : M W A} {f : A → M W B}
      → Terminates I m
      → ((a : A) → Terminates I (f a))
      → Terminates I (m >>= f)
  Terminates-bind {m = m} {f = f} h k = record {
    ends = λ r i. Ends-bind (m r) f (h.ends r i) (λ a s e j. (k a).ends s j);
  }

  pub Terminates-then :
      {A B : Type 0} {m : M W A} {n : M W B}
      → Terminates I m
      → Terminates I n
      → Terminates I (m >> n)
  Terminates-then {m = m} {n = n} h k = record {
    ends = λ r i. Ends-bind (m r) (λ _. n) (h.ends r i) (λ a s e j. k.ends s j);
  }

  pub Terminates-pure : {A : Type 0} (a : A) → Terminates I (pure a)
  Terminates-pure a = record { ends = λ r i. i }

  -- What is read from the metadata may be used for what follows.
  pub Terminates-gets :
      {A B : Type 0} (g : Metadata → A) (f : A → M W B)
      → ((r : Run W) → I r → Ends I (f (g r.meta) r))
      → Terminates I (gets g >>= f)
  Terminates-gets g f k = record { ends = k }

  pub Terminates-if :
      {A : Type 0} (b : Bool) {m n : M W A}
      → Terminates I m
      → Terminates I n
      → Terminates I (if b then m else n)
  Terminates-if true h k = h
  Terminates-if false h k = k

  pub Terminates-for_each :
      {A : Type 0} (xs : List A) (f : A → M W (Unit {0}))
      → All (λ a. Terminates I (f a)) xs
      → Terminates I (for_each xs f)
  unfolding for_each
  Terminates-for_each [] f h = Terminates-pure tt
  Terminates-for_each (x ∷ xs) f h = Terminates-then h.0 (Terminates-for_each xs f h.1)

  pub Terminates-modify :
      (f : Metadata → Metadata)
      → ((r : Run W) → I r → I (record r { meta = f r.meta }))
      → Terminates I (modify f)
  Terminates-modify f h = record { ends = h }

  deref_known :
      (address : ℕ) (o : Option StateRuntimedata) (d : StateRuntimedata)
      → deref_data address o ≡ some d
      → o ≡ some d
  deref_known address none d h = cc
  deref_known address (some r) d h = ground arith

  or_fault-Ends :
      {B : Type 0} (o : Option StateRuntimedata) (f : StateRuntimedata → M W B) (r : Run W)
      → ((d : StateRuntimedata) → o ≡ some d → Ends I (f d r))
      → Ends I (bind_outcome (or_fault o r) f)
  or_fault-Ends none f r k = tt
  or_fault-Ends (some d) f r k = k d refl

  -- A read through a pointer yields the runtime data that the table holds.
  pub Terminates-read_at :
      {B : Type 0} (s address : ℕ) (f : StateRuntimedata → M W B)
      → ((d : StateRuntimedata) (r : Run W) → get_data s r.meta ≡ some d → I r → Ends I (f d r))
      → Terminates I (read_at s address >>= f)
  Terminates-read_at s address f k = record {
    ends = λ r i.
        or_fault-Ends (deref_data address (get_data s r.meta)) f r
          (λ d e. k d r (deref_known address (get_data s r.meta) d e) i);
  }

  pub Terminates-write_at :
      (s address : ℕ) (f : StateRuntimedata → StateRuntimedata)
      → ((r : Run W) → I r → I (record r { meta = modify_data s f r.meta }))
      → Terminates I (write_at s address f)
  Terminates-write_at s address f h =
      Terminates-read_at s address (λ _. modify (modify_data s f)) (λ d r e i. h r i)
