-- ===== src/Runtime/Rules.antt =====
-- A logic for the effects of Runtime: what holds of every run in which a computation may end.
use cpp_statecharts.Base.{ℕ, Bool, true, false, Option, none, some, List, [], ◌∷◌, if◌then◌else◌}
use cpp_statecharts.Metadata.{StateRuntimedata, Metadata, get_data, modify_data}
use cpp_statecharts.Runtime.{
  Run, Outcome, done, thrown, fault, out_of_fuel, M, pure, bind_outcome, ◌>>=◌, ◌>>◌, throw,
  bounded, gets, modify, for_each, first_true, Error, deref_data, or_fault, pointer, read_at,
  write_at,
}

-- The predicate holds of the run in which the outcome ends, by a return or by an exception.
abbrev pub Ensures : {S A : Type 0} → (S → Type 0) → Outcome S A → Type 0
Ensures I (done a r) = I r
Ensures I (thrown e r) = I r
Ensures I fault = Unit
Ensures I out_of_fuel = Unit

-- A computation that keeps an invariant of runs.
pub record Keeps {W A : Type 0} (I : Run W → Type 0) (m : M W A) : Type 0 where
  pub keeps : (r : Run W) → I r → Ensures I (m r)

module _ {W : Type 0} (I : Run W → Type 0) where
  Ensures-bind :
      {A B : Type 0} (o : Outcome (Run W) A) (f : A → M W B)
      → Ensures I o
      → ((a : A) → Keeps I (f a))
      → Ensures I (bind_outcome o f)
  Ensures-bind (done a r) f h k = (k a).keeps r h
  Ensures-bind (thrown e r) f h k = h
  Ensures-bind fault f h k = tt
  Ensures-bind out_of_fuel f h k = tt

  pub Keeps-bind :
      {A B : Type 0} {m : M W A} {f : A → M W B}
      → Keeps I m
      → ((a : A) → Keeps I (f a))
      → Keeps I (m >>= f)
  Keeps-bind {m = m} {f = f} h k = record { keeps = λ r i. Ensures-bind (m r) f (h.keeps r i) k }

  pub Keeps-then : {A B : Type 0} {m : M W A} {n : M W B} → Keeps I m → Keeps I n → Keeps I (m >> n)
  Keeps-then {m = m} {n = n} h k = record {
    keeps = λ r i. Ensures-bind (m r) (λ _. n) (h.keeps r i) (λ _. k);
  }

  pub Keeps-pure : {A : Type 0} (a : A) → Keeps I (pure a)
  Keeps-pure a = record { keeps = λ r i. i }

  pub Keeps-throw : {A : Type 0} (e : Error) → Keeps I (throw {A = A} e)
  Keeps-throw e = record { keeps = λ r i. i }

  pub Keeps-gets : {A : Type 0} (f : Metadata → A) → Keeps I (gets f)
  Keeps-gets f = record { keeps = λ r i. i }

  pub Keeps-pointer : (s : ℕ) → Keeps I (pointer s)
  Keeps-pointer s = record { keeps = λ r i. i }

  bounded_ends : {A : Type 0} (o : Option A) (r : Run W) → I r → Ensures I (bounded o r)
  bounded_ends none r i = tt
  bounded_ends (some a) r i = i

  pub Keeps-bounded : {A : Type 0} (f : Run W → Option A) → Keeps I (λ r. bounded (f r) r)
  Keeps-bounded f = record { keeps = λ r i. bounded_ends (f r) r i }

  pub Keeps-if :
      {A : Type 0} (b : Bool) {m n : M W A} → Keeps I m → Keeps I n → Keeps I (if b then m else n)
  Keeps-if true h k = h
  Keeps-if false h k = k

  pub Keeps-for_each :
      {A : Type 0} (xs : List A) {f : A → M W (Unit {0})}
      → ((a : A) → Keeps I (f a))
      → Keeps I (for_each xs f)
  unfolding for_each
  Keeps-for_each [] h = Keeps-pure tt
  Keeps-for_each (x ∷ xs) h = Keeps-then (h x) (Keeps-for_each xs h)

  pub Keeps-first_true :
      {A : Type 0} (xs : List A) {f : A → M W Bool}
      → ((a : A) → Keeps I (f a))
      → Keeps I (first_true xs f)
  unfolding first_true
  Keeps-first_true [] h = Keeps-pure false
  Keeps-first_true (x ∷ xs) h =
      Keeps-bind (h x) (λ b. Keeps-if b (Keeps-pure true) (Keeps-first_true xs h))

  or_fault_ends : {A : Type 0} (o : Option A) (r : Run W) → I r → Ensures I (or_fault o r)
  or_fault_ends none r i = tt
  or_fault_ends (some a) r i = i

  pub Keeps-read_at : (s address : ℕ) → Keeps I (read_at s address)
  Keeps-read_at s address = record {
    keeps = λ r i. or_fault_ends (deref_data address (get_data s r.meta)) r i;
  }

  pub Keeps-modify :
      (f : Metadata → Metadata)
      → ((r : Run W) → I r → I (record r { meta = f r.meta }))
      → Keeps I (modify f)
  Keeps-modify f h = record { keeps = h }

  pub Keeps-write_at :
      (s address : ℕ) (f : StateRuntimedata → StateRuntimedata)
      → ((r : Run W) → I r → I (record r { meta = modify_data s f r.meta }))
      → Keeps I (write_at s address f)
  Keeps-write_at s address f h =
      Keeps-bind (Keeps-read_at s address) (λ _. Keeps-modify (modify_data s f) h)
