-- ===== src/Runtime.antt =====
-- The run-time state of a dispatch and the effects of the code that changes it. A method of the
-- source that takes `Metadata& p_data, Parameter& p_param` is a function from a run to an outcome.
pub mod Rules
pub mod Bounds
pub mod Posts
use cpp_statecharts.Base.{
  ℕ, ◌+◌, Bool, true, false, Option, none, some, List, [], ◌∷◌, if◌then◌else◌, ◌==◌,
}
use cpp_statecharts.Metadata.{StateRuntimedata, Metadata, get_data, modify_data}
use cpp_statecharts.Metadata
use cpp_statecharts.Entries.{Scheduler}

-- What may be thrown: a StatechartException, an InfiniteLoopException, or what a client's callback
-- throws.
pub data Error : Type 0 where
  statechart_exception infinite_loop : Error
  client_exception : ℕ → Error

-- What the callbacks of the client reach besides the metadata is the type `W`: the parameter of
-- the dispatch, and the rest of the client's program. `clock` gives the readings of the steady
-- clock, and `reads` counts those that were taken.
pub record Run (W : Type 0) : Type 0 where
  pub meta : Metadata
  pub scheduler : Scheduler
  pub world : W
  pub clock : ℕ → ℕ
  pub reads : ℕ

-- A value, an exception with the run as it stood, an access through a dangling pointer, or the end
-- of the fuel that bounds how deep the model follows virtual calls.
pub data Outcome (S A : Type 0) : Type 0 where
  done : A → S → Outcome S A
  thrown : Error → S → Outcome S A
  fault : Outcome S A
  out_of_fuel : Outcome S A

abbrev pub M : Type 0 → Type 0 → Type 0
M W A = Run W → Outcome (Run W) A

module _ {W : Type 0} where
  abbrev pub pure : {A : Type 0} → A → M W A
  pure a r = done a r

  abbrev pub bind_outcome : {A B : Type 0} → Outcome (Run W) A → (A → M W B) → Outcome (Run W) B
  bind_outcome (done a r) f = f a r
  bind_outcome (thrown e r) f = thrown e r
  bind_outcome fault f = fault
  bind_outcome out_of_fuel f = out_of_fuel

  infixl 5 ◌>>=◌ ◌>>◌
  abbrev pub ◌>>=◌ : {A B : Type 0} → M W A → (A → M W B) → M W B
  ◌>>=◌ m f r = bind_outcome (m r) f

  abbrev pub ◌>>◌ : {A B : Type 0} → M W A → M W B → M W B
  ◌>>◌ m k r = bind_outcome (m r) (λ _. k)

  abbrev pub throw : {A : Type 0} → Error → M W A
  throw e r = thrown e r

  -- A computation of bounded depth that may have met the bound.
  abbrev pub bounded : {A : Type 0} → Option A → M W A
  bounded none r = out_of_fuel
  bounded (some a) r = done a r

  abbrev pub gets : {A : Type 0} → (Metadata → A) → M W A
  gets f r = done (f r.meta) r

  abbrev pub modify : (Metadata → Metadata) → M W (Unit {0})
  modify f r = done tt (record r { meta = f r.meta })

  abbrev pub schedule : {A : Type 0} → (Scheduler → A × Scheduler) → M W A
  schedule f r = let (a, q) = f r.scheduler in done a (record r { scheduler = q })

  -- std::chrono::steady_clock::now().
  abbrev pub now : M W ℕ
  now r = done (r.clock r.reads) (record r { reads = r.reads + 1 })

  unfoldable pub for_each : {A : Type 0} → List A → (A → M W (Unit {0})) → M W (Unit {0})
  for_each [] f = pure tt
  for_each (x ∷ xs) f = f x >> for_each xs f

  -- A loop that returns true at the first element for which the body does.
  unfoldable pub first_true : {A : Type 0} → List A → (A → M W Bool) → M W Bool
  first_true [] f = pure false
  first_true (x ∷ xs) f = f x >>= λ b. if b then pure true else first_true xs f

-- The address that a pointer to a state's runtime data holds, null if there are none.
abbrev pub address_of : Option StateRuntimedata → Option ℕ
address_of none = none
address_of (some r) = some r.address

-- The object behind a pointer, if it still lives.
abbrev pub deref_data : ℕ → Option StateRuntimedata → Option StateRuntimedata
deref_data address none = none
deref_data address (some r) = if r.address == address then some r else none

module _ {W : Type 0} where
  -- Metadata::getData, as the pointer it returns.
  abbrev pub pointer : ℕ → M W (Option ℕ)
  pointer s = gets (λ d. address_of (get_data s d))

  abbrev pub or_fault : {A : Type 0} → Option A → M W A
  or_fault none r = fault
  or_fault (some a) r = done a r

  -- A read through a pointer to the runtime data of the state that was taken earlier.
  abbrev pub read_at : ℕ → ℕ → M W StateRuntimedata
  read_at s address r = or_fault (deref_data address (get_data s r.meta)) r

  -- A write through such a pointer.
  abbrev pub write_at : ℕ → ℕ → (StateRuntimedata → StateRuntimedata) → M W (Unit {0})
  write_at s address f = read_at s address >>= λ _. modify (modify_data s f)
