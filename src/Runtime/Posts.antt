-- ===== src/Runtime/Posts.antt =====
-- What holds of the run in which a computation of Runtime returns.
use cpp_statecharts.Runtime.{Run, Outcome, done, thrown, fault, out_of_fuel, M, bind_outcome}
use cpp_statecharts.Runtime.Rules.{Ensures}

-- The predicate holds of the run in which the outcome returns, if it returns.
abbrev pub Post : {W A : Type 0} → (Run W → Type 0) → Outcome (Run W) A → Type 0
Post P (done a r) = P r
Post P (thrown e r) = Unit
Post P fault = Unit
Post P out_of_fuel = Unit

pub Post-bind :
    {W A B : Type 0} (P Q : Run W → Type 0) (o : Outcome (Run W) A) (f : A → M W B)
    → Post Q o
    → ((a : A) (r : Run W) → Q r → Post P (f a r))
    → Post P (bind_outcome o f)
Post-bind P Q (done a r) f h k = k a r h
Post-bind P Q (thrown e r) f h k = tt
Post-bind P Q fault f h k = tt
Post-bind P Q out_of_fuel f h k = tt

-- What holds whatever the run before.
pub Post-after :
    {W A B : Type 0} (P : Run W → Type 0) (o : Outcome (Run W) A) (f : A → M W B)
    → ((a : A) (r : Run W) → Post P (f a r))
    → Post P (bind_outcome o f)
Post-after P (done a r) f k = k a r
Post-after P (thrown e r) f k = tt
Post-after P fault f k = tt
Post-after P out_of_fuel f k = tt

pub Ensures-Post :
    {W A : Type 0} (P : Run W → Type 0) (o : Outcome (Run W) A) → Ensures P o → Post P o
Ensures-Post P (done a r) h = h
Ensures-Post P (thrown e r) h = tt
Ensures-Post P fault h = tt
Ensures-Post P out_of_fuel h = tt
