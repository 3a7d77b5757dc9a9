-- ===== src/Metadata/Table.antt =====
-- The table `m_activeStates` of include/CppStatecharts/Metadata.hpp: an unordered map, as a list of
-- keys with their values. No key is listed twice by the operations of the source.
use mathlib.Core.Option
use cpp_statecharts.Base.{
  ℕ, ◌≡◌, refl, ◌==◌, Option, none, some, List, [], ◌∷◌, map, if◌then◌else◌, arith,
}

module _ {ℓ} {V : Type ℓ} where
  unfoldable pub find : ℕ → List (ℕ × V) → Option V
  find k [] = none
  find k ((j, v) ∷ m) = if j == k then some v else find k m

  unfoldable pub modify : ℕ → (V → V) → List (ℕ × V) → List (ℕ × V)
  modify k f [] = []
  modify k f ((j, v) ∷ m) = (j, if j == k then f v else v) ∷ modify k f m

  unfoldable pub erase : ℕ → List (ℕ × V) → List (ℕ × V)
  erase k [] = []
  erase k ((j, v) ∷ m) = let rest = erase k m in if j == k then rest else (j, v) ∷ rest

  abbrev pub keys : List (ℕ × V) → List ℕ
  keys = map (λ e. e.0)

  pub find-modify :
      (k j : ℕ) (f : V → V) (m : List (ℕ × V))
      → find j (modify k f m) ≡ (if k == j then Option.map f (find j m) else find j m)
  unfolding find modify
  find-modify k j f [] = ground arith
  find-modify k j f ((i, v) ∷ m) = ground (arith, find-modify k j f m)

  pub find-erase :
      (k j : ℕ) (m : List (ℕ × V)) → find j (erase k m) ≡ (if k == j then none else find j m)
  unfolding find erase
  find-erase k j [] = ground arith
  find-erase k j ((i, v) ∷ m) = ground (arith, find-erase k j m)

  pub keys-modify : (k : ℕ) (f : V → V) (m : List (ℕ × V)) → keys (modify k f m) ≡ keys m
  unfolding modify
  keys-modify k f [] = refl
  keys-modify k f ((j, v) ∷ m) = λ i. j ∷ keys-modify k f m i
