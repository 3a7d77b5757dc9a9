-- ===== src/Construction/Names.antt =====
-- The table `m_states` of include/CppStatecharts/Statechart.hpp: the states by their names.
use cpp_statecharts.Base.{
  ℕ, ◌≡◌, refl, String, Bool, false, ◌||◌, Option, none, some, List, [], ◌∷◌, if◌then◌else◌,
  is_some, arith,
}
use text.Mathlib.Text.{◌==◌ as str_eq}

unfoldable pub name_lookup : String → List (String × ℕ) → Option ℕ
name_lookup n [] = none
name_lookup n ((m, s) ∷ rest) = if str_eq m n then some s else name_lookup n rest

unfoldable pub is_taken : String → List (String × ℕ) → Bool
is_taken n [] = false
is_taken n ((m, s) ∷ rest) = str_eq m n || is_taken n rest

pub is_taken-name_lookup :
    (n : String) (names : List (String × ℕ)) → is_taken n names ≡ is_some (name_lookup n names)
unfolding is_taken name_lookup
is_taken-name_lookup n [] = refl
is_taken-name_lookup n ((m, s) ∷ rest) = ground (arith, is_taken-name_lookup n rest)
