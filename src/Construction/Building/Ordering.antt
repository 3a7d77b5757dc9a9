-- ===== src/Construction/Building/Ordering.antt =====
-- State::addTransition of src/State.cpp: the order in which a state tries its transitions.
use mathlib.Core.List.{reverse-cons}
use cpp_statecharts.Base.{
  ℕ, ◌≡◌, sym, ap, ◌∙◌, Bool, true, false, List, [], ◌∷◌, ◌++◌, reverse, append_assoc, append-nil,
}
use cpp_statecharts.Construction.Building.{add_transition}

-- The transitions that are added to a state, first to last, with whether each has a guard.
unfoldable pub add_all : List (ℕ × Bool) → List ℕ → List ℕ
add_all [] ts = ts
add_all ((t, guarded) ∷ rest) ts = add_all rest (add_transition t guarded ts)

abbrev pub with_guard : List (ℕ × Bool) → List ℕ
with_guard [] = []
with_guard ((t, true) ∷ rest) = t ∷ with_guard rest
with_guard ((t, false) ∷ rest) = with_guard rest

abbrev pub without_guard : List (ℕ × Bool) → List ℕ
without_guard [] = []
without_guard ((t, true) ∷ rest) = without_guard rest
without_guard ((t, false) ∷ rest) = t ∷ without_guard rest

add_all_from :
    (added : List (ℕ × Bool)) (ts : List ℕ)
    → add_all added ts ≡ reverse (with_guard added) ++ (ts ++ without_guard added)
unfolding add_all add_transition
add_all_from [] ts = sym (append-nil ts)
add_all_from ((t, true) ∷ rest) ts =
    add_all_from rest (t ∷ ts)
    ∙ sym (append_assoc (reverse (with_guard rest)) (t ∷ []) (ts ++ without_guard rest))
    ∙ ap (λ l. l ++ (ts ++ without_guard rest)) (sym (reverse-cons t (with_guard rest)))
add_all_from ((t, false) ∷ rest) ts =
    add_all_from rest (ts ++ (t ∷ []))
    ∙ ap (◌++◌ (reverse (with_guard rest))) (append_assoc ts (t ∷ []) (without_guard rest))

-- Whatever the order in which transitions are added to a new state, it tries those with a guard
-- first, the last added of them first of all, and then those without one in the order of addition.
pub add_all_order :
    (added : List (ℕ × Bool)) → add_all added [] ≡ reverse (with_guard added) ++ without_guard added
add_all_order added = add_all_from added []
