-- ===== src/Construction/StateSets.antt =====
-- Transition::calculateStateSet of src/Transition.cpp: the states to leave and to enter.
pub mod Laws
use cpp_statecharts.Base.{
  ℕ, zero, suc, ◌-◌, ◌≤◌, ◌<◌, ◌≡◌, ◌≢◌, refl, ap, ◌∙◌, sym, subst, Bool, true, false, Option, none,
  some, List, [], ◌∷◌, ◌++◌, reverse, reverse-cons, append_assoc, append-nil, if◌then◌else◌, ◌==◌,
  ==_iff, ptr_eq, ltb, length, drop, take, arith,
}
use cpp_statecharts.Structure.{State, States, is_statechart}
use cpp_statecharts.Construction.Paths.{
  path_from, PathTo, top, down, IsDepth, path_from-PathTo, parent,
}

-- The lists `m_deactivate` and `m_activate` of a transition.
pub record StateSet : Type 0 where
  pub deactivate : List ℕ
  pub activate : List ℕ

-- The loop that counts the states which the two paths have in common at their heads.
unfoldable pub common : List ℕ → List ℕ → ℕ
common [] ys = 0
common (x ∷ xs) [] = 0
common (x ∷ xs) (y ∷ ys) = let rest = common xs ys in if x == y then suc rest else 0

abbrev pub min_size : List ℕ → List ℕ → ℕ
min_size xs ys = if ltb (length xs) (length ys) then length xs else length ys

-- The number of common ancestors that stay active. For a transition from a state to itself it is
-- one less than the path, so that the state itself is left and entered again.
unfoldable pub lca : Bool → List ℕ → List ℕ → ℕ
lca same activate deactivate =
    if same then min_size activate deactivate - 1 else common activate deactivate

-- `p_deactivate.insert(p_deactivate.begin(), …)` for each element in turn.
unfoldable pub insert_all : List ℕ → List ℕ → List ℕ
insert_all [] acc = acc
insert_all (x ∷ xs) acc = insert_all xs (x ∷ acc)

-- The two lists from the paths down to the start and to the end of the transition.
unfoldable pub state_set : Bool → List ℕ → List ℕ → StateSet
state_set same deactivate activate = record {
  deactivate = insert_all (drop (lca same activate deactivate) deactivate) [];
  activate = drop (lca same activate deactivate) activate;
}

-- The path down to a state that may be null, below the statechart object.
unfoldable pub path_to : ℕ → States → Option ℕ → Option (List ℕ)
path_to fuel states none = some []
path_to fuel states (some s) = path_from fuel states (λ p. is_statechart (states p).kind) s []

abbrev pub join_paths : Bool → Option (List ℕ) → Option (List ℕ) → Option StateSet
join_paths same none activate = none
join_paths same (some deactivate) none = none
join_paths same (some deactivate) (some activate) = some (state_set same deactivate activate)

-- Transition::calculateStateSet, with walks up to the given length.
unfoldable pub calculate_state_set : ℕ → States → Option ℕ → Option ℕ → Option StateSet
calculate_state_set fuel states start end =
    join_paths (ptr_eq start end) (path_to fuel states start) (path_to fuel states end)
