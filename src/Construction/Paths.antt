-- ===== src/Construction/Paths.antt =====
-- The walks from a state up to the root: the two loops at the head of Transition::calculateStateSet
-- in src/Transition.cpp, and that of Statechart::restoreState in src/Statechart.cpp.
use cpp_statecharts.Base.{
  ℕ, zero, suc, ◌<◌, ◌≡◌, ap, ◌∙◌, sym, Bool, Option, none, some, List, [], ◌∷◌, ◌++◌,
  if◌then◌else◌, arith, Option-cases, inl, inr, append_assoc, append-nil,
}
use cpp_statecharts.Structure.{States}

-- The parent that the walk goes on to: the context, unless the walk stops below it.
unfoldable pub parent : States → (ℕ → Bool) → ℕ → Option ℕ
parent states stops s = elim (states s).context [
  | none ↦ none
  | some p ↦ if stops p then none else some p
]

-- The states from the outermost one down to the given one, with what was found below it. None if
-- the walk is longer than the bound.
unfoldable pub path_from : ℕ → States → (ℕ → Bool) → ℕ → List ℕ → Option (List ℕ)
path_from zero states stops s below = none
path_from (suc n) states stops s below = elim (parent states stops s) [
  | none ↦ some (s ∷ below)
  | some p ↦ path_from n states stops p (s ∷ below)
]

module _ (states : States) (stops : ℕ → Bool) where
  -- The list is the path down to the state: it begins where no walk goes on, and each state on it
  -- is the parent of the next one.
  pub data PathTo : ℕ → List ℕ → Type 0 where
    top : {s : ℕ} → parent states stops s ≡ none → PathTo s (s ∷ [])
    down :
        {s p : ℕ} {above : List ℕ}
        → parent states stops s ≡ some p
        → PathTo p above
        → PathTo s (above ++ (s ∷ []))

  -- A rank that grows on the way down, as the depth of a state in the tree of contexts does.
  abbrev pub IsDepth : (ℕ → ℕ) → Type 0
  IsDepth depth = (s p : ℕ) → (states s).context ≡ some p → depth p < depth s

  parent_context : (s p : ℕ) → parent states stops s ≡ some p → (states s).context ≡ some p
  unfolding parent
  parent_context s p h = ground arith

  path_from_found :
      (depth : ℕ → ℕ) (n s : ℕ) (below : List ℕ)
      → IsDepth depth
      → depth s < n
      → (path : List ℕ) × (path_from n states stops s below ≡ some (path ++ below)) × PathTo s path
  unfolding path_from
  path_from_found depth zero s below d h = elim h [ ]
  path_from_found depth (suc n) s below d h = elim (Option-cases (parent states stops s)) [
    | inl e ↦ (s ∷ [], rw (e, path_from), top e)
    | inr (p, e) ↦
        let (path, found, is_path) =
          path_from_found depth n p (s ∷ below) d (omega (arith, d s p (parent_context s p e))) in
        (
          path ++ (s ∷ []),
          rw (e, path_from) (found ∙ ap some (sym (append_assoc path (s ∷ []) below))),
          down e is_path,
        )
  ]

  -- In a tree of contexts a walk ends within the depth of its state, and yields its path.
  pub path_from-PathTo :
      (depth : ℕ → ℕ) (n s : ℕ)
      → IsDepth depth
      → depth s < n
      → (path : List ℕ) × (path_from n states stops s [] ≡ some path) × PathTo s path
  path_from-PathTo depth n s d h =
      let (path, found, is_path) = path_from_found depth n s [] d h in
      (path, found ∙ ap some (append-nil path), is_path)
