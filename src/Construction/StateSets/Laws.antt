-- ===== src/Construction/StateSets/Laws.antt =====
-- What the lists of Transition::calculateStateSet in src/Transition.cpp contain.
use mathlib.Core.List.{reverse-reverse}
use cpp_statecharts.Base.{
  ℕ, ◌-◌, ◌<◌, ◌≡◌, ◌≢◌, refl, ap, ◌∙◌, sym, subst, Bool, true, false, some, List, [], ◌∷◌, ◌++◌,
  reverse, reverse-cons, append_assoc, append-nil, ◌==◌, ==_iff, ptr_eq, length, drop, take,
  take-append-drop, length-append, arith, Bool-cases, inl, inr,
}
use cpp_statecharts.Structure.{States, is_statechart}
use cpp_statecharts.Construction.Paths.{PathTo, top, down, IsDepth, path_from-PathTo}
use cpp_statecharts.Construction.StateSets.{
  StateSet, common, min_size, lca, insert_all, state_set, path_to, calculate_state_set,
}

insert_all-reverse : (xs acc : List ℕ) → insert_all xs acc ≡ reverse xs ++ acc
unfolding insert_all
insert_all-reverse [] acc = refl
insert_all-reverse (x ∷ xs) acc =
    insert_all-reverse xs (x ∷ acc)
    ∙ sym (append_assoc (reverse xs) (x ∷ []) acc)
    ∙ ap (λ l. l ++ acc) (sym (reverse-cons x xs))

-- Two paths have gone apart: one of them has ended, or they go on with different states.
abbrev pub Diverged : List ℕ → List ℕ → Type 0
Diverged [] ys = Unit
Diverged (x ∷ xs) [] = Unit
Diverged (x ∷ xs) (y ∷ ys) = x ≢ y

common-take :
    (xs ys : List ℕ)
    → (take (common xs ys) xs ≡ take (common xs ys) ys)
      × Diverged (drop (common xs ys) xs) (drop (common xs ys) ys)
unfolding common
common-take [] ys = (refl, tt)
common-take (x ∷ xs) [] = (refl, tt)
common-take (x ∷ xs) (y ∷ ys) = elim (Bool-cases (x == y)) [
  | inl e ↦
      let (same, apart) = common-take xs ys in rw e ((λ i. ((==_iff x y).0 e) i ∷ same i), apart)
  | inr e ↦ rw e (refl, λ h. cc ((==_iff x y).1 h))
]

-- The paths from the root split into what the lists leave alone, which is common to both, and the
-- lists, the first of which is in reverse.
pub record Splits (deactivate activate : List ℕ) (set : StateSet) : Type 0 where
  pub above : List ℕ
  pub left : deactivate ≡ above ++ reverse set.deactivate
  pub entered : activate ≡ above ++ set.activate
  pub apart : Diverged set.activate (reverse set.deactivate)

reverse-insert_all : (xs : List ℕ) → reverse (insert_all xs []) ≡ xs
reverse-insert_all xs =
    ap reverse (insert_all-reverse xs [] ∙ append-nil (reverse xs)) ∙ reverse-reverse xs

state_set-Splits :
    (deactivate activate : List ℕ)
    → Splits deactivate activate (state_set false deactivate activate)
unfolding state_set lca
state_set-Splits ds as' =
    let n = common as' ds in
    let (same, apart) = common-take as' ds in
    record {
      above = take n ds;
      left =
          sym (take-append-drop n ds)
          ∙ ap (◌++◌ (take n ds)) (sym (reverse-insert_all (drop n ds)));
      entered = sym (take-append-drop n as') ∙ ap (λ l. l ++ drop n as') same;
      apart = subst (Diverged (drop n as')) (sym (reverse-insert_all (drop n ds))) apart;
    }

drop-append : (xs ys : List ℕ) → drop (length xs) (xs ++ ys) ≡ ys
drop-append [] ys = refl
drop-append (x ∷ xs) ys = drop-append xs ys

drop-last : (xs : List ℕ) (x : ℕ) → drop (length (xs ++ (x ∷ [])) - 1) (xs ++ (x ∷ [])) ≡ x ∷ []
drop-last xs x =
    let size : length (xs ++ (x ∷ [])) - 1 ≡ length xs = omega (arith, length-append xs (x ∷ [])) in
    rw size (drop-append xs (x ∷ []))

min_size_self : (xs : List ℕ) → min_size xs xs ≡ length xs
min_size_self xs = ground arith

-- The lists of a transition from a state to itself.
abbrev pub self_set : ℕ → StateSet
self_set s = record { deactivate = s ∷ []; activate = s ∷ [] }

state_set_last :
    (xs : List ℕ) (s : ℕ) → state_set true (xs ++ (s ∷ [])) (xs ++ (s ∷ [])) ≡ self_set s
unfolding state_set lca insert_all
state_set_last xs s = rw (min_size_self (xs ++ (s ∷ [])), drop-last xs s) refl

state_set_self :
    {states : States} {stops : ℕ → Bool} {s : ℕ} {path : List ℕ}
    → PathTo states stops s path
    → state_set true path path ≡ self_set s
state_set_self (top {s = s} h) = state_set_last [] s
state_set_self (down {s = s} {above = above} h p) = state_set_last above s

abbrev pub below_chart : States → ℕ → Bool
below_chart states p = is_statechart (states p).kind

ptr_eq_ne : (s t : ℕ) → s ≢ t → ptr_eq (some s) (some t) ≡ false
ptr_eq_ne s t h = ground arith

-- In a tree of contexts the computation ends within the depth of the two states. If they are not
-- one and the same, the paths down to them split into the common ancestors, which the lists leave
-- alone, then the states to leave, innermost first, and the states to enter, outermost first;
-- below the common ancestors the paths have gone apart.
pub calculate_state_set-Splits :
    (states : States) (depth : ℕ → ℕ) (fuel s t : ℕ)
    → IsDepth states (below_chart states) depth
    → depth s < fuel
    → depth t < fuel
    → s ≢ t
    → (set : StateSet) × (deactivate : List ℕ) × (activate : List ℕ) × (calculate_state_set fuel
          states
          (some s)
          (some t)
        ≡ some set)
      × PathTo states (below_chart states) s deactivate
      × PathTo states (below_chart states) t activate
      × Splits deactivate activate set
unfolding calculate_state_set path_to
calculate_state_set-Splits states depth fuel s t d hs ht ne =
    let (ds, found_s, path_s) = path_from-PathTo states (below_chart states) depth fuel s d hs in
    let (as', found_t, path_t) = path_from-PathTo states (below_chart states) depth fuel t d ht in
    (
      state_set false ds as',
      ds,
      as',
      rw (ptr_eq_ne s t ne, found_s, found_t) refl,
      path_s,
      path_t,
      state_set-Splits ds as',
    )

ptr_eq_self : (s : ℕ) → ptr_eq (some s) (some s) ≡ true
ptr_eq_self s = ground arith

-- A transition from a state to itself leaves and enters that state alone, however deep it lies.
pub calculate_state_set_self :
    (states : States) (depth : ℕ → ℕ) (fuel s : ℕ)
    → IsDepth states (below_chart states) depth
    → depth s < fuel
    → calculate_state_set fuel states (some s) (some s) ≡ some (self_set s)
unfolding calculate_state_set path_to
calculate_state_set_self states depth fuel s d h =
    let (path, found, is_path) = path_from-PathTo states (below_chart states) depth fuel s d h in
    rw (ptr_eq_self s, found) (ap some (state_set_self is_path))
