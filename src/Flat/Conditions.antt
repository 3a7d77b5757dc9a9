-- ===== src/Flat/Conditions.antt =====
-- Conditions on the single edges of a machine under which its steps keep a predicate and come to an
-- end.
use cpp_statecharts.Base.{
  ℕ, ◌<◌, ◌≡◌, refl, Bool, true, false, ◌&&◌, Option, none, some, List, [], ◌∷◌, arith, All,
  contains, Bool-cases, inl, inr,
}
use cpp_statecharts.Event.{Event}
use cpp_statecharts.Flat.Machine.{
  Machine, Edge, accepts, leads_on, ready, pick, follow, moved, step,
}
use cpp_statecharts.Flat.Choosing.{member_holds}

both_left : (a b : Bool) → (a && b) ≡ true → a ≡ true
both_left true b h = refl
both_left false b h = h

both_right : (a b : Bool) → (a && b) ≡ true → b ≡ true
both_right true b h = h
both_right false b h = absurd (ground (arith, h))

-- `P c w` is to hold whenever the machine is in the state `c` with the data `w`, and `rank` falls
-- along every edge without a trigger.
module _ {W : Type 0} (m : Machine W) (ids : List ℕ) (P : ℕ → W → Type 0) (rank : ℕ → ℕ) where
  abbrev pub Falls : ℕ → Option Event → Option ℕ → Type 0
  Falls c (some trigger) target = Unit
  Falls c none none = ⊥
  Falls c none (some s) = rank s < rank c

  abbrev pub Inside : Option ℕ → Type 0
  Inside none = Unit
  Inside (some s) = contains s ids ≡ true

  -- An edge without a trigger was tried before and could not be taken.
  abbrev pub PassedBy : Option Event → Bool → Type 0
  PassedBy none leads = leads ≡ false
  PassedBy (some trigger) leads = Unit

  abbrev pub Passed : Edge W → W → Type 0
  Passed edge w = PassedBy edge.trigger (edge.guard w && leads_on m edge.target w)

  abbrev pub KeepsAlong : ℕ → (W → Type 0) → Edge W → Type 0
  KeepsAlong c Tried edge =
      (w : W)
      → P c w
      → Tried w
      → edge.guard w ≡ true
      → P (follow m c w edge).0 (follow m c w edge).1

  abbrev pub IsSafeEdge : ℕ → (W → Type 0) → Edge W → Type 0
  IsSafeEdge c Tried edge =
      Falls c edge.trigger edge.target × Inside edge.target × KeepsAlong c Tried edge

  -- The conditions on a list of edges, where `Tried` holds of those before it.
  abbrev pub AreSafe : ℕ → (W → Type 0) → List (Edge W) → Type 0
  AreSafe c Tried [] = Unit
  AreSafe c Tried (edge ∷ rest) =
      IsSafeEdge c Tried edge × AreSafe c (λ w. Tried w × Passed edge w) rest

  abbrev pub IsSafe : Type 0
  IsSafe = All (λ c. AreSafe c (λ w. Unit) (m.edges c)) ids

  -- What a step leaves: the predicate, a state of the machine, and a smaller rank if there was no
  -- event.
  abbrev pub After : Option Event → ℕ → Option (ℕ × W) → Type 0
  After e c none = Unit
  After e c (some (c', w)) = P c' w × (contains c' ids ≡ true) × (e ≡ none → rank c' < rank c)

  rank_drops :
      (c : ℕ) (trigger e : Option Event) (s : ℕ)
      → Falls c trigger (some s)
      → accepts trigger e ≡ true
      → e ≡ none
      → rank s < rank c
  rank_drops c none e s h a q = h
  rank_drops c (some trigger) none s h a q = absurd (ground (arith, a))
  rank_drops c (some trigger) (some e) s h a q = absurd (cc q)

  stays_put :
      (c : ℕ) (trigger e : Option Event)
      → Falls c trigger none
      → accepts trigger e ≡ true
      → e ≡ none
      → rank c < rank c
  stays_put c none e h a q = absurd h
  stays_put c (some trigger) none h a q = absurd (ground (arith, a))
  stays_put c (some trigger) (some e) h a q = absurd (cc q)

  ready-accepts :
      (e : Option Event) (w : W) (edge : Edge W)
      → ready m e w edge ≡ true
      → accepts edge.trigger e ≡ true
  ready-accepts e w edge r =
      both_left (accepts edge.trigger e) (edge.guard w)
        (both_left (accepts edge.trigger e && edge.guard w) (leads_on m edge.target w) r)

  ready_guard :
      (e : Option Event) (w : W) (edge : Edge W) → ready m e w edge ≡ true → edge.guard w ≡ true
  ready_guard e w edge r =
      both_right (accepts edge.trigger e) (edge.guard w)
        (both_left (accepts edge.trigger e && edge.guard w) (leads_on m edge.target w) r)

  passed :
      (trigger e : Option Event) (guard leads : Bool)
      → (accepts trigger e && guard && leads) ≡ false
      → PassedBy trigger (guard && leads)
  passed none e guard leads h = h
  passed (some trigger) e guard leads h = tt

  follow-After :
      (e : Option Event) (c : ℕ) (w : W) (Tried : W → Type 0) (edge : Edge W) (target : Option ℕ)
      → edge.target ≡ target
      → Falls c edge.trigger target
      → Inside target
      → KeepsAlong c Tried edge
      → contains c ids ≡ true
      → P c w
      → Tried w
      → ready m e w edge ≡ true
      → After e c (some (follow m c w edge))
  follow-After e c w Tried edge none q f i k mem p t r = (
    k w p t (ready_guard e w edge r),
    rw q mem,
    λ en. rw q (stays_put c edge.trigger e f (ready-accepts e w edge r) en),
  )
  follow-After e c w Tried edge (some s) q f i k mem p t r = (
    k w p t (ready_guard e w edge r),
    rw q i,
    λ en. rw q (rank_drops c edge.trigger e s f (ready-accepts e w edge r) en),
  )

  pick-After :
      (e : Option Event) (c : ℕ) (w : W) (Tried : W → Type 0) (edges : List (Edge W))
      → AreSafe c Tried edges
      → contains c ids ≡ true
      → P c w
      → Tried w
      → After e c (moved m c w (pick m e w edges))
  unfolding pick
  pick-After e c w Tried [] h mem p t = tt
  pick-After e c w Tried (edge ∷ rest) h mem p t = elim (Bool-cases (ready m e w edge)) [
    | inl q ↦ rw q (follow-After e c w Tried edge edge.target refl h.0.0 h.0.1 h.0.2 mem p t q)
    | inr q ↦ rw q (
        pick-After e c w (λ v. Tried v × Passed edge v) rest h.1 mem p
          (t, passed edge.trigger e (edge.guard w) (leads_on m edge.target w) q))
  ]

  pub step-After :
      (e : Option Event) (c : ℕ) (w : W)
      → IsSafe
      → contains c ids ≡ true
      → P c w
      → After e c (step m e c w)
  unfolding step
  step-After e c w safe mem p =
      pick-After e c w (λ v. Unit) (m.edges c)
        (member_holds (λ x. AreSafe x (λ v. Unit) (m.edges x)) ids c safe mem) mem p tt
