-- ===== src/Flat/Dispatching.antt =====
-- src/Transition.cpp and Statechart::dispatch of src/Statechart.cpp in a flat chart: the reaction of
-- the code is the reaction of the machine.
use cpp_statecharts.Base.{
  ℕ, suc, ◌≡◌, refl, Bool, true, false, ◌&&◌, not, Option, none, some, List, [], ◌∷◌, if◌then◌else◌,
  Bool-cases, inl, inr, ◌∙◌,
}
use cpp_statecharts.Event.{Event}
use cpp_statecharts.Metadata.{Metadata, get_data}
use cpp_statecharts.Runtime.{Run, Outcome, done, for_each}
use cpp_statecharts.Chart.{Chart, Transition}
use cpp_statecharts.Behaviour.Transitions.{
  register_region, last?, target_allows, misses, allowed, activate_path, fire, fire_internal,
  execute,
}
use cpp_statecharts.Behaviour.Virtual.{override, methods}
use cpp_statecharts.Flat.Machine.{Machine, Edge, accepts, leads_on, ready, follow}
use cpp_statecharts.Flat.Implementing.{ActsAs, IsEdge, Leads, IsState, Implements, Represents}
use cpp_statecharts.Flat.Writing.{left_alone}
use cpp_statecharts.Flat.Firing.{
  step, after_leaving, after_entering, after_firing, deactivate_run, activate_kind, deactivate_kind,
  fired-Represents,
}
use cpp_statecharts.Flat.Choosing.{member_meets, target_open}

module _ {W : Type 0} (chart : Chart W) (m : Machine W) (ids : List ℕ)
    (impl : Implements chart m ids) where
  leave_list :
      (n c : ℕ) {w : W} {r : Run W}
      → IsState chart m ids c
      → Represents chart m ids c w r
      → for_each (c ∷ []) (methods chart (suc n)).deactivate r ≡ done tt (after_leaving chart m c r)
  unfolding for_each methods override
  leave_list n c {r = r} from h =
      step _
        (deactivate_kind chart m ids (methods chart n) (chart.states c).kind c r from.flat
          ∙ deactivate_run chart m ids from h)
        refl

  enter_path :
      (n s : ℕ) (r : Run W)
      → IsState chart m ids s
      → get_data s r.meta ≡ none
      → activate_path chart (methods chart (suc n)) (s ∷ []) r
        ≡ done tt (after_entering chart m s r)
  unfolding activate_path methods override register_region
  enter_path n s r to none_yet =
      step _
        (activate_kind chart m ids (methods chart n) (chart.states s).kind s r refl to.flat to
          none_yet)
        refl

  -- A fired transition leaves its source, acts, and enters its target.
  fire_run :
      (n c s : ℕ) (t : Transition W) (f : W → W) {w : W} {r : Run W}
      → IsState chart m ids c
      → IsState chart m ids s
      → ActsAs t.action f
      → t.deactivate_list ≡ c ∷ []
      → t.activate_list ≡ s ∷ []
      → Represents chart m ids c w r
      → fire chart (methods chart (suc n)) t r ≡ done true (after_firing chart m ids c s f r)
  unfolding fire
  fire_run n c s t f {r = r} from to act dl al h =
      rw (dl, al)
        (step _ (leave_list n c from h) (
          step _ (act (after_leaving chart m c r))
            (step _ (enter_path n s _ to (left_alone s from h to.not_root)) refl)))

  -- The outcome of a test of transitions: the machine's move over the edge, or none.
  abbrev pub Moves : ℕ → W → Run W → Option (Edge W) → Outcome (Run W) Bool → Type 0
  Moves c w r none o = o ≡ done false r
  Moves c w r (some edge) o =
      (s : Run W) × (o ≡ done true s)
      × Represents chart m ids (follow m c w edge).0 (follow m c w edge).1 s

  abbrev only_if : Bool → Edge W → Option (Edge W)
  only_if b edge = if b then some edge else none

  misses-accepts : (trigger e : Option Event) → misses trigger e ≡ not (accepts trigger e)
  misses-accepts none e = refl
  misses-accepts (some trigger) none = refl
  misses-accepts (some trigger) (some e) = refl

  -- The test of the target, behind the one of the guard.
  target_run :
      (n c : ℕ) (t : Transition W) (target : Option ℕ) (d : Metadata) (w : W)
      → Leads chart m ids c t target
      → (if t.is_internal
          then some true
          else target_allows chart (methods chart (suc n)) (last? t.activate_list) d w)
        ≡ some (leads_on m target w)
  target_run n c t none d w h = rw h refl
  target_run n c t (some s) d w (i, dl, al, mem, ns) =
      rw (i, al) (target_open chart m ids impl n s d w (member_meets chart m ids impl s mem) ns)

  allowed_run :
      (n c : ℕ) (t : Transition W) (edge : Edge W) (d : Metadata) (w : W)
      → IsEdge chart m ids c t edge
      → allowed chart (methods chart (suc n)) t d w
        ≡ some (edge.guard w && leads_on m edge.target w)
  unfolding allowed
  allowed_run n c t edge d w h = rw (h.guard d w) (elim (Bool-cases (edge.guard w)) [
    | inl e ↦ rw e (target_run n c t edge.target d w h.leads)
    | inr e ↦ rw e refl
  ])

  -- Only the client's data change.
  pub stays-Represents :
      {c : ℕ} {w : W} {r : Run W} (w' : W)
      → Represents chart m ids c w r
      → Represents chart m ids c w' (record r { world = w' })
  stays-Represents w' h = record {
    member = h.member;
    root_data = h.root_data;
    root_known = h.root_known;
    current = h.current;
    state_data = h.state_data;
    known = h.known;
    active = h.active;
    untimed = h.untimed;
    alone = h.alone;
    world = refl;
  }

  fired :
      (n c : ℕ) (t : Transition W) (edge : Edge W) (target : Option ℕ) (r : Run W)
      → Represents chart m ids c r.world r
      → ActsAs t.action edge.effect
      → edge.target ≡ target
      → Leads chart m ids c t target
      → Moves c r.world r (some edge) (
          (if t.is_internal
              then fire_internal chart (methods chart (suc n)) t
              else fire chart (methods chart (suc n)) t)
            r)
  unfolding fire_internal fire
  fired n c t edge none r h act q i =
      rw (i, q)
        ((
          record r { world = edge.effect r.world },
          step _ (act r) refl,
          stays-Represents (edge.effect r.world) h,
        ))
  fired n c t edge (some s) r h act q (i, dl, al, mem, ns) =
      rw (i, q)
        ((
          after_firing chart m ids c s edge.effect r,
          fire_run n c s t edge.effect (member_meets chart m ids impl c h.member)
              (member_meets chart m ids impl s mem) act dl al h,
          fired-Represents chart m ids c s edge.effect (member_meets chart m ids impl c h.member)
              (member_meets chart m ids impl s mem) mem h,
        ))

  pub execute-Moves :
      (n c : ℕ) (e : Option Event) (t : Transition W) (edge : Edge W) (r : Run W)
      → Represents chart m ids c r.world r
      → IsEdge chart m ids c t edge
      → Moves c r.world r
          (only_if (ready m e r.world edge) edge)
          (execute chart (methods chart (suc n)) e t r)
  unfolding execute allowed fire_internal fire
  execute-Moves n c e t edge r h is =
      rw (is.trigger, misses-accepts edge.trigger e)
        (elim (Bool-cases (accepts edge.trigger e)) [
          | inl q ↦
              rw (q, allowed_run n c t edge r.meta r.world is)
                (elim (Bool-cases (edge.guard r.world && leads_on m edge.target r.world)) [
                  | inl p ↦ rw p (fired n c t edge edge.target r h is.effect refl is.leads)
                  | inr p ↦ rw p refl
                ])
          | inr q ↦ rw q refl
        ])
