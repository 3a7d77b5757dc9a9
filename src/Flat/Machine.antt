-- ===== src/Flat/Machine.antt =====
-- The abstract view of a statechart without composite states: a finite-state machine over the
-- client's data `W`, without metadata, pointers, clock or scheduler.
use cpp_statecharts.Base.{
  ℕ, zero, suc, Bool, true, false, ◌&&◌, ◌||◌, Option, none, some, List, [], ◌∷◌, if◌then◌else◌,
}
use cpp_statecharts.Event.{Event, equals}

-- An edge without a target stays in its state and runs neither exit nor entry.
pub record Edge (W : Type 0) : Type 0 where
  pub trigger : Option Event
  pub guard : W → Bool
  pub effect : W → W
  pub target : Option ℕ

-- `edges` in the order in which they are tried. A choice is a state that is entered only if one of
-- its edges lets it be left again.
pub record Machine (W : Type 0) : Type 0 where
  pub edges : ℕ → List (Edge W)
  pub is_choice : ℕ → Bool
  pub on_entry : ℕ → W → W
  pub on_do : ℕ → W → W
  pub on_exit : ℕ → W → W

abbrev pub accepts : Option Event → Option Event → Bool
accepts none e = true
accepts (some trigger) none = false
accepts (some trigger) (some e) = equals trigger (some e)

-- Where a machine that has done all its steps without an event stands: at rest, or still moving
-- when no more steps were allowed.
pub data Verdict (W : Type 0) : Type 0 where
  rested looped : (c : ℕ) (w : W) → Verdict W

module _ {W : Type 0} (m : Machine W) where
  unfoldable pub any_guard : List (Edge W) → W → Bool
  any_guard [] w = false
  any_guard (edge ∷ rest) w = edge.guard w || any_guard rest w

  abbrev pub leads_on : Option ℕ → W → Bool
  leads_on none w = true
  leads_on (some s) w = if m.is_choice s then any_guard (m.edges s) w else true

  abbrev pub ready : Option Event → W → Edge W → Bool
  ready e w edge = accepts edge.trigger e && edge.guard w && leads_on edge.target w

  unfoldable pub pick : Option Event → W → List (Edge W) → Option (Edge W)
  pick e w [] = none
  pick e w (edge ∷ rest) = if ready e w edge then some edge else pick e w rest

  abbrev pub settle_in : ℕ → W → W
  settle_in s w = m.on_do s (m.on_entry s w)

  abbrev pub move_to : Option ℕ → ℕ → (W → W) → W → ℕ × W
  move_to none c f w = (c, f w)
  move_to (some s) c f w = (s, settle_in s (f (m.on_exit c w)))

  abbrev pub follow : ℕ → W → Edge W → ℕ × W
  follow c w edge = move_to edge.target c edge.effect w

  abbrev pub moved : ℕ → W → Option (Edge W) → Option (ℕ × W)
  moved c w none = none
  moved c w (some edge) = some (follow c w edge)

  -- The machine's reaction to one event, none if no edge is ready.
  unfoldable pub step : Option Event → ℕ → W → Option (ℕ × W)
  step e c w = moved c w (pick e w (m.edges c))

  -- Steps without an event, at most `left` behind the next one.
  unfoldable pub settle : ℕ → ℕ → W → Verdict W
  settle zero c w = elim (step none c w) [ none ↦ rested c w | some (c', w') ↦ looped c' w' ]
  settle (suc left) c w = elim (step none c w) [
    | none ↦ rested c w
    | some (c', w') ↦ settle left c' w'
  ]

  -- An event, and the steps without one that follow.
  unfoldable pub react : ℕ → Option Event → ℕ → W → Verdict W
  react left e c w = elim (step e c w) [
    | none ↦ settle left c w
    | some (c', w') ↦ settle left c' w'
  ]

  -- The client changes its data and dispatches an event, again and again.
  unfoldable pub play : ℕ → List ((W → W) × Option Event) → ℕ → W → Verdict W
  play left [] c w = rested c w
  play left ((f, e) ∷ rest) c w = elim (react left e c (f w)) [
    | rested c' w' ↦ play left rest c' w'
    | looped c' w' ↦ looped c' w'
  ]

-- Edges as the diagrams show them: by an event, with a change of the data, into a state.
abbrev pub by_event : {W : Type 0} → Event → (W → W) → ℕ → Edge W
by_event e f s = record { trigger = some e; guard = λ w. true; effect = f; target = some s }

abbrev pub by_itself : {W : Type 0} → (W → Bool) → ℕ → Edge W
by_itself g s = record { trigger = none; guard = g; effect = λ w. w; target = some s }

abbrev pub inside : {W : Type 0} → Event → (W → W) → Edge W
inside e f = record { trigger = some e; guard = λ w. true; effect = f; target = none }
