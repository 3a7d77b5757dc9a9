-- ===== src/Programs/Triggers/Laws.antt =====
-- doc/examples/Triggers/triggers.cpp: the chart is the diagram at the head of the file,
-- and its route depends on the parameter.
use cpp_statecharts.Base.{
  ℕ, suc, ◌≡◌, refl, true, false, none, some, List, [], ◌∷◌, at_index, arith, if◌then◌else◌,
}
use cpp_statecharts.Event.{equals, id}
use cpp_statecharts.Metadata.Substates.{substate}
use cpp_statecharts.Runtime.{Run, Outcome, done}
use cpp_statecharts.Programs.Making.{Console, making, say, ℤ, greater_than, equals_to}
use cpp_statecharts.Flat.Machine.{
  Machine, Edge, by_event, by_itself, react, settle, step, pick, play, Verdict, rested, looped,
}
use cpp_statecharts.Flat.Implementing.{Implements, IsState, is_edge, is_state}
use cpp_statecharts.Flat.Reacting.{Ends}
use cpp_statecharts.Flat.Sessions.{Starts, run_program, program_refines}
use cpp_statecharts.Programs.Triggers.{
  TriggerParameter, e_event, show_x, triggers_script, make_triggers, triggers,
}

abbrev diagram_edges : List (List (Edge (Console TriggerParameter)))
diagram_edges =
    []
    ∷ (by_itself (λ w. true) 2 ∷ [])
    ∷ (by_itself (λ w. greater_than 10 w.parameter.x) 5
        ∷ record (by_event e_event (λ w. w) 3) { guard = λ w. equals_to 10 w.parameter.x }
        ∷ by_event e_event (λ w. w) 4
        ∷ [])
    ∷ []
    ∷ []
    ∷ []
    ∷ []

abbrev on_entry : ℕ → Console TriggerParameter → Console TriggerParameter
on_entry =
    at_index (λ w. w) ((λ w. w) ∷ (λ w. w) ∷ show_x ∷ say "[B]\n" ∷ say "[C]\n" ∷ say "[D]\n" ∷ [])

abbrev pub diagram : Machine (Console TriggerParameter)
diagram = record {
  edges = at_index [] diagram_edges;
  is_choice = λ s. false;
  on_entry = on_entry;
  on_do = λ s w. w;
  on_exit = λ s w. w;
}

abbrev pub ids : List ℕ
ids = 1 ∷ 2 ∷ 3 ∷ 4 ∷ 5 ∷ []

state1 : IsState triggers diagram ids 1
unfolding making make_triggers
state1 =
    is_state triggers diagram ids 1 tt refl refl refl
      (
        is_edge triggers diagram ids refl tt (λ d w. refl) (λ r. refl)
            (refl, refl, refl, refl, refl),
        tt,
      )
      tt (λ r. refl) (λ r. refl) (λ w h. refl) (λ r. refl)

state2 : IsState triggers diagram ids 2
unfolding making make_triggers
state2 =
    is_state triggers diagram ids 2 tt refl refl refl
      (
        is_edge triggers diagram ids refl tt (λ d w. refl) (λ r. refl)
            (refl, refl, refl, refl, refl),
        (
          is_edge triggers diagram ids refl tt (λ d w. refl) (λ r. refl)
              (refl, refl, refl, refl, refl),
          (
            is_edge triggers diagram ids refl tt (λ d w. refl) (λ r. refl)
                (refl, refl, refl, refl, refl),
            tt,
          ),
        ),
      )
      tt (λ r. refl) (λ r. refl) (λ w h. refl) (λ r. refl)

state3 : IsState triggers diagram ids 3
unfolding making make_triggers
state3 =
    is_state triggers diagram ids 3 tt refl refl refl tt tt (λ r. refl) (λ r. refl) (λ w h. refl)
      (λ r. refl)

state4 : IsState triggers diagram ids 4
unfolding making make_triggers
state4 =
    is_state triggers diagram ids 4 tt refl refl refl tt tt (λ r. refl) (λ r. refl) (λ w h. refl)
      (λ r. refl)

state5 : IsState triggers diagram ids 5
unfolding making make_triggers
state5 =
    is_state triggers diagram ids 5 tt refl refl refl tt tt (λ r. refl) (λ r. refl) (λ w h. refl)
      (λ r. refl)

triggers-Implements : Implements triggers diagram ids
triggers-Implements = (state1, (state2, (state3, (state4, (state5, tt)))))

triggers-Starts : Starts triggers ids 1
unfolding making make_triggers
triggers-Starts = record { root_context = refl; start_state = refl; member = refl }

-- The state that a scenario of `main` ends in.
abbrev pub route : ℤ → ℕ
route x = if greater_than 10 x then 5 else if equals_to 10 x then 3 else 4

abbrev RestsAt : ℕ → Verdict (Console TriggerParameter) → Type 0
RestsAt s (rested c w) = c ≡ s
RestsAt s (looped c w) = ⊥

route_played :
    (w : Console TriggerParameter)
    → RestsAt (route w.parameter.x) (play diagram 999 (((λ v. v), none) ∷ triggers_script) 1 w)
unfolding play react settle step pick equals id
route_played w = ground arith

rests_at :
    (s : ℕ) (v : Verdict (Console TriggerParameter))
    (o : Outcome (Run (Console TriggerParameter)) (Unit {0}))
    → Ends triggers diagram ids triggers-Implements tt v o
    → RestsAt s v
    → (r : Run (Console TriggerParameter)) × (o ≡ done tt r)
      × (substate triggers.root r.meta ≡ some s)
unfolding substate
rests_at s (rested c w) o h e = (h.0, h.1, rw (h.2.root_known, h.2.current, e) refl)
rests_at s (looped c w) o h e = absurd e

-- A scenario of `main`, which starts the chart and dispatches the event once, returns for every
-- value of the parameter. The chart is in D then if the value is above 10 (the transition without a
-- trigger is taken at the start), else in B if it is 10, and else in C.
pub route_taken :
    (n : ℕ) (r : Run (Console TriggerParameter))
    → (s : Run (Console TriggerParameter)) × (run_program triggers (suc (suc n)) triggers_script r
        ≡ done tt s)
      × (substate triggers.root s.meta ≡ some (route r.world.parameter.x))
unfolding making make_triggers
route_taken n r =
    rests_at (route r.world.parameter.x) _ _
      (program_refines triggers diagram ids triggers-Implements n 1 triggers_script r
        triggers-Starts)
      (route_played r.world)
