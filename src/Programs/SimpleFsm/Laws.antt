-- ===== src/Programs/SimpleFsm/Laws.antt =====
-- doc/examples/SimpleFSM/simple_fsm.cpp: the chart is the diagram at the head of the file.
use cpp_statecharts.Base.{
  ℕ, suc, refl, ◌≤◌, true, false, Option, none, List, [], ◌∷◌, at_index, All, arith,
}
use cpp_statecharts.Event.{Event}
use cpp_statecharts.Runtime.{Run}
use cpp_statecharts.Programs.Making.{Console, making}
use cpp_statecharts.Flat.Machine.{Machine, Edge, by_event, by_itself, inside, play}
use cpp_statecharts.Flat.Implementing.{Implements, IsState, is_edge, is_state}
use cpp_statecharts.Flat.Sessions.{Starts, run_program}
use cpp_statecharts.Flat.Conditions.{IsSafe}
use cpp_statecharts.Flat.Safety.{PlaysOut, anything_kept, program_plays}
use cpp_statecharts.Programs.SimpleFsm.{
  FsmParameter, event1, event2, event3, event5, event6, logs, make_simple_fsm, simple_fsm,
}

abbrev diagram_edges : List (List (Edge (Console FsmParameter)))
diagram_edges =
    []
    ∷ (by_itself (λ w. true) 3 ∷ [])
    ∷ []
    ∷ (record (inside event3 (logs "action3")) { guard = λ w. w.parameter.guard3 }
        ∷ record (by_event event1 (logs "action1") 4) { guard = λ w. w.parameter.guard1 }
        ∷ [])
    ∷ (by_event event2 (λ w. w) 3
        ∷ by_event event6 (λ w. w) 2
        ∷ inside event5 (logs "action5")
        ∷ [])
    ∷ []

abbrev on_entry : ℕ → Console FsmParameter → Console FsmParameter
on_entry = at_index (λ w. w) ((λ w. w) ∷ (λ w. w) ∷ (λ w. w) ∷ logs "action7" ∷ logs "action9" ∷ [])

abbrev on_exit : ℕ → Console FsmParameter → Console FsmParameter
on_exit = at_index (λ w. w) ((λ w. w) ∷ (λ w. w) ∷ (λ w. w) ∷ logs "action8" ∷ logs "action10" ∷ [])

abbrev pub diagram : Machine (Console FsmParameter)
diagram = record {
  edges = at_index [] diagram_edges;
  is_choice = λ s. false;
  on_entry = on_entry;
  on_do = λ s w. w;
  on_exit = on_exit;
}

abbrev pub ids : List ℕ
ids = 1 ∷ 2 ∷ 3 ∷ 4 ∷ []

state1 : IsState simple_fsm diagram ids 1
unfolding making make_simple_fsm
state1 =
    is_state simple_fsm diagram ids 1 tt refl refl refl
      (
        is_edge simple_fsm diagram ids refl tt (λ d w. refl) (λ r. refl)
            (refl, refl, refl, refl, refl),
        tt,
      )
      tt (λ r. refl) (λ r. refl) (λ w h. refl) (λ r. refl)

state2 : IsState simple_fsm diagram ids 2
unfolding making make_simple_fsm
state2 =
    is_state simple_fsm diagram ids 2 tt refl refl refl tt tt (λ r. refl) (λ r. refl) (λ w h. refl)
      (λ r. refl)

state3 : IsState simple_fsm diagram ids 3
unfolding making make_simple_fsm
state3 =
    is_state simple_fsm diagram ids 3 tt refl refl refl
      (
        is_edge simple_fsm diagram ids refl tt (λ d w. refl) (λ r. refl) refl,
        (
          is_edge simple_fsm diagram ids refl tt (λ d w. refl) (λ r. refl)
              (refl, refl, refl, refl, refl),
          tt,
        ),
      )
      tt (λ r. refl) (λ r. refl) (λ w h. refl) (λ r. refl)

state4 : IsState simple_fsm diagram ids 4
unfolding making make_simple_fsm
state4 =
    is_state simple_fsm diagram ids 4 tt refl refl refl
      (
        is_edge simple_fsm diagram ids refl tt (λ d w. refl) (λ r. refl)
            (refl, refl, refl, refl, refl),
        (
          is_edge simple_fsm diagram ids refl tt (λ d w. refl) (λ r. refl)
              (refl, refl, refl, refl, refl),
          (is_edge simple_fsm diagram ids refl tt (λ d w. refl) (λ r. refl) refl, tt),
        ),
      )
      tt (λ r. refl) (λ r. refl) (λ w h. refl) (λ r. refl)

simple_fsm-Implements : Implements simple_fsm diagram ids
simple_fsm-Implements = (state1, (state2, (state3, (state4, tt))))

simple_fsm-Starts : Starts simple_fsm ids 1
unfolding making make_simple_fsm
simple_fsm-Starts = record { root_context = refl; start_state = refl; member = refl }

abbrev Anything : ℕ → Console FsmParameter → Type 0
Anything s w = Unit

abbrev rank : ℕ → ℕ
rank = at_index 0 (0 ∷ 1 ∷ 0 ∷ 0 ∷ 0 ∷ [])

safe : IsSafe diagram ids Anything rank
safe = (
  ((omega arith, refl, λ w h t g. tt), tt),
  (
    tt,
    (
      ((tt, tt, λ w h t g. tt), ((tt, refl, λ w h t g. tt), tt)),
      (((tt, refl, λ w h t g. tt), ((tt, refl, λ w h t g. tt), ((tt, tt, λ w h t g. tt), tt))), tt),
    ),
  ),
)

bounded_rank : All (λ c. rank c ≤ 999) ids
bounded_rank = (omega arith, (omega arith, (omega arith, (omega arith, tt))))

-- Whatever events the program dispatches behind the start of the chart, and however it sets the
-- guards between: it returns, with the state and the log of the actions of the play of the diagram.
pub fsm_plays_diagram :
    (n : ℕ) (script : List ((Console FsmParameter → Console FsmParameter) × Option Event))
    (r : Run (Console FsmParameter))
    → PlaysOut simple_fsm
        (play diagram 999 (((λ w. w), none) ∷ script) 1 r.world)
        (run_program simple_fsm (suc (suc n)) script r)
unfolding making make_simple_fsm
fsm_plays_diagram n script r =
    program_plays diagram ids Anything rank safe 999 bounded_rank simple_fsm simple_fsm-Implements n
      1 script r refl simple_fsm-Starts (anything_kept script) tt
