-- ===== src/Programs/DigitalWatch/Laws.antt =====
-- doc/examples/DigitalWatch/digital_watch.cpp: the chart is the diagram at the head of
-- the file, and it shows a time of the day.
use cpp_statecharts.Base.{
  ℕ, suc, refl, ◌==◌, ◌≤◌, ◌<◌, true, Option, List, [], ◌∷◌, at_index, All, arith,
}
use cpp_statecharts.Event.{Event}
use cpp_statecharts.Runtime.{Run}
use cpp_statecharts.Programs.Making.{Console, making, say}
use cpp_statecharts.Flat.Machine.{Machine, Edge, by_event, by_itself, inside}
use cpp_statecharts.Flat.Implementing.{Implements, IsState, is_edge, is_state}
use cpp_statecharts.Flat.Sessions.{Starts, run_program}
use cpp_statecharts.Flat.Conditions.{IsSafe}
use cpp_statecharts.Flat.Safety.{KeepsScript, ReturnsIn, program_keeps}
use cpp_statecharts.Programs.DigitalWatch.{
  WatchParameter, set_event, incr_event, next_hour, next_minute, is_zero, show_time, show_hours,
  show_minutes, make_digital_watch, digital_watch,
}

abbrev diagram_edges : List (List (Edge (Console WatchParameter)))
diagram_edges =
    []
    ∷ (by_itself (λ w. true) 5 ∷ [])
    ∷ (by_event set_event (λ w. w) 3 ∷ [])
    ∷ (by_event set_event (λ w. w) 4 ∷ inside incr_event next_hour ∷ [])
    ∷ (by_event set_event (λ w. w) 2 ∷ inside incr_event next_minute ∷ [])
    ∷ (by_itself is_zero 3 ∷ by_itself (λ w. true) 2 ∷ [])
    ∷ []

abbrev on_entry : ℕ → Console WatchParameter → Console WatchParameter
on_entry =
    at_index (λ w. w) ((λ w. w) ∷ (λ w. w) ∷ (λ w. w) ∷ say "  *beep*\n" ∷ say "  *beep*\n" ∷ [])

abbrev on_do : ℕ → Console WatchParameter → Console WatchParameter
on_do = at_index (λ w. w) ((λ w. w) ∷ (λ w. w) ∷ show_time ∷ show_hours ∷ show_minutes ∷ [])

abbrev pub diagram : Machine (Console WatchParameter)
diagram = record {
  edges = at_index [] diagram_edges;
  is_choice = λ s. s == 5;
  on_entry = on_entry;
  on_do = on_do;
  on_exit = λ s w. w;
}

abbrev pub ids : List ℕ
ids = 1 ∷ 2 ∷ 3 ∷ 4 ∷ 5 ∷ []

state1 : IsState digital_watch diagram ids 1
unfolding making make_digital_watch
state1 =
    is_state digital_watch diagram ids 1 tt refl refl refl
      (
        is_edge digital_watch diagram ids refl tt (λ d w. refl) (λ r. refl)
            (refl, refl, refl, refl, refl),
        tt,
      )
      tt (λ r. refl) (λ r. refl) (λ w h. refl) (λ r. refl)

state2 : IsState digital_watch diagram ids 2
unfolding making make_digital_watch
state2 =
    is_state digital_watch diagram ids 2 tt refl refl refl
      (
        is_edge digital_watch diagram ids refl tt (λ d w. refl) (λ r. refl)
            (refl, refl, refl, refl, refl),
        tt,
      )
      tt (λ r. refl) (λ r. refl) (λ w h. absurd (ground (arith, h))) (λ r. refl)

state3 : IsState digital_watch diagram ids 3
unfolding making make_digital_watch
state3 =
    is_state digital_watch diagram ids 3 tt refl refl refl
      (
        is_edge digital_watch diagram ids refl tt (λ d w. refl) (λ r. refl)
            (refl, refl, refl, refl, refl),
        (is_edge digital_watch diagram ids refl tt (λ d w. refl) (λ r. refl) refl, tt),
      )
      tt (λ r. refl) (λ r. refl) (λ w h. absurd (ground (arith, h))) (λ r. refl)

state4 : IsState digital_watch diagram ids 4
unfolding making make_digital_watch
state4 =
    is_state digital_watch diagram ids 4 tt refl refl refl
      (
        is_edge digital_watch diagram ids refl tt (λ d w. refl) (λ r. refl)
            (refl, refl, refl, refl, refl),
        (is_edge digital_watch diagram ids refl tt (λ d w. refl) (λ r. refl) refl, tt),
      )
      tt (λ r. refl) (λ r. refl) (λ w h. absurd (ground (arith, h))) (λ r. refl)

state5 : IsState digital_watch diagram ids 5
unfolding making make_digital_watch
state5 =
    is_state digital_watch diagram ids 5 tt refl refl refl
      (
        is_edge digital_watch diagram ids refl tt (λ d w. refl) (λ r. refl)
            (refl, refl, refl, refl, refl),
        (
          is_edge digital_watch diagram ids refl tt (λ d w. refl) (λ r. refl)
              (refl, refl, refl, refl, refl),
          tt,
        ),
      )
      (refl, (refl, tt)) (λ r. refl) (λ r. refl) (λ w h. refl) (λ r. refl)

digital_watch-Implements : Implements digital_watch diagram ids
digital_watch-Implements = (state1, (state2, (state3, (state4, (state5, tt)))))

digital_watch-Starts : Starts digital_watch ids 1
unfolding making make_digital_watch
digital_watch-Starts = record { root_context = refl; start_state = refl; member = refl }

abbrev rank : ℕ → ℕ
rank = at_index 0 (0 ∷ 2 ∷ 0 ∷ 0 ∷ 0 ∷ 1 ∷ [])

-- A time of the day.
abbrev pub IsTime : ℕ → Console WatchParameter → Type 0
IsTime s w = (w.parameter.hours < 24) × (w.parameter.minutes < 60)

safe : IsSafe diagram ids IsTime rank
safe = (
  ((omega arith, refl, λ w h t g. h), tt),
  (
    ((tt, refl, λ w h t g. h), tt),
    (
      ((tt, refl, λ w h t g. h), ((tt, tt, λ w h t g. (omega arith, h.1)), tt)),
      (
        ((tt, refl, λ w h t g. h), ((tt, tt, λ w h t g. (h.0, omega arith)), tt)),
        (((omega arith, refl, λ w h t g. h), ((omega arith, refl, λ w h t g. h), tt)), tt),
      ),
    ),
  ),
)

bounded_rank : All (λ c. rank c ≤ 999) ids
bounded_rank = (omega arith, (omega arith, (omega arith, (omega arith, (omega arith, tt)))))

-- Whatever events the program dispatches behind the start of the chart, with a time of the day at
-- the start, and as long as it sets no other time itself: it returns, and the hours are below 24 and
-- the minutes below 60.
pub hours_and_minutes_in_range :
    (n : ℕ) (script : List ((Console WatchParameter → Console WatchParameter) × Option Event))
    (r : Run (Console WatchParameter))
    → KeepsScript IsTime script
    → IsTime 1 r.world
    → ReturnsIn ids IsTime digital_watch (run_program digital_watch (suc (suc n)) script r)
unfolding making make_digital_watch
hours_and_minutes_in_range n script r k h =
    program_keeps diagram ids IsTime rank safe 999 bounded_rank digital_watch
      digital_watch-Implements n 1 script r refl digital_watch-Starts k h
