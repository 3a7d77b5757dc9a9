-- ===== src/Programs/Motor/Laws.antt =====
-- doc/examples/Motor/motor.cpp: the chart of the program, and the speed that it latches.
use cpp_statecharts.Base.{
  ℕ, suc, ◌≡◌, refl, ◌≤◌, true, false, Option, List, [], ◌∷◌, at_index, All, arith,
}
use cpp_statecharts.Event.{Event}
use cpp_statecharts.Runtime.{Run}
use cpp_statecharts.Programs.Making.{Console, making, say, greater_than}
use cpp_statecharts.Flat.Machine.{Machine, Edge, by_event, by_itself, inside}
use cpp_statecharts.Flat.Implementing.{Implements, IsState, is_edge, is_state}
use cpp_statecharts.Flat.Sessions.{Starts, run_program}
use cpp_statecharts.Flat.Conditions.{IsSafe}
use cpp_statecharts.Flat.Safety.{KeepsScript, ReturnsIn, program_keeps}
use cpp_statecharts.Programs.Motor.{
  MotorParameter, set_speed, halt, latch_speed, speed_asked, make_motor, motor,
}

abbrev diagram_edges : List (List (Edge (Console MotorParameter)))
diagram_edges =
    []
    ∷ (by_itself (λ w. true) 2 ∷ [])
    ∷ (record (by_event set_speed latch_speed 3) { guard = speed_asked } ∷ [])
    ∷ (record (by_event set_speed latch_speed 4) { guard = speed_asked }
        ∷ by_event halt (λ w. w) 5
        ∷ [])
    ∷ (inside set_speed latch_speed ∷ by_event halt (λ w. w) 5 ∷ [])
    ∷ (by_itself (λ w. true) 2 ∷ [])
    ∷ []

abbrev on_entry : ℕ → Console MotorParameter → Console MotorParameter
on_entry = at_index (λ w. w) ((λ w. w) ∷ (λ w. w) ∷ say "Motor is halted\n" ∷ [])

abbrev on_exit : ℕ → Console MotorParameter → Console MotorParameter
on_exit = at_index (λ w. w) ((λ w. w) ∷ (λ w. w) ∷ say "Motor is started\n" ∷ [])

abbrev pub diagram : Machine (Console MotorParameter)
diagram = record {
  edges = at_index [] diagram_edges;
  is_choice = λ s. false;
  on_entry = on_entry;
  on_do = λ s w. w;
  on_exit = on_exit;
}

abbrev pub ids : List ℕ
ids = 1 ∷ 2 ∷ 3 ∷ 4 ∷ 5 ∷ []

state1 : IsState motor diagram ids 1
unfolding making make_motor
state1 =
    is_state motor diagram ids 1 tt refl refl refl
      (
        is_edge motor diagram ids refl tt (λ d w. refl) (λ r. refl) (refl, refl, refl, refl, refl),
        tt,
      )
      tt (λ r. refl) (λ r. refl) (λ w h. refl) (λ r. refl)

state2 : IsState motor diagram ids 2
unfolding making make_motor
state2 =
    is_state motor diagram ids 2 tt refl refl refl
      (
        is_edge motor diagram ids refl tt (λ d w. refl) (λ r. refl) (refl, refl, refl, refl, refl),
        tt,
      )
      tt (λ r. refl) (λ r. refl) (λ w h. refl) (λ r. refl)

state3 : IsState motor diagram ids 3
unfolding making make_motor
state3 =
    is_state motor diagram ids 3 tt refl refl refl
      (
        is_edge motor diagram ids refl tt (λ d w. refl) (λ r. refl) (refl, refl, refl, refl, refl),
        (
          is_edge motor diagram ids refl tt (λ d w. refl) (λ r. refl)
              (refl, refl, refl, refl, refl),
          tt,
        ),
      )
      tt (λ r. refl) (λ r. refl) (λ w h. refl) (λ r. refl)

state4 : IsState motor diagram ids 4
unfolding making make_motor
state4 =
    is_state motor diagram ids 4 tt refl refl refl
      (
        is_edge motor diagram ids refl tt (λ d w. refl) (λ r. refl) refl,
        (
          is_edge motor diagram ids refl tt (λ d w. refl) (λ r. refl)
              (refl, refl, refl, refl, refl),
          tt,
        ),
      )
      tt (λ r. refl) (λ r. refl) (λ w h. refl) (λ r. refl)

state5 : IsState motor diagram ids 5
unfolding making make_motor
state5 =
    is_state motor diagram ids 5 tt refl refl refl
      (
        is_edge motor diagram ids refl tt (λ d w. refl) (λ r. refl) (refl, refl, refl, refl, refl),
        tt,
      )
      tt (λ r. refl) (λ r. refl) (λ w h. refl) (λ r. refl)

motor-Implements : Implements motor diagram ids
motor-Implements = (state1, (state2, (state3, (state4, (state5, tt)))))

motor-Starts : Starts motor ids 1
unfolding making make_motor
motor-Starts = record { root_context = refl; start_state = refl; member = refl }

abbrev rank : ℕ → ℕ
rank = at_index 0 (0 ∷ 1 ∷ 0 ∷ 0 ∷ 0 ∷ 1 ∷ [])

-- In the state Start the speed that was latched is positive.
abbrev pub LatchedIn : ℕ → MotorParameter → Type 0
LatchedIn =
    at_index (λ p. Unit)
      ((λ p. Unit)
        ∷ (λ p. Unit)
        ∷ (λ p. Unit)
        ∷ (λ p. greater_than 0 p.m_reference_speed ≡ true)
        ∷ [])

abbrev pub Latched : ℕ → Console MotorParameter → Type 0
Latched s w = LatchedIn s w.parameter

safe : IsSafe diagram ids Latched rank
safe = (
  ((omega arith, refl, λ w h t g. tt), tt),
  (
    ((tt, refl, λ w h t g. g), tt),
    (
      ((tt, refl, λ w h t g. tt), ((tt, refl, λ w h t g. tt), tt)),
      (
        ((tt, tt, λ w h t g. tt), ((tt, refl, λ w h t g. tt), tt)),
        (((omega arith, refl, λ w h t g. tt), tt), tt),
      ),
    ),
  ),
)

bounded_rank : All (λ c. rank c ≤ 999) ids
bounded_rank = (omega arith, (omega arith, (omega arith, (omega arith, (omega arith, tt)))))

-- Whatever the program asks for behind the start of the chart, as long as it does not write the
-- latched speed itself: it returns, and in the state Start the latched speed is positive.
pub start_has_speed :
    (n : ℕ) (script : List ((Console MotorParameter → Console MotorParameter) × Option Event))
    (r : Run (Console MotorParameter))
    → KeepsScript Latched script
    → ReturnsIn ids Latched motor (run_program motor (suc (suc n)) script r)
unfolding making make_motor
start_has_speed n script r k =
    program_keeps diagram ids Latched rank safe 999 bounded_rank motor motor-Implements n 1 script r
      refl motor-Starts k tt
