-- ===== src/Programs/Motor.antt =====
-- doc/examples/Motor/motor.cpp.
pub mod Laws
use cpp_statecharts.Base.{ℕ, Bool, String, Option, some, List, [], ◌∷◌}
use cpp_statecharts.Structure.{simple_state, pseudo_state, start}
use cpp_statecharts.Event.{Event, signal}
use cpp_statecharts.Chart.{Chart, Action, Guard}
use cpp_statecharts.Construction.Building.{
  new_statechart, create, create_transition, no_actions, no_transition,
}
use cpp_statecharts.Programs.Making.{
  Console, text, number, cout, say, begin, acts, entry, on, internal, Make, ◌>>=◌, ◌>>◌, built, ℤ,
  pos, greater_than,
}

pub record MotorParameter : Type 0 where
  pub reference_speed : ℤ
  pub m_reference_speed : ℤ

abbrev pub set_speed : Event
set_speed = signal "setSpeed"

abbrev pub halt : Event
halt = signal "halt"

abbrev pub latch_speed : Console MotorParameter → Console MotorParameter
latch_speed w =
    cout (text "  -> m_reference_speed = " ∷ number w.parameter.reference_speed ∷ text "\n" ∷ [])
      (record w {
        parameter = record w.parameter { m_reference_speed = w.parameter.reference_speed };
      })

abbrev pub save_reference_speed : Option (Action (Console MotorParameter))
save_reference_speed = acts latch_speed

abbrev pub speed_asked : Console MotorParameter → Bool
speed_asked w = greater_than 0 w.parameter.reference_speed

abbrev pub ref_speed_positive : Guard (Console MotorParameter)
ref_speed_positive d w = speed_asked w

-- The chart of `main`.
unfoldable pub make_motor : Make (Console MotorParameter) ℕ
make_motor = do
  initial ← create "start" (pseudo_state start) no_actions (some 0)
  idle ←
      create "Idle" simple_state
        (record (entry (acts (say "Motor is halted\n"))) {
          exit_action = acts (say "Motor is started\n");
        })
        (some 0)
  start_state ← create "Start" simple_state no_actions (some 0)
  spinning ← create "Spinning" simple_state no_actions (some 0)
  stop ← create "Stop" simple_state no_actions (some 0)
  create_transition (some initial) (some idle) no_transition
  create_transition (some idle) (some start_state)
      (record (on set_speed) { guard = some ref_speed_positive; action = save_reference_speed })
  create_transition (some start_state) (some stop) (on halt)
  create_transition (some start_state) (some spinning)
      (record (on set_speed) { guard = some ref_speed_positive; action = save_reference_speed })
  create_transition (some spinning) (some spinning)
      (record (internal set_speed) { action = save_reference_speed })
  create_transition (some spinning) (some stop) (on halt)
  create_transition (some stop) (some idle) no_transition

abbrev pub motor : Chart (Console MotorParameter)
motor = built (new_statechart "Motor") (make_motor (new_statechart "Motor"))

abbrev pub ask_speed : ℤ → String → Console MotorParameter → Console MotorParameter
ask_speed speed line w =
    let told : Console MotorParameter = say line w in
    record told { parameter = record told.parameter { reference_speed = speed } }

-- What `main` does behind the start of the chart, and what it has before.
abbrev pub motor_script : List ((Console MotorParameter → Console MotorParameter) × Option Event)
motor_script =
    (ask_speed (pos 100) "\n>> setSpeed(100) : start motor\n", some set_speed)
    ∷ (
      ask_speed (pos 200) "\n>> setSpeed(200) : update reference speed (Start -> Spinning)\n",
      some set_speed,
    )
    ∷ (
      ask_speed (pos 150) "\n>> setSpeed(150) : internal transition (Spinning stays Spinning)\n",
      some set_speed,
    )
    ∷ (say "\n>> halt : stop motor\n", some halt)
    ∷ []

abbrev pub motor_begin : Console MotorParameter
motor_begin =
    begin (record { reference_speed = pos 0; m_reference_speed = pos 0 })
      (text "=== Motor controller example ===\n" ∷ [])
