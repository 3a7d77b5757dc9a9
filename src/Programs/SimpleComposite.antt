-- ===== src/Programs/SimpleComposite.antt =====
-- doc/examples/SimpleComposite/simple_composite.cpp.
use cpp_statecharts.Base.{ℕ, Option, some, List, [], ◌∷◌}
use cpp_statecharts.Structure.{simple_state, pseudo_state, start, hierarchical_state}
use cpp_statecharts.Event.{Event, signal}
use cpp_statecharts.Chart.{Chart}
use cpp_statecharts.Construction.Building.{
  new_statechart, create, create_transition, no_actions, no_transition,
}
use cpp_statecharts.Programs.Making.{
  Console, text, say, begin, acts, entry, on, Make, ◌>>=◌, ◌>>◌, built,
}

-- The program's Parameter has no members.
abbrev pub Nothing : Type 0
Nothing = Unit {0}

abbrev pub on_event : Event
on_event = signal "on"

abbrev pub off_event : Event
off_event = signal "off"

abbrev pub enable_event : Event
enable_event = signal "enable"

abbrev pub disable_event : Event
disable_event = signal "disable"

-- The chart of `main`.
unfoldable pub make_simple_composite : Make (Console Nothing) ℕ
make_simple_composite = do
  initial ← create "start" (pseudo_state start) no_actions (some 0)
  enable_system ←
      create "EnableSystem" hierarchical_state
        (record (entry (acts (say "[EnableSystem] entered\n"))) {
          exit_action = acts (say "[EnableSystem] exited\n");
        })
        (some 0)
  enable_start ← create "enableStart" (pseudo_state start) no_actions (some enable_system)
  lit ← create "ON" simple_state (entry (acts (say "  [ON] light is on\n"))) (some enable_system)
  dark ←
      create "OFF" simple_state (entry (acts (say "  [OFF] light is off\n"))) (some enable_system)
  disable_system ←
      create "DisableSystem" simple_state (entry (acts (say "[DisableSystem] entered\n"))) (some 0)
  create_transition (some initial) (some enable_system) no_transition
  create_transition (some enable_start) (some lit) no_transition
  create_transition (some lit) (some dark) (on off_event)
  create_transition (some dark) (some lit) (on on_event)
  create_transition (some enable_system) (some disable_system) (on disable_event)
  create_transition (some disable_system) (some enable_system) (on enable_event)

abbrev pub simple_composite : Chart (Console Nothing)
simple_composite =
    built (new_statechart "SimpleComposite")
      (make_simple_composite (new_statechart "SimpleComposite"))

-- What `main` does behind the start of the chart, and what it has before.
abbrev pub simple_composite_script : List ((Console Nothing → Console Nothing) × Option Event)
simple_composite_script =
    (say "\n>> off: ON -> OFF\n", some off_event)
    ∷ (say "\n>> on : OFF -> ON\n", some on_event)
    ∷ (say "\n>> disable: EnableSystem -> DisableSystem\n", some disable_event)
    ∷ (say "\n>> enable : DisableSystem -> EnableSystem\n", some enable_event)
    ∷ []

abbrev pub simple_composite_begin : Console Nothing
simple_composite_begin = begin tt (text "=== Simple composite state ===\n" ∷ [])
