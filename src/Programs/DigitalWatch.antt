-- ===== src/Programs/DigitalWatch.antt =====
-- doc/examples/DigitalWatch/digital_watch.cpp.
pub mod Laws
use cpp_statecharts.Base.{
  ℕ, ◌+◌, ◌%◌, ◌==◌, Bool, ◌&&◌, Option, some, List, [], ◌∷◌, ◌++◌, replicate,
}
use cpp_statecharts.Structure.{simple_state, pseudo_state, start}
use cpp_statecharts.Event.{Event, signal}
use cpp_statecharts.Chart.{Chart, Action, Guard}
use cpp_statecharts.Construction.Building.{
  new_statechart, create, create_condition, create_transition, no_actions, no_transition,
}
use cpp_statecharts.Programs.Making.{
  Console, text, number, cout, say, begin, acts, entry, on, internal, Make, ◌>>=◌, ◌>>◌, built, pos,
}

-- The members are not negative at the start, and no statement makes them so.
pub record WatchParameter : Type 0 where
  pub hours : ℕ
  pub minutes : ℕ

abbrev pub set_event : Event
set_event = signal "set"

abbrev pub incr_event : Event
incr_event = signal "incr"

abbrev pub beep : Option (Action (Console WatchParameter))
beep = acts (say "  *beep*\n")

abbrev pub next_hour : Console WatchParameter → Console WatchParameter
next_hour w =
    let h : ℕ = (w.parameter.hours + 1) % 24 in
    cout (text "  Hours -> " ∷ number (pos h) ∷ text "\n" ∷ [])
      (record w { parameter = record w.parameter { hours = h } })

abbrev pub increment_hours : Option (Action (Console WatchParameter))
increment_hours = acts next_hour

abbrev pub next_minute : Console WatchParameter → Console WatchParameter
next_minute w =
    let m : ℕ = (w.parameter.minutes + 1) % 60 in
    cout (text "  Minutes -> " ∷ number (pos m) ∷ text "\n" ∷ [])
      (record w { parameter = record w.parameter { minutes = m } })

abbrev pub increment_minutes : Option (Action (Console WatchParameter))
increment_minutes = acts next_minute

abbrev pub is_zero : Console WatchParameter → Bool
is_zero w = w.parameter.hours == 0 && w.parameter.minutes == 0

abbrev pub time_is_zero : Guard (Console WatchParameter)
time_is_zero d w = is_zero w

abbrev pub show_time : Console WatchParameter → Console WatchParameter
show_time w =
    cout
      (text "  Display: "
        ∷ number (pos w.parameter.hours)
        ∷ text "h"
        ∷ number (pos w.parameter.minutes)
        ∷ text "min\n"
        ∷ [])
      w

abbrev pub show_hours : Console WatchParameter → Console WatchParameter
show_hours w = cout (text "  Setting hours = " ∷ number (pos w.parameter.hours) ∷ text "\n" ∷ []) w

abbrev pub show_minutes : Console WatchParameter → Console WatchParameter
show_minutes w =
    cout (text "  Setting minutes = " ∷ number (pos w.parameter.minutes) ∷ text "\n" ∷ []) w

-- The chart of `main`.
unfoldable pub make_digital_watch : Make (Console WatchParameter) ℕ
make_digital_watch = do
  initial ← create "start" (pseudo_state start) no_actions (some 0)
  idle ← create "Idle" simple_state (record no_actions { do_action = acts show_time }) (some 0)
  setting_hours ←
      create "SettingHours" simple_state (record (entry beep) { do_action = acts show_hours })
        (some 0)
  setting_minutes ←
      create "SettingMinutes" simple_state (record (entry beep) { do_action = acts show_minutes })
        (some 0)
  init_junction ←
      create_condition "initJunction" (some 0) (some time_is_zero) (some setting_hours) (some idle)
  create_transition (some initial) (some init_junction) no_transition
  create_transition (some idle) (some setting_hours) (on set_event)
  create_transition (some setting_hours) (some setting_minutes) (on set_event)
  create_transition (some setting_minutes) (some idle) (on set_event)
  create_transition (some setting_hours) (some setting_hours)
      (record (internal incr_event) { action = increment_hours })
  create_transition (some setting_minutes) (some setting_minutes)
      (record (internal incr_event) { action = increment_minutes })

abbrev pub digital_watch : Chart (Console WatchParameter)
digital_watch =
    built (new_statechart "DigitalWatch") (make_digital_watch (new_statechart "DigitalWatch"))

-- What `main` does behind the start of the chart, and what it has before.
abbrev pub digital_watch_script :
    List ((Console WatchParameter → Console WatchParameter) × Option Event)
digital_watch_script =
    (say "\n>> Increment hours 3 times\n", some incr_event)
      ∷ ((λ w. w), some incr_event)
      ∷ ((λ w. w), some incr_event)
      ∷ (say "\n>> set : SettingHours -> SettingMinutes\n", some set_event)
      ∷ (say "\n>> Increment minutes 5 times\n", some incr_event)
      ∷ replicate 4 ((λ w. w), some incr_event)
    ++ ((say "\n>> set : SettingMinutes -> Idle\n", some set_event) ∷ [])

abbrev pub digital_watch_begin : Console WatchParameter
digital_watch_begin =
    begin (record { hours = 0; minutes = 0 })
      (text "=== Digital watch (initial: 0h0min => SettingHours) ===\n" ∷ [])
