-- ===== src/Programs/Pompe.antt =====
-- doc/examples/Pompe/pompe.cpp.
use cpp_statecharts.Base.{ℕ, ◌/◌, Bool, true, false, not, ◌&&◌, Option, some, [], ◌∷◌}
use cpp_statecharts.Structure.{simple_state, pseudo_state, start, hierarchical_state}
use cpp_statecharts.Event.{Event, Uuid, signal, timeout_event}
use cpp_statecharts.Chart.{Chart, Action, Guard}
use cpp_statecharts.Construction.Building.{
  new_statechart, create, create_transition, no_actions, no_transition,
}
use cpp_statecharts.Programs.Making.{
  Console, text, number, cout, say, begin, acts, entry, on, Make, ◌>>=◌, ◌>>◌, built, pos,
}

abbrev pub sim_div : ℕ
sim_div = 10

abbrev pub timeout_40s_ms : ℕ
timeout_40s_ms = 40000 / sim_div

abbrev pub timeout_20s_ms : ℕ
timeout_20s_ms = 20000 / sim_div

abbrev pub timeout_5s_ms : ℕ
timeout_5s_ms = 5000 / sim_div

pub record PompeParameter : Type 0 where
  pub hm : Bool
  pub au : Bool
  pub dhm : Bool
  pub dpp : Bool

abbrev pub bpm_event : Event
bpm_event = signal "BPM"

abbrev pub bpa_event : Event
bpa_event = signal "BPA"

abbrev pub au_event : Event
au_event = signal "AU"

abbrev pub dpp_event : Event
dpp_event = signal "DPP"

abbrev pub falling_hm : Event
falling_hm = signal "falling_HM"

abbrev pub rising_hm : Event
rising_hm = signal "rising_HM"

abbrev pub acq_event : Event
acq_event = signal "Acq"

abbrev pub start_pump : Option (Action (Console PompeParameter))
start_pump = acts (say "  >> startPump()\n")

abbrev pub stop_pump : Option (Action (Console PompeParameter))
stop_pump = acts (say "  >> stopPump()\n")

abbrev pub alarm : ℕ → Option (Action (Console PompeParameter))
alarm n = acts (cout (text "  >> alarmType" ∷ number (pos n) ∷ text "()\n" ∷ []))

abbrev pub can_start : Guard (Console PompeParameter)
can_start d w = w.parameter.hm && not w.parameter.au && not w.parameter.dhm && not w.parameter.dpp

-- The chart of `main`. The identifiers are those that the three timeout events draw.
unfoldable pub make_pompe : (after_40s after_20s after_5s : Uuid) → Make (Console PompeParameter) ℕ
make_pompe after_40s after_20s after_5s = do
  initial ← create "start" (pseudo_state start) no_actions (some 0)
  pump_stopped ←
      create "PumpStopped" simple_state (entry (acts (say "[PumpStopped] pump idle\n"))) (some 0)
  default_state ←
      create "Default" simple_state (record (entry stop_pump) { do_action = alarm 3 }) (some 0)
  return_to_service ←
      create "ReturnToService" simple_state
        (entry (acts (say "[ReturnToService] returning to service\n"))) (some 0)
  pump_running ←
      create "PumpRunning" hierarchical_state (entry (acts (say "[PumpRunning] pump running\n")))
        (some 0)
  wait_for_hm_release ← create "WaitForHMRelease" hierarchical_state no_actions (some pump_running)
  whmr_start ← create "whmrStart" (pseudo_state start) no_actions (some wait_for_hm_release)
  start_pump_state ← create "StartPump" simple_state (entry start_pump) (some wait_for_hm_release)
  wait40 ←
      create "Wait40Seconds" simple_state (entry (acts (say "  [Wait40Seconds]\n")))
        (some wait_for_hm_release)
  wait20 ←
      create "Wait20Seconds" simple_state
        (record (entry (acts (say "  [Wait20Seconds] entering alarm window\n"))) {
          do_action = alarm 1;
        })
        (some wait_for_hm_release)
  wait_for_hm ←
      create "WaitForHM" simple_state
        (record (entry (acts (say "  [WaitForHM] HM released, type-2 alarm\n"))) {
          do_action = alarm 2;
        })
        (some pump_running)
  create_transition (some initial) (some pump_stopped) no_transition
  create_transition (some pump_stopped) (some start_pump_state)
      (record (on bpm_event) { guard = some can_start })
  create_transition (some whmr_start) (some start_pump_state) no_transition
  create_transition (some start_pump_state) (some wait40) no_transition
  create_transition (some wait40) (some wait20) (on (timeout_event after_40s timeout_40s_ms))
  create_transition (some wait20) (some default_state) (on (timeout_event after_20s timeout_20s_ms))
  create_transition (some wait_for_hm_release) (some wait_for_hm) (on falling_hm)
  create_transition (some wait_for_hm) (some wait40) (on rising_hm)
  create_transition (some wait_for_hm) (some default_state)
      (on (timeout_event after_5s timeout_5s_ms))
  create_transition (some pump_running) (some pump_stopped) (on au_event)
  create_transition (some pump_running) (some pump_stopped) (on bpa_event)
  create_transition (some pump_running) (some pump_stopped) (on dpp_event)
  create_transition (some default_state) (some return_to_service) (on acq_event)
  create_transition (some return_to_service) (some pump_stopped) no_transition

abbrev pub pompe : (after_40s after_20s after_5s : Uuid) → Chart (Console PompeParameter)
pompe after_40s after_20s after_5s =
    built (new_statechart "Pump") (make_pompe after_40s after_20s after_5s (new_statechart "Pump"))

abbrev pub pompe_begin : Console PompeParameter
pompe_begin =
    begin (record { hm = true; au = false; dhm = false; dpp = false })
      (text "=== Dead-Man pump controller (timeouts /" ∷ number (pos sim_div) ∷ text ") ===\n" ∷ [])
