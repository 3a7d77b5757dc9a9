-- ===== src/Programs/LaneKeeping.antt =====
-- doc/examples/LaneKeeping/lane_keeping.cpp.
pub mod Laws
use cpp_statecharts.Base.{ℕ, Bool, true, false, Option, some, List, [], ◌∷◌}
use cpp_statecharts.Structure.{simple_state, pseudo_state, start}
use cpp_statecharts.Event.{Event, signal}
use cpp_statecharts.Chart.{Chart, Action}
use cpp_statecharts.Construction.Building.{
  new_statechart, create, create_transition, no_actions, no_transition,
}
use cpp_statecharts.Programs.Making.{
  Console, Piece, text, flag, cout, acts, say, begin, on, Make, ◌>>=◌, ◌>>◌, built,
}

pub record LksParameter : Type 0 where
  pub led_lks : Bool
  pub led_lane : Bool
  pub led_steering : Bool
  pub servoing : Bool

abbrev pub btn_lks : Event
btn_lks = signal "btn_LKS"

abbrev pub detect : Event
detect = signal "detect"

abbrev pub not_detect : Event
not_detect = signal "not_detect"

abbrev pub set : Event
set = signal "set"

abbrev pub cancel : Event
cancel = signal "cancel"

-- LksParameter::dump.
abbrev pub dump : LksParameter → List Piece
dump p =
    text "  LKS="
    ∷ flag p.led_lks
    ∷ text " lane="
    ∷ flag p.led_lane
    ∷ text " steering="
    ∷ flag p.led_steering
    ∷ text " servoing="
    ∷ flag p.servoing
    ∷ text "\n"
    ∷ []

abbrev pub put_flags :
    (lks lane steering servoing : Bool) → Console LksParameter → Console LksParameter
put_flags lks lane steering servoing w =
    let p : LksParameter = record {
      led_lks = lks;
      led_lane = lane;
      led_steering = steering;
      servoing = servoing;
    } in
    cout (dump p) (record w { parameter = p })

abbrev pub set_flags : (lks lane steering servoing : Bool) → Option (Action (Console LksParameter))
set_flags lks lane steering servoing = acts (put_flags lks lane steering servoing)

-- The chart of `main`.
unfoldable pub make_lane_keeping : Make (Console LksParameter) ℕ
make_lane_keeping = do
  initial ← create "start" (pseudo_state start) no_actions (some 0)
  lks_off ← create "LKSModeOff" simple_state no_actions (some 0)
  lks_on ← create "LKSModeOn" simple_state no_actions (some 0)
  detect_lane ← create "DetectLane" simple_state no_actions (some 0)
  follow_lane ← create "FollowLane" simple_state no_actions (some 0)
  wait_detect ← create "WaitDetect" simple_state no_actions (some 0)
  create_transition (some initial) (some lks_off) no_transition
  create_transition (some lks_off) (some lks_on)
      (record (on btn_lks) { action = set_flags true false false false })
  create_transition (some lks_on) (some lks_off)
      (record (on btn_lks) { action = set_flags false false false false })
  create_transition (some lks_on) (some detect_lane)
      (record (on detect) { action = set_flags true true false false })
  create_transition (some detect_lane) (some lks_off)
      (record (on btn_lks) { action = set_flags false false false false })
  create_transition (some detect_lane) (some wait_detect)
      (record (on not_detect) { action = set_flags true false false false })
  create_transition (some detect_lane) (some follow_lane)
      (record (on set) { action = set_flags true true true true })
  create_transition (some follow_lane) (some wait_detect)
      (record (on not_detect) { action = set_flags true false false false })
  create_transition (some follow_lane) (some lks_off)
      (record (on btn_lks) { action = set_flags false false false false })
  create_transition (some follow_lane) (some detect_lane)
      (record (on cancel) { action = set_flags true true false false })
  create_transition (some wait_detect) (some detect_lane)
      (record (on detect) { action = set_flags true true false false })
  create_transition (some wait_detect) (some lks_off)
      (record (on btn_lks) { action = set_flags false false false false })

abbrev pub lane_keeping : Chart (Console LksParameter)
lane_keeping =
    built (new_statechart "LaneKeeping") (make_lane_keeping (new_statechart "LaneKeeping"))

-- What `main` does behind the start of the chart, and what it has before.
abbrev pub lane_keeping_script : List ((Console LksParameter → Console LksParameter) × Option Event)
lane_keeping_script =
    (say "\n>> Driver presses btn_LKS\n", some btn_lks)
    ∷ (say "\n>> Lane detected\n", some detect)
    ∷ (say "\n>> Driver activates set (follow lane)\n", some set)
    ∷ (say "\n>> Lane lost\n", some not_detect)
    ∷ (say "\n>> Lane re-detected\n", some detect)
    ∷ (say "\n>> Driver disables LKS\n", some btn_lks)
    ∷ []

abbrev pub lane_keeping_begin : Console LksParameter
lane_keeping_begin =
    begin (record { led_lks = false; led_lane = false; led_steering = false; servoing = false })
      (text "=== Lane Keeping System ===\n" ∷ [])
