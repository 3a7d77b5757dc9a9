-- ===== src/Programs/SelfParking.antt =====
-- doc/examples/SelfParking/self_parking.cpp.
pub mod Laws
use cpp_statecharts.Base.{ℕ, Bool, true, false, not, String, Option, none, some, List, [], ◌∷◌}
use cpp_statecharts.Structure.{simple_state, pseudo_state, start}
use cpp_statecharts.Event.{Event, signal}
use cpp_statecharts.Chart.{Chart, Guard}
use cpp_statecharts.Construction.Building.{
  new_statechart, create, create_transition, no_actions, no_transition,
}
use cpp_statecharts.Programs.Making.{
  Console, text, flag, cout, say, begin, acts, entry, on, Make, ◌>>=◌, ◌>>◌, built,
}

pub data ScanStatus : Type 0 where
  searching slot_found slot_not_found : ScanStatus

pub record ParkParameter : Type 0 where
  pub is_parked : Bool
  pub has_trajectory : Bool
  pub can_park : Bool
  pub can_drive : Bool
  pub scan_status : ScanStatus

abbrev pub turning_indicator : Event
turning_indicator = signal "turning_indicator"

abbrev pub update_event : Event
update_event = signal "update"

abbrev pub is_found : ScanStatus → Bool
is_found slot_found = true
is_found _ = false

abbrev pub is_not_found : ScanStatus → Bool
is_not_found slot_not_found = true
is_not_found _ = false

abbrev pub guard_on : (ParkParameter → Bool) → Guard (Console ParkParameter)
guard_on p d w = p w.parameter

-- The function `log`.
abbrev pub log_line : String → Console ParkParameter → Console ParkParameter
log_line msg = cout (text "  " ∷ text msg ∷ text "\n" ∷ [])

abbrev pub status_to_string : ScanStatus → String
status_to_string searching = "SEARCHING"
status_to_string slot_found = "SLOT_FOUND"
status_to_string slot_not_found = "SLOT_NOT_FOUND"

-- The function `dump`.
abbrev pub dump : Console ParkParameter → Console ParkParameter
dump w =
    cout
      (text "    -> isParked="
        ∷ flag w.parameter.is_parked
        ∷ text " scan="
        ∷ text (status_to_string w.parameter.scan_status)
        ∷ text " hasTrajectory="
        ∷ flag w.parameter.has_trajectory
        ∷ text " canPark="
        ∷ flag w.parameter.can_park
        ∷ text " canDrive="
        ∷ flag w.parameter.can_drive
        ∷ text "\n"
        ∷ [])
      w

abbrev pub trajectory_done : String
trajectory_done = "[TRAJECTORY_DONE] setRefSpeed(0) turning_indicator(false,false)\n"

-- The chart of `main`.
unfoldable pub make_self_parking : Make (Console ParkParameter) ℕ
make_self_parking = do
  initial ← create "start" (pseudo_state start) no_actions (some 0)
  idle ← create "IDLE" simple_state (entry (acts (say "[IDLE]\n"))) (some 0)
  scan ←
      create "SCAN_PARKING_SPOTS" simple_state
        (record (entry (acts (log_line "[SCAN_PARKING_SPOTS] entering"))) {
          do_action = acts (log_line "(scanning slots ...)");
        })
        (some 0)
  compute_entering ←
      create "COMPUTE_ENTERING_TRAJECTORY" simple_state
        (entry (acts (log_line "[COMPUTE_ENTERING_TRAJECTORY] computeTrajectoryEnteringSlot()")))
        (some 0)
  compute_leaving ←
      create "COMPUTE_LEAVING_TRAJECTORY" simple_state
        (entry (acts (log_line "[COMPUTE_LEAVING_TRAJECTORY] computeTrajectoryLeavingSlot()")))
        (some 0)
  drive ←
      create "DRIVE_ALONG_TRAJECTORY" simple_state
        (record (entry (acts (log_line "[DRIVE_ALONG_TRAJECTORY] entering"))) {
          do_action = acts (log_line "(driving along trajectory)");
        })
        (some 0)
  finish ← create "TRAJECTORY_DONE" simple_state (entry (acts (say trajectory_done))) (some 0)
  create_transition (some initial) (some idle) no_transition
  create_transition (some idle) (some scan)
      (record (on turning_indicator) { guard = some (guard_on (λ p. not p.is_parked)) })
  create_transition (some idle) (some compute_leaving)
      (record (on turning_indicator) { guard = some (guard_on (λ p. p.is_parked)) })
  create_transition (some scan) (some compute_entering)
      (record no_transition { guard = some (guard_on (λ p. is_found p.scan_status)) })
  create_transition (some scan) (some finish)
      (record no_transition { guard = some (guard_on (λ p. is_not_found p.scan_status)) })
  create_transition (some compute_entering) (some drive)
      (record no_transition { guard = some (guard_on (λ p. p.has_trajectory)) })
  create_transition (some compute_entering) (some idle)
      (record no_transition { guard = some (guard_on (λ p. not p.can_park)) })
  create_transition (some compute_entering) (some finish)
      (record no_transition { guard = some (guard_on (λ p. not p.has_trajectory)) })
  create_transition (some compute_leaving) (some drive)
      (record no_transition { guard = some (guard_on (λ p. p.has_trajectory)) })
  create_transition (some compute_leaving) (some finish)
      (record no_transition { guard = some (guard_on (λ p. not p.has_trajectory)) })
  create_transition (some drive) (some finish)
      (record (on update_event) { guard = some (guard_on (λ p. not p.can_drive)) })
  create_transition (some finish) (some idle) no_transition

abbrev pub self_parking : Chart (Console ParkParameter)
self_parking =
    built (new_statechart "SelfParking") (make_self_parking (new_statechart "SelfParking"))

abbrev pub report : ScanStatus → Console ParkParameter → Console ParkParameter
report status w = record w { parameter = record w.parameter { scan_status = status } }

abbrev pub stop_driving : Console ParkParameter → Console ParkParameter
stop_driving w = record w { parameter = record w.parameter { can_drive = false } }

-- What `main` does behind the start of the chart, and what it has before.
abbrev pub self_parking_script :
    List ((Console ParkParameter → Console ParkParameter) × Option Event)
self_parking_script =
    ((λ w. say ">> turning indicator on\n" (dump w)), some turning_indicator)
    ∷ ((λ w. report slot_found (say ">> scanner reports SLOT_FOUND\n" (dump w))), none)
    ∷ (say ">> tick (dt) - keep driving\n", some update_event)
    ∷ ((λ w. stop_driving (say ">> tick (dt) - canDrive becomes false\n" w)), some update_event)
    ∷ []

abbrev pub self_parking_begin : Console ParkParameter
self_parking_begin =
    begin
      (record {
        is_parked = false;
        has_trajectory = true;
        can_park = true;
        can_drive = true;
        scan_status = searching;
      })
      (text "=== Scenario 1: park into the next free slot ===\n" ∷ [])
