-- ===== src/Programs/SelfParking/Laws.antt =====
-- doc/examples/SelfParking/self_parking.cpp: the chart of the program, and where it drives.
use cpp_statecharts.Base.{ℕ, ◌≡◌, true, false, not, List, [], ◌∷◌, at_index}
use cpp_statecharts.Event.{Event}
use cpp_statecharts.Programs.Making.{Console, say}
use cpp_statecharts.Flat.Machine.{Machine, Edge, by_event, by_itself}
use cpp_statecharts.Programs.SelfParking.{
  ParkParameter, turning_indicator, update_event, is_found, is_not_found, log_line, trajectory_done,
}

abbrev diagram_edges : List (List (Edge (Console ParkParameter)))
diagram_edges =
    []
    ∷ (by_itself (λ w. true) 2 ∷ [])
    ∷ (record (by_event turning_indicator (λ w. w) 5) { guard = λ w. w.parameter.is_parked }
        ∷ record (by_event turning_indicator (λ w. w) 3) { guard = λ w. not w.parameter.is_parked }
        ∷ [])
    ∷ (by_itself (λ w. is_not_found w.parameter.scan_status) 7
        ∷ by_itself (λ w. is_found w.parameter.scan_status) 4
        ∷ [])
    ∷ (by_itself (λ w. not w.parameter.has_trajectory) 7
        ∷ by_itself (λ w. not w.parameter.can_park) 2
        ∷ by_itself (λ w. w.parameter.has_trajectory) 6
        ∷ [])
    ∷ (by_itself (λ w. not w.parameter.has_trajectory) 7
        ∷ by_itself (λ w. w.parameter.has_trajectory) 6
        ∷ [])
    ∷ (record (by_event update_event (λ w. w) 7) { guard = λ w. not w.parameter.can_drive } ∷ [])
    ∷ (by_itself (λ w. true) 2 ∷ [])
    ∷ []

abbrev on_entry : ℕ → Console ParkParameter → Console ParkParameter
on_entry =
    at_index (λ w. w)
      ((λ w. w)
        ∷ (λ w. w)
        ∷ say "[IDLE]\n"
        ∷ log_line "[SCAN_PARKING_SPOTS] entering"
        ∷ log_line "[COMPUTE_ENTERING_TRAJECTORY] computeTrajectoryEnteringSlot()"
        ∷ log_line "[COMPUTE_LEAVING_TRAJECTORY] computeTrajectoryLeavingSlot()"
        ∷ log_line "[DRIVE_ALONG_TRAJECTORY] entering"
        ∷ say trajectory_done
        ∷ [])

abbrev on_do : ℕ → Console ParkParameter → Console ParkParameter
on_do =
    at_index (λ w. w)
      ((λ w. w)
        ∷ (λ w. w)
        ∷ (λ w. w)
        ∷ log_line "(scanning slots ...)"
        ∷ (λ w. w)
        ∷ (λ w. w)
        ∷ log_line "(driving along trajectory)"
        ∷ [])

abbrev pub diagram : Machine (Console ParkParameter)
diagram = record {
  edges = at_index [] diagram_edges;
  is_choice = λ s. false;
  on_entry = on_entry;
  on_do = on_do;
  on_exit = λ s w. w;
}

abbrev pub ids : List ℕ
ids = 1 ∷ 2 ∷ 3 ∷ 4 ∷ 5 ∷ 6 ∷ 7 ∷ []

abbrev rank : ℕ → ℕ
rank = at_index 0 (0 ∷ 1 ∷ 0 ∷ 3 ∷ 2 ∷ 2 ∷ 0 ∷ 1 ∷ [])

-- Behind the state DRIVE_ALONG_TRAJECTORY there is a trajectory.
abbrev pub OnTrajectoryIn : ℕ → ParkParameter → Type 0
OnTrajectoryIn =
    at_index (λ p. Unit)
      ((λ p. Unit)
        ∷ (λ p. Unit)
        ∷ (λ p. Unit)
        ∷ (λ p. Unit)
        ∷ (λ p. Unit)
        ∷ (λ p. Unit)
        ∷ (λ p. p.has_trajectory ≡ true)
        ∷ [])

abbrev pub OnTrajectory : ℕ → Console ParkParameter → Type 0
OnTrajectory s w = OnTrajectoryIn s w.parameter
