-- ===== src/Programs/LaneKeeping/Laws.antt =====
-- doc/examples/LaneKeeping/lane_keeping.cpp: the chart is the diagram at the head of the file, and
-- the lamps tell its state.
use cpp_statecharts.Base.{
  ℕ, ◌≡◌, refl, ◌==◌, Bool, true, false, Option, List, [], ◌∷◌, at_index, All, arith, if◌then◌else◌,
  suc, ◌≤◌,
}
use cpp_statecharts.Event.{Event}
use cpp_statecharts.Runtime.{Run}
use cpp_statecharts.Programs.Making.{Console, making}
use cpp_statecharts.Flat.Machine.{Machine, Edge, by_event, by_itself}
use cpp_statecharts.Flat.Implementing.{Implements, IsState, is_edge, is_state}
use cpp_statecharts.Flat.Sessions.{Starts, run_program}
use cpp_statecharts.Flat.Conditions.{IsSafe}
use cpp_statecharts.Flat.Safety.{ReturnsIn, KeepsScript, program_keeps}
use cpp_statecharts.Programs.LaneKeeping.{
  LksParameter, btn_lks, detect, not_detect, set, cancel, put_flags, make_lane_keeping,
  lane_keeping,
}

abbrev lamps : (lks lane steering servoing : Bool) → Console LksParameter → Console LksParameter
lamps = put_flags

abbrev diagram_edges : List (List (Edge (Console LksParameter)))
diagram_edges =
    []
    ∷ (by_itself (λ w. true) 2 ∷ [])
    ∷ (by_event btn_lks (lamps true false false false) 3 ∷ [])
    ∷ (by_event btn_lks (lamps false false false false) 2
        ∷ by_event detect (lamps true true false false) 4
        ∷ [])
    ∷ (by_event btn_lks (lamps false false false false) 2
        ∷ by_event not_detect (lamps true false false false) 6
        ∷ by_event set (lamps true true true true) 5
        ∷ [])
    ∷ (by_event not_detect (lamps true false false false) 6
        ∷ by_event btn_lks (lamps false false false false) 2
        ∷ by_event cancel (lamps true true false false) 4
        ∷ [])
    ∷ (by_event detect (lamps true true false false) 4
        ∷ by_event btn_lks (lamps false false false false) 2
        ∷ [])
    ∷ []

abbrev pub diagram : Machine (Console LksParameter)
diagram = record {
  edges = at_index [] diagram_edges;
  is_choice = λ s. false;
  on_entry = λ s w. w;
  on_do = λ s w. w;
  on_exit = λ s w. w;
}

abbrev pub ids : List ℕ
ids = 1 ∷ 2 ∷ 3 ∷ 4 ∷ 5 ∷ 6 ∷ []

state1 : IsState lane_keeping diagram ids 1
unfolding making make_lane_keeping
state1 =
    is_state lane_keeping diagram ids 1 tt refl refl refl
      (
        is_edge lane_keeping diagram ids refl tt (λ d w. refl) (λ r. refl)
            (refl, refl, refl, refl, refl),
        tt,
      )
      tt (λ r. refl) (λ r. refl) (λ w h. refl) (λ r. refl)

state2 : IsState lane_keeping diagram ids 2
unfolding making make_lane_keeping
state2 =
    is_state lane_keeping diagram ids 2 tt refl refl refl
      (
        is_edge lane_keeping diagram ids refl tt (λ d w. refl) (λ r. refl)
            (refl, refl, refl, refl, refl),
        tt,
      )
      tt (λ r. refl) (λ r. refl) (λ w h. refl) (λ r. refl)

state3 : IsState lane_keeping diagram ids 3
unfolding making make_lane_keeping
state3 =
    is_state lane_keeping diagram ids 3 tt refl refl refl
      (
        is_edge lane_keeping diagram ids refl tt (λ d w. refl) (λ r. refl)
            (refl, refl, refl, refl, refl),
        (
          is_edge lane_keeping diagram ids refl tt (λ d w. refl) (λ r. refl)
              (refl, refl, refl, refl, refl),
          tt,
        ),
      )
      tt (λ r. refl) (λ r. refl) (λ w h. refl) (λ r. refl)

state4 : IsState lane_keeping diagram ids 4
unfolding making make_lane_keeping
state4 =
    is_state lane_keeping diagram ids 4 tt refl refl refl
      (
        is_edge lane_keeping diagram ids refl tt (λ d w. refl) (λ r. refl)
            (refl, refl, refl, refl, refl),
        (
          is_edge lane_keeping diagram ids refl tt (λ d w. refl) (λ r. refl)
              (refl, refl, refl, refl, refl),
          (
            is_edge lane_keeping diagram ids refl tt (λ d w. refl) (λ r. refl)
                (refl, refl, refl, refl, refl),
            tt,
          ),
        ),
      )
      tt (λ r. refl) (λ r. refl) (λ w h. refl) (λ r. refl)

state5 : IsState lane_keeping diagram ids 5
unfolding making make_lane_keeping
state5 =
    is_state lane_keeping diagram ids 5 tt refl refl refl
      (
        is_edge lane_keeping diagram ids refl tt (λ d w. refl) (λ r. refl)
            (refl, refl, refl, refl, refl),
        (
          is_edge lane_keeping diagram ids refl tt (λ d w. refl) (λ r. refl)
              (refl, refl, refl, refl, refl),
          (
            is_edge lane_keeping diagram ids refl tt (λ d w. refl) (λ r. refl)
                (refl, refl, refl, refl, refl),
            tt,
          ),
        ),
      )
      tt (λ r. refl) (λ r. refl) (λ w h. refl) (λ r. refl)

state6 : IsState lane_keeping diagram ids 6
unfolding making make_lane_keeping
state6 =
    is_state lane_keeping diagram ids 6 tt refl refl refl
      (
        is_edge lane_keeping diagram ids refl tt (λ d w. refl) (λ r. refl)
            (refl, refl, refl, refl, refl),
        (
          is_edge lane_keeping diagram ids refl tt (λ d w. refl) (λ r. refl)
              (refl, refl, refl, refl, refl),
          tt,
        ),
      )
      tt (λ r. refl) (λ r. refl) (λ w h. refl) (λ r. refl)

pub lane_keeping-Implements : Implements lane_keeping diagram ids
lane_keeping-Implements = (state1, (state2, (state3, (state4, (state5, (state6, tt))))))

pub lane_keeping-Starts : Starts lane_keeping ids 1
unfolding making make_lane_keeping
lane_keeping-Starts = record { root_context = refl; start_state = refl; member = refl }

-- What the lamps show in each state.
abbrev pub Shows : (lks lane steering servoing : Bool) → LksParameter → Type 0
Shows lks lane steering servoing p =
    (p.led_lks ≡ lks) × (p.led_lane ≡ lane) × (p.led_steering ≡ steering) × (p.servoing ≡ servoing)

abbrev pub LitIn : ℕ → LksParameter → Type 0
LitIn = at_index (Shows false false false false) (
    Shows false false false false
    ∷ Shows false false false false
    ∷ Shows false false false false
    ∷ Shows true false false false
    ∷ Shows true true false false
    ∷ Shows true true true true
    ∷ Shows true false false false
    ∷ [])

abbrev pub Lit : ℕ → Console LksParameter → Type 0
Lit s w = LitIn s w.parameter

abbrev pub rank : ℕ → ℕ
rank s = if s == 1 then 1 else 0

pub safe : IsSafe diagram ids Lit rank
safe = (
  ((omega arith, refl, λ w h t g. h), tt),
  (
    ((tt, refl, λ w h t g. (refl, refl, refl, refl)), tt),
    (
      (
        (tt, refl, λ w h t g. (refl, refl, refl, refl)),
        ((tt, refl, λ w h t g. (refl, refl, refl, refl)), tt),
      ),
      (
        (
          (tt, refl, λ w h t g. (refl, refl, refl, refl)),
          (
            (tt, refl, λ w h t g. (refl, refl, refl, refl)),
            ((tt, refl, λ w h t g. (refl, refl, refl, refl)), tt),
          ),
        ),
        (
          (
            (tt, refl, λ w h t g. (refl, refl, refl, refl)),
            (
              (tt, refl, λ w h t g. (refl, refl, refl, refl)),
              ((tt, refl, λ w h t g. (refl, refl, refl, refl)), tt),
            ),
          ),
          (
            (
              (tt, refl, λ w h t g. (refl, refl, refl, refl)),
              ((tt, refl, λ w h t g. (refl, refl, refl, refl)), tt),
            ),
            tt,
          ),
        ),
      ),
    ),
  ),
)

pub bounded_rank : All (λ c. rank c ≤ 999) ids
bounded_rank =
    (omega arith, (omega arith, (omega arith, (omega arith, (omega arith, (omega arith, tt))))))

-- Whatever events the program dispatches behind the start of the chart, with all lamps off at the
-- start, and as long as it does not switch the lamps itself: it returns, and then the lamps are
-- those of the state that the chart stands in. All are off in LKSModeOff, that of the system is on
-- in LKSModeOn and WaitDetect, that of the lane too in DetectLane, and all four, with the servo, in
-- FollowLane.
pub lamps_tell_state :
    (n : ℕ) (script : List ((Console LksParameter → Console LksParameter) × Option Event))
    (r : Run (Console LksParameter))
    → KeepsScript Lit script
    → Shows false false false false r.world.parameter
    → ReturnsIn ids Lit lane_keeping (run_program lane_keeping (suc (suc n)) script r)
unfolding making make_lane_keeping
lamps_tell_state n script r k h =
    program_keeps diagram ids Lit rank safe 999 bounded_rank lane_keeping lane_keeping-Implements n
      1 script r refl lane_keeping-Starts k h
