-- ===== src/Examples/Flat.antt =====
-- The programs of doc/examples without composite states, run as their `main` runs them.
use cpp_statecharts.Base.{ℕ, ◌≡◌, ◌-◌, refl, none, some, Option, List, [], ◌∷◌, arith, is_some}
use cpp_statecharts.Event.{Event}
use cpp_statecharts.Metadata
use cpp_statecharts.Metadata.Table
use cpp_statecharts.Metadata.Substates.{substate}
use cpp_statecharts.Runtime.{Run, done, thrown, infinite_loop}
use cpp_statecharts.Statechart.{dispatch, start}
use cpp_statecharts.Flat.Machine.{react, step, play}
use cpp_statecharts.Flat.Implementing.{Represents}
use cpp_statecharts.Flat.Reacting.{Ends, dispatch_refines}
use cpp_statecharts.Flat.Sessions.{run_program}
use cpp_statecharts.Flat.Safety.{ReturnsIn, PlaysOut, program_keeps}
use cpp_statecharts.Programs.Making.{Console, making, pos}
use cpp_statecharts.Programs.LaneKeeping.{
  LksParameter, lane_keeping, lane_keeping_script, lane_keeping_begin, make_lane_keeping, btn_lks,
}
use cpp_statecharts.Programs.LaneKeeping.Laws as Lks
use cpp_statecharts.Programs.Gumball.{gumball, gumball_script, gumball_begin}
use cpp_statecharts.Programs.Gumball.Laws as Gum
use cpp_statecharts.Programs.InfiniteLoop.{infinite_loop_chart, infinite_loop_begin}
use cpp_statecharts.Programs.InfiniteLoop.Laws.{prints, lines_until_throw, start_is_broken_off}
use cpp_statecharts.Programs.Triggers.{triggers, triggers_script, triggers_begin}
use cpp_statecharts.Programs.Triggers.Laws.{route, route_taken}
use cpp_statecharts.Programs.RichMan.{rich_man, rich_man_script, rich_man_begin}
use cpp_statecharts.Programs.RichMan.Laws as Rich
use cpp_statecharts.Programs.DigitalWatch.{digital_watch, digital_watch_script, digital_watch_begin}
use cpp_statecharts.Programs.DigitalWatch.Laws as Watch
use cpp_statecharts.Programs.EthernetBox.{ethernet_box, ethernet_box_script, ethernet_box_begin}
use cpp_statecharts.Programs.EthernetBox.Laws as Box
use cpp_statecharts.Programs.SelfParking.{ParkParameter, turning_indicator, update_event}
use cpp_statecharts.Programs.SelfParking.Laws as Parking
use cpp_statecharts.Examples.Samples.{sample_meta, data_at}
use cpp_statecharts.Examples.Mains.{fresh}

abbrev tick : ℕ → ℕ
tick n = n

lamps_tell_state_example :
    ReturnsIn Lks.ids Lks.Lit lane_keeping
      (run_program lane_keeping 2 lane_keeping_script (fresh tick lane_keeping_begin))
lamps_tell_state_example =
    Lks.lamps_tell_state 0 lane_keeping_script (fresh tick lane_keeping_begin)
      (
        (λ c w p. p),
        ((λ c w p. p), ((λ c w p. p), ((λ c w p. p), ((λ c w p. p), ((λ c w p. p), tt))))),
      )
      (refl, refl, refl, refl)

gumballs_go_with_state_example :
    ReturnsIn Gum.ids Gum.InStock gumball
      (run_program gumball 2 gumball_script (fresh tick gumball_begin))
gumballs_go_with_state_example =
    Gum.gumballs_go_with_state 0 gumball_script (fresh tick gumball_begin)
      (
        (λ c w p. p),
        (
          (λ c w p. p),
          (
            (λ c w p. p),
            ((λ c w p. p), ((λ c w p. p), ((λ c w p. p), ((λ c w p. p), ((λ c w p. p), tt))))),
          ),
        ),
      )
      (omega arith)

start_is_broken_off_example :
    (s : Run _) × (start infinite_loop_chart 2 (fresh tick infinite_loop_begin)
      ≡ thrown infinite_loop s)
    × (substate infinite_loop_chart.root s.meta ≡ some 3)
    × (s.world ≡ prints lines_until_throw (fresh tick infinite_loop_begin).world)
start_is_broken_off_example = start_is_broken_off 0 (fresh tick infinite_loop_begin)

route_taken_example :
    (s : Run _) × (run_program triggers 2 triggers_script (fresh tick (triggers_begin (pos 20) ""))
      ≡ done tt s)
    × (substate triggers.root s.meta ≡ some (route (pos 20)))
route_taken_example = route_taken 0 (fresh tick (triggers_begin (pos 20) ""))

pockets_are_limited_example :
    ReturnsIn Rich.ids Rich.Counted rich_man
      (run_program rich_man 2 rich_man_script (fresh tick rich_man_begin))
pockets_are_limited_example =
    Rich.pockets_are_limited 0 rich_man_script (fresh tick rich_man_begin) (
      (λ c w p. p),
      (
        (λ c w p. p),
        (
          (λ c w p. p),
          (
            (λ c w p. p),
            (
              (λ c w p. p),
              (
                (λ c w p. p),
                (
                  (λ c w p. p),
                  (
                    (λ c w p. p),
                    ((λ c w p. p), ((λ c w p. p), ((λ c w p. p), ((λ c w p. p), tt)))),
                  ),
                ),
              ),
            ),
          ),
        ),
      ),
    )

hours_and_minutes_in_range_example :
    ReturnsIn Watch.ids Watch.IsTime digital_watch
      (run_program digital_watch 2 digital_watch_script (fresh tick digital_watch_begin))
hours_and_minutes_in_range_example =
    Watch.hours_and_minutes_in_range 0 digital_watch_script (fresh tick digital_watch_begin)
      (
        (λ c w p. p),
        (
          (λ c w p. p),
          (
            (λ c w p. p),
            (
              (λ c w p. p),
              (
                (λ c w p. p),
                ((λ c w p. p), ((λ c w p. p), ((λ c w p. p), ((λ c w p. p), ((λ c w p. p), tt))))),
              ),
            ),
          ),
        ),
      )
      (omega arith, omega arith)

-- The lane keeping system is switched off.
abbrev off_run : Run (Console LksParameter)
off_run = record (fresh tick lane_keeping_begin) {
  meta = sample_meta ((0, data_at 1 (some 2)) ∷ (2, data_at 2 none) ∷ []);
}

off-Represents : Represents lane_keeping Lks.diagram Lks.ids 2 lane_keeping_begin off_run
unfolding making make_lane_keeping Metadata.get_data Table.find
off-Represents = record {
  member = refl;
  root_data = data_at 1 (some 2);
  root_known = refl;
  current = refl;
  state_data = data_at 2 none;
  known = refl;
  active = refl;
  untimed = refl;
  alone = λ s n m. ground (arith, n, m);
  world = refl;
}

dispatch_refines_example :
    Ends lane_keeping Lks.diagram Lks.ids Lks.lane_keeping-Implements
      (is_some (step Lks.diagram (some btn_lks) 2 lane_keeping_begin))
      (react Lks.diagram
        (lane_keeping.infinite_loop_threshold - 1)
        (some btn_lks)
        2
        lane_keeping_begin)
      (dispatch lane_keeping 2 (some btn_lks) off_run)
dispatch_refines_example =
    dispatch_refines lane_keeping Lks.diagram Lks.ids Lks.lane_keeping-Implements 0 2
      lane_keeping_begin (some btn_lks) off_run off-Represents

program_keeps_example :
    ReturnsIn Lks.ids Lks.Lit lane_keeping
      (run_program lane_keeping 5 lane_keeping_script (fresh tick lane_keeping_begin))
unfolding making make_lane_keeping
program_keeps_example =
    program_keeps Lks.diagram Lks.ids Lks.Lit Lks.rank Lks.safe 999 Lks.bounded_rank lane_keeping
      Lks.lane_keeping-Implements 3 1 lane_keeping_script (fresh tick lane_keeping_begin) refl
      Lks.lane_keeping-Starts
      (
        (λ c w p. p),
        ((λ c w p. p), ((λ c w p. p), ((λ c w p. p), ((λ c w p. p), ((λ c w p. p), tt))))),
      )
      (refl, refl, refl, refl)

box_plays_diagram_example :
    PlaysOut ethernet_box
      (play Box.diagram 999 (((λ w. w), none) ∷ ethernet_box_script) 1 ethernet_box_begin)
      (run_program ethernet_box 2 ethernet_box_script (fresh tick ethernet_box_begin))
box_plays_diagram_example =
    Box.box_plays_diagram 0 ethernet_box_script (fresh tick ethernet_box_begin)

-- The driver turns the indicator on, and the program updates the chart twice.
abbrev parking_script : List ((Console ParkParameter → Console ParkParameter) × Option Event)
parking_script =
    ((λ w. w), some turning_indicator)
    ∷ ((λ w. w), some update_event)
    ∷ ((λ w. w), some update_event)
    ∷ []
