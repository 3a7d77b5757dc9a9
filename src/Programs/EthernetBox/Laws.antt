-- ===== src/Programs/EthernetBox/Laws.antt =====
-- doc/examples/EthernetBox/ethernet_box.cpp: the chart is the diagram at the head of the
-- file.
use cpp_statecharts.Base.{
  ℕ, suc, refl, ◌≤◌, true, false, Option, none, List, [], ◌∷◌, at_index, All, arith,
}
use cpp_statecharts.Event.{Event}
use cpp_statecharts.Runtime.{Run}
use cpp_statecharts.Programs.Making.{Console, making, say}
use cpp_statecharts.Flat.Machine.{Machine, Edge, by_event, by_itself, inside, play}
use cpp_statecharts.Flat.Implementing.{Implements, IsState, is_edge, is_state}
use cpp_statecharts.Flat.Sessions.{Starts, run_program}
use cpp_statecharts.Flat.Conditions.{IsSafe}
use cpp_statecharts.Flat.Safety.{PlaysOut, anything_kept, program_plays}
use cpp_statecharts.Programs.EthernetBox.{
  Nothing, wifi_on, wifi_off, pairing_ok, long_btn, short_btn, wifi_fail, phone_disc,
  make_ethernet_box, ethernet_box,
}

abbrev diagram_edges : List (List (Edge (Console Nothing)))
diagram_edges =
    []
    ∷ (by_itself (λ w. true) 2 ∷ [])
    ∷ (by_event wifi_on (λ w. w) 3 ∷ [])
    ∷ (by_event wifi_off (λ w. w) 2
        ∷ by_event pairing_ok (λ w. w) 4
        ∷ by_event wifi_fail (λ w. w) 5
        ∷ [])
    ∷ (by_event long_btn (say "  ACTION: pairing phone\n") 3
        ∷ by_event phone_disc (λ w. w) 5
        ∷ inside short_btn (say "  ACTION: launch home screen\n")
        ∷ [])
    ∷ (by_event wifi_off (λ w. w) 2 ∷ by_event long_btn (say "  ACTION: pairing phone\n") 3 ∷ [])
    ∷ []

abbrev on_entry : ℕ → Console Nothing → Console Nothing
on_entry =
    at_index (λ w. w)
      ((λ w. w)
        ∷ (λ w. w)
        ∷ say "  LED: off\n"
        ∷ say "  LED: blinking\n"
        ∷ say "  LED: constant glow\n"
        ∷ say "  LED: glow\n"
        ∷ [])

abbrev pub diagram : Machine (Console Nothing)
diagram = record {
  edges = at_index [] diagram_edges;
  is_choice = λ s. false;
  on_entry = on_entry;
  on_do = λ s w. w;
  on_exit = λ s w. w;
}

abbrev pub ids : List ℕ
ids = 1 ∷ 2 ∷ 3 ∷ 4 ∷ 5 ∷ []

state1 : IsState ethernet_box diagram ids 1
unfolding making make_ethernet_box
state1 =
    is_state ethernet_box diagram ids 1 tt refl refl refl
      (
        is_edge ethernet_box diagram ids refl tt (λ d w. refl) (λ r. refl)
            (refl, refl, refl, refl, refl),
        tt,
      )
      tt (λ r. refl) (λ r. refl) (λ w h. refl) (λ r. refl)

state2 : IsState ethernet_box diagram ids 2
unfolding making make_ethernet_box
state2 =
    is_state ethernet_box diagram ids 2 tt refl refl refl
      (
        is_edge ethernet_box diagram ids refl tt (λ d w. refl) (λ r. refl)
            (refl, refl, refl, refl, refl),
        tt,
      )
      tt (λ r. refl) (λ r. refl) (λ w h. refl) (λ r. refl)

state3 : IsState ethernet_box diagram ids 3
unfolding making make_ethernet_box
state3 =
    is_state ethernet_box diagram ids 3 tt refl refl refl
      (
        is_edge ethernet_box diagram ids refl tt (λ d w. refl) (λ r. refl)
            (refl, refl, refl, refl, refl),
        (
          is_edge ethernet_box diagram ids refl tt (λ d w. refl) (λ r. refl)
              (refl, refl, refl, refl, refl),
          (
            is_edge ethernet_box diagram ids refl tt (λ d w. refl) (λ r. refl)
                (refl, refl, refl, refl, refl),
            tt,
          ),
        ),
      )
      tt (λ r. refl) (λ r. refl) (λ w h. refl) (λ r. refl)

state4 : IsState ethernet_box diagram ids 4
unfolding making make_ethernet_box
state4 =
    is_state ethernet_box diagram ids 4 tt refl refl refl
      (
        is_edge ethernet_box diagram ids refl tt (λ d w. refl) (λ r. refl)
            (refl, refl, refl, refl, refl),
        (
          is_edge ethernet_box diagram ids refl tt (λ d w. refl) (λ r. refl)
              (refl, refl, refl, refl, refl),
          (is_edge ethernet_box diagram ids refl tt (λ d w. refl) (λ r. refl) refl, tt),
        ),
      )
      tt (λ r. refl) (λ r. refl) (λ w h. refl) (λ r. refl)

state5 : IsState ethernet_box diagram ids 5
unfolding making make_ethernet_box
state5 =
    is_state ethernet_box diagram ids 5 tt refl refl refl
      (
        is_edge ethernet_box diagram ids refl tt (λ d w. refl) (λ r. refl)
            (refl, refl, refl, refl, refl),
        (
          is_edge ethernet_box diagram ids refl tt (λ d w. refl) (λ r. refl)
              (refl, refl, refl, refl, refl),
          tt,
        ),
      )
      tt (λ r. refl) (λ r. refl) (λ w h. refl) (λ r. refl)

ethernet_box-Implements : Implements ethernet_box diagram ids
ethernet_box-Implements = (state1, (state2, (state3, (state4, (state5, tt)))))

ethernet_box-Starts : Starts ethernet_box ids 1
unfolding making make_ethernet_box
ethernet_box-Starts = record { root_context = refl; start_state = refl; member = refl }

abbrev Anything : ℕ → Console Nothing → Type 0
Anything s w = Unit

abbrev rank : ℕ → ℕ
rank = at_index 0 (0 ∷ 1 ∷ 0 ∷ 0 ∷ 0 ∷ 0 ∷ [])

safe : IsSafe diagram ids Anything rank
safe = (
  ((omega arith, refl, λ w h t g. tt), tt),
  (
    ((tt, refl, λ w h t g. tt), tt),
    (
      ((tt, refl, λ w h t g. tt), ((tt, refl, λ w h t g. tt), ((tt, refl, λ w h t g. tt), tt))),
      (
        ((tt, refl, λ w h t g. tt), ((tt, refl, λ w h t g. tt), ((tt, tt, λ w h t g. tt), tt))),
        (((tt, refl, λ w h t g. tt), ((tt, refl, λ w h t g. tt), tt)), tt),
      ),
    ),
  ),
)

bounded_rank : All (λ c. rank c ≤ 999) ids
bounded_rank = (omega arith, (omega arith, (omega arith, (omega arith, (omega arith, tt)))))

-- Whatever events the program dispatches behind the start of the chart, and whatever it prints
-- between: it returns, with the state and the output of the play of the diagram.
pub box_plays_diagram :
    (n : ℕ) (script : List ((Console Nothing → Console Nothing) × Option Event))
    (r : Run (Console Nothing))
    → PlaysOut ethernet_box
        (play diagram 999 (((λ w. w), none) ∷ script) 1 r.world)
        (run_program ethernet_box (suc (suc n)) script r)
unfolding making make_ethernet_box
box_plays_diagram n script r =
    program_plays diagram ids Anything rank safe 999 bounded_rank ethernet_box
      ethernet_box-Implements n 1 script r refl ethernet_box-Starts (anything_kept script) tt
