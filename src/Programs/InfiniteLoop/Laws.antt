-- ===== src/Programs/InfiniteLoop/Laws.antt =====
-- doc/examples/InfiniteLoop/infinite_loop.cpp: the chart is the cycle of the diagram at
-- the head of the file, and its start is broken off.
use cpp_statecharts.Base.{
  ℕ, suc, ◌≡◌, refl, true, false, none, some, List, [], ◌∷◌, ◌++◌, String, at_index,
}
use cpp_statecharts.Metadata.Substates.{substate}
use cpp_statecharts.Runtime.{Run, thrown, infinite_loop}
use cpp_statecharts.Statechart.{start}
use cpp_statecharts.Programs.Making.{Console, making, say}
use cpp_statecharts.Flat.Machine.{Machine, Edge, by_itself, react, settle, step, pick}
use cpp_statecharts.Flat.Implementing.{Implements, IsState, is_edge, is_state}
use cpp_statecharts.Flat.Reacting.{Ends}
use cpp_statecharts.Flat.Sessions.{Starts, start_refines}
use cpp_statecharts.Programs.InfiniteLoop.{Nothing, make_infinite_loop, infinite_loop_chart}

abbrev diagram_edges : List (List (Edge (Console Nothing)))
diagram_edges =
    []
    ∷ (by_itself (λ w. true) 2 ∷ [])
    ∷ (by_itself (λ w. true) 3 ∷ [])
    ∷ (by_itself (λ w. true) 4 ∷ [])
    ∷ (by_itself (λ w. true) 2 ∷ [])
    ∷ []

abbrev on_entry : ℕ → Console Nothing → Console Nothing
on_entry =
    at_index (λ w. w)
      ((λ w. w) ∷ (λ w. w) ∷ say "[State1]\n" ∷ say "[State2]\n" ∷ say "[State3]\n" ∷ [])

abbrev pub diagram : Machine (Console Nothing)
diagram = record {
  edges = at_index [] diagram_edges;
  is_choice = λ s. false;
  on_entry = on_entry;
  on_do = λ s w. w;
  on_exit = λ s w. w;
}

abbrev pub ids : List ℕ
ids = 1 ∷ 2 ∷ 3 ∷ 4 ∷ []

state1 : IsState infinite_loop_chart diagram ids 1
unfolding making make_infinite_loop
state1 =
    is_state infinite_loop_chart diagram ids 1 tt refl refl refl
      (
        is_edge infinite_loop_chart diagram ids refl tt (λ d w. refl) (λ r. refl)
            (refl, refl, refl, refl, refl),
        tt,
      )
      tt (λ r. refl) (λ r. refl) (λ w h. refl) (λ r. refl)

state2 : IsState infinite_loop_chart diagram ids 2
unfolding making make_infinite_loop
state2 =
    is_state infinite_loop_chart diagram ids 2 tt refl refl refl
      (
        is_edge infinite_loop_chart diagram ids refl tt (λ d w. refl) (λ r. refl)
            (refl, refl, refl, refl, refl),
        tt,
      )
      tt (λ r. refl) (λ r. refl) (λ w h. refl) (λ r. refl)

state3 : IsState infinite_loop_chart diagram ids 3
unfolding making make_infinite_loop
state3 =
    is_state infinite_loop_chart diagram ids 3 tt refl refl refl
      (
        is_edge infinite_loop_chart diagram ids refl tt (λ d w. refl) (λ r. refl)
            (refl, refl, refl, refl, refl),
        tt,
      )
      tt (λ r. refl) (λ r. refl) (λ w h. refl) (λ r. refl)

state4 : IsState infinite_loop_chart diagram ids 4
unfolding making make_infinite_loop
state4 =
    is_state infinite_loop_chart diagram ids 4 tt refl refl refl
      (
        is_edge infinite_loop_chart diagram ids refl tt (λ d w. refl) (λ r. refl)
            (refl, refl, refl, refl, refl),
        tt,
      )
      tt (λ r. refl) (λ r. refl) (λ w h. refl) (λ r. refl)

infinite_loop_chart-Implements : Implements infinite_loop_chart diagram ids
infinite_loop_chart-Implements = (state1, (state2, (state3, (state4, tt))))

infinite_loop_chart-Starts : Starts infinite_loop_chart ids 1
unfolding making make_infinite_loop
infinite_loop_chart-Starts = record { root_context = refl; start_state = refl; member = refl }

-- What the entry actions print, one after the other.
abbrev pub prints : List String → Console Nothing → Console Nothing
prints [] w = w
prints (line ∷ lines) w = prints lines (say line w)

abbrev cycle_lines : List String
cycle_lines = "[State1]\n" ∷ "[State2]\n" ∷ "[State3]\n" ∷ []

-- Three rounds, and two states of the fourth.
abbrev pub lines_until_throw : List String
lines_until_throw = cycle_lines ++ cycle_lines ++ cycle_lines ++ ("[State1]\n" ∷ "[State2]\n" ∷ [])

-- However deep calls may go beyond two levels and whatever the run is: the start of the chart does
-- not return but throws InfiniteLoopException. The states have been entered eleven times then, in
-- the order of the cycle: State2, the current one, for the fourth time.
pub start_is_broken_off :
    (n : ℕ) (r : Run (Console Nothing))
    → (s : Run (Console Nothing)) × (start infinite_loop_chart (suc (suc n)) r
        ≡ thrown infinite_loop s)
      × (substate infinite_loop_chart.root s.meta ≡ some 3)
      × (s.world ≡ prints lines_until_throw r.world)
unfolding making make_infinite_loop substate react settle step pick
start_is_broken_off n r =
    let h : Ends infinite_loop_chart diagram ids infinite_loop_chart-Implements true
        (react diagram 9 none 1 r.world) (start infinite_loop_chart (suc (suc n)) r) =
      start_refines infinite_loop_chart diagram ids infinite_loop_chart-Implements n 1 r
        infinite_loop_chart-Starts in
    (h.0, h.1, rw h.2.root_known h.2.current, h.2.world)
