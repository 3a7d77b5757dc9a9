-- ===== src/Programs/Gumball/Laws.antt =====
-- doc/examples/Gumball/gumball.cpp: the chart is the diagram at the head of the file, and it sells
-- no gumball that it does not have.
use cpp_statecharts.Base.{
  ℕ, zero, suc, ◌≡◌, refl, ◌==◌, ◌||◌, ◌≤◌, true, false, Option, List, [], ◌∷◌, at_index, All,
  arith,
}
use cpp_statecharts.Event.{Event}
use cpp_statecharts.Runtime.{Run}
use cpp_statecharts.Programs.Making.{Console, making, say, ℤ, pos, negsuc, predℤ, greater_than}
use cpp_statecharts.Flat.Machine.{Machine, Edge, by_event, by_itself}
use cpp_statecharts.Flat.Implementing.{Implements, IsState, is_edge, is_state}
use cpp_statecharts.Flat.Sessions.{Starts, run_program}
use cpp_statecharts.Flat.Conditions.{IsSafe}
use cpp_statecharts.Flat.Safety.{KeepsScript, ReturnsIn, program_keeps}
use cpp_statecharts.Programs.Gumball.{
  GumballParameter, insert_quarter, eject_quarter, turn_crank, sell, any_left, make_gumball,
  gumball,
}

abbrev diagram_edges : List (List (Edge (Console GumballParameter)))
diagram_edges =
    []
    ∷ (by_itself (λ w. true) 6 ∷ [])
    ∷ (by_event insert_quarter (λ w. w) 3 ∷ [])
    ∷ (by_event eject_quarter (λ w. w) 2 ∷ by_event turn_crank sell 4 ∷ [])
    ∷ (by_itself (λ w. true) 7 ∷ [])
    ∷ []
    ∷ (by_itself any_left 2 ∷ by_itself (λ w. true) 5 ∷ [])
    ∷ (by_itself any_left 2 ∷ by_itself (λ w. true) 5 ∷ [])
    ∷ []

abbrev greetings : ℕ → Console GumballParameter → Console GumballParameter
greetings =
    at_index (λ w. w)
      ((λ w. w)
        ∷ (λ w. w)
        ∷ say "[NoQuarter] Waiting for a coin...\n"
        ∷ say "[HasQuarter] Waiting for the crank...\n"
        ∷ say "[GumballSold] A gumball is rolling...\n"
        ∷ say "[OutOfGumballs] Sorry, no more gumballs.\n"
        ∷ [])

abbrev diagram : Machine (Console GumballParameter)
diagram = record {
  edges = at_index [] diagram_edges;
  is_choice = λ s. s == 6 || s == 7;
  on_entry = greetings;
  on_do = λ s w. w;
  on_exit = λ s w. w;
}

abbrev pub ids : List ℕ
ids = 1 ∷ 2 ∷ 3 ∷ 4 ∷ 5 ∷ 6 ∷ 7 ∷ []

state1 : IsState gumball diagram ids 1
unfolding making make_gumball
state1 =
    is_state gumball diagram ids 1 tt refl refl refl
      (
        is_edge gumball diagram ids refl tt (λ d w. refl) (λ r. refl)
            (refl, refl, refl, refl, refl),
        tt,
      )
      tt (λ r. refl) (λ r. refl) (λ w h. refl) (λ r. refl)

state2 : IsState gumball diagram ids 2
unfolding making make_gumball
state2 =
    is_state gumball diagram ids 2 tt refl refl refl
      (
        is_edge gumball diagram ids refl tt (λ d w. refl) (λ r. refl)
            (refl, refl, refl, refl, refl),
        tt,
      )
      tt (λ r. refl) (λ r. refl) (λ w h. refl) (λ r. refl)

state3 : IsState gumball diagram ids 3
unfolding making make_gumball
state3 =
    is_state gumball diagram ids 3 tt refl refl refl
      (
        is_edge gumball diagram ids refl tt (λ d w. refl) (λ r. refl)
            (refl, refl, refl, refl, refl),
        (
          is_edge gumball diagram ids refl tt (λ d w. refl) (λ r. refl)
              (refl, refl, refl, refl, refl),
          tt,
        ),
      )
      tt (λ r. refl) (λ r. refl) (λ w h. refl) (λ r. refl)

state4 : IsState gumball diagram ids 4
unfolding making make_gumball
state4 =
    is_state gumball diagram ids 4 tt refl refl refl
      (
        is_edge gumball diagram ids refl tt (λ d w. refl) (λ r. refl)
            (refl, refl, refl, refl, refl),
        tt,
      )
      tt (λ r. refl) (λ r. refl) (λ w h. refl) (λ r. refl)

state5 : IsState gumball diagram ids 5
unfolding making make_gumball
state5 =
    is_state gumball diagram ids 5 tt refl refl refl tt tt (λ r. refl) (λ r. refl) (λ w h. refl)
      (λ r. refl)

state6 : IsState gumball diagram ids 6
unfolding making make_gumball
state6 =
    is_state gumball diagram ids 6 tt refl refl refl
      (
        is_edge gumball diagram ids refl tt (λ d w. refl) (λ r. refl)
            (refl, refl, refl, refl, refl),
        (
          is_edge gumball diagram ids refl tt (λ d w. refl) (λ r. refl)
              (refl, refl, refl, refl, refl),
          tt,
        ),
      )
      (refl, (refl, tt)) (λ r. refl) (λ r. refl) (λ w h. refl) (λ r. refl)

state7 : IsState gumball diagram ids 7
unfolding making make_gumball
state7 =
    is_state gumball diagram ids 7 tt refl refl refl
      (
        is_edge gumball diagram ids refl tt (λ d w. refl) (λ r. refl)
            (refl, refl, refl, refl, refl),
        (
          is_edge gumball diagram ids refl tt (λ d w. refl) (λ r. refl)
              (refl, refl, refl, refl, refl),
          tt,
        ),
      )
      (refl, (refl, tt)) (λ r. refl) (λ r. refl) (λ w h. refl) (λ r. refl)

gumball-Implements : Implements gumball diagram ids
gumball-Implements = (state1, (state2, (state3, (state4, (state5, (state6, (state7, tt)))))))

gumball-Starts : Starts gumball ids 1
unfolding making make_gumball
gumball-Starts = record { root_context = refl; start_state = refl; member = refl }

abbrev pub Stock : ℕ → ℤ → Type 0
Stock least (pos n) = least ≤ n
Stock least (negsuc n) = ⊥

abbrev SoldOut : ℤ → Type 0
SoldOut (pos n) = n ≡ 0
SoldOut (negsuc n) = ⊥

-- The state goes with the number of gumballs that are left.
abbrev pub StockIn : ℕ → GumballParameter → Type 0
StockIn =
    at_index (λ p. Stock 0 p.gumballs)
      ((λ p. Stock 0 p.gumballs)
        ∷ (λ p. Stock 0 p.gumballs)
        ∷ (λ p. Stock 1 p.gumballs)
        ∷ (λ p. Stock 1 p.gumballs)
        ∷ (λ p. Stock 0 p.gumballs)
        ∷ (λ p. SoldOut p.gumballs)
        ∷ [])

abbrev pub InStock : ℕ → Console GumballParameter → Type 0
InStock s w = StockIn s w.parameter

abbrev rank : ℕ → ℕ
rank = at_index 0 (0 ∷ 2 ∷ 0 ∷ 0 ∷ 2 ∷ 0 ∷ 1 ∷ 1 ∷ [])

one_left : (g : ℤ) → greater_than 0 g ≡ true → Stock 1 g
unfolding greater_than
one_left (pos n) h = ground arith
one_left (negsuc n) h = absurd (ground (arith, h))

none_left : (g : ℤ) → Stock 0 g → greater_than 0 g ≡ false → SoldOut g
unfolding greater_than
none_left (pos n) s h = ground arith
none_left (negsuc n) s h = s

one_sold : (g : ℤ) → Stock 1 g → Stock 0 (predℤ g)
one_sold (pos zero) h = absurd (omega (arith, h))
one_sold (pos (suc n)) h = omega arith
one_sold (negsuc n) h = h

safe : IsSafe diagram ids InStock rank
safe = (
  ((omega arith, refl, λ w h t g. h), tt),
  (
    ((tt, refl, λ w h t g. h), tt),
    (
      ((tt, refl, λ w h t g. h), ((tt, refl, λ w h t g. one_sold w.parameter.gumballs h), tt)),
      (
        ((omega arith, refl, λ w h t g. h), tt),
        (
          tt,
          (
            (
              (omega arith, refl, λ w h t g. one_left w.parameter.gumballs g),
              (
                (
                  omega arith,
                  refl,
                  λ w h t g. none_left w.parameter.gumballs h (ground (arith, t.1)),
                ),
                tt,
              ),
            ),
            (
              (
                (omega arith, refl, λ w h t g. one_left w.parameter.gumballs g),
                (
                  (
                    omega arith,
                    refl,
                    λ w h t g. none_left w.parameter.gumballs h (ground (arith, t.1)),
                  ),
                  tt,
                ),
              ),
              tt,
            ),
          ),
        ),
      ),
    ),
  ),
)

bounded_rank : All (λ c. rank c ≤ 999) ids
bounded_rank = (
  omega arith,
  (omega arith, (omega arith, (omega arith, (omega arith, (omega arith, (omega arith, tt)))))),
)

-- Whatever events the program dispatches behind the start of the chart, with a stock that is not
-- negative at the start, and as long as it does not change the stock itself: it returns, and then
-- the stock goes with the state. There is a gumball left when a quarter may be inserted or the
-- crank may be turned, the stock is never negative, and it is empty in OutOfGumballs.
pub gumballs_go_with_state :
    (n : ℕ) (script : List ((Console GumballParameter → Console GumballParameter) × Option Event))
    (r : Run (Console GumballParameter))
    → KeepsScript InStock script
    → Stock 0 r.world.parameter.gumballs
    → ReturnsIn ids InStock gumball (run_program gumball (suc (suc n)) script r)
unfolding making make_gumball
gumballs_go_with_state n script r k h =
    program_keeps diagram ids InStock rank safe 999 bounded_rank gumball gumball-Implements n 1
      script r refl gumball-Starts k h
