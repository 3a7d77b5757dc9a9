-- ===== src/Programs/RichMan/Laws.antt =====
-- doc/examples/RichMan/richman.cpp: the chart is the diagram at the head of the file, and
-- the pockets hold ten quarters at most.
use cpp_statecharts.Base.{
  ℕ, suc, ◌≡◌, refl, ◌≤◌, true, false, Option, List, [], ◌∷◌, at_index, All, arith,
}
use cpp_statecharts.Event.{Event}
use cpp_statecharts.Runtime.{Run}
use cpp_statecharts.Programs.Making.{
  Console, making, say, ℤ, pos, negsuc, succℤ, greater_than, equals_to, less_than,
}
use cpp_statecharts.Flat.Machine.{Machine, Edge, by_event, by_itself}
use cpp_statecharts.Flat.Implementing.{Implements, IsState, is_edge, is_state}
use cpp_statecharts.Flat.Sessions.{Starts, run_program}
use cpp_statecharts.Flat.Conditions.{IsSafe}
use cpp_statecharts.Flat.Safety.{KeepsScript, ReturnsIn, program_keeps}
use cpp_statecharts.Programs.RichMan.{
  RichManParameter, get_quarter, take_quarter, empty_pockets, show_count, make_rich_man, rich_man,
}

abbrev diagram_edges : List (List (Edge (Console RichManParameter)))
diagram_edges =
    []
    ∷ (record (by_itself (λ w. true) 2) { effect = empty_pockets } ∷ [])
    ∷ (record (by_event get_quarter take_quarter 3) {
      guard = λ w. less_than 10 w.parameter.quarters;
    }
        ∷ [])
    ∷ (by_itself (λ w. greater_than 1 w.parameter.quarters) 2
        ∷ by_itself (λ w. equals_to 1 w.parameter.quarters) 4
        ∷ [])
    ∷ (by_itself (λ w. true) 2 ∷ [])
    ∷ []

abbrev on_entry : ℕ → Console RichManParameter → Console RichManParameter
on_entry =
    at_index (λ w. w)
      ((λ w. w)
        ∷ (λ w. w)
        ∷ say "[FindQuarter] Looking for coins on the ground...\n"
        ∷ show_count
        ∷ say "[Yeah] Yes! My first coin found!\n"
        ∷ [])

abbrev pub diagram : Machine (Console RichManParameter)
diagram = record {
  edges = at_index [] diagram_edges;
  is_choice = λ s. false;
  on_entry = on_entry;
  on_do = λ s w. w;
  on_exit = λ s w. w;
}

abbrev pub ids : List ℕ
ids = 1 ∷ 2 ∷ 3 ∷ 4 ∷ []

state1 : IsState rich_man diagram ids 1
unfolding making make_rich_man
state1 =
    is_state rich_man diagram ids 1 tt refl refl refl
      (
        is_edge rich_man diagram ids refl tt (λ d w. refl) (λ r. refl)
            (refl, refl, refl, refl, refl),
        tt,
      )
      tt (λ r. refl) (λ r. refl) (λ w h. refl) (λ r. refl)

state2 : IsState rich_man diagram ids 2
unfolding making make_rich_man
state2 =
    is_state rich_man diagram ids 2 tt refl refl refl
      (
        is_edge rich_man diagram ids refl tt (λ d w. refl) (λ r. refl)
            (refl, refl, refl, refl, refl),
        tt,
      )
      tt (λ r. refl) (λ r. refl) (λ w h. refl) (λ r. refl)

state3 : IsState rich_man diagram ids 3
unfolding making make_rich_man
state3 =
    is_state rich_man diagram ids 3 tt refl refl refl
      (
        is_edge rich_man diagram ids refl tt (λ d w. refl) (λ r. refl)
            (refl, refl, refl, refl, refl),
        (
          is_edge rich_man diagram ids refl tt (λ d w. refl) (λ r. refl)
              (refl, refl, refl, refl, refl),
          tt,
        ),
      )
      tt (λ r. refl) (λ r. refl) (λ w h. refl) (λ r. refl)

state4 : IsState rich_man diagram ids 4
unfolding making make_rich_man
state4 =
    is_state rich_man diagram ids 4 tt refl refl refl
      (
        is_edge rich_man diagram ids refl tt (λ d w. refl) (λ r. refl)
            (refl, refl, refl, refl, refl),
        tt,
      )
      tt (λ r. refl) (λ r. refl) (λ w h. refl) (λ r. refl)

rich_man-Implements : Implements rich_man diagram ids
rich_man-Implements = (state1, (state2, (state3, (state4, tt))))

rich_man-Starts : Starts rich_man ids 1
unfolding making make_rich_man
rich_man-Starts = record { root_context = refl; start_state = refl; member = refl }

abbrev rank : ℕ → ℕ
rank = at_index 0 (0 ∷ 1 ∷ 0 ∷ 2 ∷ 1 ∷ [])

-- At least one number of quarters and at most another.
abbrev pub Between : (low high : ℕ) → ℤ → Type 0
Between low high (pos n) = (low ≤ n) × (n ≤ high)
Between low high (negsuc n) = ⊥

-- The number of quarters goes with the state.
abbrev pub CountedIn : ℕ → RichManParameter → Type 0
CountedIn =
    at_index (λ p. Unit)
      ((λ p. Unit)
        ∷ (λ p. Unit)
        ∷ (λ p. Between 0 10 p.quarters)
        ∷ (λ p. Between 1 10 p.quarters)
        ∷ (λ p. Between 1 1 p.quarters)
        ∷ [])

abbrev pub Counted : ℕ → Console RichManParameter → Type 0
Counted s w = CountedIn s w.parameter

one_more : (q : ℤ) → Between 0 10 q → less_than 10 q ≡ true → Between 1 10 (succℤ q)
unfolding less_than
one_more (pos q) h g = (ground arith, ground arith)
one_more (negsuc q) h g = absurd h

the_first : (q : ℤ) → Between 1 10 q → equals_to 1 q ≡ true → Between 1 1 q
unfolding equals_to
the_first (pos q) h g = (ground arith, ground arith)
the_first (negsuc q) h g = absurd h

weaker : (low high : ℕ) (q : ℤ) → high ≤ 10 → Between low high q → Between 0 10 q
weaker low high (pos q) le h = (omega arith, omega (arith, h.1))
weaker low high (negsuc q) le h = absurd h

safe : IsSafe diagram ids Counted rank
safe = (
  ((omega arith, refl, λ w h t g. (omega arith, omega arith)), tt),
  (
    ((tt, refl, λ w h t g. one_more w.parameter.quarters h g), tt),
    (
      (
        (omega arith, refl, λ w h t g. weaker 1 10 w.parameter.quarters (omega arith) h),
        ((omega arith, refl, λ w h t g. the_first w.parameter.quarters h g), tt),
      ),
      (((omega arith, refl, λ w h t g. weaker 1 1 w.parameter.quarters (omega arith) h), tt), tt),
    ),
  ),
)

bounded_rank : All (λ c. rank c ≤ 999) ids
bounded_rank = (omega arith, (omega arith, (omega arith, (omega arith, tt))))

-- Whatever events the program dispatches behind the start of the chart, with any number of quarters
-- at the start, and as long as it does not change that number against the state itself: it returns,
-- and then the number goes with the state. It is at most ten in FindQuarter, from one to ten in
-- CountQuarter, and one in Yeah.
pub pockets_are_limited :
    (n : ℕ) (script : List ((Console RichManParameter → Console RichManParameter) × Option Event))
    (r : Run (Console RichManParameter))
    → KeepsScript Counted script
    → ReturnsIn ids Counted rich_man (run_program rich_man (suc (suc n)) script r)
unfolding making make_rich_man
pockets_are_limited n script r k =
    program_keeps diagram ids Counted rank safe 999 bounded_rank rich_man rich_man-Implements n 1
      script r refl rich_man-Starts k tt
