-- ===== src/Programs/Gumball.antt =====
-- doc/examples/Gumball/gumball.cpp.
pub mod Laws
use cpp_statecharts.Base.{ℕ, Bool, Option, some, List, [], ◌∷◌}
use cpp_statecharts.Structure.{simple_state, pseudo_state, start}
use cpp_statecharts.Event.{Event, signal}
use cpp_statecharts.Chart.{Chart, Action, Guard}
use cpp_statecharts.Construction.Building.{
  new_statechart, create, create_condition, create_transition, no_actions, no_transition,
}
use cpp_statecharts.Programs.Making.{
  Console, text, number, cout, say, begin, acts, entry, on, Make, ◌>>=◌, ◌>>◌, built, ℤ, pos, predℤ,
  greater_than,
}

pub record GumballParameter : Type 0 where
  pub gumballs : ℤ

abbrev pub insert_quarter : Event
insert_quarter = signal "insertQuarter"

abbrev pub eject_quarter : Event
eject_quarter = signal "ejectQuarter"

abbrev pub turn_crank : Event
turn_crank = signal "turnCrank"

abbrev pub sell : Console GumballParameter → Console GumballParameter
sell w =
    let left : ℤ = predℤ w.parameter.gumballs in
    cout (text "  -> Remaining gumballs: " ∷ number left ∷ text "\n" ∷ [])
      (record w { parameter = record { gumballs = left } })

abbrev pub decrement_gumballs : Option (Action (Console GumballParameter))
decrement_gumballs = acts sell

abbrev pub any_left : Console GumballParameter → Bool
any_left w = greater_than 0 w.parameter.gumballs

abbrev pub has_gumballs : Guard (Console GumballParameter)
has_gumballs d w = any_left w

-- The chart of `main`.
unfoldable pub make_gumball : Make (Console GumballParameter) ℕ
make_gumball = do
  initial ← create "start" (pseudo_state start) no_actions (some 0)
  no_quarter ←
      create "NoQuarter" simple_state (entry (acts (say "[NoQuarter] Waiting for a coin...\n")))
        (some 0)
  has_quarter ←
      create "HasQuarter" simple_state
        (entry (acts (say "[HasQuarter] Waiting for the crank...\n"))) (some 0)
  gumball_sold ←
      create "GumballSold" simple_state
        (entry (acts (say "[GumballSold] A gumball is rolling...\n"))) (some 0)
  out_of_gumballs ←
      create "OutOfGumballs" simple_state
        (entry (acts (say "[OutOfGumballs] Sorry, no more gumballs.\n"))) (some 0)
  init_junction ←
      create_condition "initJunction" (some 0) (some has_gumballs) (some no_quarter)
        (some out_of_gumballs)
  sold_junction ←
      create_condition "soldJunction" (some 0) (some has_gumballs) (some no_quarter)
        (some out_of_gumballs)
  create_transition (some initial) (some init_junction) no_transition
  create_transition (some no_quarter) (some has_quarter) (on insert_quarter)
  create_transition (some has_quarter) (some no_quarter) (on eject_quarter)
  create_transition (some has_quarter) (some gumball_sold)
      (record (on turn_crank) { action = decrement_gumballs })
  create_transition (some gumball_sold) (some sold_junction) no_transition

abbrev pub gumball : Chart (Console GumballParameter)
gumball = built (new_statechart "Gumball") (make_gumball (new_statechart "Gumball"))

-- What `main` does behind the start of the chart, and what it has before.
abbrev pub gumball_script :
    List ((Console GumballParameter → Console GumballParameter) × Option Event)
gumball_script =
    (say "\n>> Buy gumball #1\n", some insert_quarter)
    ∷ ((λ w. w), some turn_crank)
    ∷ (say "\n>> Buy gumball #2\n", some insert_quarter)
    ∷ ((λ w. w), some turn_crank)
    ∷ (say "\n>> Eject quarter test\n", some insert_quarter)
    ∷ ((λ w. w), some eject_quarter)
    ∷ (say "\n>> Buy gumball #3 (last one)\n", some insert_quarter)
    ∷ ((λ w. w), some turn_crank)
    ∷ []

abbrev pub gumball_begin : Console GumballParameter
gumball_begin =
    begin (record { gumballs = pos 3 })
      (text "=== Gumball distributor (initial: " ∷ number (pos 3) ∷ text " gumballs) ===\n" ∷ [])
