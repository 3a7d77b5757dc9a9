-- ===== src/Programs/RichMan.antt =====
-- doc/examples/RichMan/richman.cpp.
pub mod Laws
use cpp_statecharts.Base.{ℕ, zero, suc, ◌+◌, Option, some, List, [], ◌∷◌}
use cpp_statecharts.Structure.{simple_state, pseudo_state, start}
use cpp_statecharts.Event.{Event, signal}
use cpp_statecharts.Chart.{Chart, Action, Guard}
use cpp_statecharts.Construction.Building.{
  new_statechart, create, create_transition, no_actions, no_transition,
}
use cpp_statecharts.Programs.Making.{
  Console, text, number, cout, say, begin, acts, entry, on, Make, ◌>>=◌, ◌>>◌, built, ℤ, pos, succℤ,
  less_than, equals_to, greater_than,
}

pub record RichManParameter : Type 0 where
  pub quarters : ℤ

abbrev pub get_quarter : Event
get_quarter = signal "getQuarter"

abbrev pub take_quarter : Console RichManParameter → Console RichManParameter
take_quarter w =
    let n : ℤ = succℤ w.parameter.quarters in
    cout (text "  Quarters: " ∷ number n ∷ text "\n" ∷ [])
      (record w { parameter = record { quarters = n } })

abbrev pub increment_quarters : Option (Action (Console RichManParameter))
increment_quarters = acts take_quarter

abbrev pub empty_pockets : Console RichManParameter → Console RichManParameter
empty_pockets w = record w { parameter = record { quarters = pos 0 } }

abbrev pub reset_quarters : Option (Action (Console RichManParameter))
reset_quarters = acts empty_pockets

abbrev pub quarters_less_than : ℕ → Guard (Console RichManParameter)
quarters_less_than n d w = less_than n w.parameter.quarters

abbrev pub quarters_equals_to : ℕ → Guard (Console RichManParameter)
quarters_equals_to n d w = equals_to n w.parameter.quarters

abbrev pub quarters_greater_than : ℕ → Guard (Console RichManParameter)
quarters_greater_than n d w = greater_than n w.parameter.quarters

abbrev pub show_count : Console RichManParameter → Console RichManParameter
show_count w =
    cout (text "[CountQuarter] Counting (current: " ∷ number w.parameter.quarters ∷ text ")\n" ∷ [])
      w

-- The chart of `main`.
unfoldable pub make_rich_man : Make (Console RichManParameter) ℕ
make_rich_man = do
  initial ← create "start" (pseudo_state start) no_actions (some 0)
  find_quarter ←
      create "FindQuarter" simple_state
        (entry (acts (say "[FindQuarter] Looking for coins on the ground...\n"))) (some 0)
  count_quarter ← create "CountQuarter" simple_state (entry (acts show_count)) (some 0)
  yeah ←
      create "Yeah" simple_state (entry (acts (say "[Yeah] Yes! My first coin found!\n"))) (some 0)
  create_transition (some initial) (some find_quarter)
      (record no_transition { action = reset_quarters })
  create_transition (some find_quarter) (some count_quarter) (record (on get_quarter) {
    guard = some (quarters_less_than 10);
    action = increment_quarters;
  })
  create_transition (some count_quarter) (some yeah)
      (record no_transition { guard = some (quarters_equals_to 1) })
  create_transition (some count_quarter) (some find_quarter)
      (record no_transition { guard = some (quarters_greater_than 1) })
  create_transition (some yeah) (some find_quarter) no_transition

abbrev pub rich_man : Chart (Console RichManParameter)
rich_man = built (new_statechart "RichMan") (make_rich_man (new_statechart "RichMan"))

-- What `main` does behind the start of the chart, and what it has before.
abbrev pub rich_man_attempts :
    ℕ → ℕ → List ((Console RichManParameter → Console RichManParameter) × Option Event)
rich_man_attempts i zero = []
rich_man_attempts i (suc n) =
    (
      cout (text "\n>> Get quarter (attempt " ∷ number (pos (i + 1)) ∷ text ")\n" ∷ []),
      some get_quarter,
    )
    ∷ rich_man_attempts (i + 1) n

abbrev pub rich_man_script :
    List ((Console RichManParameter → Console RichManParameter) × Option Event)
rich_man_script = rich_man_attempts 0 12

abbrev pub rich_man_begin : Console RichManParameter
rich_man_begin =
    begin (record { quarters = pos 0 })
      (text "=== A punk gets rich, one quarter at a time ===\n" ∷ [])
