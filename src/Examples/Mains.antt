-- ===== src/Examples/Mains.antt =====
-- The composite charts of doc/examples, run as their `main` runs them, on fresh metadata and with
-- whatever the clock shows.
use cpp_statecharts.Base.{ℕ, ◌≡◌, refl, Option, none, some, List, [], ◌∷◌}
use cpp_statecharts.Metadata.{Metadata, get_active_states}
use cpp_statecharts.Metadata
use cpp_statecharts.Runtime.{Run, Outcome, done}
use cpp_statecharts.Entries
use cpp_statecharts.Statechart
use cpp_statecharts.Behaviour.Concurrent
use cpp_statecharts.Behaviour.PseudoStates
use cpp_statecharts.Event.{Uuid}
use cpp_statecharts.Flat.Sessions.{run_program, drive}
use cpp_statecharts.Programs.Making.{making}
use cpp_statecharts.Programs.SimpleOrthogonal.{
  make_simple_orthogonal, simple_orthogonal, simple_orthogonal_begin,
}
use cpp_statecharts.Programs.SimpleComposite.{
  make_simple_composite, simple_composite, simple_composite_script, simple_composite_begin,
}
use cpp_statecharts.Programs.ComplexComposite.{
  make_complex_composite, complex_composite, complex_composite_script, complex_composite_begin,
}
use cpp_statecharts.Programs.Pompe.{make_pompe, pompe, pompe_begin, bpm_event, falling_hm}
use cpp_statecharts.Programs.GettingStarted.{
  make_getting_started, getting_started, getting_started_begin,
}
use cpp_statecharts.Examples.Samples.{program, idle_scheduler}

abbrev pub fresh : {W : Type 0} → (ℕ → ℕ) → W → Run W
fresh clock w = record {
  meta = record {
    ident = 0;
    statechart = none;
    active_states = [];
    activate_observers = [];
    deactivate_observers = [];
    observed = [];
    next_address = 0;
  };
  scheduler = idle_scheduler;
  world = w;
  clock = clock;
  reads = 0;
}

-- The active states behind an outcome, if it is a return.
abbrev active_after : {W A : Type 0} → Outcome (Run W) A → Option (List ℕ)
unfolding Metadata.get_active_states
active_after (done a r) = some (get_active_states r.meta)
active_after _ = none

unfoldable running : Unit {0}
unfolding active_after Entries.enqueue_timeout Entries.is_alive Entries.insert_entry
    Statechart.dispatch Statechart.activate_start Statechart.start run_program drive
    Concurrent.enter_region Concurrent.enter_regions Concurrent.enter_all
    Concurrent.concurrent_activate Concurrent.concurrent_deactivate Concurrent.dispatch_regions
    Concurrent.finished Concurrent.own_transitions Concurrent.concurrent_dispatch
    PseudoStates.pseudo_activate PseudoStates.after_entry PseudoStates.pseudo_dispatch
running = tt

-- The start enters State0, State1 and State11; the event leaves the last two for the states down to
-- State211.
complex_composite_start :
    (clock : ℕ → ℕ)
    → active_after (run_program complex_composite 8 [] (fresh clock complex_composite_begin))
      ≡ some (6 ∷ 4 ∷ 2 ∷ 0 ∷ [])
unfolding program making running make_complex_composite
complex_composite_start clock = refl

complex_composite_run :
    (clock : ℕ → ℕ)
    → active_after (
        run_program complex_composite 8 complex_composite_script
          (fresh clock complex_composite_begin))
      ≡ some (11 ∷ 9 ∷ 7 ∷ 2 ∷ 0 ∷ [])
unfolding program making running make_complex_composite
complex_composite_run clock = refl

-- Back in EnableSystem, the light is on.
simple_composite_run :
    (clock : ℕ → ℕ)
    → active_after (
        run_program simple_composite 8 simple_composite_script (fresh clock simple_composite_begin))
      ≡ some (4 ∷ 2 ∷ 0 ∷ [])
unfolding program making running make_simple_composite
simple_composite_run clock = refl

-- Both regions come to their final states at once, and DisableSystem is entered.
simple_orthogonal_run :
    (clock : ℕ → ℕ)
    → active_after (run_program simple_orthogonal 8 [] (fresh clock simple_orthogonal_begin))
      ≡ some (11 ∷ 0 ∷ [])
unfolding program making running make_simple_orthogonal
simple_orthogonal_run clock = refl

-- Behind the start the states d and e wait in the two regions of c.
getting_started_run :
    (clock : ℕ → ℕ) (u : Uuid)
    → active_after (run_program (getting_started u) 8 [] (fresh clock getting_started_begin))
      ≡ some (13 ∷ 11 ∷ 10 ∷ 8 ∷ 7 ∷ 3 ∷ 0 ∷ [])
unfolding program making running make_getting_started
getting_started_run clock u = refl

-- The pump runs, and then the lever is released.
pompe_run :
    (clock : ℕ → ℕ) (u v w : Uuid)
    → active_after (
        run_program
          (pompe u v w)
          8
          (((λ x. x), some bpm_event) ∷ ((λ x. x), some falling_hm) ∷ [])
          (fresh clock pompe_begin))
      ≡ some (11 ∷ 5 ∷ 0 ∷ [])
unfolding program making running make_pompe
pompe_run clock u v w = refl
