-- ===== src/Flat/Sessions.antt =====
-- The life of a flat chart: Statechart::start of src/Statechart.cpp and the dispatches after it, as
-- the machine's play.
use cpp_statecharts.Base.{
  ℕ, suc, ◌+◌, ◌-◌, ◌≡◌, ◌≢◌, refl, true, Option, none, some, List, [], ◌∷◌, arith, contains, ◌∙◌,
  ap, is_some,
}
use cpp_statecharts.Event.{Event}
use cpp_statecharts.Metadata.{Metadata, get_data, reset}
use cpp_statecharts.Metadata
use cpp_statecharts.Metadata.Laws.{get_data-activate, entered, data_or_new}
use cpp_statecharts.Metadata.Table.{find}
use cpp_statecharts.Runtime.{Run, M, Outcome, done, bind_outcome, pure, ◌>>◌}
use cpp_statecharts.Chart.{Chart}
use cpp_statecharts.Statechart.{dispatch, activate_start, start}
use cpp_statecharts.Flat.Machine.{
  Machine, react, play, Verdict, rested, looped, step as machine_step,
}
use cpp_statecharts.Flat.Implementing.{Implements, Represents}
use cpp_statecharts.Flat.Writing.{entered-Represents}
use cpp_statecharts.Flat.Choosing.{member_meets}
use cpp_statecharts.Flat.Dispatching.{stays-Represents}
use cpp_statecharts.Flat.Reacting.{Ends, dispatch_refines}

module _ {W : Type 0} (chart : Chart W) where
  -- The client changes its data, which it owns, between two dispatches.
  abbrev pub set_world : (W → W) → M W (Unit {0})
  set_world f r = done tt (record r { world = f r.world })

  -- A program that dispatches one event after another.
  unfoldable pub drive : ℕ → List ((W → W) × Option Event) → M W (Unit {0})
  drive fuel [] = pure tt
  drive fuel ((f, e) ∷ rest) = do set_world f; dispatch chart fuel e; drive fuel rest

  -- The same behind the start of the chart.
  unfoldable pub run_program : ℕ → List ((W → W) × Option Event) → M W (Unit {0})
  run_program fuel script = do start chart fuel; drive fuel script

  -- The root object with the start state.
  pub record Starts (ids : List ℕ) (s : ℕ) : Type 0 where
    pub root_context : (chart.states chart.root).context ≡ none
    pub start_state : (chart.states chart.root).start_state ≡ some s
    pub member : contains s ids ≡ true

  module _ (m : Machine W) (ids : List ℕ) (impl : Implements chart m ids) where
    -- The metadata behind `reset` and the activation of the root.
    reset-none : (x : ℕ) (d : Metadata) → get_data x (reset d) ≡ none
    unfolding get_data reset find
    reset-none x d = refl

    rooted :
        (time : ℕ) (d : Metadata)
        → (chart.states chart.root).context ≡ none
        → get_data chart.root (Metadata.activate chart.states time chart.root (reset d))
          ≡ some (entered time (data_or_new chart.root (reset d)))
    rooted time d h =
        get_data-activate chart.states time chart.root chart.root (reset d)
        ∙ ground (arith, h, reset-none chart.root d)

    rooted_alone :
        (time : ℕ) (d : Metadata) (x : ℕ)
        → (chart.states chart.root).context ≡ none
        → x ≢ chart.root
        → get_data x (Metadata.activate chart.states time chart.root (reset d)) ≡ none
    rooted_alone time d x h ne =
        get_data-activate chart.states time chart.root x (reset d)
        ∙ ground (arith, h, reset-none x d, ne)

    -- The run in which `start` dispatches for the first time.
    started : ℕ → Run W → Run W
    started s r = record r {
      meta =
          Metadata.activate chart.states (r.clock (r.reads + 1)) s
            (Metadata.activate chart.states (r.clock r.reads) chart.root (reset r.meta));
      reads = r.reads + 1 + 1;
    }

    started-Represents :
        (s : ℕ) (r : Run W) → Starts ids s → Represents chart m ids s r.world (started s r)
    unfolding started
    started-Represents s r h =
        entered-Represents s (r.clock (r.reads + 1))
          (Metadata.activate chart.states (r.clock r.reads) chart.root (reset r.meta))
          (entered (r.clock r.reads) (data_or_new chart.root (reset r.meta))) (started s r)
          (member_meets chart m ids impl s h.member) h.member
          (rooted (r.clock r.reads) r.meta h.root_context)
          (λ x ne. rooted_alone (r.clock r.reads) r.meta x h.root_context ne) refl

    pub start_refines :
        (n s : ℕ) (r : Run W)
        → Starts ids s
        → Ends chart m ids impl
            (is_some (machine_step m none s r.world))
            (react m (chart.infinite_loop_threshold - 1) none s r.world)
            (start chart (suc (suc n)) r)
    unfolding start activate_start started
    start_refines n s r h = rw h.start_state (
        dispatch_refines chart m ids impl n s r.world none (started s r) (started-Represents s r h))

    drive_from :
        {A : Type 0} (a : A) (v : Verdict W) (o : Outcome (Run W) A) (next : M W (Unit {0}))
        (on : ℕ → W → Verdict W)
        → Ends chart m ids impl a v o
        → ((c : ℕ) (w : W) (r : Run W)
            → Represents chart m ids c w r
            → Ends chart m ids impl tt (on c w) (next r))
        → Ends chart m ids impl tt
            (elim v [ rested c' w' ↦ on c' w' | looped c' w' ↦ looped c' w' ])
            (bind_outcome o (λ _. next))
    drive_from a (rested c w) o next on h ih = rw h.1 (ih c w h.0 h.2)
    drive_from a (looped c w) o next on h ih = (h.0, ap (λ p. bind_outcome p (λ _. next)) h.1, h.2)

    -- Any sequence of changes of the client's data and dispatches ends as the machine's play of it.
    pub drive_refines :
        (n : ℕ) (script : List ((W → W) × Option Event)) (c : ℕ) (w : W) (r : Run W)
        → Represents chart m ids c w r
        → Ends chart m ids impl tt
            (play m (chart.infinite_loop_threshold - 1) script c w)
            (drive (suc (suc n)) script r)
    unfolding drive play
    drive_refines n [] c w r h = (r, refl, h)
    drive_refines n ((f, e) ∷ rest) c w r h =
        drive_from _ (react m (chart.infinite_loop_threshold - 1) e c (f w)) _
          (drive (suc (suc n)) rest) (play m (chart.infinite_loop_threshold - 1) rest)
          (dispatch_refines chart m ids impl n c (f w) e (record r { world = f r.world })
            (rw⁻¹ h.world (stays-Represents chart m ids impl (f r.world) h)))
          (λ c' w' r' k. drive_refines n rest c' w' r' k)

    -- A program that starts a chart which implements a machine and then drives it does what the
    -- machine's play of the script does: it returns where the play comes to rest, and it throws
    -- InfiniteLoopException where the play still moves behind the threshold.
    pub program_refines :
        (n s : ℕ) (script : List ((W → W) × Option Event)) (r : Run W)
        → Starts ids s
        → Ends chart m ids impl tt
            (play m (chart.infinite_loop_threshold - 1) (((λ w. w), none) ∷ script) s r.world)
            (run_program (suc (suc n)) script r)
    unfolding run_program play
    program_refines n s script r h =
        drive_from _ (react m (chart.infinite_loop_threshold - 1) none s r.world) _
          (drive (suc (suc n)) script) (play m (chart.infinite_loop_threshold - 1) script)
          (start_refines n s r h) (λ c w r' k. drive_refines n script c w r' k)
