-- ===== src/Flat/Safety.antt =====
-- What a machine keeps, and when it comes to rest: conditions on its single edges.
use cpp_statecharts.Base.{
  ℕ, zero, suc, ◌-◌, ◌≤◌, ◌≡◌, refl, true, Option, none, some, List, [], ◌∷◌, arith, All, contains,
  subst,
}
use cpp_statecharts.Event.{Event}
use cpp_statecharts.Metadata.Substates.{substate}
use cpp_statecharts.Runtime.{Run, Outcome, done}
use cpp_statecharts.Chart.{Chart}
use cpp_statecharts.Flat.Machine.{Machine, step, settle, react, play, Verdict, rested, looped}
use cpp_statecharts.Flat.Implementing.{Implements}
use cpp_statecharts.Flat.Choosing.{member_holds}
use cpp_statecharts.Flat.Reacting.{Ends}
use cpp_statecharts.Flat.Sessions.{Starts, run_program, program_refines}
use cpp_statecharts.Flat.Conditions.{After, IsSafe, step-After}

-- The changes that the client makes between two dispatches keep the predicate.
abbrev pub KeepsScript : {W : Type 0} → (ℕ → W → Type 0) → List ((W → W) × Option Event) → Type 0
KeepsScript P script = All (λ (f, e). (c : ℕ) (w : _) → P c w → P c (f w)) script

-- The program returns, in one of the listed states, and the predicate holds of that state and the
-- client's data.
abbrev pub ReturnsIn :
    {W : Type 0} → List ℕ → (ℕ → W → Type 0) → Chart W → Outcome (Run W) (Unit {0}) → Type 0
ReturnsIn {W = W} ids P chart o =
    (r : Run W) × (c : ℕ) × (o ≡ done tt r)
    × (substate chart.root r.meta ≡ some c)
    × (contains c ids ≡ true)
    × P c r.world

-- The program returns, in the state and with the data in which the play comes to rest.
abbrev pub PlaysOut : {W : Type 0} → Chart W → Verdict W → Outcome (Run W) (Unit {0}) → Type 0
PlaysOut {W = W} chart v o =
    (c : ℕ) × (w : W) × (r : Run W) × (v ≡ rested c w)
    × (o ≡ done tt r)
    × (substate chart.root r.meta ≡ some c)
    × (r.world ≡ w)

module _ {W : Type 0} (m : Machine W) (ids : List ℕ) (P : ℕ → W → Type 0) (rank : ℕ → ℕ) where
  -- The play comes to rest where the predicate holds.
  abbrev pub RestsIn : Verdict W → Type 0
  RestsIn (rested c w) = P c w × (contains c ids ≡ true)
  RestsIn (looped c w) = ⊥

  module _ (safe : IsSafe m ids P rank) where
    settle-zero :
        (c : ℕ) (w : W) (o : Option (ℕ × W))
        → contains c ids ≡ true
        → P c w
        → rank c ≤ 0
        → After m ids P rank none c o
        → RestsIn (elim o [ none ↦ rested c w | some (c', w') ↦ looped c' w' ])
    settle-zero c w none mem p le a = (p, mem)
    settle-zero c w (some (c', w')) mem p le a = absurd (omega (arith, a.2 refl))

    settle-suc :
        (left c : ℕ) (w : W) (o : Option (ℕ × W))
        → contains c ids ≡ true
        → P c w
        → rank c ≤ suc left
        → After m ids P rank none c o
        → ((c' : ℕ) (w' : W)
            → contains c' ids ≡ true
            → P c' w'
            → rank c' ≤ left
            → RestsIn (settle m left c' w'))
        → RestsIn (elim o [ none ↦ rested c w | some (c', w') ↦ settle m left c' w' ])
    settle-suc left c w none mem p le a ih = (p, mem)
    settle-suc left c w (some (c', w')) mem p le a ih = ih c' w' a.1 a.0 (omega (arith, a.2 refl))

    settle-RestsIn :
        (left c : ℕ) (w : W)
        → contains c ids ≡ true
        → P c w
        → rank c ≤ left
        → RestsIn (settle m left c w)
    unfolding settle
    settle-RestsIn zero c w mem p le =
        settle-zero c w (step m none c w) mem p le (step-After m ids P rank none c w safe mem p)
    settle-RestsIn (suc left) c w mem p le =
        settle-suc left c w (step m none c w) mem p le (step-After m ids P rank none c w safe mem p)
          (settle-RestsIn left)

    module _ (left : ℕ) (bounded : All (λ c. rank c ≤ left) ids) where
      react_from :
          (e : Option Event) (c : ℕ) (w : W) (o : Option (ℕ × W))
          → contains c ids ≡ true
          → P c w
          → After m ids P rank e c o
          → RestsIn (elim o [ none ↦ settle m left c w | some (c', w') ↦ settle m left c' w' ])
      react_from e c w none mem p a =
          settle-RestsIn left c w mem p (member_holds (λ x. rank x ≤ left) ids c bounded mem)
      react_from e c w (some (c', w')) mem p a =
          settle-RestsIn left c' w' a.1 a.0 (member_holds (λ x. rank x ≤ left) ids c' bounded a.1)

      react-RestsIn :
          (e : Option Event) (c : ℕ) (w : W)
          → contains c ids ≡ true
          → P c w
          → RestsIn (react m left e c w)
      unfolding react
      react-RestsIn e c w mem p =
          react_from e c w (step m e c w) mem p (step-After m ids P rank e c w safe mem p)

      play_from :
          (v : Verdict W) (on : ℕ → W → Verdict W)
          → RestsIn v
          → ((c : ℕ) (w : W) → contains c ids ≡ true → P c w → RestsIn (on c w))
          → RestsIn (elim v [ rested c w ↦ on c w | looped c w ↦ looped c w ])
      play_from (rested c w) on h ih = ih c w h.1 h.0
      play_from (looped c w) on h ih = absurd h

      pub play-RestsIn :
          (script : List ((W → W) × Option Event)) (c : ℕ) (w : W)
          → KeepsScript P script
          → contains c ids ≡ true
          → P c w
          → RestsIn (play m left script c w)
      unfolding play
      play-RestsIn [] c w k mem p = (p, mem)
      play-RestsIn ((f, e) ∷ rest) c w k mem p =
          play_from (react m left e c (f w)) (play m left rest)
            (react-RestsIn e c (f w) mem (k.0 c w p))
            (λ c' w' mem' p'. play-RestsIn rest c' w' k.1 mem' p')

      returns_from :
          (chart : Chart W) (impl : Implements chart m ids) (v : Verdict W)
          (o : Outcome (Run W) (Unit {0}))
          → Ends chart m ids impl tt v o
          → RestsIn v
          → ReturnsIn ids P chart o
      unfolding substate
      returns_from chart impl (rested c w) o h k =
          (h.0, c, h.1, rw h.2.root_known h.2.current, k.1, rw h.2.world k.0)
      returns_from chart impl (looped c w) o h k = absurd k

      -- A predicate on the state and the client's data that each edge of the machine keeps, and
      -- that the client's own changes keep, holds where a program that starts and drives a chart
      -- of the machine returns; and it does return, since some rank below the threshold falls along
      -- every edge without a trigger.
      pub program_keeps :
          (chart : Chart W) (impl : Implements chart m ids) (n s : ℕ)
          (script : List ((W → W) × Option Event)) (r : Run W)
          → chart.infinite_loop_threshold - 1 ≡ left
          → Starts chart ids s
          → KeepsScript P script
          → P s r.world
          → ReturnsIn ids P chart (run_program chart (suc (suc n)) script r)
      program_keeps chart impl n s script r e starts k p =
          returns_from chart impl (play m left (((λ w. w), none) ∷ script) s r.world) _
            (subst
              (λ l.
                Ends chart m ids impl tt (play m l (((λ w. w), none) ∷ script) s r.world)
                  (run_program chart (suc (suc n)) script r))
              e (program_refines chart m ids impl n s script r starts))
            (play-RestsIn (((λ w. w), none) ∷ script) s r.world ((λ c w q. q), k) starts.member p)

      plays_from :
          (chart : Chart W) (impl : Implements chart m ids) (v : Verdict W)
          (o : Outcome (Run W) (Unit {0}))
          → Ends chart m ids impl tt v o
          → RestsIn v
          → PlaysOut chart v o
      unfolding substate
      plays_from chart impl (rested c w) o h k =
          (c, w, h.0, refl, h.1, rw h.2.root_known h.2.current, h.2.world)
      plays_from chart impl (looped c w) o h k = absurd k

      -- Under the same conditions the program does what the machine's play of its script does.
      pub program_plays :
          (chart : Chart W) (impl : Implements chart m ids) (n s : ℕ)
          (script : List ((W → W) × Option Event)) (r : Run W)
          → chart.infinite_loop_threshold - 1 ≡ left
          → Starts chart ids s
          → KeepsScript P script
          → P s r.world
          → PlaysOut chart
              (play m left (((λ w. w), none) ∷ script) s r.world)
              (run_program chart (suc (suc n)) script r)
      program_plays chart impl n s script r e starts k p =
          plays_from chart impl (play m left (((λ w. w), none) ∷ script) s r.world) _
            (subst
              (λ l.
                Ends chart m ids impl tt (play m l (((λ w. w), none) ∷ script) s r.world)
                  (run_program chart (suc (suc n)) script r))
              e (program_refines chart m ids impl n s script r starts))
            (play-RestsIn (((λ w. w), none) ∷ script) s r.world ((λ c w q. q), k) starts.member p)

-- A script keeps what is always true.
pub anything_kept :
    {W : Type 0} (script : List ((W → W) × Option Event)) → KeepsScript (λ c w. Unit {0}) script
anything_kept [] = tt
anything_kept ((f, e) ∷ rest) = ((λ c w p. tt), anything_kept rest)
