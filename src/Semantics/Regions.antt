-- ===== src/Semantics/Regions.antt =====
-- ConcurrentState::dispatch of src/ConcurrentState.cpp: the regions come first, one after the other.
use cpp_statecharts.Base.{
  ℕ, ◌≡◌, refl, ap, ◌∙◌, Bool, true, false, ◌||◌, Option, List, [], ◌∷◌, if◌then◌else◌,
}
use cpp_statecharts.Event.{Event}
use cpp_statecharts.Metadata.{is_active}
use cpp_statecharts.Runtime.{Run, done, pure}
use cpp_statecharts.Chart.{Chart, Methods}
use cpp_statecharts.Behaviour.Concurrent.{dispatch_regions, own_transitions, concurrent_dispatch}

module _ {W : Type 0} (chart : Chart W) (self : Methods W) (s : ℕ) (e : Option Event) where
  -- The event is offered to the regions in their order, to each in the run that the one before it has
  -- left, and to no further region once the concurrent state is inactive. The flag says whether one of
  -- them handled it.
  pub data Offered : List ℕ → Run W → Bool → Run W → Type 0 where
    no_more : {r : Run W} → Offered [] r false r
    left : {hs : List ℕ} {r : Run W} → is_active s r.meta ≡ false → Offered hs r false r
    offered :
        {h : ℕ} {hs : List ℕ} {handled more : Bool} {q r t : Run W}
        → is_active s q.meta ≡ true
        → self.dispatch h e q ≡ done handled r
        → Offered hs r more t
        → Offered (h ∷ hs) q (handled || more) t

  or_swap : (a b c : Bool) → b || (a || c) ≡ (a || b) || c
  or_swap true true c = refl
  or_swap true false c = refl
  or_swap false b c = refl

  dispatch_regions-Offered :
      (hs : List ℕ) (before : Bool) {handled : Bool} {r t : Run W}
      → Offered hs r handled t
      → dispatch_regions chart self s e before hs r ≡ done (handled || before) t
  unfolding dispatch_regions
  dispatch_regions-Offered _ before no_more = refl
  dispatch_regions-Offered [] before (left h) = refl
  dispatch_regions-Offered (x ∷ xs) before {r = r} (left h) = rw h refl
  dispatch_regions-Offered _ before
        (offered {h = h} {hs = hs} {handled = handled} {more = more} {t = t} a d rest) =
      rw (a, d)
        (dispatch_regions-Offered hs (handled || before) rest
          ∙ ap (λ b. done b t) (or_swap handled more before))

  or_false : (b : Bool) → b || false ≡ b
  or_false true = refl
  or_false false = refl

  -- `ConcurrentState::dispatch` offers the event to every region in order, also after one has handled
  -- it, as long as the state is active. If one of them handled it none of the state's own transitions
  -- is tried; otherwise they are, in the run that the regions have left.
  pub concurrent_dispatch-Offered :
      {handled : Bool} {r t : Run W}
      → Offered (chart.states s).regions r handled t
      → concurrent_dispatch chart self s e r ≡ (
          if handled
          then done true t
          else own_transitions chart self s e (chart.states s).transitions t)
  unfolding concurrent_dispatch
  concurrent_dispatch-Offered {handled = handled} {r = r} {t = t} h =
      rw (dispatch_regions-Offered (chart.states s).regions false h, or_false handled)
        (split handled)
    where
      split :
          (b : Bool)
          → (if b then pure true else own_transitions chart self s e (chart.states s).transitions) t
            ≡ (if b
                then done true t
                else own_transitions chart self s e (chart.states s).transitions t)
      split true = refl
      split false = refl
