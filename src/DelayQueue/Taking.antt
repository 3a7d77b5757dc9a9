-- ===== src/DelayQueue/Taking.antt =====
-- include/CppStatecharts/DelayQueue.hpp: what a call of `take` returns, and when.
use cpp_statecharts.Base.{
  ℕ, ◌≤◌, ◌≡◌, refl, ◌∙◌, subst, ◌≢◌, ◌⊎◌, inl, inr, true, false, List, [], ◌∷◌, ◌++◌, All, arith,
}
use cpp_statecharts.DelayQueue.{
  DelayQueue, Delayed, Op, Round, taken, stopped, waits, round, apply, apply_all, take,
}
use cpp_statecharts.DelayQueue.Order.{IsSorted, apply_all-IsSorted}

module _ {ℓ} {T : Type ℓ} (delayed : Delayed T) where
  open delayed use {deadline}

  -- The thread wakes up at the reading `now`, after the other threads have made the calls `ops`.
  pub data Wakes : List (List (Op delayed) × ℕ) → List (Op delayed) → ℕ → Type ℓ where
    here :
        {ops : List (Op delayed)} {now : ℕ} {rest : List (List (Op delayed) × ℕ)}
        → Wakes ((ops, now) ∷ rest) ops now
    later :
        {ops more : List (Op delayed)} {m now : ℕ} {rest : List (List (Op delayed) × ℕ)}
        → Wakes rest more now
        → Wakes ((ops, m) ∷ rest) (ops ++ more) now

  apply_all-append :
      (ops more : List (Op delayed)) (q : DelayQueue T)
      → apply_all delayed (ops ++ more) q ≡ apply_all delayed more (apply_all delayed ops q)
  unfolding apply_all
  apply_all-append [] more q = refl
  apply_all-append (op ∷ ops) more q = apply_all-append ops more (apply delayed op q)

  pub round_cases :
      (now : ℕ) (q : DelayQueue T) {x : T} {left : DelayQueue T}
      → round delayed now q ≡ taken x left
      → (q.items ≡ x ∷ left.items)
        × (deadline x ≤ now)
        × (left.stop_flag ≡ false)
        × (q.stop_flag ≡ false)
  unfolding round
  round_cases now q h = ground arith

  pub Round-cases :
      (r : Round delayed)
      → (r ≡ waits) ⊎ ((r ≡ stopped) ⊎ ((x : T) × (left : DelayQueue T) × (r ≡ taken x left)))
  Round-cases waits = inl refl
  Round-cases stopped = inr (inl refl)
  Round-cases (taken x left) = inr (inr (x, left, refl))

  -- The wake-up at which a call that hands out a value does so.
  taken_at :
      (schedule : List (List (Op delayed) × ℕ)) (q : DelayQueue T) {x : T} {left : DelayQueue T}
      → take delayed schedule q ≡ taken x left
      → (ops : List (Op delayed)) × (now : ℕ) × Wakes schedule ops now
        × (round delayed now (apply_all delayed ops q) ≡ taken x left)
  unfolding take
  taken_at [] q h = cc
  taken_at ((ops, now) ∷ rest) q {x} {left} h =
      elim (Round-cases (round delayed now (apply_all delayed ops q))) [
        | inl e ↦
            let (more, n, w, r) = taken_at rest (apply_all delayed ops q) (rw (e, take) at h) in
            (ops ++ more, n, later w, rw (apply_all-append ops more q) r)
        | inr (inl e) ↦ absurd (cc (rw (e, take) at h))
        | inr (inr (y, l, e)) ↦ (ops, now, here, e ∙ (rw (e, take) at h))
      ]

  -- If `take` hands out an element of a queue in order, there is a wake-up of the thread at which
  -- the queue was not stopped, the element stood at its front and its deadline had passed. No
  -- element that is left is due earlier, and what is left is in order.
  pub take-taken :
      (schedule : List (List (Op delayed) × ℕ)) (q : DelayQueue T) {x : T} {left : DelayQueue T}
      → IsSorted delayed q.items
      → take delayed schedule q ≡ taken x left
      → (ops : List (Op delayed)) × (now : ℕ) × Wakes schedule ops now
        × ((apply_all delayed ops q).stop_flag ≡ false)
        × ((apply_all delayed ops q).items ≡ x ∷ left.items)
        × (deadline x ≤ now)
        × All (λ y. deadline x ≤ deadline y) left.items
        × IsSorted delayed left.items
  take-taken schedule q {x} {left} s h =
      let (ops, now, w, r) = taken_at schedule q h in
      let (items, due, _, going) = round_cases now (apply_all delayed ops q) r in
      let sorted = subst (IsSorted delayed) items (apply_all-IsSorted delayed ops q s) in
      (ops, now, w, going, items, due, sorted.0, sorted.1)

  -- A queue from which a thread does not wait at the given time.
  abbrev pub IsReady : ℕ → DelayQueue T → Type ℓ
  IsReady now q =
      (q.stop_flag ≡ true) ⊎ ((x : T) × (xs : List T) × (q.items ≡ x ∷ xs) × (deadline x ≤ now))

  round-ne-waits : (now : ℕ) (q : DelayQueue T) → IsReady now q → round delayed now q ≢ waits
  unfolding round
  round-ne-waits now q r = ground arith

  -- `take` returns as soon as the thread wakes up to a queue that is stopped or whose first item is
  -- due.
  pub take-ne-waits :
      (schedule : List (List (Op delayed) × ℕ)) (q : DelayQueue T) {ops : List (Op delayed)}
      {now : ℕ}
      → Wakes schedule ops now
      → IsReady now (apply_all delayed ops q)
      → take delayed schedule q ≢ waits
  unfolding take
  take-ne-waits _ q (here {ops = ops} {now = now} {rest = rest}) r =
      elim (Round-cases (round delayed now (apply_all delayed ops q))) [
        | inl e ↦ absurd (round-ne-waits now _ r e)
        | inr (inl e) ↦ rw (e, take) (λ h. cc)
        | inr (inr (y, l, e)) ↦ rw (e, take) (λ h. cc)
      ]
  take-ne-waits _ q (later {ops = ops} {more = more} {m = m} {now = now} {rest = rest} w) r =
      elim (Round-cases (round delayed m (apply_all delayed ops q))) [
        | inl e ↦
            rw (e, take)
              (take-ne-waits rest (apply_all delayed ops q) w
                (subst (IsReady now) (apply_all-append ops more q) r))
        | inr (inl e) ↦ rw (e, take) (λ h. cc)
        | inr (inr (y, l, e)) ↦ rw (e, take) (λ h. cc)
      ]
