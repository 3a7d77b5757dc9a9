-- ===== src/DelayQueue/Order.antt =====
-- include/CppStatecharts/DelayQueue.hpp: the order of the items under `add`, `remove` and the rest.
use cpp_statecharts.Base.{
  ℕ, ◌≤◌, ◌<◌, ◌≡◌, refl, ap, List, [], ◌∷◌, ◌++◌, All, arith, ltb, Bool-cases, inl, inr,
}
use cpp_statecharts.DelayQueue.{
  DelayQueue, Delayed, insert_at_bound, add, remove_first, Op, adds, removes, clears, stops,
  resumes, apply, apply_all,
}

module _ {ℓ} {T : Type ℓ} (delayed : Delayed T) where
  open delayed use {deadline, same}

  -- Deadlines do not fall along the list.
  abbrev pub IsSorted : List T → Type 0
  IsSorted [] = Unit
  IsSorted (x ∷ xs) = All (λ y. deadline x ≤ deadline y) xs × IsSorted xs

  All-le_trans :
      {a b : ℕ} (xs : List T) → a ≤ b → All (λ y. b ≤ deadline y) xs → All (λ y. a ≤ deadline y) xs
  All-le_trans [] h k = tt
  All-le_trans (x ∷ xs) h k = (omega arith, All-le_trans xs h k.1)

  All-insert_at_bound :
      (a : ℕ) (x : T) (xs : List T)
      → a ≤ deadline x
      → All (λ y. a ≤ deadline y) xs
      → All (λ y. a ≤ deadline y) (insert_at_bound delayed x xs)
  unfolding insert_at_bound
  All-insert_at_bound a x [] h k = (h, tt)
  All-insert_at_bound a x (y ∷ ys) h k = ground (arith, All-insert_at_bound a x ys h k.1)

  insert_at_bound-IsSorted :
      (x : T) (xs : List T) → IsSorted xs → IsSorted (insert_at_bound delayed x xs)
  unfolding insert_at_bound
  insert_at_bound-IsSorted x [] s = (tt, tt)
  insert_at_bound-IsSorted x (y ∷ ys) s = elim (Bool-cases (ltb (deadline y) (deadline x))) [
    | inl e ↦ rw e (
      All-insert_at_bound (deadline y) x ys (ground arith) s.0,
      insert_at_bound-IsSorted x ys s.1,
    )
    | inr e ↦ rw e ((ground arith, All-le_trans ys (ground arith) s.0), s)
  ]

  All-remove_first {κ} :
      (P : T → Type κ) (x : T) (xs : List T) → All P xs → All P (remove_first delayed x xs)
  unfolding remove_first
  All-remove_first P x [] h = tt
  All-remove_first P x (y ∷ ys) h = elim (Bool-cases (same y x)) [
    | inl e ↦ rw e h.1
    | inr e ↦ rw e (h.0, All-remove_first P x ys h.1)
  ]

  remove_first-IsSorted : (x : T) (xs : List T) → IsSorted xs → IsSorted (remove_first delayed x xs)
  unfolding remove_first
  remove_first-IsSorted x [] s = tt
  remove_first-IsSorted x (y ∷ ys) s = elim (Bool-cases (same y x)) [
    | inl e ↦ rw e s.1
    | inr e ↦ rw e (All-remove_first _ x ys s.0, remove_first-IsSorted x ys s.1)
  ]

  pub apply-IsSorted :
      (op : Op delayed) (q : DelayQueue T) → IsSorted q.items → IsSorted (apply delayed op q).items
  unfolding apply
  apply-IsSorted (adds x) q s = insert_at_bound-IsSorted x q.items s
  apply-IsSorted (removes x) q s = remove_first-IsSorted x q.items s
  apply-IsSorted clears q s = tt
  apply-IsSorted stops q s = s
  apply-IsSorted resumes q s = s

  -- Whatever the threads do to a queue whose items stand in the order of their deadlines, the items
  -- stand in that order afterwards.
  pub apply_all-IsSorted :
      (ops : List (Op delayed)) (q : DelayQueue T)
      → IsSorted q.items
      → IsSorted (apply_all delayed ops q).items
  unfolding apply_all
  apply_all-IsSorted [] q s = s
  apply_all-IsSorted (op ∷ ops) q s =
      apply_all-IsSorted ops (apply delayed op q) (apply-IsSorted op q s)

  -- A place in the items where the new element stands.
  pub record Placed (x : T) (old new : List T) : Type ℓ where
    pub before : List T
    pub after : List T
    pub old_split : old ≡ before ++ after
    pub new_split : new ≡ before ++ (x ∷ after)
    pub before_lt : All (λ y. deadline y < deadline x) before
    pub after_ge : All (λ y. deadline x ≤ deadline y) after

  insert_at_bound-Placed :
      (x : T) (xs : List T) → IsSorted xs → Placed x xs (insert_at_bound delayed x xs)
  unfolding insert_at_bound
  insert_at_bound-Placed x [] s = record {
    before = [];
    after = [];
    old_split = refl;
    new_split = refl;
    before_lt = tt;
    after_ge = tt;
  }
  insert_at_bound-Placed x (y ∷ ys) s = elim (Bool-cases (ltb (deadline y) (deadline x))) [
    | inl e ↦
        let p = insert_at_bound-Placed x ys s.1 in
        rw e (record {
          before = y ∷ p.before;
          after = p.after;
          old_split = ap (◌∷◌ y) p.old_split;
          new_split = ap (◌∷◌ y) p.new_split;
          before_lt = (ground arith, p.before_lt);
          after_ge = p.after_ge;
        })
    | inr e ↦ rw e (record {
      before = [];
      after = y ∷ ys;
      old_split = refl;
      new_split = refl;
      before_lt = tt;
      after_ge = (ground arith, All-le_trans ys (ground arith) s.0);
    })
  ]

  -- On a queue in order, `add` keeps every item and puts the new one behind exactly the items that
  -- are due earlier: in front of all that have its own deadline, so ties leave last in, first out.
  pub add-Placed :
      (x : T) (q : DelayQueue T) → IsSorted q.items → Placed x q.items (add delayed x q).items
  unfolding add
  add-Placed x q s = insert_at_bound-Placed x q.items s
