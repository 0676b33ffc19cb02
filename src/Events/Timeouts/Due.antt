-- ===== src/Events/Timeouts/Due.antt =====
-- Which events are due, and what the set has before a callback runs.
use claire.Prelude.{
  ℕ, ◌+◌, ◌≤◌, ◌<◌, ◌≡◌, ◌≢◌, ◌↔◌, refl, sym, ap, List, [], ◌∷◌, ◌++◌, Option, none, some, arith,
  leb, Bool-cases, inl, inr, leb→le, All,
}
use claire.Events.Timeouts.{Event, Queue, insert_ordered, insert, due, not_due, put_back, reinsert}
use claire.Events.Timeouts.Order.{
  All-map, Sorted, DistinctIds, insert_ordered-All, insert-Sorted, insert-DistinctIds, All-has_id,
}
use claire.Events.Timeouts.Firing.{Kept}

module _ {C : Type 0} where
  due-All : (now : ℕ) (es : List (Event C)) → All (λ e. e.expiration ≤ now) (due now es)
  unfolding due
  due-All now [] = tt
  due-All now (e ∷ es) = elim (Bool-cases (leb e.expiration now)) [
    | inl b ↦ rw (b) (leb→le e.expiration now b, due-All now es)
    | inr b ↦ rw (b) tt
  ]

  due-append-not_due : (now : ℕ) (es : List (Event C)) → due now es ++ not_due now es ≡ es
  unfolding due not_due
  due-append-not_due now [] = refl
  due-append-not_due now (e ∷ es) = elim (Bool-cases (leb e.expiration now)) [
    | inl b ↦ rw (b) (ap (λ xs. e ∷ xs) (due-append-not_due now es))
    | inr b ↦ rw (b) refl
  ]

  not_due-All :
      (now : ℕ) (es : List (Event C)) → Sorted es → All (λ e. now < e.expiration) (not_due now es)
  unfolding not_due Sorted
  not_due-All now [] h = tt
  not_due-All now (e ∷ es) (first, h) = elim (Bool-cases (leb e.expiration now)) [
    | inl b ↦ rw (b) (not_due-All now es h)
    | inr b ↦
        let lt : now < e.expiration = ground (arith, b) in
        rw (b) (
          lt,
          All-map (λ x. e.expiration ≤ x.expiration) (λ x. now < x.expiration) es
              (λ x l. ground (arith, l, lt)) first,
        )
  ]

  not_due-Sorted : (now : ℕ) (es : List (Event C)) → Sorted es → Sorted (not_due now es)
  unfolding not_due Sorted
  not_due-Sorted now [] h = tt
  not_due-Sorted now (e ∷ es) (first, h) = elim (Bool-cases (leb e.expiration now)) [
    | inl b ↦ rw (b) (not_due-Sorted now es h)
    | inr b ↦ rw (b) (first, h)
  ]

  not_due-DistinctIds :
      (now : ℕ) (es : List (Event C)) → DistinctIds es → DistinctIds (not_due now es)
  unfolding not_due DistinctIds
  not_due-DistinctIds now [] h = tt
  not_due-DistinctIds now (e ∷ es) (first, h) = elim (Bool-cases (leb e.expiration now)) [
    | inl b ↦ rw (b) (not_due-DistinctIds now es h)
    | inr b ↦ rw (b) (first, h)
  ]

  put_back-Sorted :
      (now : ℕ) (e : Event C) (k : Option ℕ) (ts : List (Event C))
      → Sorted ts
      → Sorted (put_back now e k ts)
  unfolding put_back
  put_back-Sorted now e none ts h = h
  put_back-Sorted now e (some k) ts h = insert-Sorted (record e { expiration = now + k }) ts h

  put_back-DistinctIds :
      (now : ℕ) (e : Event C) (k : Option ℕ) (ts : List (Event C))
      → DistinctIds ts
      → DistinctIds (put_back now e k ts)
  unfolding put_back
  put_back-DistinctIds now e none ts h = h
  put_back-DistinctIds now e (some k) ts h =
      insert-DistinctIds (record e { expiration = now + k }) ts h

  reinsert-Sorted : (now : ℕ) (es ts : List (Event C)) → Sorted ts → Sorted (reinsert now es ts)
  unfolding reinsert
  reinsert-Sorted now [] ts h = h
  reinsert-Sorted now (e ∷ es) ts h =
      reinsert-Sorted now es (put_back now e e.repeat_interval ts)
        (put_back-Sorted now e e.repeat_interval ts h)

  reinsert-DistinctIds :
      (now : ℕ) (es ts : List (Event C)) → DistinctIds ts → DistinctIds (reinsert now es ts)
  unfolding reinsert
  reinsert-DistinctIds now [] ts h = h
  reinsert-DistinctIds now (e ∷ es) ts h =
      reinsert-DistinctIds now es (put_back now e e.repeat_interval ts)
        (put_back-DistinctIds now e e.repeat_interval ts h)

  -- The property holds of the event as it is put back.
  abbrev pub AsPutBack : (Event C → Type 0) → ℕ → Event C → Option ℕ → Type 0
  AsPutBack P now e none = Unit {0}
  AsPutBack P now e (some k) = P (record e { expiration = now + k })

  abbrev pub AllPutBack : (Event C → Type 0) → ℕ → List (Event C) → Type 0
  AllPutBack P now es = All (λ e. AsPutBack P now e e.repeat_interval) es

  -- No event of the first list has the id of one of the second.
  abbrev pub Apart : List (Event C) → List (Event C) → Type 0
  Apart es ts = All (λ e. All (λ x. x.id ≢ e.id) ts) es

  insert_ordered-All_back :
      (P : Event C → Type 0) (e : Event C) (es : List (Event C))
      → All P (insert_ordered e es)
      → P e × All P es
  unfolding insert_ordered
  insert_ordered-All_back P e [] h = h
  insert_ordered-All_back P e (x ∷ xs) h = elim (Bool-cases (leb x.expiration e.expiration)) [
    | inl b ↦
        let k : All P (x ∷ insert_ordered e xs) = rw (b) at (h) in
        let (p, rest) = insert_ordered-All_back P e xs k.1 in (p, (k.0, rest))
    | inr b ↦ let k : All P (e ∷ x ∷ xs) = rw (b) at (h) in k
  ]

  put_back_iff :
      (P : Event C → Type 0) (now : ℕ) (e : Event C) (k : Option ℕ) (ts : List (Event C))
      → All (λ x. x.id ≢ e.id) ts
      → All P (put_back now e k ts) ↔ (AsPutBack P now e k × All P ts)
  unfolding put_back insert
  put_back_iff P now e none ts new = (λ h. (tt, h), λ h. h.1)
  put_back_iff P now e (some k) ts new = rw (All-has_id e.id ts new) (
    insert_ordered-All_back P (record e { expiration = now + k }) ts,
    λ h. insert_ordered-All P (record e { expiration = now + k }) ts h.0 h.1,
  )

  put_back-Apart :
      (now : ℕ) (e : Event C) (es ts : List (Event C))
      → All (λ x. x.id ≢ e.id) es
      → All (λ x. x.id ≢ e.id) ts
      → Apart es ts
      → Apart es (put_back now e e.repeat_interval ts)
  put_back-Apart now e [] ts ne new h = tt
  put_back-Apart now e (x ∷ xs) ts ne new h = (
    (put_back_iff (λ y. y.id ≢ x.id) now e e.repeat_interval ts new).1
        (as_put_back e.repeat_interval, h.0),
    put_back-Apart now e xs ts ne.1 new h.1,
  )
    where
      as_put_back : (k : Option ℕ) → AsPutBack (λ y. y.id ≢ x.id) now e k
      as_put_back none = tt
      as_put_back (some k) = λ q. ne.0 (sym q)

  reinsert_iff :
      (P : Event C → Type 0) (now : ℕ) (es ts : List (Event C))
      → DistinctIds es
      → Apart es ts
      → All P (reinsert now es ts) ↔ (AllPutBack P now es × All P ts)
  unfolding reinsert DistinctIds
  reinsert_iff P now [] ts d a = (λ h. (tt, h), λ h. h.1)
  reinsert_iff P now (e ∷ es) ts (ne, d) (new, a) =
      let (to, from) =
        reinsert_iff P now es (put_back now e e.repeat_interval ts) d
          (put_back-Apart now e es ts ne new a) in
      let (to', from') = put_back_iff P now e e.repeat_interval ts new in
      (
        (λ h. let (later, here) = to h in let (first, rest) = to' here in ((first, later), rest)),
        (λ (put, rest). from (put.1, from' (put.0, rest))),
      )

  pub part_of_due :
      (P : Event C → Type 0) (now : ℕ) (es : List (Event C)) → All P es → All P (due now es)
  unfolding due
  part_of_due P now [] h = tt
  part_of_due P now (e ∷ es) (p, h) = elim (Bool-cases (leb e.expiration now)) [
    | inl b ↦ rw (b) (p, part_of_due P now es h)
    | inr b ↦ rw (b) tt
  ]

  pub part_of_not_due :
      (P : Event C → Type 0) (now : ℕ) (es : List (Event C)) → All P es → All P (not_due now es)
  unfolding not_due
  part_of_not_due P now [] h = tt
  part_of_not_due P now (e ∷ es) (p, h) = elim (Bool-cases (leb e.expiration now)) [
    | inl b ↦ rw (b) (part_of_not_due P now es h)
    | inr b ↦ rw (b) (p, h)
  ]

  due-DistinctIds :
      (now : ℕ) (es : List (Event C))
      → DistinctIds es
      → DistinctIds (due now es) × Apart (due now es) (not_due now es)
  unfolding due not_due DistinctIds
  due-DistinctIds now [] h = (tt, tt)
  due-DistinctIds now (e ∷ es) (first, h) = elim (Bool-cases (leb e.expiration now)) [
    | inl b ↦
        let (d, a) = due-DistinctIds now es h in
        rw (b) (
          (part_of_due (λ x. x.id ≢ e.id) now es first, d),
          (part_of_not_due (λ x. x.id ≢ e.id) now es first, a),
        )
    | inr b ↦ rw (b) (tt, tt)
  ]

  -- What `Run` does to the set before a callback runs: an event was due, or it was not, by its time
  -- alone; the set keeps those that were not due, with the due ones that repeat put back at their
  -- interval from now, and no other (a property holds of all of the one as it does of all of the
  -- other); it is in order and ids are distinct.
  pub run_set :
      (P : Event C → Type 0) (now : ℕ) (q : Queue C)
      → Kept q
      → (due now q.timeouts ++ not_due now q.timeouts ≡ q.timeouts)
        × All (λ e. e.expiration ≤ now) (due now q.timeouts)
        × All (λ e. now < e.expiration) (not_due now q.timeouts)
        × (All P (reinsert now (due now q.timeouts) (not_due now q.timeouts))
            ↔ (AllPutBack P now (due now q.timeouts) × All P (not_due now q.timeouts)))
        × Sorted (reinsert now (due now q.timeouts) (not_due now q.timeouts))
        × DistinctIds (reinsert now (due now q.timeouts) (not_due now q.timeouts))
  unfolding Kept
  run_set P now q (sorted, distinct, below) =
      let (d, a) = due-DistinctIds now q.timeouts distinct in
      (
        due-append-not_due now q.timeouts,
        due-All now q.timeouts,
        not_due-All now q.timeouts sorted,
        reinsert_iff P now (due now q.timeouts) (not_due now q.timeouts) d a,
        reinsert-Sorted now (due now q.timeouts) (not_due now q.timeouts)
            (not_due-Sorted now q.timeouts sorted),
        reinsert-DistinctIds now (due now q.timeouts) (not_due now q.timeouts)
            (not_due-DistinctIds now q.timeouts distinct),
      )
