-- ===== src/Events/Timeouts/Order.antt =====
-- The set of timers: its order and its ids.
use claire.Prelude.{
  ℕ, ◌≤◌, ◌≡◌, ◌≢◌, refl, sym, false, List, [], ◌∷◌, arith, leb, ◌==◌, Bool-cases, inl, inr, leb→le,
  All,
}
use claire.Events.Timeouts.{Event, next_expiration, has_id, insert_ordered, insert, erase}

module _ {C : Type 0} where
  pub All-map :
      (P Q : Event C → Type 0) (es : List (Event C))
      → ((e : Event C) → P e → Q e)
      → All P es
      → All Q es
  All-map P Q [] f h = tt
  All-map P Q (e ∷ es) f (p, h) = (f e p, All-map P Q es f h)

  -- The events stand in the order of their expirations.
  unfoldable pub Sorted : List (Event C) → Type 0
  Sorted [] = Unit {0}
  Sorted (e ∷ es) = All (λ x. e.expiration ≤ x.expiration) es × Sorted es

  -- No two events have the same id.
  unfoldable pub DistinctIds : List (Event C) → Type 0
  DistinctIds [] = Unit {0}
  DistinctIds (e ∷ es) = All (λ x. x.id ≢ e.id) es × DistinctIds es

  pub insert_ordered-All :
      (P : Event C → Type 0) (e : Event C) (es : List (Event C))
      → P e
      → All P es
      → All P (insert_ordered e es)
  unfolding insert_ordered
  insert_ordered-All P e [] p h = (p, tt)
  insert_ordered-All P e (x ∷ xs) p (px, h) = elim (Bool-cases (leb x.expiration e.expiration)) [
    | inl b ↦ rw (b) (px, insert_ordered-All P e xs p h)
    | inr b ↦ rw (b) (p, (px, h))
  ]

  pub insert_ordered-Sorted :
      (e : Event C) (es : List (Event C)) → Sorted es → Sorted (insert_ordered e es)
  unfolding insert_ordered Sorted
  insert_ordered-Sorted e [] h = (tt, tt)
  insert_ordered-Sorted e (x ∷ xs) (first, h) = elim (Bool-cases (leb x.expiration e.expiration)) [
    | inl b ↦
        let le = leb→le x.expiration e.expiration b in
        rw (b) (
          insert_ordered-All (λ y. x.expiration ≤ y.expiration) e xs le first,
          insert_ordered-Sorted e xs h,
        )
    | inr b ↦
        let lt : e.expiration ≤ x.expiration = ground (arith, b) in
        rw (b) (
          (
            lt,
            All-map (λ y. x.expiration ≤ y.expiration) (λ y. e.expiration ≤ y.expiration) xs
                (λ y l. ground (arith, l, lt)) first,
          ),
          (first, h),
        )
  ]

  pub has_id-All : (i : ℕ) (es : List (Event C)) → has_id i es ≡ false → All (λ x. x.id ≢ i) es
  unfolding has_id
  has_id-All i [] h = tt
  has_id-All i (e ∷ es) h = (ground (arith, h), has_id-All i es (ground (arith, h)))

  pub All-has_id : (i : ℕ) (es : List (Event C)) → All (λ x. x.id ≢ i) es → has_id i es ≡ false
  unfolding has_id
  All-has_id i [] h = refl
  All-has_id i (e ∷ es) (ne, h) = ground (arith, ne, All-has_id i es h)

  pub insert_ordered-DistinctIds :
      (e : Event C) (es : List (Event C))
      → All (λ x. x.id ≢ e.id) es
      → DistinctIds es
      → DistinctIds (insert_ordered e es)
  unfolding insert_ordered DistinctIds
  insert_ordered-DistinctIds e [] fresh h = (tt, tt)
  insert_ordered-DistinctIds e (x ∷ xs) (ne, fresh) (first, h) =
      elim (Bool-cases (leb x.expiration e.expiration)) [
        | inl b ↦ rw (b) (
          insert_ordered-All (λ y. y.id ≢ x.id) e xs (λ q. ne (sym q)) first,
          insert_ordered-DistinctIds e xs fresh h,
        )
        | inr b ↦ rw (b) ((ne, fresh), (first, h))
      ]

  -- What is there after an insertion was there, or is the new event.
  pub insert-All :
      (P : Event C → Type 0) (e : Event C) (es : List (Event C))
      → P e
      → All P es
      → All P (insert e es)
  unfolding insert
  insert-All P e es p h = elim (Bool-cases (has_id e.id es)) [
    | inl b ↦ rw (b) h
    | inr b ↦ rw (b) (insert_ordered-All P e es p h)
  ]

  pub insert-Sorted : (e : Event C) (es : List (Event C)) → Sorted es → Sorted (insert e es)
  unfolding insert
  insert-Sorted e es h = elim (Bool-cases (has_id e.id es)) [
    | inl b ↦ rw (b) h
    | inr b ↦ rw (b) (insert_ordered-Sorted e es h)
  ]

  pub insert-DistinctIds :
      (e : Event C) (es : List (Event C)) → DistinctIds es → DistinctIds (insert e es)
  unfolding insert
  insert-DistinctIds e es h = elim (Bool-cases (has_id e.id es)) [
    | inl b ↦ rw (b) h
    | inr b ↦ rw (b) (insert_ordered-DistinctIds e es (has_id-All e.id es b) h)
  ]

  pub erase-All :
      (P : Event C → Type 0) (i : ℕ) (es : List (Event C)) → All P es → All P (erase i es)
  unfolding erase
  erase-All P i [] h = tt
  erase-All P i (e ∷ es) (p, h) = elim (Bool-cases (e.id == i)) [
    | inl b ↦ rw (b) (erase-All P i es h)
    | inr b ↦ rw (b) (p, erase-All P i es h)
  ]

  pub erase-Sorted : (i : ℕ) (es : List (Event C)) → Sorted es → Sorted (erase i es)
  unfolding erase Sorted
  erase-Sorted i [] h = tt
  erase-Sorted i (e ∷ es) (first, h) = elim (Bool-cases (e.id == i)) [
    | inl b ↦ rw (b) (erase-Sorted i es h)
    | inr b ↦ rw (b) (erase-All (λ x. e.expiration ≤ x.expiration) i es first, erase-Sorted i es h)
  ]

  pub erase-DistinctIds : (i : ℕ) (es : List (Event C)) → DistinctIds es → DistinctIds (erase i es)
  unfolding erase DistinctIds
  erase-DistinctIds i [] h = tt
  erase-DistinctIds i (e ∷ es) (first, h) = elim (Bool-cases (e.id == i)) [
    | inl b ↦ rw (b) (erase-DistinctIds i es h)
    | inr b ↦ rw (b) (erase-All (λ x. x.id ≢ e.id) i es first, erase-DistinctIds i es h)
  ]

  -- `NextExpiration` is no later than any event, and `time_max` on none.
  pub next_expiration_least :
      (es : List (Event C)) → Sorted es → All (λ e. next_expiration es ≤ e.expiration) es
  unfolding next_expiration Sorted
  next_expiration_least [] h = tt
  next_expiration_least (e ∷ es) (first, h) = (ground arith, first)
