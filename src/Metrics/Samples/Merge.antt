-- ===== src/Metrics/Samples/Merge.antt =====
-- Adding the samples of one vector to another that has the same ranges, and taking them away.
use claire.Prelude.{
  ℕ, zero, suc, ◌+◌, ◌-◌, ◌≤◌, ◌<◌, ◌≡◌, ◌≢◌, ◌⊎◌, refl, sym, ◌∙◌, ap, ap₂, subst, true, false,
  ◌&&◌, List, [], ◌∷◌, some, arith, ltb, ◌==◌, if◌then◌else◌, Bool-cases, inl, inr, lt→ltb, ==_iff,
  length, get_or, drop, Returns, Returns->>=, check, ◌>>◌, length-drop,
}
use claire.Prelude.Int.{ℤ, pos, negsuc, ◌+ℤ◌, int_laws}
use claire.Metrics.Samples.{
  bucket_count, range, Samples, add_at, Operator, adds, subtracts, signed, is_zero, empty_buckets,
  skip_empty_buckets, done, next, merge_loop, add_subtract, combine,
}
use claire.Metrics.Samples.Search.{Increasing, length-add_at}

-- Every count of the second vector is added to, or taken from, the one at its place, from `j` on.
unfoldable pub combined_from : Operator → ℕ → List ℤ → List ℤ → List ℤ
combined_from op zero [] os = []
combined_from op zero (c ∷ cs) [] = c ∷ cs
combined_from op zero (c ∷ cs) (o ∷ os) = (c +ℤ signed op o) ∷ combined_from op zero cs os
combined_from op (suc j) [] os = []
combined_from op (suc j) (c ∷ cs) [] = c ∷ cs
combined_from op (suc j) (c ∷ cs) (o ∷ os) = c ∷ combined_from op j cs os

signed_zero : (op : Operator) (o c : ℤ) → is_zero o ≡ true → c +ℤ signed op o ≡ c
signed_zero adds (pos zero) c h = omega int_laws
signed_zero adds (pos (suc n)) c h = absurd (cc)
signed_zero adds (negsuc n) c h = absurd (cc)
signed_zero subtracts (pos zero) c h = omega int_laws
signed_zero subtracts (pos (suc n)) c h = absurd (cc)
signed_zero subtracts (negsuc n) c h = absurd (cc)

combined_from_nothing : (op : Operator) (n : ℕ) (cs : List ℤ) → combined_from op n cs [] ≡ cs
unfolding combined_from
combined_from_nothing op zero [] = refl
combined_from_nothing op zero (c ∷ cs) = refl
combined_from_nothing op (suc n) [] = refl
combined_from_nothing op (suc n) (c ∷ cs) = refl

nothing_combined_from : (op : Operator) (n : ℕ) (os : List ℤ) → combined_from op n [] os ≡ []
unfolding combined_from
nothing_combined_from op zero os = refl
nothing_combined_from op (suc n) os = refl

combined_from-empty_buckets :
    (op : Operator) (cs os : List ℤ)
    → combined_from op (empty_buckets os) cs os ≡ combined_from op 0 cs os
unfolding combined_from empty_buckets
combined_from-empty_buckets op cs [] = refl
combined_from-empty_buckets op [] (o ∷ os) =
    nothing_combined_from op (if is_zero o then suc (empty_buckets os) else 0) (o ∷ os)
combined_from-empty_buckets op (c ∷ cs) (o ∷ os) = elim (Bool-cases (is_zero o)) [
  | inl e ↦
      rw (e)
        (ap₂ (λ x xs. x ∷ xs) (sym (signed_zero op o c e)) (combined_from-empty_buckets op cs os))
  | inr e ↦ rw (e) refl
]

skip_empty_buckets-suc :
    (o : ℤ) (os : List ℤ) (j : ℕ)
    → skip_empty_buckets (o ∷ os) (suc j) ≡ suc (skip_empty_buckets os j)
unfolding skip_empty_buckets
skip_empty_buckets-suc o os j = omega arith

skip_empty_buckets-zero : (os : List ℤ) → skip_empty_buckets os 0 ≡ empty_buckets os
unfolding skip_empty_buckets
skip_empty_buckets-zero os = omega arith

combined_from-skip_empty_buckets :
    (op : Operator) (j : ℕ) (cs os : List ℤ)
    → combined_from op (skip_empty_buckets os j) cs os ≡ combined_from op j cs os
unfolding combined_from
combined_from-skip_empty_buckets op zero cs os =
    rw (skip_empty_buckets-zero os) (combined_from-empty_buckets op cs os)
combined_from-skip_empty_buckets op (suc j) cs [] =
    combined_from_nothing op (skip_empty_buckets [] (suc j)) cs
    ∙ sym (combined_from_nothing op (suc j) cs)
combined_from-skip_empty_buckets op (suc j) [] (o ∷ os) =
    nothing_combined_from op (skip_empty_buckets (o ∷ os) (suc j)) (o ∷ os)
combined_from-skip_empty_buckets op (suc j) (c ∷ cs) (o ∷ os) =
    rw (skip_empty_buckets-suc o os j)
      (ap (λ xs. c ∷ xs) (combined_from-skip_empty_buckets op j cs os))

combined_from-add_at :
    (op : Operator) (j : ℕ) (cs os : List ℤ)
    → j < length os
    → combined_from op (suc j) (add_at j (signed op (get_or os j (pos 0))) cs) os
      ≡ combined_from op j cs os
unfolding combined_from add_at
combined_from-add_at op j cs [] h = absurd (ground arith)
combined_from-add_at op zero [] (o ∷ os) h = refl
combined_from-add_at op zero (c ∷ cs) (o ∷ os) h = refl
combined_from-add_at op (suc j) [] (o ∷ os) h = refl
combined_from-add_at op (suc j) (c ∷ cs) (o ∷ os) h =
    ap (λ xs. c ∷ xs) (combined_from-add_at op j cs os (ground arith))

combined_from-length : (op : Operator) (cs os : List ℤ) → combined_from op (length os) cs os ≡ cs
unfolding combined_from
combined_from-length op [] [] = refl
combined_from-length op (c ∷ cs) [] = refl
combined_from-length op [] (o ∷ os) = refl
combined_from-length op (c ∷ cs) (o ∷ os) = ap (λ xs. c ∷ xs) (combined_from-length op cs os)

empty_buckets_le : (os : List ℤ) → empty_buckets os ≤ length os
unfolding empty_buckets
empty_buckets_le [] = omega arith
empty_buckets_le (o ∷ os) = ground (arith, empty_buckets_le os)

skip_empty_buckets_le :
    (os : List ℤ) (j : ℕ)
    → j ≤ length os
    → (j ≤ skip_empty_buckets os j) × (skip_empty_buckets os j ≤ length os)
unfolding skip_empty_buckets
skip_empty_buckets_le os j h =
    (ground arith, omega (arith, h, empty_buckets_le (drop j os), length-drop j os))

module _ (op : Operator) (r : List ℕ) (up : Increasing r) (os : List ℤ)
    (same : length os ≡ bucket_count r) where
  apart : (i j : ℕ) → i ≤ j → (i ≡ j) ⊎ (i < j)
  apart i j h = omega arith

  no_test :
      (i j : ℕ) → (range r j == range r i && range r (suc j) == range r (suc i)) ≡ false → i ≢ j
  no_test i j e q =
      absurd_self (range r j) (range r (suc j))
        (subst (λ t. (range r j == range r t && range r (suc j) == range r (suc t)) ≡ false) q e)
    where
      absurd_self : (a b : ℕ) → (a == a && b == b) ≡ false → ⊥
      absurd_self a b h = ground arith

  meets : (i j : ℕ) → i ≤ j → j < length os → range r j ≡ range r i → i ≡ j
  meets i j le lt e = elim (apart i j le) [
    | inl q ↦ q
    | inr q ↦ absurd (ground (arith, e, up i j q (ground (arith, lt, same))))
  ]

  merge_loop-combined :
      (fuel i j : ℕ) (cs : List ℤ)
      → (length cs - i) + (length os - j) < fuel
      → i ≤ j
      → j ≤ length os
      → length cs ≡ length os
      → Returns
          (merge_loop op r r os fuel i j cs)
          (λ (b, cs'). (b ≡ true) × (cs' ≡ combined_from op j cs os))
  unfolding merge_loop done next
  merge_loop-combined zero i j cs f le bound len = absurd (ground arith)
  merge_loop-combined (suc fuel) i j cs f le bound len = elim (Bool-cases (j == length os)) [
    | inl d ↦
        let e = (==_iff j (length os)).0 d in
        let result : cs ≡ combined_from op j cs os = rw (e) (sym (combined_from-length op cs os)) in
        elim (Bool-cases (ltb i (length cs))) [
          | inl a ↦ rw (a, d, merge_loop, Returns) (refl, result)
          | inr a ↦ rw (a, d, merge_loop, Returns) (refl, result)
        ]
    | inr d ↦
        let more : j < length os = ground (arith, d, bound) in
        let index_lt : i < length cs = ground (arith, more, le, len) in
        elim (Bool-cases (range r j == range r i && range r (suc j) == range r (suc i))) [
          | inl e ↦
              let q : i ≡ j = meets i j le more (ground (arith, e)) in
              let c = add_at i (signed op (get_or os j (pos 0))) cs in
              let c_eq : combined_from op (suc j) c os ≡ combined_from op j cs os =
                subst
                  (λ t.
                    combined_from op (suc j) (add_at t (signed op (get_or os j (pos 0))) cs) os
                    ≡ combined_from op j cs os)
                  (sym q) (combined_from-add_at op j cs os more) in
              let (lo, hi) = skip_empty_buckets_le os (suc j) more in
              let len' : length c ≡ length cs =
                length-add_at i (signed op (get_or os j (pos 0))) cs in
              let h =
                merge_loop-combined fuel i (skip_empty_buckets os (suc j)) c
                  (ground (arith, f, len', lo, hi, more)) (ground (arith, lo, le)) hi
                  (len' ∙ len) in
              rw (lt→ltb i (length cs) index_lt, d, e, merge_loop, Returns)
                (subst
                  (λ t.
                    Returns (merge_loop op r r os fuel i (skip_empty_buckets os (suc j)) c)
                      (λ (b, cs'). (b ≡ true) × (cs' ≡ t)))
                  (combined_from-skip_empty_buckets op (suc j) c os ∙ c_eq) h)
          | inr e ↦
              let behind : i < j = elim (apart i j le) [
                | inl q ↦ absurd (no_test i j e q)
                | inr l ↦ l
              ] in
              let h =
                merge_loop-combined fuel (suc i) j cs (ground (arith, f, index_lt)) behind bound
                  len in
              rw
                (
                  lt→ltb i (length cs) index_lt,
                  d,
                  e,
                  lt→ltb (range r i) (range r j) (up i j behind (ground (arith, more, same))),
                  merge_loop,
                  Returns,
                )
                h
        ]
  ]

-- What `Add` or `Subtract` leaves: every count of the other vector is added to or taken from the one
-- of the same bucket, and its sum to or from the sum.
abbrev pub Combined : Operator → Samples → Samples → Samples → Type 0
Combined op other s s' =
    (s'.counts ≡ combined_from op 0 s.counts other.counts) × (s'.sum ≡ s.sum +ℤ signed op other.sum)

-- On ranges that go up, adding or taking away the samples of a vector with the same ranges comes to
-- its end, fails no check, and combines the counts bucket by bucket, empty buckets included.
pub combine_lem :
    (op : Operator) (r : List ℕ) (other s : Samples)
    → Increasing r
    → length other.counts ≡ bucket_count r
    → length s.counts ≡ bucket_count r
    → Returns (combine op r r other s) (Combined op other s)
unfolding combine add_subtract
combine_lem op r other s up len len' =
    Returns->>=
      (λ (b, cs).
        (b ≡ true)
        × (cs ≡ combined_from op (skip_empty_buckets other.counts 0) s.counts other.counts))
      (Combined op other s) (add_subtract op r r other.counts s.counts)
      (λ (b, cs). check b >> some (record { counts = cs; sum = s.sum +ℤ signed op other.sum }))
      (merge_loop-combined op r up other.counts len (suc (length s.counts + length other.counts)) 0
        (skip_empty_buckets other.counts 0) s.counts (ground arith) (ground arith)
        (skip_empty_buckets_le other.counts 0 (ground arith)).1 (len' ∙ sym len))
      (λ (b, cs) (e, q).
        rw (e) (q ∙ combined_from-skip_empty_buckets op 0 s.counts other.counts, refl))
