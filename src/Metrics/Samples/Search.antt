-- ===== src/Metrics/Samples/Search.antt =====
-- The binary search for a sample's bucket, and what is counted.
use claire.Prelude.{
  ℕ, zero, suc, ◌+◌, ◌-◌, ◌/◌, ◌≤◌, ◌<◌, ◌≡◌, ◌≢◌, ◌⊎◌, refl, sym, ◌∙◌, ap, subst, true, List, [],
  ◌∷◌, arith, leb, ◌==◌, Bool-cases, inl, inr, le→leb, lt→ltb, leb→le, length, get_or, Returns,
  Returns->>=,
}
use claire.Prelude.Int.{ℤ, pos, negsuc, ◌+ℤ◌, ◌*ℤ◌, int_laws, +ℤ_assoc}
use claire.Metrics.Samples.{
  bucket_count, range, search, get_bucket_index, Samples, add_at, accumulate, total, total_count,
  clamp, histogram_add, sample_type_max,
}

-- The bucket at `i` takes the sample.
abbrev pub InBucket : List ℕ → ℕ → ℕ → Type 0
InBucket r v i = (i < bucket_count r) × (range r i ≤ v) × (v < range r (suc i))

-- The samples that some bucket takes.
abbrev pub InRange : List ℕ → ℕ → Type 0
InRange r v = (0 < bucket_count r) × (range r 0 ≤ v) × (v < range r (bucket_count r))

mid_between : (a b : ℕ) → a < b → (a ≤ a + (b - a) / 2) × (a + (b - a) / 2 < b)
mid_between a b h = ground arith

mid_same : (a b : ℕ) → a < b → a + (b - a) / 2 ≡ a → b ≡ suc a
mid_same a b h e = ground arith

search-InBucket :
    (r : List ℕ) (v fuel under over : ℕ)
    → over - under < fuel
    → under < over
    → over ≤ bucket_count r
    → range r under ≤ v
    → v < range r over
    → Returns (search r v fuel under over) (InBucket r v)
unfolding search
search-InBucket r v zero under over f lt le lo hi = absurd (ground arith)
search-InBucket r v (suc fuel) under over f lt le lo hi =
    let mid = under + (over - under) / 2 in
    let (low, high) = mid_between under over lt in
    rw (le→leb under over (ground arith)) (elim (Bool-cases (mid == under)) [
      | inl e ↦
          let same : mid ≡ under = ground (arith, e) in
          let next = mid_same under over lt same in
          rw (e) (
            subst (InBucket r v) (sym same)
              (ground (arith, lt, le), lo, subst (λ k. v < range r k) next hi))
      | inr e ↦
          let differ : under < mid = ground (arith, e, low) in
          rw (e) (elim (Bool-cases (leb (range r mid) v)) [
            | inl b ↦ rw (b) (
                search-InBucket r v fuel mid over (ground (arith, f, differ, high)) high le
                  (leb→le (range r mid) v b) hi)
            | inr b ↦ rw (b) (
                search-InBucket r v fuel under mid (ground (arith, f, differ, high)) differ
                  (ground (arith, high, le)) lo (ground (arith, b)))
          ])
    ])

-- A sample in the range of the buckets has its bucket found: no `CHECK` fails, the search ends within
-- its fuel, and the bucket takes the sample. The ranges need not be in order.
pub get_bucket_index_total :
    (r : List ℕ) (v : ℕ) → InRange r v → Returns (get_bucket_index r v) (InBucket r v)
unfolding get_bucket_index
get_bucket_index_total r v (some_bucket, lo, hi) =
    rw
      (
        le→leb 1 (bucket_count r) some_bucket,
        le→leb (range r 0) v lo,
        lt→ltb v (range r (bucket_count r)) hi,
      )
      (Returns->>= (InBucket r v) (InBucket r v)
        (search r v (suc (bucket_count r)) 0 (bucket_count r)) _
        (search-InBucket r v (suc (bucket_count r)) 0 (bucket_count r) (ground arith) some_bucket
          (ground arith) lo hi)
        (λ i h. rw (le→leb (range r i) v h.1, lt→ltb v (range r (suc i)) h.2) h))

-- The ranges go up.
abbrev pub Increasing : List ℕ → Type 0
Increasing r = (i j : ℕ) → i < j → j < length r → range r i < range r j

InBucket-unique : (r : List ℕ) (v i j : ℕ) → Increasing r → InBucket r v i → InBucket r v j → i ≡ j
InBucket-unique r v i j up (ilt, ilo, ihi) (jlt, jlo, jhi) = elim (compare_lem i j) [
  | inl e ↦ e
  | inr (inl lt) ↦ absurd (apart i j lt ilt jlt ihi jlo)
  | inr (inr lt) ↦ absurd (apart j i lt jlt ilt jhi ilo)
]
  where
    compare_lem : (a b : ℕ) → (a ≡ b) ⊎ (a < b) ⊎ (b < a)
    compare_lem a b = omega arith

    apart :
        (i j : ℕ)
        → i < j
        → i < bucket_count r
        → j < bucket_count r
        → v < range r (suc i)
        → range r j ≤ v
        → ⊥
    apart i j lt ib jb hi lo = elim (compare_lem (suc i) j) [
      | inl e ↦ ground (arith, subst (λ t. v < range r t) e hi)
      | inr (inl l) ↦ ground (arith, up (suc i) j l (ground arith))
      | inr (inr l) ↦ ground arith
    ]

pub length-add_at : (i : ℕ) (d : ℤ) (cs : List ℤ) → length (add_at i d cs) ≡ length cs
unfolding add_at
length-add_at i d [] = refl
length-add_at zero d (c ∷ cs) = refl
length-add_at (suc i) d (c ∷ cs) = ap suc (length-add_at i d cs)

get_or-add_at :
    (i : ℕ) (d : ℤ) (cs : List ℤ)
    → i < length cs
    → get_or (add_at i d cs) i (pos 0) ≡ get_or cs i (pos 0) +ℤ d
unfolding add_at
get_or-add_at i d [] h = absurd (ground arith)
get_or-add_at zero d (c ∷ cs) h = refl
get_or-add_at (suc i) d (c ∷ cs) h = get_or-add_at i d cs (ground arith)

get_or-add_at_other :
    (i j : ℕ) (d : ℤ) (cs : List ℤ) → j ≢ i → get_or (add_at i d cs) j (pos 0) ≡ get_or cs j (pos 0)
unfolding add_at
get_or-add_at_other i j d [] h = refl
get_or-add_at_other zero zero d (c ∷ cs) h = absurd (h refl)
get_or-add_at_other zero (suc j) d (c ∷ cs) h = refl
get_or-add_at_other (suc i) zero d (c ∷ cs) h = refl
get_or-add_at_other (suc i) (suc j) d (c ∷ cs) h = get_or-add_at_other i j d cs (λ e. h (ap suc e))

total-add_at : (i : ℕ) (d : ℤ) (cs : List ℤ) → i < length cs → total (add_at i d cs) ≡ total cs +ℤ d
unfolding add_at total
total-add_at i d [] h = absurd (ground arith)
total-add_at zero d (c ∷ cs) h = omega int_laws
total-add_at (suc i) d (c ∷ cs) h =
    ap (λ t. c +ℤ t) (total-add_at i d cs (ground arith)) ∙ sym (+ℤ_assoc c (total cs) d)

-- What `Accumulate` does to the counts and the sum.
abbrev pub Accumulated : List ℕ → ℕ → ℤ → Samples → Samples → Type 0
Accumulated r v n s s' =
    (total_count s' ≡ total_count s +ℤ pos 1)
    × (s'.sum ≡ s.sum +ℤ n *ℤ pos v)
    × (length s'.counts ≡ length s.counts)
    × ((i : ℕ) → InBucket r v i → get_or s'.counts i (pos 0) ≡ get_or s.counts i (pos 0) +ℤ pos 1)
    × ((i : ℕ) → (InBucket r v i → ⊥) → get_or s'.counts i (pos 0) ≡ get_or s.counts i (pos 0))

-- On ranges that go up, a sample in their range is accumulated without a failed check: the count of
-- the one bucket that takes it goes up by one, every other count stays, the total goes up by one
-- whatever the `count` that is passed, and the sum goes up by `count` times the sample.
pub accumulate_lem :
    (r : List ℕ) (v : ℕ) (n : ℤ) (s : Samples)
    → Increasing r
    → InRange r v
    → length s.counts ≡ bucket_count r
    → Returns (accumulate r v n s) (Accumulated r v n s)
unfolding accumulate
accumulate_lem r v n s up inside len =
    Returns->>= (InBucket r v) (Accumulated r v n s) (get_bucket_index r v) _
      (get_bucket_index_total r v inside)
      (λ i h. (
        total-add_at i (pos 1) s.counts (rw (len) (h.0)),
        refl,
        length-add_at i (pos 1) s.counts,
        (λ j k.
            subst
              (λ t.
                get_or (add_at i (pos 1) s.counts) t (pos 0) ≡ get_or s.counts t (pos 0) +ℤ pos 1)
              (InBucket-unique r v i j up h k) (get_or-add_at i (pos 1) s.counts (rw (len) (h.0)))),
        (λ j k. get_or-add_at_other i j (pos 1) s.counts (λ e. k (subst (InBucket r v) (sym e) h))),
      ))

clamp_small : (v : ℤ) → clamp v < sample_type_max
unfolding clamp
clamp_small (pos v) = ground arith
clamp_small (negsuc n) = ground arith

-- `Histogram::Add` takes every `int`: on ranges that go up from 0 to the largest `int`, no check fails
-- and the sample, or the nearest that is allowed, is counted once in its bucket.
pub histogram_add_lem :
    (r : List ℕ) (v : ℤ) (s : Samples)
    → Increasing r
    → range r 0 ≡ 0
    → range r (bucket_count r) ≡ sample_type_max
    → length s.counts ≡ bucket_count r
    → Returns (histogram_add r v s) (Accumulated r (clamp v) (pos 1) s)
unfolding histogram_add
histogram_add_lem r v s up first last len =
    let e : (0 == range r 0) ≡ true = ground (arith, first) in
    let e' : (sample_type_max == range r (bucket_count r)) ≡ true = ground (arith, last) in
    rw (e, e')
      (accumulate_lem r (clamp v) (pos 1) s up
        (
          some_bucket (bucket_count r) refl,
          ground (arith, first),
          subst (λ t. clamp v < t) (sym last) (clamp_small v),
        )
        len)
  where
    some_bucket : (n : ℕ) → bucket_count r ≡ n → 0 < n
    some_bucket zero q = absurd (
        let f : range r 0 ≡ sample_type_max = subst (λ t. range r t ≡ sample_type_max) q last in
        ground (arith, f, first))
    some_bucket (suc n) q = ground arith
