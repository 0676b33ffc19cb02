-- ===== src/Metrics/Samples.antt =====
-- common/metrics: BucketRanges.h, SampleVector.cc, HistogramSamples.cc, and the operations of
-- Histogram.cc that write. A range is a number: `set_range` and the constructor let no negative one
-- in, so `GetBucketIndex` refuses a negative sample at its second `CHECK`. Counts and the sum are
-- integers without bound (an overflow of `int` has no meaning in C++).
pub mod Search
pub mod Merge
pub mod Snapshot
pub mod Arguments
mod Tests
use claire.Prelude.{
  ℕ, zero, suc, ◌+◌, ◌-◌, ◌/◌, ◌^◌, ◌≡◌, Bool, true, false, ◌&&◌, List, [], ◌∷◌, Option, none, some,
  ltb, leb, ◌==◌, if◌then◌else◌, ◌>>=◌, ◌>>◌, check, length, get_or, set, drop, replicate,
}
use claire.Prelude.Int.{ℤ, pos, negsuc, ◌+ℤ◌, ◌-ℤ◌, ◌*ℤ◌, ltb_ℤ}

-- `BucketRanges`: `bucket_count()` and `range(i)`.
abbrev pub bucket_count : List ℕ → ℕ
bucket_count r = length r - 1

abbrev pub range : List ℕ → ℕ → ℕ
range r i = get_or r i 0

unfoldable pub set_range : ℕ → ℤ → List ℕ → Option (List ℕ)
set_range i (negsuc n) r = none
set_range i (pos v) r = check (ltb i (length r)) >> check (ltb 0 v) >> some (set r i v)

-- The loop of `GetBucketIndex`, on fuel.
unfoldable pub search : List ℕ → ℕ → ℕ → ℕ → ℕ → Option ℕ
search r v zero under over = none
search r v (suc fuel) under over =
    check (leb under over)
    >> (let mid = under + (over - under) / 2 in
        elim (mid == under) [
          | true ↦ some mid
          | false ↦ elim (leb (range r mid) v) [
            | true ↦ search r v fuel mid over
            | false ↦ search r v fuel under mid
          ]
        ])

unfoldable pub get_bucket_index : List ℕ → ℕ → Option ℕ
get_bucket_index r v =
    check (leb 1 (bucket_count r))
    >> (check (leb (range r 0) v)
        >> (check (ltb v (range r (bucket_count r)))
            >> (search r v (suc (bucket_count r)) 0 (bucket_count r) >>= λ mid.
                check (leb (range r mid) v) >> (check (ltb v (range r (suc mid))) >> some mid))))

-- `SampleVector`: the counts of the buckets, and the sum of the samples.
pub record Samples : Type 0 where
  pub counts : List ℤ
  pub sum : ℤ

unfoldable pub new_samples : List ℕ → Option Samples
new_samples r =
    check (leb 1 (bucket_count r))
    >> some (record { counts = replicate (bucket_count r) (pos 0); sum = pos 0 })

-- `counts_[i] += d`.
unfoldable pub add_at : ℕ → ℤ → List ℤ → List ℤ
add_at i d [] = []
add_at zero d (c ∷ cs) = (c +ℤ d) ∷ cs
add_at (suc i) d (c ∷ cs) = c ∷ add_at i d cs

unfoldable pub accumulate : List ℕ → ℕ → ℤ → Samples → Option Samples
accumulate r v n s = get_bucket_index r v >>= λ i.
    some (record { counts = add_at i (pos 1) s.counts; sum = s.sum +ℤ n *ℤ pos v })

unfoldable pub get_count : List ℕ → ℕ → Samples → Option ℤ
get_count r v s = get_bucket_index r v >>= λ i. some (get_or s.counts i (pos 0))

unfoldable pub total : List ℤ → ℤ
total [] = pos 0
total (c ∷ cs) = c +ℤ total cs

abbrev pub total_count : Samples → ℤ
total_count s = total s.counts

abbrev pub is_zero : ℤ → Bool
is_zero (pos zero) = true
is_zero _ = false

-- `SkipEmptyBuckets`: how many empty buckets come first.
unfoldable pub empty_buckets : List ℤ → ℕ
empty_buckets [] = 0
empty_buckets (c ∷ cs) = if is_zero c then suc (empty_buckets cs) else 0

unfoldable pub skip_empty_buckets : List ℤ → ℕ → ℕ
skip_empty_buckets cs i = i + empty_buckets (drop i cs)

-- `SampleVectorIterator`: its index; `Done`, and `Next` behind its `DCHECK`.
unfoldable pub done : List ℤ → ℕ → Bool
done cs i = i == length cs

unfoldable pub next : List ℤ → ℕ → ℕ
next cs i = skip_empty_buckets cs (suc i)

pub data Operator : Type 0 where
  adds subtracts : Operator

abbrev pub signed : Operator → ℤ → ℤ
signed adds c = c
signed subtracts c = pos 0 -ℤ c

-- The loop of `AddSubtractImpl`, on fuel: `r` and `cs` are the ranges and counts of this vector at
-- `index`, `r'` and `os` those that the iterator at `j` goes through.
unfoldable pub merge_loop :
    Operator → List ℕ → List ℕ → List ℤ → ℕ → ℕ → ℕ → List ℤ → Option (Bool × List ℤ)
merge_loop op r r' os zero index j cs = none
merge_loop op r r' os (suc fuel) index j cs = elim (ltb index (length cs)) [
  | false ↦ some (done os j, cs)
  | true ↦ elim (done os j) [
    | true ↦ some (true, cs)
    | false ↦ elim (range r' j == range r index && range r' (suc j) == range r (suc index)) [
      | true ↦
          merge_loop op r r' os fuel index (next os j)
            (add_at index (signed op (get_or os j (pos 0))) cs)
      | false ↦ elim (ltb (range r index) (range r' j)) [
        | true ↦ merge_loop op r r' os fuel (suc index) j cs
        | false ↦ some (false, cs)
      ]
    ]
  ]
]

-- A round goes to the next bucket of one of the two vectors, so this much fuel is enough.
unfoldable pub add_subtract : Operator → List ℕ → List ℕ → List ℤ → List ℤ → Option (Bool × List ℤ)
add_subtract op r r' os cs =
    merge_loop op r r' os (suc (length cs + length os)) 0 (skip_empty_buckets os 0) cs

-- `HistogramSamples::Add` and `Subtract`.
unfoldable pub combine : Operator → List ℕ → List ℕ → Samples → Samples → Option Samples
combine op r r' other s = add_subtract op r r' other.counts s.counts >>= λ (success, cs).
    check success >> some (record { counts = cs; sum = s.sum +ℤ signed op other.sum })

-- `kSampleTypeMax` and `kBucketCountMax`.
abbrev pub sample_type_max : ℕ
sample_type_max = 2 ^ 31 - 1

abbrev pub bucket_count_max : ℕ
bucket_count_max = 16384

unfoldable pub clamp : ℤ → ℕ
clamp (pos v) = if leb sample_type_max v then sample_type_max - 1 else v
clamp (negsuc n) = 0

-- `Histogram::Add`.
unfoldable pub histogram_add : List ℕ → ℤ → Samples → Option Samples
histogram_add r v s =
    check (0 == range r 0)
    >> (check (sample_type_max == range r (bucket_count r)) >> accumulate r (clamp v) (pos 1) s)

-- `Histogram::SnapshotSampleVector`.
unfoldable pub snapshot : List ℕ → Samples → Option Samples
snapshot r s = new_samples r >>= combine adds r r s

-- `Histogram::InspectConstructionArguments`: the arguments as it leaves them, and its answer.
abbrev pub at_least_one : ℤ → ℤ
at_least_one a = if ltb_ℤ a (pos 1) then pos 1 else a

abbrev pub below_type_max : ℤ → ℤ
below_type_max b = if ltb_ℤ b (pos sample_type_max) then b else pos (sample_type_max - 1)

abbrev pub below_count_max : ℕ → ℕ
below_count_max n = if leb bucket_count_max n then bucket_count_max - 1 else n

unfoldable pub acceptable : ℤ → ℤ → ℕ → Bool
acceptable a b n =
    if ltb_ℤ a b
    then (if ltb n 3 then false else (if ltb_ℤ (b -ℤ a +ℤ pos 2) (pos n) then false else true))
    else false

unfoldable pub inspect_arguments : ℤ → ℤ → ℕ → Bool × ℤ × ℤ × ℕ
inspect_arguments a b n = (
  acceptable (at_least_one a) (below_type_max b) (below_count_max n),
  at_least_one a,
  below_type_max b,
  below_count_max n,
)
