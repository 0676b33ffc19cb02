-- ===== src/Metrics/Samples/Arguments.antt =====
-- Which arguments a histogram is made with.
use claire.Prelude.{ℕ, ◌-◌, ◌≤◌, ◌<◌, ◌≡◌, ap, subst, true, arith}
use claire.Prelude.Int.{ℤ, pos, ◌+ℤ◌, ◌-ℤ◌, +ℤ_parts, ◌≤ℤ◌}
use claire.Metrics.Samples.{
  inspect_arguments, acceptable, at_least_one, below_type_max, below_count_max, sample_type_max,
  bucket_count_max,
}

abbrev pub Accepted : ℤ → ℤ → ℕ → Type 0
Accepted a b n =
    (pos 1 ≤ℤ a)
    × (a +ℤ pos 1 ≤ℤ b)
    × (b ≤ℤ pos (sample_type_max - 1))
    × (3 ≤ n)
    × (n < bucket_count_max)
    × (pos n ≤ℤ b -ℤ a +ℤ pos 2)

acceptable_lem :
    (a b : ℤ) (n : ℕ)
    → acceptable a b n ≡ true
    → (a +ℤ pos 1 ≤ℤ b) × (3 ≤ n) × (pos n ≤ℤ b -ℤ a +ℤ pos 2)
unfolding acceptable
acceptable_lem a b n e = ground (arith, e, +ℤ_parts a (pos 1))

at_least_one_lem : (a : ℤ) → pos 1 ≤ℤ at_least_one a
at_least_one_lem a = ground arith

below_type_max_lem : (b : ℤ) → below_type_max b ≤ℤ pos (sample_type_max - 1)
below_type_max_lem b = ground arith

below_count_max_lem : (n : ℕ) → below_count_max n < bucket_count_max
below_count_max_lem n = ground arith

-- Arguments of a histogram that `InspectConstructionArguments` accepts: the least is at least 1 and
-- below the greatest, the greatest is below the largest `int`, there are at least three buckets and
-- fewer than the limit, and no more than the values between the two and two more.
pub inspect_arguments_lem :
    (low high : ℤ) (n : ℕ) (low' high' : ℤ) (n' : ℕ)
    → inspect_arguments low high n ≡ (true, low', high', n')
    → Accepted low' high' n'
unfolding inspect_arguments
inspect_arguments_lem low high n low' high' n' e =
    let h =
      acceptable_lem (at_least_one low) (below_type_max high) (below_count_max n)
        (ap (λ t. t.0) e) in
    subst (λ t. Accepted t.1 t.2 t.3) e
      (at_least_one_lem low, h.0, below_type_max_lem high, h.1, below_count_max_lem n, h.2)
