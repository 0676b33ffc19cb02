-- ===== src/Metrics/Samples/Tests.antt =====
-- Tests of the samples, and their theorems at concrete inputs.
use claire.Prelude.{ℕ, zero, suc, ◌>>=◌, ◌≡◌, refl, true, List, [], ◌∷◌, some, arith, Returns}
use claire.Prelude.Int.{pos, negsuc, ◌+ℤ◌, ◌-ℤ◌, ◌*ℤ◌}
use claire.Metrics.Samples.{
  search, get_bucket_index, Samples, accumulate, add_at, clamp, histogram_add, sample_type_max,
  inspect_arguments, acceptable, combine, adds, subtracts, add_subtract, merge_loop,
  skip_empty_buckets, empty_buckets, done, next, snapshot,
}
use claire.Metrics.Samples.Merge.{Combined, combine_lem}
use claire.Metrics.Samples.Snapshot.{subtract-add, snapshot_lem}
use claire.Metrics.Samples.Search.{Increasing, Accumulated, histogram_add_lem}

abbrev four_ranges : List ℕ
four_ranges = 0 ∷ 1 ∷ 4 ∷ sample_type_max ∷ []

abbrev some_samples : Samples
some_samples = record { counts = pos 2 ∷ pos 0 ∷ pos 5 ∷ []; sum = pos 60 }

four_ranges-Increasing : Increasing four_ranges
four_ranges-Increasing zero zero lt le = absurd (ground arith)
four_ranges-Increasing zero (suc zero) lt le = ground arith
four_ranges-Increasing zero (suc (suc zero)) lt le = ground arith
four_ranges-Increasing zero (suc (suc (suc zero))) lt le = ground arith
four_ranges-Increasing zero (suc (suc (suc (suc j)))) lt le = absurd (ground arith)
four_ranges-Increasing (suc zero) zero lt le = absurd (ground arith)
four_ranges-Increasing (suc zero) (suc zero) lt le = absurd (ground arith)
four_ranges-Increasing (suc zero) (suc (suc zero)) lt le = ground arith
four_ranges-Increasing (suc zero) (suc (suc (suc zero))) lt le = ground arith
four_ranges-Increasing (suc zero) (suc (suc (suc (suc j)))) lt le = absurd (ground arith)
four_ranges-Increasing (suc (suc zero)) zero lt le = absurd (ground arith)
four_ranges-Increasing (suc (suc zero)) (suc zero) lt le = absurd (ground arith)
four_ranges-Increasing (suc (suc zero)) (suc (suc zero)) lt le = absurd (ground arith)
four_ranges-Increasing (suc (suc zero)) (suc (suc (suc zero))) lt le = ground arith
four_ranges-Increasing (suc (suc zero)) (suc (suc (suc (suc j)))) lt le = absurd (ground arith)
four_ranges-Increasing (suc (suc (suc i))) j lt le = absurd (ground arith)

get_bucket_index_test : get_bucket_index four_ranges 3 ≡ some 1
unfolding get_bucket_index search
get_bucket_index_test = refl

histogram_add_test :
    histogram_add four_ranges (negsuc 6) some_samples
    ≡ some (record { counts = pos 3 ∷ pos 0 ∷ pos 5 ∷ []; sum = pos 60 })
unfolding histogram_add clamp accumulate get_bucket_index search add_at ◌+ℤ◌ ◌*ℤ◌
histogram_add_test = refl

combine_test :
    combine subtracts four_ranges four_ranges some_samples some_samples
    ≡ some (record { counts = pos 0 ∷ pos 0 ∷ pos 0 ∷ []; sum = pos 0 })
unfolding combine add_subtract merge_loop skip_empty_buckets empty_buckets done next add_at ◌+ℤ◌
    ◌-ℤ◌
combine_test = refl

inspect_arguments_test : inspect_arguments (pos 0) (pos 9) 5 ≡ (true, pos 1, pos 9, 5)
unfolding inspect_arguments acceptable ◌+ℤ◌ ◌-ℤ◌
inspect_arguments_test = refl

combine_lem_example :
    Returns
      (combine adds four_ranges four_ranges some_samples some_samples)
      (Combined adds some_samples some_samples)
combine_lem_example =
    combine_lem adds four_ranges some_samples some_samples four_ranges-Increasing refl refl

subtract-add_example :
    Returns
      (combine adds four_ranges four_ranges some_samples some_samples
        >>= combine subtracts four_ranges four_ranges some_samples)
      (λ s'. s' ≡ some_samples)
subtract-add_example =
    subtract-add four_ranges some_samples some_samples four_ranges-Increasing refl refl

snapshot_lem_example : Returns (snapshot four_ranges some_samples) (λ s'. s' ≡ some_samples)
snapshot_lem_example =
    snapshot_lem four_ranges some_samples four_ranges-Increasing (ground arith) refl

histogram_add_lem_example :
    Returns
      (histogram_add four_ranges (negsuc 6) some_samples)
      (Accumulated four_ranges (clamp (negsuc 6)) (pos 1) some_samples)
histogram_add_lem_example =
    histogram_add_lem four_ranges (negsuc 6) some_samples four_ranges-Increasing refl refl refl
