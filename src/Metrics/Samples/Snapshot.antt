-- ===== src/Metrics/Samples/Snapshot.antt =====
-- Samples that are added and taken away again, and a snapshot.
use claire.Prelude.{
  ℕ, suc, ◌<◌, ◌≡◌, refl, sym, ◌∙◌, ap, ap₂, List, [], ◌∷◌, arith, le→leb, length, replicate,
  length-replicate, Returns, Returns->>=, Returns-map, ◌>>=◌,
}
use claire.Prelude.Int.{ℤ, pos, ◌+ℤ◌, ◌-ℤ◌, int_laws}
use claire.Metrics.Samples.{
  bucket_count, Samples, Operator, adds, subtracts, signed, combine, new_samples, snapshot,
}
use claire.Metrics.Samples.Search.{Increasing}
use claire.Metrics.Samples.Merge.{combined_from, Combined, combine_lem}

combined_from-back :
    (cs os : List ℤ)
    → length cs ≡ length os
    → combined_from subtracts 0 (combined_from adds 0 cs os) os ≡ cs
unfolding combined_from
combined_from-back [] os e = refl
combined_from-back (c ∷ cs) [] e = absurd (ground arith)
combined_from-back (c ∷ cs) (o ∷ os) e =
    ap₂ (λ x xs. x ∷ xs) (omega int_laws) (combined_from-back cs os (ground arith))

length-combined_from :
    (op : Operator) (cs os : List ℤ) → length (combined_from op 0 cs os) ≡ length cs
unfolding combined_from
length-combined_from op [] os = refl
length-combined_from op (c ∷ cs) [] = refl
length-combined_from op (c ∷ cs) (o ∷ os) = ap suc (length-combined_from op cs os)

add_back : (a b : ℤ) → a +ℤ b +ℤ (pos 0 -ℤ b) ≡ a
add_back a b = omega int_laws

combined_from_zeros : (cs : List ℤ) → combined_from adds 0 (replicate (length cs) (pos 0)) cs ≡ cs
unfolding combined_from
combined_from_zeros [] = refl
combined_from_zeros (c ∷ cs) = ap₂ (λ x xs. x ∷ xs) (omega int_laws) (combined_from_zeros cs)

-- Samples that are added and then taken away leave the counts and the sum as they were.
pub subtract-add :
    (r : List ℕ) (other s : Samples)
    → Increasing r
    → length other.counts ≡ bucket_count r
    → length s.counts ≡ bucket_count r
    → Returns (combine adds r r other s >>= combine subtracts r r other) (λ s'. s' ≡ s)
subtract-add r other s up len len' =
    Returns->>= (Combined adds other s) (λ s'. s' ≡ s) (combine adds r r other s)
      (combine subtracts r r other) (combine_lem adds r other s up len len')
      (λ s1 (cs1, sum1).
        Returns-map (Combined subtracts other s1) (λ s'. s' ≡ s) (combine subtracts r r other s1)
          (combine_lem subtracts r other s1 up len
            (ap length cs1 ∙ length-combined_from adds s.counts other.counts ∙ len'))
          (λ s2 (cs2, sum2).
            ap₂ (λ a b. record { counts = a; sum = b })
              (cs2
                ∙ ap (λ t. combined_from subtracts 0 t other.counts) cs1
                ∙ combined_from-back s.counts other.counts (len' ∙ sym len))
              (sum2 ∙ ap (λ t. t +ℤ signed subtracts other.sum) sum1 ∙ add_back s.sum other.sum)))

-- A snapshot has the counts and the sum of the samples it is taken of.
pub snapshot_lem :
    (r : List ℕ) (s : Samples)
    → Increasing r
    → 0 < bucket_count r
    → length s.counts ≡ bucket_count r
    → Returns (snapshot r s) (λ s'. s' ≡ s)
unfolding snapshot new_samples
snapshot_lem r s up some_bucket len = rw (le→leb 1 (bucket_count r) some_bucket) (
    Returns-map (Combined adds s zeros) (λ s'. s' ≡ s) (combine adds r r s zeros)
      (combine_lem adds r s zeros up len (length-replicate (bucket_count r) (pos 0)))
      (λ s' (cs, sums).
        ap₂ (λ a b. record { counts = a; sum = b })
          (cs
            ∙ ap (λ n. combined_from adds 0 (replicate n (pos 0)) s.counts) (sym len)
            ∙ combined_from_zeros s.counts)
          (sums ∙ zero_add s.sum)))
  where
    zeros : Samples
    zeros = record { counts = replicate (bucket_count r) (pos 0); sum = pos 0 }

    zero_add : (a : ℤ) → pos 0 +ℤ a ≡ a
    zero_add a = omega int_laws
