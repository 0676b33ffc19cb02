-- ===== src/Metrics/Counters/Tests.antt =====
-- Tests of the counters, and their theorems at concrete inputs.
use claire.Prelude.{◌≡◌, refl, inl, arith, [], ◌∷◌, none, some, Returns, ◌==◌}
use claire.Metrics.Counters.{
  CounterProvider, get_counter_id, get_counter_value, add, write_counter, row_value,
  do_snapshot_diff, plus_word, do_sample, get_snapshot, snapshot_of, keep_entry,
}
use claire.Metrics.Counters.Cells.{raised, add_lem, write_counter_without_slot}

-- Two counters and two threads, both slots taken; the cells as they may be.
abbrev full_provider : CounterProvider
full_provider = record {
  max_threads = 2;
  max_counters = 2;
  counters = (65 ∷ [], 1) ∷ (66 ∷ [], 2) ∷ [];
  slots = (10, 1) ∷ (20, 2) ∷ [];
  cells = 1 ∷ 2 ∷ 3 ∷ 4 ∷ [];
}

add_lem_example :
    Returns
      (add (66 ∷ []) 5 20 full_provider)
      (λ p'. get_counter_value (65 ∷ []) p' ≡ some (raised (1 == 0) 5 3, p'))
unfolding get_counter_value get_counter_id
add_lem_example =
    add_lem (66 ∷ []) (65 ∷ []) 5 3 20 1 0 full_provider refl
      ((omega arith, omega arith), ((omega arith, omega arith), tt)) (inl (λ e. cc)) refl refl
      (omega arith) refl

write_counter_without_slot_example :
    (write_counter (λ x. plus_word x 5) 1 30 full_provider ≡ none)
    × Returns
        (write_counter (λ x. plus_word x 5) 2 30 full_provider)
        (λ p'. (row_value 1 p' ≡ some (plus_word 3 5)) × (row_value 2 p' ≡ some 7))
write_counter_without_slot_example =
    write_counter_without_slot 5 3 7 30 0 full_provider refl (omega arith) (omega arith) refl
      (omega arith) refl refl

-- A sample is the differences to the one before; the first gives none.
two_samples_test :
    (do_sample 100 full_provider
      (record { capacity = 1; last_snapshot = (65 ∷ [], 1) ∷ []; samples = (99, []) ∷ [] }))
    ≡ some (record {
      capacity = 1;
      last_snapshot = (65 ∷ [], 3) ∷ (66 ∷ [], 7) ∷ [];
      samples = (100, (65 ∷ [], 2) ∷ []) ∷ [];
    })
unfolding do_sample get_snapshot snapshot_of keep_entry do_snapshot_diff
two_samples_test = refl
