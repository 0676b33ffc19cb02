-- ===== src/Events/Timeouts/Tests.antt =====
-- Tests of the timers, and their theorems at concrete inputs.
use claire.Prelude.{ℕ, ◌≤◌, ◌<◌, ◌≡◌, ◌≢◌, ◌↔◌, refl, [], ◌∷◌, ◌++◌, none, some, map, arith, All}
use claire.Events.Timeouts.{
  Queue, reset_timer, how_much_time_from_now, add, add_repeating, insert, insert_ordered, has_id,
  erase, next_expiration, cancel, due, not_due, reinsert, put_back, call_back, run, on_timer,
}
use claire.Events.Timeouts.Order.{Sorted, DistinctIds}
use claire.Events.Timeouts.Firing.{Kept, Armed, calls_keep, cancel-Kept}
use claire.Events.Timeouts.Due.{AllPutBack, run_set}
use claire.Events.Timeouts.Runs.{on_timer_lem}

-- A one-time event is due at 5, one that repeats every 10 at 7, and one at 30.
abbrev three_timers : Queue ℕ
three_timers = record {
  timeouts =
      record { id = 2; expiration = 5; repeat_interval = none; callback = 3 }
      ∷ record { id = 1; expiration = 7; repeat_interval = some 10; callback = 0 }
      ∷ record { id = 3; expiration = 30; repeat_interval = none; callback = 0 }
      ∷ [];
  next_id = 4;
  armed = 100;
  fired = [];
}

-- The callback is the id that it cancels.
abbrev cancels : ℕ → Queue ℕ → Queue ℕ
cancels i q = cancel i q

three_timers-Kept : Kept three_timers
unfolding Kept Sorted DistinctIds
three_timers-Kept = ground arith

three_timers-Armed : Armed 0 three_timers
unfolding Armed
three_timers-Armed = ground arith

cancels-Kept : (c : ℕ) (q : Queue ℕ) → Kept q → Kept (cancels c q)
cancels-Kept c q k = cancel-Kept c q k

cancels_quiet : (c : ℕ) (q : Queue ℕ) → (cancels c q).fired ≡ q.fired
unfolding cancel
cancels_quiet c q = refl

on_timer_test : on_timer cancels 8 9 three_timers ≡ record {
  timeouts = record { id = 1; expiration = 18; repeat_interval = some 10; callback = 0 } ∷ [];
  next_id = 4;
  armed = 109;
  fired = 2 ∷ 1 ∷ [];
}
unfolding on_timer run due not_due reinsert put_back insert has_id insert_ordered call_back
    reset_timer how_much_time_from_now cancel erase next_expiration
on_timer_test = refl

calls_keep_example :
    (All (λ e. e.id ≢ (add 3 4 0 three_timers).0) three_timers.timeouts
      × Kept (add 3 4 0 three_timers).1
      × Armed 3 (add 3 4 0 three_timers).1)
    × (All (λ e. e.id ≢ (add_repeating 3 4 2 0 three_timers).0) three_timers.timeouts
        × Kept (add_repeating 3 4 2 0 three_timers).1
        × Armed 3 (add_repeating 3 4 2 0 three_timers).1)
    × (Kept (cancel 1 three_timers) × Armed 0 (cancel 1 three_timers))
calls_keep_example =
    calls_keep three_timers 0 3 4 4 2 1 0 (omega arith) (ground arith) (ground arith)
      three_timers-Kept three_timers-Armed

run_set_example :
    (due 8 three_timers.timeouts ++ not_due 8 three_timers.timeouts ≡ three_timers.timeouts)
    × All (λ e. e.expiration ≤ 8) (due 8 three_timers.timeouts)
    × All (λ e. 8 < e.expiration) (not_due 8 three_timers.timeouts)
    × (All
          (λ e. e.id ≢ 2)
          (reinsert 8 (due 8 three_timers.timeouts) (not_due 8 three_timers.timeouts))
        ↔ (AllPutBack (λ e. e.id ≢ 2) 8 (due 8 three_timers.timeouts)
            × All (λ e. e.id ≢ 2) (not_due 8 three_timers.timeouts)))
    × Sorted (reinsert 8 (due 8 three_timers.timeouts) (not_due 8 three_timers.timeouts))
    × DistinctIds (reinsert 8 (due 8 three_timers.timeouts) (not_due 8 three_timers.timeouts))
run_set_example = run_set (λ e. e.id ≢ 2) 8 three_timers three_timers-Kept

on_timer_lem_example :
    ((on_timer cancels 8 9 three_timers).fired
      ≡ [] ++ map (λ e. e.id) (due 8 three_timers.timeouts))
    × Kept (on_timer cancels 8 9 three_timers)
    × Armed 9 (on_timer cancels 8 9 three_timers)
on_timer_lem_example =
    on_timer_lem cancels cancels-Kept cancels_quiet 8 9 three_timers three_timers-Kept
