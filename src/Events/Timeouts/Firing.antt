-- ===== src/Events/Timeouts/Firing.antt =====
-- The queue's operations: what each keeps of the set, and what `Run` fires and puts back.
use claire.Prelude.{
  ℕ, suc, ◌+◌, ◌-◌, ◌*◌, ◌/◌, ◌%◌, ◌≤◌, ◌<◌, ◌≡◌, ◌≢◌, ◌∙◌, ap, false, List, [], ◌∷◌, arith, ltb,
  if◌then◌else◌, Bool-cases, inl, inr, All,
}
use claire.Events.Timeouts.{
  Event, Queue, reset_timer, time_max, how_much_time_from_now, next_expiration, insert, add_in_loop,
  add, add_repeating, cancel,
}
use claire.Events.Timeouts.Order.{
  All-map, Sorted, DistinctIds, insert-All, insert-Sorted, insert-DistinctIds, erase-All,
  erase-Sorted, erase-DistinctIds, next_expiration_least,
}

time_parts :
    (d : ℕ)
    → (d % 1000000 * 1000 < 1000000000) × (d / 1000000 * 1000000000 + d % 1000000 * 1000 ≡ d * 1000)
time_parts d = ground arith

-- The time that is set in the system, in seconds and nanoseconds below a second, is the time that is
-- left, and 100 microseconds where less is left.
pub how_much_time_from_now_lem :
    (at_time now : ℕ)
    → ((how_much_time_from_now at_time now).1 < 1000000000)
      × ((how_much_time_from_now at_time now).0 * 1000000000
            + (how_much_time_from_now at_time now).1
          ≡ (if ltb at_time (now + 100) then 100 else at_time - now) * 1000)
unfolding how_much_time_from_now
how_much_time_from_now_lem at_time now =
    let same : (if ltb (at_time - now) 100 then 100 else at_time - now)
        ≡ (if ltb at_time (now + 100) then 100 else at_time - now) =
      ground arith in
    let (small, sum) = time_parts (if ltb (at_time - now) 100 then 100 else at_time - now) in
    (small, sum ∙ ap (λ d. d * 1000) same)

-- The time, or 100 microseconds from `clock` on where it is before that.
abbrev pub not_before : ℕ → ℕ → ℕ
not_before clock at_time = if ltb at_time (clock + 100) then clock + 100 else at_time

micros_parts : (d : ℕ) → d / 1000000 * 1000000 + d % 1000000 * 1000 / 1000 ≡ d
micros_parts d = ground arith

reset_timer_lem : (clock at_time : ℕ) → reset_timer clock at_time ≡ not_before clock at_time
unfolding reset_timer how_much_time_from_now
reset_timer_lem clock at_time =
    ap (λ d. clock + d) (micros_parts (if ltb (at_time - clock) 100 then 100 else at_time - clock))
    ∙ ground arith

module _ {C : Type 0} where
  -- The set is in order, ids are distinct, and the next id is above them all.
  unfoldable pub Kept : Queue C → Type 0
  Kept q = Sorted q.timeouts × DistinctIds q.timeouts × All (λ e. e.id < q.next_id) q.timeouts

  -- The timer of the system goes off no later than each event is due, and where an event is due before
  -- that, within 100 microseconds from `clock` on.
  unfoldable pub Armed : ℕ → Queue C → Type 0
  Armed clock q = All (λ e. q.armed ≤ not_before clock e.expiration) q.timeouts

  -- Set again for the first of the events.
  pub reset-Armed :
      (clock : ℕ) (es : List (Event C))
      → Sorted es
      → All (λ e. reset_timer clock (next_expiration es) ≤ not_before clock e.expiration) es
  reset-Armed clock es sorted = rw (reset_timer_lem clock (next_expiration es)) (
      All-map (λ e. next_expiration es ≤ e.expiration)
        (λ e. not_before clock (next_expiration es) ≤ not_before clock e.expiration) es
        (λ e le. ground (arith, le)) (next_expiration_least es sorted))

  add_in_loop-Kept :
      (clock : ℕ) (e : Event C) (q : Queue C)
      → e.id < q.next_id
      → Kept q
      → Kept (add_in_loop clock e q)
  unfolding Kept add_in_loop
  add_in_loop-Kept clock e q lt (sorted, distinct, below) = (
    insert-Sorted e q.timeouts sorted,
    insert-DistinctIds e q.timeouts distinct,
    insert-All (λ x. x.id < q.next_id) e q.timeouts lt below,
  )

  add_in_loop-Armed :
      (past clock : ℕ) (e : Event C) (q : Queue C)
      → past ≤ clock
      → e.expiration < time_max
      → Kept q
      → Armed past q
      → Armed clock (add_in_loop clock e q)
  unfolding Kept Armed add_in_loop
  add_in_loop-Armed past clock e q on soon (sorted, k1, k2) armed =
      elim (Bool-cases (ltb e.expiration (next_expiration q.timeouts))) [
        | inl b ↦
            rw (b) (reset-Armed clock (insert e q.timeouts) (insert-Sorted e q.timeouts sorted))
        | inr b ↦ rw (b) (
            insert-All (λ x. q.armed ≤ not_before clock x.expiration) e q.timeouts
              (go q.timeouts (later q.timeouts armed) b) (later q.timeouts armed))
      ]
    where
      later :
          (es : List (Event C))
          → All (λ x. q.armed ≤ not_before past x.expiration) es
          → All (λ x. q.armed ≤ not_before clock x.expiration) es
      later es a =
          All-map (λ x. q.armed ≤ not_before past x.expiration)
            (λ x. q.armed ≤ not_before clock x.expiration) es (λ x le. ground (arith, le, on)) a

      go :
          (es : List (Event C))
          → All (λ x. q.armed ≤ not_before clock x.expiration) es
          → ltb e.expiration (next_expiration es) ≡ false
          → q.armed ≤ not_before clock e.expiration
      go [] a b = absurd (unfold next_expiration in ground (arith, b, soon))
      go (x ∷ xs) a b = unfold next_expiration in ground (arith, b, a.0)

  fresh : (q : Queue C) → Kept q → All (λ e. e.id ≢ q.next_id) q.timeouts
  unfolding Kept
  fresh q k =
      All-map (λ e. e.id < q.next_id) (λ e. e.id ≢ q.next_id) q.timeouts
        (λ e lt. ground (arith, lt)) k.2

  raised : (q : Queue C) → Kept q → Kept (record q { next_id = suc q.next_id })
  unfolding Kept
  raised q (s, d, b) = (
    s,
    d,
    All-map (λ e. e.id < q.next_id) (λ e. e.id < suc q.next_id) q.timeouts
        (λ e lt. ground (arith, lt)) b,
  )

  pub cancel-Kept : (i : ℕ) (q : Queue C) → Kept q → Kept (cancel i q)
  unfolding Kept cancel
  cancel-Kept i q k = (
    erase-Sorted i q.timeouts k.0,
    erase-DistinctIds i q.timeouts k.1,
    erase-All (λ e. e.id < q.next_id) i q.timeouts k.2,
  )

  -- For times before the last, `Add`, `AddRepeating` and `Cancel` at the time `clock` keep the order and
  -- the ids, and an id that is answered belongs to no event of the set. Where the timer of the system was
  -- set in time at some time before, it is now: it goes off no later than each event is due, or within
  -- 100 microseconds from `clock` on, which is the least that it is set to.
  pub calls_keep :
      (q : Queue C) (past clock at_time now interval i : ℕ) (c : C)
      → past ≤ clock
      → at_time < time_max
      → now + interval < time_max
      → Kept q
      → Armed past q
      → (All (λ e. e.id ≢ (add clock at_time c q).0) q.timeouts
          × Kept (add clock at_time c q).1
          × Armed clock (add clock at_time c q).1)
        × (All (λ e. e.id ≢ (add_repeating clock now interval c q).0) q.timeouts
            × Kept (add_repeating clock now interval c q).1
            × Armed clock (add_repeating clock now interval c q).1)
        × (Kept (cancel i q) × Armed past (cancel i q))
  unfolding add add_repeating cancel
  calls_keep q past clock at_time now interval i c on soon soon' k a = (
    (
      fresh q k,
      add_in_loop-Kept clock _ q' (ground arith) (raised q k),
      add_in_loop-Armed past clock _ q' on soon (raised q k) (unfold Armed in a),
    ),
    (
      fresh q k,
      add_in_loop-Kept clock _ q' (ground arith) (raised q k),
      add_in_loop-Armed past clock _ q' on soon' (raised q k) (unfold Armed in a),
    ),
    (
      cancel-Kept i q k,
      unfold Armed in erase-All (λ e. q.armed ≤ not_before past e.expiration) i q.timeouts a,
    ),
  )
    where
      q' : Queue C
      q' = record q { next_id = suc q.next_id }
