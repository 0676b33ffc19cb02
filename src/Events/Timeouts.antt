-- ===== src/Events/Timeouts.antt =====
-- common/events/TimeoutQueue.cc: the queue of timers, in the loop's thread. The set, which is indexed
-- by id and by expiration, is the list of its events in the order of the second index, in which an
-- event goes behind those of the same expiration. What a callback does to the queue is a parameter.
-- Ids and times are numbers: they do not reach the bounds of `int64_t`, and the interval of a one-time
-- event, -1 in the source, is `none`.
pub mod Order
pub mod Firing
pub mod Due
pub mod Runs
mod Tests
use claire.Prelude.{
  ℕ, suc, ◌+◌, ◌-◌, ◌*◌, ◌/◌, ◌%◌, ◌^◌, ◌≡◌, Bool, true, false, not, ◌||◌, List, [], ◌∷◌, ◌++◌,
  Option, none, some, map, ltb, leb, ◌==◌, if◌then◌else◌,
}

pub record Event (C : Type 0) : Type 0 where
  pub id : ℕ
  pub expiration : ℕ
  pub repeat_interval : Option ℕ
  pub callback : C

-- The set, the next id, the time that the timer of the system goes off at, and the ids of the events
-- whose callbacks have run.
pub record Queue (C : Type 0) : Type 0 where
  pub timeouts : List (Event C)
  pub next_id : ℕ
  pub armed : ℕ
  pub fired : List ℕ

-- `std::numeric_limits<int64_t>::max()`.
abbrev pub time_max : ℕ
time_max = 2 ^ 63 - 1

-- Seconds and nanoseconds; `when - now` is less than 100 where it is negative.
unfoldable pub how_much_time_from_now : ℕ → ℕ → ℕ × ℕ
how_much_time_from_now at_time now =
    let delta = at_time - now in
    let delta' = if ltb delta 100 then 100 else delta in (delta' / 1000000, delta' % 1000000 * 1000)

-- `ResetTimerfd` at the time `now`: the time at which the timer of the system goes off.
unfoldable pub reset_timer : ℕ → ℕ → ℕ
reset_timer now expiration =
    let (seconds, nanoseconds) = how_much_time_from_now expiration now in
    now + (seconds * 1000000 + nanoseconds / 1000)

module _ {C : Type 0} where
  unfoldable pub new_queue : Queue C
  new_queue = record { timeouts = []; next_id = 1; armed = time_max; fired = [] }

  unfoldable pub next_expiration : List (Event C) → ℕ
  next_expiration [] = time_max
  next_expiration (e ∷ es) = e.expiration

  unfoldable pub has_id : ℕ → List (Event C) → Bool
  has_id i [] = false
  has_id i (e ∷ es) = e.id == i || has_id i es

  unfoldable pub insert_ordered : Event C → List (Event C) → List (Event C)
  insert_ordered e [] = e ∷ []
  insert_ordered e (x ∷ xs) =
      let rest = insert_ordered e xs in
      if leb x.expiration e.expiration then x ∷ rest else e ∷ x ∷ xs

  -- `timeouts_.insert`: an id that is there already is refused.
  unfoldable pub insert : Event C → List (Event C) → List (Event C)
  insert e es = if has_id e.id es then es else insert_ordered e es

  -- `get<kById>().erase(id)`.
  unfoldable pub erase : ℕ → List (Event C) → List (Event C)
  erase i [] = []
  erase i (e ∷ es) = let rest = erase i es in if e.id == i then rest else e ∷ rest

  -- `clock` is the time that `ResetTimerfd` reads.
  unfoldable pub add_in_loop : ℕ → Event C → Queue C → Queue C
  add_in_loop clock e q =
      let es = insert e q.timeouts in
      record q {
        timeouts = es;
        armed =
            if ltb e.expiration (next_expiration q.timeouts)
            then reset_timer clock (next_expiration es)
            else q.armed;
      }

  -- `Add` and `AddRepeating`: the id that they answer, and the queue.
  unfoldable pub add : ℕ → ℕ → C → Queue C → ℕ × Queue C
  add clock at_time c q =
      let e : Event C = record {
        id = q.next_id;
        expiration = at_time;
        repeat_interval = none;
        callback = c;
      } in
      (q.next_id, add_in_loop clock e (record q { next_id = suc q.next_id }))

  unfoldable pub add_repeating : ℕ → ℕ → ℕ → C → Queue C → ℕ × Queue C
  add_repeating clock now interval c q =
      let e : Event C = record {
        id = q.next_id;
        expiration = now + interval;
        repeat_interval = some interval;
        callback = c;
      } in
      (q.next_id, add_in_loop clock e (record q { next_id = suc q.next_id }))

  unfoldable pub cancel : ℕ → Queue C → Queue C
  cancel i q = record q { timeouts = erase i q.timeouts }

  -- The events up to `upper_bound(now)`, and those from it on.
  unfoldable pub due : ℕ → List (Event C) → List (Event C)
  due now [] = []
  due now (e ∷ es) = let rest = due now es in if leb e.expiration now then e ∷ rest else []

  unfoldable pub not_due : ℕ → List (Event C) → List (Event C)
  not_due now [] = []
  not_due now (e ∷ es) = let rest = not_due now es in if leb e.expiration now then rest else e ∷ es

  -- An event that repeats is put back.
  unfoldable pub put_back : ℕ → Event C → Option ℕ → List (Event C) → List (Event C)
  put_back now e none ts = ts
  put_back now e (some interval) ts = insert (record e { expiration = now + interval }) ts

  -- The first loop of `Run`.
  unfoldable pub reinsert : ℕ → List (Event C) → List (Event C) → List (Event C)
  reinsert now [] ts = ts
  reinsert now (e ∷ es) ts = reinsert now es (put_back now e e.repeat_interval ts)

  -- The second loop, with what each callback does.
  unfoldable pub call_back : (C → Queue C → Queue C) → List (Event C) → Queue C → Queue C
  call_back perform [] q = q
  call_back perform (e ∷ es) q =
      call_back perform es (perform e.callback (record q { fired = q.fired ++ e.id ∷ [] }))

  unfoldable pub run : (C → Queue C → Queue C) → ℕ → Queue C → ℕ × Queue C
  run perform now q =
      let expired = due now q.timeouts in
      let q' =
        call_back perform expired
          (record q { timeouts = reinsert now expired (not_due now q.timeouts) }) in
      (next_expiration q'.timeouts, q')

  -- `OnTimer`: `Run` gets the time before it, and `ResetTimerfd` reads the time behind it.
  unfoldable pub on_timer : (C → Queue C → Queue C) → ℕ → ℕ → Queue C → Queue C
  on_timer perform now clock q =
      let (next, q') = run perform now q in record q' { armed = reset_timer clock next }
