-- ===== src/Metrics/Counters.antt =====
-- common/metrics/CounterProvider.cc, Counter.cc and CounterSampler.cc: counters by name, one cell for
-- each counter and thread. A thread is its number, from 1; its slot is thread-local in the source and
-- stands in `slots` here. What the array holds at first is a parameter, since the source does not
-- clear it. An `int` is the word of its 32 bits (two's complement), a number below 2^32, and sums and
-- differences wrap around. (The standard leaves the overflow of an `int` undefined; the sampler counts
-- on counters that wrap.)
pub mod Cells
mod Tests
use claire.Prelude.{
  ℕ, zero, suc, ◌+◌, ◌-◌, ◌*◌, ◌%◌, ◌^◌, Bool, true, false, not, List, [], ◌∷◌, ◌++◌, Option, none,
  some, ◌==◌, leb, ltb, if◌then◌else◌, ◌>>=◌, ◌>>◌, check, length, get_elem?, look_up, find, is_nil,
}

-- The sum and the difference of two words, and `<` of the signed numbers that they stand for.
abbrev pub plus_word : ℕ → ℕ → ℕ
plus_word x y = (x + y) % 2 ^ 32

abbrev pub minus_word : ℕ → ℕ → ℕ
minus_word x y = (x + (2 ^ 32 - y)) % 2 ^ 32

abbrev pub ltb_signed : ℕ → ℕ → Bool
ltb_signed x y = ltb ((x + 2 ^ 31) % 2 ^ 32) ((y + 2 ^ 31) % 2 ^ 32)

pub record CounterProvider : Type 0 where
  pub max_threads : ℕ
  pub max_counters : ℕ
  pub counters : List (List ℕ × ℕ)
  pub slots : List (ℕ × ℕ)
  pub cells : List ℕ

-- `GetCounterId`: the id, 0 where there are too many.
abbrev pub counter_id_of : Option ℕ → List ℕ → CounterProvider → ℕ × CounterProvider
counter_id_of (some id) name p = (id, p)
counter_id_of none name p = if leb p.max_counters (length p.counters) then (0, p) else (
  suc (length p.counters),
  record p { counters = p.counters ++ (name, suc (length p.counters)) ∷ [] },
)

unfoldable pub get_counter_id : List ℕ → CounterProvider → ℕ × CounterProvider
get_counter_id name p = counter_id_of (look_up name p.counters) name p

-- `GetSlotId` of a thread.
abbrev pub slot_id_of : Option ℕ → ℕ → CounterProvider → ℕ × CounterProvider
slot_id_of (some slot) thread p = (slot, p)
slot_id_of none thread p =
    if leb p.max_threads (length p.slots)
    then (0, p)
    else (suc (length p.slots), record p { slots = p.slots ++ (thread, suc (length p.slots)) ∷ [] })

unfoldable pub get_slot_id : ℕ → CounterProvider → ℕ × CounterProvider
get_slot_id thread p = slot_id_of (find thread p.slots) thread p

-- `(counter_id-1)*max_threads_+slot_id-1`, where it is not below the array: at the slot 0 of the first
-- counter, and at the counter 0, it is.
unfoldable pub get_location : ℕ → ℕ → CounterProvider → Option ℕ
get_location zero slot p = none
get_location (suc c) slot p =
    check (ltb 0 (c * p.max_threads + slot)) >> some (c * p.max_threads + slot - 1)

-- `*location += value` and `= value` within the array.
abbrev pub write_cell : (ℕ → ℕ) → ℕ → List ℕ → Option (List ℕ)
write_cell f i [] = none
write_cell f zero (x ∷ xs) = some (f x ∷ xs)
write_cell f (suc i) (x ∷ xs) = write_cell f i xs >>= λ ys. some (x ∷ ys)

-- `Counter::Add` and `Set`: by `GetPtr`, nothing where there is no id.
abbrev pub write_at : (ℕ → ℕ) → Option ℕ → CounterProvider → Option CounterProvider
write_at f none p = none
write_at f (some i) p = write_cell f i p.cells >>= λ xs. some (record p { cells = xs })

abbrev pub write_counter : (ℕ → ℕ) → ℕ → ℕ → CounterProvider → Option CounterProvider
write_counter f zero thread p = some p
write_counter f (suc c) thread p =
    let (slot, p') = get_slot_id thread p in write_at f (get_location (suc c) slot p') p'

unfoldable pub add : List ℕ → ℕ → ℕ → CounterProvider → Option CounterProvider
add name value thread p =
    let (id, p') = get_counter_id name p in write_counter (λ x. plus_word x value) id thread p'

unfoldable pub set : List ℕ → ℕ → ℕ → CounterProvider → Option CounterProvider
set name value thread p =
    let (id, p') = get_counter_id name p in write_counter (λ x. value) id thread p'

-- `GetCounterValue`: the sum of a row.
abbrev pub sum_from : ℕ → ℕ → List ℕ → Option ℕ
sum_from i zero xs = some 0
sum_from i (suc n) xs = get_elem? xs i >>= λ x. sum_from (suc i) n xs >>= λ s. some (plus_word x s)

abbrev pub row_value : ℕ → CounterProvider → Option ℕ
row_value zero p = some 0
row_value (suc c) p = sum_from (c * p.max_threads) p.max_threads p.cells

unfoldable pub get_counter_value : List ℕ → CounterProvider → Option (ℕ × CounterProvider)
get_counter_value name p =
    let (id, p') = get_counter_id name p in row_value id p' >>= λ v. some (v, p')

-- `DoSnapshotDiff`.
abbrev pub int_max : ℕ
int_max = 2147483647

abbrev pub difference_of : Option ℕ → List ℕ → ℕ → List (List ℕ × ℕ) → List (List ℕ × ℕ)
difference_of none name value rest = rest
difference_of (some before) name value rest =
    (
      name,
      if ltb_signed value before
          then minus_word (minus_word int_max before) value
          else minus_word value before,
    )
    ∷ rest

unfoldable pub do_snapshot_diff : List (List ℕ × ℕ) → List (List ℕ × ℕ) → List (List ℕ × ℕ)
do_snapshot_diff [] old = []
do_snapshot_diff ((name, value) ∷ now) old =
    difference_of (look_up name old) name value (do_snapshot_diff now old)

-- `GetSnapshot`.
unfoldable pub snapshot_of : List (List ℕ × ℕ) → CounterProvider → Option (List (List ℕ × ℕ))
snapshot_of [] p = some []
snapshot_of ((name, id) ∷ rest) p =
    row_value id p >>= λ v. snapshot_of rest p >>= λ later. some ((name, v) ∷ later)

unfoldable pub get_snapshot : CounterProvider → Option (List (List ℕ × ℕ))
get_snapshot p = snapshot_of p.counters p

-- `CounterSampler`; the samples stand in a circular buffer.
pub record CounterSampler : Type 0 where
  pub capacity : ℕ
  pub last_snapshot : List (List ℕ × ℕ)
  pub samples : List (ℕ × List (List ℕ × ℕ))

abbrev pub without_first {ℓ} : {A : Type ℓ} → List A → List A
without_first [] = []
without_first (x ∷ xs) = xs

abbrev pub push_back :
    ℕ → ℕ × List (List ℕ × ℕ) → List (ℕ × List (List ℕ × ℕ)) → List (ℕ × List (List ℕ × ℕ))
push_back capacity x xs =
    if ltb (length xs) capacity then xs ++ x ∷ [] else without_first (xs ++ x ∷ [])

unfoldable pub keep_entry : ℕ → List (List ℕ × ℕ) → CounterSampler → CounterSampler
keep_entry now entry s =
    if is_nil entry then s else record s { samples = push_back s.capacity (now, entry) s.samples }

unfoldable pub do_sample : ℕ → CounterProvider → CounterSampler → Option CounterSampler
do_sample now p s = get_snapshot p >>= λ snapshot. some (
    keep_entry now
      (if is_nil s.last_snapshot then [] else do_snapshot_diff snapshot s.last_snapshot)
      (record s { last_snapshot = snapshot }))
