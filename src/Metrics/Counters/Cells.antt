-- ===== src/Metrics/Counters/Cells.antt =====
-- An increment counts once, in its own counter.
use claire.Prelude.{
  ℕ, zero, suc, ◌+◌, ◌-◌, ◌*◌, ◌%◌, ◌^◌, ◌≤◌, ◌<◌, ◌≡◌, ◌≢◌, refl, sym, ap, ◌∙◌, Bool, true, false,
  ◌&&◌, List, [], ◌∷◌, Option, none, some, ◌==◌, leb, ltb, ◌>>=◌, arith, length, get_elem?,
  Bool-cases, Option-cases, inl, inr, ==_iff, ==_self, Returns, Returns-map, ◌⊎◌, All, find,
  find-All, look_up, ◌++◌,
}
use claire.Metrics.Counters.{
  CounterProvider, get_location, write_cell, write_at, write_counter, sum_from, row_value,
  get_slot_id, get_counter_id, get_counter_value, add, plus_word,
}

abbrev pub raised : Bool → ℕ → ℕ → ℕ
raised true v x = plus_word x v
raised false v x = x

same_suc : (i j : ℕ) → (suc i == suc j) ≡ (i == j)
same_suc i j = ground arith

suc-zero : (i : ℕ) → (suc i == zero) ≡ false
suc-zero i = ground arith

zero-suc : (i : ℕ) → (zero == suc i) ≡ false
zero-suc i = ground arith

-- A cell within the array is written, and no other changes.
write_cell_lem :
    (v : ℕ) (j : ℕ) (xs : List ℕ)
    → j < length xs
    → (ys : List ℕ) × (write_cell (λ x. plus_word x v) j xs ≡ some ys)
      × (length ys ≡ length xs)
      × ((i : ℕ) (x : ℕ) → get_elem? xs i ≡ some x → get_elem? ys i ≡ some (raised (i == j) v x))
write_cell_lem v j [] h = absurd (omega (arith, h))
write_cell_lem v zero (x ∷ xs) h = ((plus_word x v) ∷ xs, refl, refl, cells)
  where
    cells :
        (i : ℕ) (y : ℕ)
        → get_elem? (x ∷ xs) i ≡ some y
        → get_elem? ((plus_word x v) ∷ xs) i ≡ some (raised (i == zero) v y)
    cells zero y e = let q : x ≡ y = cc (e) in ap (λ z. some (plus_word z v)) q
    cells (suc i) y e = rw (suc-zero i) e
write_cell_lem v (suc j) (x ∷ xs) h =
    let (ys, w, long, cells) = write_cell_lem v j xs (omega (arith, h)) in
    (x ∷ ys, rw (w) refl, ap suc long, also ys cells)
  where
    also :
        (ys : List ℕ)
        → ((i : ℕ) (x : ℕ) → get_elem? xs i ≡ some x → get_elem? ys i ≡ some (raised (i == j) v x))
        → (i : ℕ) (y : ℕ) → get_elem? (x ∷ xs) i ≡ some y
        → get_elem? (x ∷ ys) i ≡ some (raised (i == suc j) v y)
    also ys cells zero y e = rw (zero-suc j) e
    also ys cells (suc i) y e = rw (same_suc i j) (cells i y e)

sum_from_lem :
    (v : ℕ) (j : ℕ) (xs ys : List ℕ) (i n : ℕ) (s : ℕ)
    → ((i : ℕ) (x : ℕ) → get_elem? xs i ≡ some x → get_elem? ys i ≡ some (raised (i == j) v x))
    → sum_from i n xs ≡ some s
    → sum_from i n ys ≡ some (raised (leb i j && ltb j (i + n)) v s)
sum_from_lem v j xs ys i zero s cells e =
    let b : (leb i j && ltb j (i + 0)) ≡ false = ground arith in rw (b) e
sum_from_lem v j xs ys i (suc n) s cells e = elim (Option-cases (get_elem? xs i)) [
  | inl h ↦ absurd (let f : none ≡ some s = rw (h) at (e) in cc)
  | inr (x, h) ↦ elim (Option-cases (sum_from (suc i) n xs)) [
    | inl h2 ↦ absurd (let f : none ≡ some s = rw (h, h2) at (e) in cc)
    | inr (s2, h2) ↦
        let f : ◌≡◌ {A = Option ℕ} (some (plus_word x s2)) (some s) = rw (h, h2) at (e) in
        let q : plus_word x s2 ≡ s = cc (f) in
        let ih = sum_from_lem v j xs ys (suc i) n s2 cells h2 in
        rw (cells i x h, ih)
          (joined x s2 s q (Bool-cases (i == j)) (Bool-cases (leb (suc i) j && ltb j (suc i + n))))
  ]
]
  where
    later : (x s2 : ℕ) → ((x + v) % 2 ^ 32 + s2) % 2 ^ 32 ≡ ((x + s2) % 2 ^ 32 + v) % 2 ^ 32
    later x s2 = ground arith

    earlier : (x s2 : ℕ) → (x + (s2 + v) % 2 ^ 32) % 2 ^ 32 ≡ ((x + s2) % 2 ^ 32 + v) % 2 ^ 32
    earlier x s2 = ground arith

    joined :
        (x s2 s : ℕ)
        → plus_word x s2 ≡ s
        → ((i == j) ≡ true) ⊎ ((i == j) ≡ false)
        → ((leb (suc i) j && ltb j (suc i + n)) ≡ true)
          ⊎ ((leb (suc i) j && ltb j (suc i + n)) ≡ false)
        → some (plus_word (raised (i == j) v x) (raised (leb (suc i) j && ltb j (suc i + n)) v s2))
          ≡ some (raised (leb i j && ltb j (i + suc n)) v s)
    joined x s2 s q (inl a) (inl b) = absurd (ground (arith, a, b))
    joined x s2 s q (inl a) (inr b) =
        let c : (leb i j && ltb j (i + suc n)) ≡ true = ground (arith, a) in
        rw (a, b, c) (ap some (later x s2 ∙ ap (λ z. plus_word z v) q))
    joined x s2 s q (inr a) (inl b) =
        let c : (leb i j && ltb j (i + suc n)) ≡ true = ground (arith, a, b) in
        rw (a, b, c) (ap some (earlier x s2 ∙ ap (λ z. plus_word z v) q))
    joined x s2 s q (inr a) (inr b) =
        let c : (leb i j && ltb j (i + suc n)) ≡ false = ground (arith, a, b) in
        rw (a, b, c) (ap some q)

-- A row of the array lies before the next, and its cells in one row only.
row_before : (c c' n : ℕ) → c < c' → c * n + n ≤ c' * n
row_before c zero n h = absurd (omega (arith, h))
row_before c (suc c') n h = elim (Bool-cases (ltb c c')) [
  | inl b ↦
      let ih = row_before c c' n (ground (arith, b)) in
      let next : suc c' * n ≡ c' * n + n = omega arith in omega (arith, ih, next)
  | inr b ↦
      let q : c ≡ c' = ground (arith, b, h) in
      let next : suc c' * n ≡ c' * n + n = omega arith in omega (arith, next, ap (λ z. z * n) q)
]

in_row :
    (c c' n r : ℕ) → r < n → (leb (c' * n) (c * n + r) && ltb (c * n + r) (c' * n + n)) ≡ (c == c')
in_row c c' n r h = elim (Bool-cases (c == c')) [
  | inl b ↦
      let q : c * n ≡ c' * n = ap (λ z. z * n) ((==_iff c c').0 b) in rw (b) (ground (arith, q, h))
  | inr b ↦ elim (Bool-cases (ltb c c')) [
    | inl a ↦ let f = row_before c c' n (ground (arith, a)) in rw (b) (ground (arith, f, h))
    | inr a ↦ let f = row_before c' c n (ground (arith, a, b)) in rw (b) (ground (arith, f, h))
  ]
]

-- The array has a cell for each counter and slot, and each thread's slot is one of them.
abbrev pub Filled : CounterProvider → Type 0
Filled p = length p.cells ≡ p.max_counters * p.max_threads

abbrev pub Slotted : CounterProvider → Type 0
Slotted p = All (λ e. (0 < e.1) × (e.1 ≤ p.max_threads)) p.slots

-- The thread has a slot, or one is left for it.
abbrev pub HasSlot : ℕ → CounterProvider → Type 0
HasSlot thread p = (find thread p.slots ≢ none) ⊎ (length p.slots < p.max_threads)

-- What a write to a cell does to every row.
abbrev pub Raises : ℕ → ℕ → CounterProvider → CounterProvider → Type 0
Raises v j p p' =
    (p'.counters ≡ p.counters)
    × (length p'.cells ≡ length p.cells)
    × ((c : ℕ) (s : ℕ)
        → row_value (suc c) p ≡ some s
        → row_value (suc c) p'
          ≡ some
              (raised (leb (c * p.max_threads) j && ltb j (c * p.max_threads + p.max_threads)) v s))

write_at_lem :
    (v : ℕ) (j : ℕ) (p : CounterProvider)
    → j < length p.cells
    → Returns (write_at (λ x. plus_word x v) (some j) p) (Raises v j p)
write_at_lem v j p h =
    let (ys, w, long, cells) = write_cell_lem v j p.cells h in
    rw (w, Returns)
      (
        refl,
        long,
        (λ c s e. sum_from_lem v j p.cells ys (c * p.max_threads) p.max_threads s cells e),
      )

slot_lem :
    (thread : ℕ) (p : CounterProvider)
    → Slotted p
    → HasSlot thread p
    → (r : ℕ) × (m : List (ℕ × ℕ)) × (get_slot_id thread p ≡ (suc r, record p { slots = m }))
      × (r < p.max_threads)
unfolding get_slot_id
slot_lem thread p v h = elim (Option-cases (find thread p.slots)) [
  | inr (slot, e) ↦
      let (low, high) = find-All (λ s. (0 < s) × (s ≤ p.max_threads)) thread p.slots v e in
      let q : suc (slot - 1) ≡ slot = omega (arith, low) in
      (slot - 1, p.slots, rw (e) (ap (λ s. (s, p)) (sym q)), omega (arith, low, high))
  | inl e ↦
      let room : length p.slots < p.max_threads = elim h [ inl n ↦ absurd (n e) | inr l ↦ l ] in
      let b : leb p.max_threads (length p.slots) ≡ false = ground (arith, room) in
      (length p.slots, p.slots ++ (thread, suc (length p.slots)) ∷ [], rw (e, b) refl, room)
]

location_lem :
    (c r : ℕ) (p : CounterProvider) → get_location (suc c) (suc r) p ≡ some (c * p.max_threads + r)
unfolding get_location
location_lem c r p =
    let b : ltb 0 (c * p.max_threads + suc r) ≡ true = ground arith in
    let q : c * p.max_threads + suc r - 1 ≡ c * p.max_threads + r = omega arith in rw (b, q) refl

-- An increment of a registered counter by a thread that has a slot, or finds one, where the array is as
-- long as the table and the slots are within it: no access is out of bounds, the counter's value becomes
-- its sum with the increment, modulo 2^32, and the value of any other registered counter stays. The two
-- names have ids already, not necessarily different ones.
pub add_lem :
    (name other : List ℕ) (v s : ℕ) (thread c c' : ℕ) (p : CounterProvider)
    → Filled p
    → Slotted p
    → HasSlot thread p
    → look_up name p.counters ≡ some (suc c)
    → look_up other p.counters ≡ some (suc c')
    → c < p.max_counters
    → get_counter_value other p ≡ some (s, p)
    → Returns
        (add name v thread p)
        (λ p'. get_counter_value other p' ≡ some (raised (c == c') v s, p'))
unfolding add get_counter_id get_counter_value
add_lem name other v s thread c c' p filled slotted room named named' small e =
    let (r, m, slot, low) = slot_lem thread p slotted room in
    let p1 : CounterProvider = record p { slots = m } in
    let last = row_before c p.max_counters p.max_threads small in
    let row = row_of_value c' s p (rw (named') at (e)) in
    rw (named, slot, location_lem c r p1)
      (Returns-map (Raises v (c * p.max_threads + r) p1)
        (λ p'. get_counter_value other p' ≡ some (raised (c == c') v s, p'))
        (write_at (λ x. plus_word x v) (some (c * p.max_threads + r)) p1)
        (write_at_lem v (c * p.max_threads + r) p1 (omega (arith, filled, last, low)))
        (λ p' (same, long, rows).
          let there : look_up other p'.counters ≡ some (suc c') =
            ap (λ m. look_up other m) same ∙ named' in
          let raised_row = rows c' s row in
          rw (there, raised_row, in_row c c' p.max_threads r low) refl))
  where
    row_of_value :
        (c' : ℕ) (s : ℕ) (p : CounterProvider)
        → ◌>>=◌ {B = ℕ × CounterProvider} (row_value (suc c') p) (λ v. some (v, p)) ≡ some (s, p)
        → row_value (suc c') p ≡ some s
    row_of_value c' s p e = elim (Option-cases (row_value (suc c') p)) [
      | inl h ↦
          absurd (
            let f : ◌≡◌ {A = Option (ℕ × CounterProvider)} none (some (s, p)) = rw (h) at (e) in cc)
      | inr (x, h) ↦
          let f : ◌≡◌ {A = Option (ℕ × CounterProvider)} (some (x, p)) (some (s, p)) =
            rw (h) at (e) in
          let q : x ≡ s = cc (f) in h ∙ ap some q
    ]

-- An increment of a registered counter, on 32-bit words, by a thread for which no slot is left, when all are taken: of the first counter it writes
-- before the array. Of any other it changes the value of the counter before it, and not of its own.
pub write_counter_without_slot :
    (v s own : ℕ) (thread c : ℕ) (p : CounterProvider)
    → Filled p
    → 0 < p.max_threads
    → c < p.max_counters
    → find thread p.slots ≡ none
    → p.max_threads ≤ length p.slots
    → row_value (suc c) p ≡ some s
    → row_value (suc (suc c)) p ≡ some own
    → (write_counter (λ x. plus_word x v) 1 thread p ≡ none)
      × Returns (write_counter (λ x. plus_word x v) (suc (suc c)) thread p) (λ p'.
        (row_value (suc c) p' ≡ some (plus_word s v)) × (row_value (suc (suc c)) p' ≡ some own))
unfolding get_slot_id get_location
write_counter_without_slot v s own thread c p filled some_threads small lone full e f =
    let b : leb p.max_threads (length p.slots) ≡ true = ground (arith, full) in
    let n : ltb 0 (0 * p.max_threads + 0) ≡ false = ground arith in
    let i : ltb 0 (suc c * p.max_threads + 0) ≡ true = ground (arith, some_threads) in
    let j : suc c * p.max_threads + 0 - 1 ≡ c * p.max_threads + (p.max_threads - 1) =
      omega (arith, some_threads) in
    let low : p.max_threads - 1 < p.max_threads = omega (arith, some_threads) in
    let last = row_before c p.max_counters p.max_threads small in
    let own_c : (c == c) ≡ true = ==_self c in
    let other_c : (c == suc c) ≡ false = ground arith in
    (
      rw (lone, b, n) refl,
      rw (lone, b, i, j)
          (Returns-map (Raises v (c * p.max_threads + (p.max_threads - 1)) p)
            (λ p'.
              (row_value (suc c) p' ≡ some (plus_word s v))
              × (row_value (suc (suc c)) p' ≡ some own))
            (write_at (λ x. plus_word x v) (some (c * p.max_threads + (p.max_threads - 1))) p)
            (write_at_lem v (c * p.max_threads + (p.max_threads - 1)) p
              (omega (arith, filled, last, low)))
            (λ p' (same, long, rows).
              let up = rows c s e in
              let kept = rows (suc c) own f in
              (
                rw (up, in_row c c p.max_threads (p.max_threads - 1) low, own_c) refl,
                rw (kept, in_row c (suc c) p.max_threads (p.max_threads - 1) low, other_c) refl,
              ))),
    )
