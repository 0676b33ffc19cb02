-- ===== src/Prelude/Maps.antt =====
-- Members of a list of numbers, and maps as lists of keys and values.
use Prim.Native.Nat.{ℕ, ◌+◌}
use mathlib.Core.Path.{◌≡◌, refl, ap, ◌∙◌, subst}
use mathlib.Core.Logic.{inl, inr}
use mathlib.Core.Bool.{Bool, true, false, not, ◌&&◌, ◌||◌}
use mathlib.Core.Option.{Option, none, some}
use mathlib.Core.List.{List, [], ◌∷◌, ◌++◌}
use native.Mathlib.Omega.{arith}
use claire.Prelude.Tests.{◌==◌, ==_self, if◌then◌else◌, Bool-cases}
use claire.Prelude.Lists.{All}

abbrev pub is_nil {ℓ} : {A : Type ℓ} → List A → Bool
is_nil [] = true
is_nil (x ∷ xs) = false

abbrev pub has : ℕ → List ℕ → Bool
has x [] = false
has x (y ∷ ys) = y == x || has x ys

pub has-append : (x : ℕ) (xs ys : List ℕ) → has x (xs ++ ys) ≡ (has x xs || has x ys)
has-append x [] ys = refl
has-append x (z ∷ xs) ys = ground (arith, has-append x xs ys)

-- How often a number stands in a list.
abbrev pub count : ℕ → List ℕ → ℕ
count x [] = 0
count x (y ∷ ys) = (if y == x then 1 else 0) + count x ys

pub count-append : (x : ℕ) (xs ys : List ℕ) → count x (xs ++ ys) ≡ count x xs + count x ys
count-append x [] ys = omega arith
count-append x (z ∷ xs) ys = omega (arith, count-append x xs ys)

-- No number stands twice.
abbrev pub Once : List ℕ → Type 0
Once [] = Unit {0}
Once (x ∷ xs) = (has x xs ≡ false) × Once xs

pub Once-append_new : (x : ℕ) (xs : List ℕ) → has x xs ≡ false → Once xs → Once (xs ++ x ∷ [])
Once-append_new x [] h o = (refl, tt)
Once-append_new x (y ∷ ys) h (new, o) =
    (has-append y ys (x ∷ []) ∙ ground (arith, h, new), Once-append_new x ys (ground (arith, h)) o)

-- The keys are numbers.
module _ {ℓ} {V : Type ℓ} where
  abbrev pub find : ℕ → List (ℕ × V) → Option V
  find k [] = none
  find k ((j, v) ∷ m) = if j == k then some v else find k m

  abbrev pub erase_key : ℕ → List (ℕ × V) → List (ℕ × V)
  erase_key k [] = []
  erase_key k ((j, v) ∷ m) = let rest = erase_key k m in if j == k then rest else (j, v) ∷ rest

  abbrev pub keys : List (ℕ × V) → List ℕ
  keys [] = []
  keys ((j, v) ∷ m) = j ∷ keys m

  -- `m.insert({k, v})`: what is there stays.
  abbrev pub insert_new : ℕ → V → List (ℕ × V) → List (ℕ × V)
  insert_new k v m = if has k (keys m) then m else m ++ (k, v) ∷ []

  -- `m[k] = v`.
  abbrev pub assign : ℕ → V → List (ℕ × V) → List (ℕ × V)
  assign k v m = erase_key k m ++ (k, v) ∷ []

  pub keys-append : (m n : List (ℕ × V)) → keys (m ++ n) ≡ keys m ++ keys n
  keys-append [] n = refl
  keys-append ((j, v) ∷ m) n = ap (λ ks. j ∷ ks) (keys-append m n)

  pub erase_key_absent : (k : ℕ) (m : List (ℕ × V)) → has k (keys m) ≡ false → erase_key k m ≡ m
  erase_key_absent k [] h = refl
  erase_key_absent k ((j, v) ∷ m) h = elim (Bool-cases (j == k)) [
    | inl e ↦ absurd (ground (arith, e, h))
    | inr e ↦ rw (e) (ap (λ t. (j, v) ∷ t) (erase_key_absent k m (ground (arith, e, h))))
  ]

  pub has-find : (k : ℕ) (m : List (ℕ × V)) → has k (keys m) ≡ true → (v : V) × (find k m ≡ some v)
  has-find k [] h = absurd (cc)
  has-find k ((j, v) ∷ m) h = elim (Bool-cases (j == k)) [
    | inl e ↦ (v, rw (e) refl)
    | inr e ↦ let (w, f) = has-find k m (ground (arith, e, h)) in (w, rw (e) f)
  ]

  pub find_absent : (k : ℕ) (m : List (ℕ × V)) → has k (keys m) ≡ false → find k m ≡ none
  find_absent k [] h = refl
  find_absent k ((j, v) ∷ m) h = elim (Bool-cases (j == k)) [
    | inl e ↦ absurd (ground (arith, e, h))
    | inr e ↦ rw (e) (find_absent k m (ground (arith, e, h)))
  ]

  pub has-erase_key :
      (x k : ℕ) (m : List (ℕ × V)) → has x (keys (erase_key k m)) ≡ (not (x == k) && has x (keys m))
  has-erase_key x k [] = ground arith
  has-erase_key x k ((j, v) ∷ m) = elim (Bool-cases (j == k)) [
    | inl e ↦ rw (e) (ground (arith, e, has-erase_key x k m))
    | inr e ↦ rw (e) (ground (arith, e, has-erase_key x k m))
  ]

  pub All-erase_key :
      (P : ℕ × V → Type 0) (k : ℕ) (m : List (ℕ × V)) → All P m → All P (erase_key k m)
  All-erase_key P k [] h = tt
  All-erase_key P k ((j, v) ∷ m) (p, h) = elim (Bool-cases (j == k)) [
    | inl e ↦ rw (e) (All-erase_key P k m h)
    | inr e ↦ rw (e) (p, All-erase_key P k m h)
  ]

  pub find-All :
      (P : V → Type 0) (k : ℕ) (m : List (ℕ × V)) {v : V}
      → All (λ e. P e.1) m
      → find k m ≡ some v
      → P v
  find-All P k [] h e = absurd (cc)
  find-All P k ((j, w) ∷ m) {v} (p, h) e = elim (Bool-cases (j == k)) [
    | inl b ↦ let e1 : some w ≡ some v = rw (b) at (e) in let q : w ≡ v = cc in subst P q p
    | inr b ↦ find-All P k m h (rw (b) at (e))
  ]

  pub erase_key-Once : (k : ℕ) (m : List (ℕ × V)) → Once (keys m) → Once (keys (erase_key k m))
  erase_key-Once k [] o = tt
  erase_key-Once k ((j, v) ∷ m) (new, o) = elim (Bool-cases (j == k)) [
    | inl e ↦ rw (e) (erase_key-Once k m o)
    | inr e ↦ rw (e) (has-erase_key j k m ∙ ground (arith, new), erase_key-Once k m o)
  ]

  pub All-keys-erase_key :
      (P : ℕ → Type 0) (k : ℕ) (m : List (ℕ × V)) → All P (keys m) → All P (keys (erase_key k m))
  All-keys-erase_key P k [] h = tt
  All-keys-erase_key P k ((j, v) ∷ m) (p, h) = elim (Bool-cases (j == k)) [
    | inl e ↦ rw (e) (All-keys-erase_key P k m h)
    | inr e ↦ rw (e) (p, All-keys-erase_key P k m h)
  ]

  pub find-append_new :
      (k : ℕ) (v : V) (m : List (ℕ × V))
      → has k (keys m) ≡ false
      → find k (m ++ (k, v) ∷ []) ≡ some v
  find-append_new k v [] h = rw (==_self k) refl
  find-append_new k v ((j, w) ∷ m) h = elim (Bool-cases (j == k)) [
    | inl e ↦ absurd (ground (arith, e, h))
    | inr e ↦ rw (e) (find-append_new k v m (ground (arith, e, h)))
  ]

  pub erase_key-append_new :
      (k : ℕ) (v : V) (m : List (ℕ × V))
      → has k (keys m) ≡ false
      → erase_key k (m ++ (k, v) ∷ []) ≡ m
  erase_key-append_new k v [] h = rw (==_self k) refl
  erase_key-append_new k v ((j, w) ∷ m) h = elim (Bool-cases (j == k)) [
    | inl e ↦ absurd (ground (arith, e, h))
    | inr e ↦ rw (e) (ap (λ t. (j, w) ∷ t) (erase_key-append_new k v m (ground (arith, e, h))))
  ]

-- Two texts are the same, and a map whose keys are texts.
abbrev pub same : List ℕ → List ℕ → Bool
same [] [] = true
same [] (y ∷ ys) = false
same (x ∷ xs) [] = false
same (x ∷ xs) (y ∷ ys) = x == y && same xs ys

pub same_self : (xs : List ℕ) → same xs xs ≡ true
same_self [] = refl
same_self (x ∷ xs) = rw (==_self x, same_self xs) refl

abbrev pub look_up {ℓ} : {A : Type ℓ} → List ℕ → List (List ℕ × A) → Option A
look_up k [] = none
look_up k ((j, a) ∷ m) = let rest = look_up k m in if same j k then some a else rest

-- `map[key] = value`.
abbrev pub put {ℓ} : {A : Type ℓ} → List ℕ → A → List (List ℕ × A) → List (List ℕ × A)
put k a [] = (k, a) ∷ []
put k a ((j, b) ∷ m) = let rest = put k a m in if same j k then (j, a) ∷ m else (j, b) ∷ rest

pub look_up-put {ℓ} :
    {A : Type ℓ} (k : List ℕ) (a : A) (m : List (List ℕ × A)) → look_up k (put k a m) ≡ some a
look_up-put k a [] = rw (same_self k) refl
look_up-put k a ((j, b) ∷ m) = elim (Bool-cases (same j k)) [
  | inl e ↦ rw (e, e) refl
  | inr e ↦ rw (e, e) (look_up-put k a m)
]

abbrev pub last {ℓ} : {A : Type ℓ} → List A → Option A
last [] = none
last (x ∷ []) = some x
last (x ∷ y ∷ ys) = last (y ∷ ys)

pub last-append {ℓ} : {A : Type ℓ} (xs : List A) (x : A) → last (xs ++ x ∷ []) ≡ some x
last-append [] x = refl
last-append (y ∷ []) x = refl
last-append (y ∷ z ∷ xs) x = last-append (z ∷ xs) x
