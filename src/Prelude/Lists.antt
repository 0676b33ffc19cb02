-- ===== src/Prelude/Lists.antt =====
-- Lists measured, cut and written by native numbers, under the library's names.
use Prim.Native.Nat.{ℕ, zero, suc, ◌+◌, ◌-◌, ◌≤◌, min}
use mathlib.Core.Path.{◌≡◌, refl, ap}
use mathlib.Core.List.{List, [], ◌∷◌, ◌++◌}
use mathlib.Core.Option.{Option, none, some}
use native.Mathlib.Omega.{arith}

module _ {ℓ} {A : Type ℓ} where
  abbrev pub length : List A → ℕ
  length [] = 0
  length (x ∷ xs) = suc (length xs)

  abbrev pub get_elem? : List A → ℕ → Option A
  get_elem? [] i = none
  get_elem? (x ∷ xs) zero = some x
  get_elem? (x ∷ xs) (suc i) = get_elem? xs i

  abbrev pub get_or : List A → ℕ → A → A
  get_or [] i d = d
  get_or (x ∷ xs) zero d = x
  get_or (x ∷ xs) (suc i) d = get_or xs i d

  -- A write out of bounds changes nothing.
  abbrev pub set : List A → ℕ → A → List A
  set [] i v = []
  set (x ∷ xs) zero v = v ∷ xs
  set (x ∷ xs) (suc i) v = x ∷ set xs i v

  abbrev pub take : ℕ → List A → List A
  take zero xs = []
  take (suc n) [] = []
  take (suc n) (x ∷ xs) = x ∷ take n xs

  abbrev pub drop : ℕ → List A → List A
  drop zero xs = xs
  drop (suc n) [] = []
  drop (suc n) (x ∷ xs) = drop n xs

  abbrev pub replicate : ℕ → A → List A
  replicate zero a = []
  replicate (suc n) a = a ∷ replicate n a

  -- `std::copy` of the items to the front of a range: what does not fit is not written.
  abbrev pub overlay : List A → List A → List A
  overlay [] xs = xs
  overlay (d ∷ ds) [] = []
  overlay (d ∷ ds) (x ∷ xs) = d ∷ overlay ds xs

  -- `std::copy` of the items to the positions from `i` on.
  abbrev pub copy_to : ℕ → List A → List A → List A
  copy_to zero ds xs = overlay ds xs
  copy_to (suc i) ds [] = []
  copy_to (suc i) ds (x ∷ xs) = x ∷ copy_to i ds xs

module _ {ℓ} {A : Type ℓ} where
  pub length-append : (xs ys : List A) → length (xs ++ ys) ≡ length xs + length ys
  length-append [] ys = omega arith
  length-append (x ∷ xs) ys = omega (arith, length-append xs ys)

  pub length-take : (n : ℕ) (xs : List A) → length (take n xs) ≡ min n (length xs)
  length-take zero xs = omega arith
  length-take (suc n) [] = omega arith
  length-take (suc n) (x ∷ xs) = omega (arith, length-take n xs)

  pub length-drop : (n : ℕ) (xs : List A) → length (drop n xs) ≡ length xs - n
  length-drop zero xs = omega arith
  length-drop (suc n) [] = omega arith
  length-drop (suc n) (x ∷ xs) = omega (arith, length-drop n xs)

  pub length-replicate : (n : ℕ) (a : A) → length (replicate n a) ≡ n
  length-replicate zero a = refl
  length-replicate (suc n) a = ap suc (length-replicate n a)

  pub length-overlay : (ds xs : List A) → length (overlay ds xs) ≡ length xs
  length-overlay [] xs = refl
  length-overlay (d ∷ ds) [] = refl
  length-overlay (d ∷ ds) (x ∷ xs) = ap suc (length-overlay ds xs)

  pub length-copy_to : (i : ℕ) (ds xs : List A) → length (copy_to i ds xs) ≡ length xs
  length-copy_to zero ds xs = length-overlay ds xs
  length-copy_to (suc i) ds [] = refl
  length-copy_to (suc i) ds (x ∷ xs) = ap suc (length-copy_to i ds xs)

  pub take-append-drop : (n : ℕ) (xs : List A) → take n xs ++ drop n xs ≡ xs
  take-append-drop zero xs = refl
  take-append-drop (suc n) [] = refl
  take-append-drop (suc n) (x ∷ xs) = rw (take-append-drop n xs)

  pub take_all : (n : ℕ) (xs : List A) → length xs ≤ n → take n xs ≡ xs
  take_all zero [] h = refl
  take_all zero (x ∷ xs) h = absurd (omega arith)
  take_all (suc n) [] h = refl
  take_all (suc n) (x ∷ xs) h = ap (λ ys. x ∷ ys) (take_all n xs (omega arith))

  pub drop_all : (n : ℕ) (xs : List A) → length xs ≤ n → drop n xs ≡ []
  drop_all zero [] h = refl
  drop_all zero (x ∷ xs) h = absurd (omega arith)
  drop_all (suc n) [] h = refl
  drop_all (suc n) (x ∷ xs) h = drop_all n xs (omega arith)

  -- Cutting further than the list goes is cutting at its end.
  pub take_at_end : (k n : ℕ) (xs : List A) → k ≡ min (length xs) n → take k xs ≡ take n xs
  take_at_end zero zero xs h = refl
  take_at_end zero (suc n) [] h = refl
  take_at_end zero (suc n) (x ∷ xs) h = absurd (omega arith)
  take_at_end (suc k) zero xs h = absurd (omega arith)
  take_at_end (suc k) (suc n) [] h = refl
  take_at_end (suc k) (suc n) (x ∷ xs) h = ap (λ ys. x ∷ ys) (take_at_end k n xs (omega arith))

  pub drop_at_end : (k n : ℕ) (xs : List A) → k ≡ min (length xs) n → drop k xs ≡ drop n xs
  drop_at_end zero zero xs h = refl
  drop_at_end zero (suc n) [] h = refl
  drop_at_end zero (suc n) (x ∷ xs) h = absurd (omega arith)
  drop_at_end (suc k) zero xs h = absurd (omega arith)
  drop_at_end (suc k) (suc n) [] h = refl
  drop_at_end (suc k) (suc n) (x ∷ xs) h = drop_at_end k n xs (omega arith)

  -- Cutting a list at or behind the end of its first part.
  pub take-append : (n : ℕ) (xs ys : List A) → n ≡ length xs → take n (xs ++ ys) ≡ xs
  take-append zero [] ys h = refl
  take-append (suc n) [] ys h = absurd (omega arith)
  take-append zero (x ∷ xs) ys h = absurd (omega arith)
  take-append (suc n) (x ∷ xs) ys h = ap (λ zs. x ∷ zs) (take-append n xs ys (omega arith))

  pub drop-append : (n : ℕ) (xs ys : List A) → n ≡ length xs → drop n (xs ++ ys) ≡ ys
  drop-append zero [] ys h = refl
  drop-append (suc n) [] ys h = absurd (omega arith)
  drop-append zero (x ∷ xs) ys h = absurd (omega arith)
  drop-append (suc n) (x ∷ xs) ys h = drop-append n xs ys (omega arith)

  pub take-append_le : (n : ℕ) (xs ys : List A) → n ≤ length xs → take n (xs ++ ys) ≡ take n xs
  take-append_le zero xs ys h = refl
  take-append_le (suc n) [] ys h = absurd (omega arith)
  take-append_le (suc n) (x ∷ xs) ys h = ap (λ zs. x ∷ zs) (take-append_le n xs ys (omega arith))

  pub drop-append_le :
      (n : ℕ) (xs ys : List A) → n ≤ length xs → drop n (xs ++ ys) ≡ drop n xs ++ ys
  drop-append_le zero xs ys h = refl
  drop-append_le (suc n) [] ys h = absurd (omega arith)
  drop-append_le (suc n) (x ∷ xs) ys h = drop-append_le n xs ys (omega arith)

  pub drop_nil : (n : ℕ) → drop {A = A} n [] ≡ []
  drop_nil zero = refl
  drop_nil (suc n) = refl

  pub drop-drop : (m n : ℕ) (xs : List A) → drop m (drop n xs) ≡ drop (n + m) xs
  drop-drop m zero xs = let e : 0 + m ≡ m = omega arith in rw e
  drop-drop m (suc n) [] = rw (drop_nil m, drop_nil (suc n + m))
  drop-drop m (suc n) (x ∷ xs) =
      let e : suc n + m ≡ suc (n + m) = omega arith in rw e (drop-drop m n xs)

  -- Writing inside the second part of a list leaves the first.
  pub copy_to-append :
      (i : ℕ) (ds xs ys : List A) → i ≡ length xs → copy_to i ds (xs ++ ys) ≡ xs ++ overlay ds ys
  copy_to-append zero ds [] ys h = refl
  copy_to-append (suc i) ds [] ys h = absurd (omega arith)
  copy_to-append zero ds (x ∷ xs) ys h = absurd (omega arith)
  copy_to-append (suc i) ds (x ∷ xs) ys h =
      ap (λ zs. x ∷ zs) (copy_to-append i ds xs ys (omega arith))

  pub overlay-eq :
      (ds xs : List A) → length ds ≤ length xs → overlay ds xs ≡ ds ++ drop (length ds) xs
  overlay-eq [] xs h = refl
  overlay-eq (d ∷ ds) [] h = absurd (omega arith)
  overlay-eq (d ∷ ds) (x ∷ xs) h = ap (λ zs. d ∷ zs) (overlay-eq ds xs (omega arith))

module _ {ℓ} {A : Type ℓ} where
  abbrev pub All : (A → Type 0) → List A → Type 0
  All P [] = Unit
  All P (x ∷ xs) = P x × All P xs

  pub All-append_right : (P : A → Type 0) (xs ys : List A) → All P (xs ++ ys) → All P ys
  All-append_right P [] ys h = h
  All-append_right P (x ∷ xs) ys h = All-append_right P xs ys h.1

  pub All-append : (P : A → Type 0) (xs ys : List A) → All P xs → All P ys → All P (xs ++ ys)
  All-append P [] ys h k = k
  All-append P (x ∷ xs) ys h k = (h.0, All-append P xs ys h.1 k)

  abbrev pub flatten : List (List A) → List A
  flatten [] = []
  flatten (xs ∷ xss) = xs ++ flatten xss

  -- Where two lists run together, the longer of their first parts goes on as the other's rest does.
  pub append_split :
      (xs ys us vs : List A)
      → xs ++ ys ≡ us ++ vs
      → length us ≤ length xs
      → (zs : List A) × (xs ≡ us ++ zs) × (zs ++ ys ≡ vs)
  append_split xs ys [] vs e h = (xs, refl, e)
  append_split [] ys (u ∷ us) vs e h = absurd (omega arith)
  append_split (x ∷ xs) ys (u ∷ us) vs e h =
      let (zs, p, q) = append_split xs ys us vs (cc) (omega arith) in (zs, cc, q)
