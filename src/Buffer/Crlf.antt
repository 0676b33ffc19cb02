-- ===== src/Buffer/Crlf.antt =====
-- `FindCRLF` finds the first end of line, or says truly that there is none.
use claire.Prelude.{
  ℕ, zero, suc, ◌+◌, ◌<◌, ◌≡◌, List, [], ◌∷◌, Option, none, some, arith, get_elem?, Bool-cases,
  ◌==◌, ◌&&◌, inl, inr,
}
use claire.Buffer.{Buffer, content, search_crlf, find_crlf}

-- "\r\n" stands at this position.
abbrev pub CrlfAt : List ℕ → ℕ → Type 0
CrlfAt xs i = (get_elem? xs i ≡ some b'\r') × (get_elem? xs (suc i) ≡ some b'\n')

-- The first position, or none.
abbrev pub FirstCrlf : List ℕ → ℕ → Option ℕ → Type 0
FirstCrlf xs i none = (j : ℕ) → ¬ CrlfAt xs j
FirstCrlf xs i (some k) = (j : ℕ) × (k ≡ i + j) × CrlfAt xs j × ((m : ℕ) → m < j → ¬ CrlfAt xs m)

none-cons :
    (x : ℕ) (xs : List ℕ)
    → ¬ CrlfAt (x ∷ xs) 0
    → ((j : ℕ) → ¬ CrlfAt xs j)
    → (j : ℕ) → ¬ CrlfAt (x ∷ xs) j
none-cons x xs h rest zero = h
none-cons x xs h rest (suc j) = rest j

before-cons :
    (x : ℕ) (xs : List ℕ) (j : ℕ)
    → ¬ CrlfAt (x ∷ xs) 0
    → ((m : ℕ) → m < j → ¬ CrlfAt xs m)
    → (m : ℕ) → m < suc j
    → ¬ CrlfAt (x ∷ xs) m
before-cons x xs j h rest zero lt = h
before-cons x xs j h rest (suc m) lt = rest m (omega arith)

FirstCrlf-cons :
    (x : ℕ) (xs : List ℕ) (i : ℕ) (r : Option ℕ)
    → ¬ CrlfAt (x ∷ xs) 0
    → FirstCrlf xs (i + 1) r
    → FirstCrlf (x ∷ xs) i r
FirstCrlf-cons x xs i none h f = none-cons x xs h f
FirstCrlf-cons x xs i (some k) h (j, e, at, before) =
    (suc j, omega arith, at, before-cons x xs j h before)

search_crlf-FirstCrlf : (xs : List ℕ) (i : ℕ) → FirstCrlf xs i (search_crlf xs i)
unfolding search_crlf
search_crlf-FirstCrlf [] i = λ j h. cc (h.0)
search_crlf-FirstCrlf (x ∷ []) i = none-cons x [] (λ h. cc (h.1)) (λ j h. cc (h.0))
search_crlf-FirstCrlf (x ∷ y ∷ zs) i = elim (Bool-cases ((x == b'\r') && (y == b'\n'))) [
  | inl found ↦ rw found (0, omega arith, ground arith, λ m lt. absurd (omega arith))
  | inr not_here ↦ rw not_here (
      FirstCrlf-cons x (y ∷ zs) i (search_crlf (y ∷ zs) (i + 1)) (λ h. ground arith)
        (search_crlf-FirstCrlf (y ∷ zs) (i + 1)))
]

-- Where an end of line is found, it stands in the content at the offset that is returned, and none
-- stands before it. Where none is found, the content has none.
pub find_crlf-FirstCrlf : (b : Buffer) → FirstCrlf (content b) 0 (find_crlf b)
unfolding find_crlf
find_crlf-FirstCrlf b = search_crlf-FirstCrlf (content b) 0
