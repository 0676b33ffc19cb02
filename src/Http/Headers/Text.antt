-- ===== src/Http/Headers/Text.antt =====
-- A header's line is read back as the header, and which header a name finds.
use claire.Prelude.{
  ℕ, suc, ◌≡◌, ◌≢◌, refl, ◌∙◌, ap, Bool, true, false, List, [], ◌∷◌, ◌++◌, some, arith, ◌==◌,
  if◌then◌else◌, take, drop, length, take-append, All, Bool-cases, inl, inr, ==_self,
}
use claire.Http.Headers.{
  is_space, to_lower, skip_spaces, drop_end_spaces, unless_last_space, add_text, matches, get,
  c_str,
}

-- A field has no colon, no CR and no NUL.
abbrev pub PlainField : List ℕ → Type 0
PlainField xs = All (λ x. (x ≢ b':') × (x ≢ b'\r') × (x ≢ 0)) xs

abbrev pub StartsPlain : List ℕ → Type 0
StartsPlain [] = Unit {0}
StartsPlain (x ∷ xs) = is_space x ≡ false

abbrev pub EndsPlain : List ℕ → Type 0
EndsPlain [] = Unit {0}
EndsPlain (x ∷ []) = is_space x ≡ false
EndsPlain (x ∷ y ∷ zs) = EndsPlain (y ∷ zs)

-- A value has no CR and no NUL, and no space at its ends.
abbrev pub PlainValue : List ℕ → Type 0
PlainValue xs = All (λ x. (x ≢ b'\r') × (x ≢ 0)) xs × StartsPlain xs × EndsPlain xs

abbrev pub PlainHeaders : List (List ℕ × List ℕ) → Type 0
PlainHeaders hs = All (λ h. PlainField h.0 × PlainValue h.1) hs

skip_spaces_plain : (xs : List ℕ) → StartsPlain xs → skip_spaces (b' ' ∷ xs) ≡ xs
unfolding skip_spaces
skip_spaces_plain [] h = refl
skip_spaces_plain (x ∷ xs) h = rw (h) refl

drop_end_spaces_plain : (xs : List ℕ) → EndsPlain xs → drop_end_spaces xs ≡ xs
unfolding drop_end_spaces
drop_end_spaces_plain [] h = refl
drop_end_spaces_plain (x ∷ []) h = rw (h) refl
drop_end_spaces_plain (x ∷ y ∷ zs) h =
    ap (λ t. unless_last_space (is_space x) x t) (drop_end_spaces_plain (y ∷ zs) h)
    ∙ go (is_space x)
  where
    go : (b : Bool) → unless_last_space b x (y ∷ zs) ≡ x ∷ y ∷ zs
    go true = refl
    go false = refl

pub c_str_plain : (xs : List ℕ) → All (λ x. x ≢ 0) xs → c_str xs ≡ xs
unfolding c_str
c_str_plain [] h = refl
c_str_plain (x ∷ xs) (ne, h) = elim (Bool-cases (x == 0)) [
  | inl b ↦ absurd (ground arith)
  | inr b ↦ rw (b) (ap (λ ys. x ∷ ys) (c_str_plain xs h))
]

-- The line of a header, without its end.
abbrev pub line_of : List ℕ × List ℕ → List ℕ
line_of h = h.0 ++ b':' ∷ b' ' ∷ h.1

pub add_text-line_of :
    (h : List ℕ × List ℕ) (hs : List (List ℕ × List ℕ))
    → PlainValue h.1
    → add_text (line_of h) (length h.0) hs ≡ hs ++ h ∷ []
unfolding add_text
add_text-line_of h hs (plain, starts, ends) =
    let e1 : take (length h.0) (line_of h) ≡ h.0 =
      take-append (length h.0) h.0 (b':' ∷ b' ' ∷ h.1) refl in
    let e2 : drop (suc (length h.0)) (line_of h) ≡ b' ' ∷ h.1 = drop_past h.0 (b':') (b' ' ∷ h.1) in
    rw (e1, e2, skip_spaces_plain h.1 starts, drop_end_spaces_plain h.1 ends) refl
  where
    drop_past : (xs : List ℕ) (y : ℕ) (ys : List ℕ) → drop (suc (length xs)) (xs ++ y ∷ ys) ≡ ys
    drop_past [] y ys = refl
    drop_past (x ∷ xs) y ys = drop_past xs y ys

matches_prefix : (field rest : List ℕ) → matches field (field ++ rest) ≡ true
unfolding matches
matches_prefix [] rest = refl
matches_prefix (x ∷ xs) rest =
    rw (==_self (to_lower x), matches_prefix xs rest) (whichever (x == 0))
  where
    whichever : (b : Bool) → (if b then true else true) ≡ true
    whichever true = refl
    whichever false = refl

-- `Get` compares no more of a header's name than the field that is asked for has, so it answers a
-- first header whose name only begins with the field.
pub get-prefix :
    (field rest value : List ℕ) (hs : List (List ℕ × List ℕ))
    → get field ((field ++ rest, value) ∷ hs) ≡ some value
unfolding get
get-prefix field rest value hs = rw (matches_prefix field rest) refl
