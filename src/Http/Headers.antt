-- ===== src/Http/Headers.antt =====
-- netty/http/HttpHeaders.h: the headers of a message, each its field and its value as bytes.

pub mod Text
use claire.Prelude.{
  ℕ, suc, ◌+◌, Bool, true, false, ◌&&◌, ◌||◌, List, [], ◌∷◌, ◌++◌, Option, none, some, leb, ◌==◌,
  if◌then◌else◌, take, drop, length,
}

-- `isspace`.
abbrev pub is_space : ℕ → Bool
is_space x = (leb 9 x && leb x 13) || x == b' '

abbrev pub to_lower : ℕ → ℕ
to_lower x = if leb b'A' x && leb x b'Z' then x + 32 else x

unfoldable pub skip_spaces : List ℕ → List ℕ
skip_spaces [] = []
skip_spaces (x ∷ xs) = let rest = skip_spaces xs in if is_space x then rest else x ∷ xs

-- A space goes where nothing is left behind it.
abbrev pub unless_last_space : Bool → ℕ → List ℕ → List ℕ
unless_last_space true x [] = []
unless_last_space b x rest = x ∷ rest

-- What the loop on the end of the value leaves.
unfoldable pub drop_end_spaces : List ℕ → List ℕ
drop_end_spaces [] = []
drop_end_spaces (x ∷ xs) = unless_last_space (is_space x) x (drop_end_spaces xs)

-- `Add`, of the text of a line and the offset of its colon.
unfoldable pub add_text : List ℕ → ℕ → List (List ℕ × List ℕ) → List (List ℕ × List ℕ)
add_text line colon hs =
    hs ++ (take colon line, drop_end_spaces (skip_spaces (drop (suc colon) line))) ∷ []

-- `strncasecmp(field, name, field.size()) == 0`: no further than a NUL in both.
unfoldable pub matches : List ℕ → List ℕ → Bool
matches [] ys = true
matches (x ∷ xs) [] = x == 0
matches (x ∷ xs) (y ∷ ys) =
    let rest = matches xs ys in
    if to_lower x == to_lower y then (if x == 0 then true else rest) else false

unfoldable pub get : List ℕ → List (List ℕ × List ℕ) → Option (List ℕ)
get field [] = none
get field ((name, value) ∷ hs) =
    let rest = get field hs in if matches field name then some value else rest

unfoldable pub get_all : List ℕ → List (List ℕ × List ℕ) → List (List ℕ)
get_all field [] = []
get_all field ((name, value) ∷ hs) =
    let rest = get_all field hs in if matches field name then value ∷ rest else rest

unfoldable pub is_unique : List ℕ → List (List ℕ × List ℕ) → Bool
is_unique field hs = length (get_all field hs) == 1

-- The text that `c_str()` points to.
unfoldable pub c_str : List ℕ → List ℕ
c_str [] = []
c_str (x ∷ xs) = let rest = c_str xs in if x == 0 then [] else x ∷ rest

unfoldable pub append_to : List (List ℕ × List ℕ) → List ℕ
append_to [] = b'\r' ∷ b'\n' ∷ []
append_to ((field, value) ∷ hs) =
    c_str field ++ (b':' ∷ b' ' ∷ (c_str value ++ (b'\r' ∷ b'\n' ∷ append_to hs)))
