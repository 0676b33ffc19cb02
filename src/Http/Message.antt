-- ===== src/Http/Message.antt =====
-- netty/http/HttpMessage.h and HttpRequest.cc: when a message's body is there, and how long it is.
use claire.Prelude.{
  ℕ, ◌+◌, Bool, true, false, ◌&&◌, List, [], ◌∷◌, ◌++◌, Option, none, some, leb, ◌==◌,
  if◌then◌else◌, length,
}
use claire.Http.Headers.{get, matches}

pub data HttpVersion : Type 0 where
  unknown_version http10 http11 : HttpVersion

pub data Method : Type 0 where
  invalid get_method post_method head_method put_method delete_method : Method

pub record Message (S : Type 0) : Type 0 where
  pub start : S
  pub headers : List (List ℕ × List ℕ)
  pub body : List ℕ

-- "Content-Length", "Transfer-Encoding", "Connection", "chunked" and "keep-alive".
abbrev pub content_length : List ℕ
content_length =
    b'C' ∷ b'o' ∷ b'n' ∷ b't' ∷ b'e' ∷ b'n' ∷ b't' ∷ b'-' ∷ b'L' ∷ b'e' ∷ b'n' ∷ b'g' ∷ b't' ∷ b'h'
    ∷ []

abbrev pub transfer_encoding : List ℕ
transfer_encoding =
    b'T' ∷ b'r' ∷ b'a' ∷ b'n' ∷ b's' ∷ b'f' ∷ b'e' ∷ b'r' ∷ b'-' ∷ b'E' ∷ b'n' ∷ b'c' ∷ b'o' ∷ b'd'
    ∷ b'i' ∷ b'n' ∷ b'g' ∷ []

abbrev pub connection : List ℕ
connection = b'C' ∷ b'o' ∷ b'n' ∷ b'n' ∷ b'e' ∷ b'c' ∷ b't' ∷ b'i' ∷ b'o' ∷ b'n' ∷ []

abbrev pub chunked : List ℕ
chunked = b'c' ∷ b'h' ∷ b'u' ∷ b'n' ∷ b'k' ∷ b'e' ∷ b'd' ∷ []

abbrev pub keep_alive : List ℕ
keep_alive = b'k' ∷ b'e' ∷ b'e' ∷ b'p' ∷ b'-' ∷ b'a' ∷ b'l' ∷ b'i' ∷ b'v' ∷ b'e' ∷ []

-- `strcasecmp(value, text) == 0`: `strncasecmp` with the NUL behind the text.
abbrev pub same_text : List ℕ → List ℕ → Bool
same_text value text = matches (text ++ 0 ∷ []) value

-- `kChunkedEnd` with the NUL that `sizeof` counts.
abbrev pub starts_with : List ℕ → List ℕ → Bool
starts_with [] ys = true
starts_with (x ∷ xs) [] = false
starts_with (x ∷ xs) (y ∷ ys) = x == y && starts_with xs ys

abbrev pub chunked_end : List ℕ
chunked_end = b'0' ∷ b'\r' ∷ b'\n' ∷ b'\r' ∷ b'\n' ∷ 0 ∷ []

-- `std::search` for it: the offset of the first, or of the end.
unfoldable pub search_chunked_end : List ℕ → ℕ
search_chunked_end [] = 0
search_chunked_end (x ∷ xs) =
    let rest = search_chunked_end xs in if starts_with chunked_end (x ∷ xs) then 0 else 1 + rest

-- `strtoul(text, NULL, 0)` is C's.
module _ (strtoul : List ℕ → ℕ) {S : Type 0} where
  -- The pointer that `std::search` answers is never null.
  unfoldable pub is_body_complete : Message S → List ℕ → Bool
  is_body_complete m buf = encoded (get transfer_encoding m.headers)
    where
      long_enough : Option (List ℕ) → Bool
      long_enough none = false
      long_enough (some value) = leb (strtoul value) (length buf)

      encoded : Option (List ℕ) → Bool
      encoded (some value) = same_text value chunked
      encoded none = long_enough (get content_length m.headers)

  unfoldable pub get_body_length : Message S → List ℕ → ℕ
  get_body_length m buf = given (get content_length m.headers)
    where
      encoded : Option (List ℕ) → ℕ
      encoded none = 0
      encoded (some value) = search_chunked_end buf + 5

      given : Option (List ℕ) → ℕ
      given (some value) = strtoul value
      given none = encoded (get transfer_encoding m.headers)

-- `HttpRequest::IsComplete` by the method that the request has.
unfoldable pub request_is_complete : (List ℕ → ℕ) → Message Method → List ℕ → Bool
request_is_complete strtoul m buf = by_method m.start
  where
    by_method : Method → Bool
    by_method get_method = true
    by_method head_method = true
    by_method _ = is_body_complete strtoul m buf

unfoldable pub is_keep_alive : HttpVersion → List (List ℕ × List ℕ) → Bool
is_keep_alive version hs = by_header (get connection hs)
  where
    by_version : HttpVersion → Bool
    by_version http10 = false
    by_version _ = true

    by_header : Option (List ℕ) → Bool
    by_header none = by_version version
    by_header (some value) = same_text value keep_alive
