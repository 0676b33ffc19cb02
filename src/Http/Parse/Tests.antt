-- ===== src/Http/Parse/Tests.antt =====
-- Tests of the parser, and its theorems at concrete inputs.
use claire.Prelude.{
  ℕ, ◌-◌, ◌≡◌, refl, true, false, Bool, ◌==◌, inl, if◌then◌else◌, List, [], ◌∷◌, ◌++◌, none, some,
  arith, length, ltb, ◌>>=◌,
}
use claire.Buffer.{search_crlf}
use claire.Http.Headers.{skip_spaces, drop_end_spaces, add_text, matches, get, c_str, append_to}
use claire.Http.Message.{
  Message, search_chunked_end, chunked, transfer_encoding, content_length, Method, get_method,
  post_method, invalid, same_text,
}
use claire.Http.Parse.{
  Parser, expect_start_line, got_all, MessageClass, find_colon, header_line, take_body, body_step,
  started, start_line, header, round, parse_rounds, parse_at, parse,
}
use claire.Http.Parse.Total.{EndsOrReadsBeyond, parse_total}
use claire.Http.Parse.Stream.{before_body, parse-append_to}
use claire.Http.Parse.Overread.{request_class, before_request, request_overread, chunked_overread}

-- A class whose start line is not empty, and whose body has two bytes.
abbrev two_bytes : MessageClass (List ℕ)
two_bytes = record {
  parse_start_line = λ line s. (ltb 0 (length line), line);
  is_complete = λ m buf. ltb 1 (length buf);
  body_length = λ m buf. 2;
}

abbrev one_header : List (List ℕ × List ℕ)
one_header = (b'H' ∷ b'o' ∷ [], b'a' ∷ b' ' ∷ b'b' ∷ []) ∷ []

abbrev sent_message : Message (List ℕ)
sent_message = record { start = b'G' ∷ []; headers = []; body = [] }

abbrev waiting : Parser (List ℕ)
waiting = record {
  state = expect_start_line;
  message = record { start = []; headers = []; body = [] };
  buffer = (b'G' ∷ []) ++ b'\r' ∷ b'\n' ∷ (append_to one_header ++ (1 ∷ 2 ∷ 3 ∷ []));
  headers_calls = 0;
}

parse_test :
    parse two_bytes (λ b. b) waiting
    ≡ some (
      true,
      record {
        state = got_all;
        message = record { start = b'G' ∷ []; headers = one_header; body = 1 ∷ 2 ∷ [] };
        buffer = 3 ∷ [];
        headers_calls = 1;
      },
    )
unfolding parse parse_at parse_rounds round start_line started header header_line find_colon
    add_text skip_spaces drop_end_spaces take_body body_step append_to c_str search_crlf
parse_test = refl

parse-append_to_example :
    parse two_bytes (λ b. b) waiting
    ≡ body_step two_bytes (λ b. b) (before_body sent_message one_header (1 ∷ 2 ∷ 3 ∷ []) 1) >>= λ p.
        some (true, p)
parse-append_to_example =
    parse-append_to two_bytes (λ b. b) (b'G' ∷ []) [] (b'G' ∷ []) one_header (1 ∷ 2 ∷ 3 ∷ []) [] 0
      ((λ e. ground arith), tt) refl (ground arith)

-- A `strtoul` that reads one digit.
abbrev one_digit : List ℕ → ℕ
one_digit [] = 0
one_digit (x ∷ xs) = x - b'0'

-- "G" asks for a GET, and other lines for a POST.
abbrev by_letter : List ℕ → Method → Bool × Method
by_letter [] m = (false, invalid)
by_letter (x ∷ xs) m = (true, if x == b'G' then get_method else post_method)

abbrev nine_bytes : List (List ℕ × List ℕ)
nine_bytes = (content_length, b'9' ∷ []) ∷ []

abbrev in_chunks : List (List ℕ × List ℕ)
in_chunks = (transfer_encoding, chunked) ∷ []

parse_total_example :
    EndsOrReadsBeyond
      (request_class one_digit by_letter)
      (λ b. b)
      (before_request one_digit by_letter (λ b. b) (b'G' ∷ []) nine_bytes (1 ∷ []) invalid)
      (parse
        (request_class one_digit by_letter)
        (λ b. b)
        (before_request one_digit by_letter (λ b. b) (b'G' ∷ []) nine_bytes (1 ∷ []) invalid))
parse_total_example =
    parse_total (request_class one_digit by_letter) (λ b. b)
      (before_request one_digit by_letter (λ b. b) (b'G' ∷ []) nine_bytes (1 ∷ []) invalid)

nine_given : get content_length nine_bytes ≡ some (b'9' ∷ [])
unfolding get matches
nine_given = refl

request_overread_example :
    parse
      (request_class one_digit by_letter)
      (λ b. b)
      (before_request one_digit by_letter (λ b. b) (b'G' ∷ []) nine_bytes (1 ∷ []) invalid)
    ≡ none
request_overread_example =
    request_overread one_digit by_letter (λ b. b) (b'G' ∷ []) invalid get_method nine_bytes (1 ∷ [])
      (b'9' ∷ []) ((λ e. ground arith), tt) refl (inl refl) (ground arith) nine_given (ground arith)

chunked_value : get transfer_encoding in_chunks ≡ some chunked
unfolding get matches
chunked_value = refl

chunked_same : same_text chunked chunked ≡ true
unfolding matches
chunked_same = refl

chunked_no_length : get content_length in_chunks ≡ none
unfolding get matches
chunked_no_length = refl

chunked_no_end : search_chunked_end (1 ∷ 2 ∷ []) ≡ 2
unfolding search_chunked_end
chunked_no_end = refl

chunked_overread_example :
    parse
      (request_class one_digit by_letter)
      (λ b. b)
      (before_request one_digit by_letter (λ b. b) (b'P' ∷ []) in_chunks (1 ∷ 2 ∷ []) invalid)
    ≡ none
chunked_overread_example =
    chunked_overread one_digit by_letter (λ b. b) (b'P' ∷ []) invalid post_method in_chunks
      (1 ∷ 2 ∷ []) chunked ((λ e. ground arith), tt) refl (ground arith) chunked_value chunked_same
      chunked_no_length chunked_no_end
