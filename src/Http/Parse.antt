-- ===== src/Http/Parse.antt =====
-- netty/http/HttpConnection.cc: `Parse` and `ParseMessage`, on the bytes that the buffer holds
-- (`Buffer.Content` has the buffer's operations by what they do to these bytes). What a message's class
-- does is a parameter, and so is what the body callback leaves of the buffer.

pub mod Total
pub mod Stream
pub mod Overread
mod Tests
use claire.Prelude.{
  ℕ, zero, suc, ◌+◌, ◌≡◌, Bool, true, false, List, [], ◌∷◌, ◌++◌, Option, none, some, leb, ◌==◌,
  if◌then◌else◌, ◌>>=◌, ◌>>◌, check, take, drop, length,
}
use claire.Buffer.{search_crlf}
use claire.Http.Headers.{add_text}
use claire.Http.Message.{Message}

pub data ParseState : Type 0 where
  expect_start_line expect_headers expect_body got_all : ParseState

-- `std::find` for a colon: its offset.
unfoldable pub find_colon : List ℕ → ℕ → Option ℕ
find_colon [] i = none
find_colon (x ∷ xs) i = let rest = find_colon xs (suc i) in if x == b':' then some i else rest

-- The connection's parser, with the buffer and how often the headers callback was called.
pub record Parser (S : Type 0) : Type 0 where
  pub state : ParseState
  pub message : Message S
  pub buffer : List ℕ
  pub headers_calls : ℕ

-- A round of the loop: it goes on with a parser, or ends it with an answer.
pub data Round (S : Type 0) : Type 0 where
  goes_on : Parser S → Round S
  stops : Bool → Parser S → Round S

-- A class of messages: `ParseStartLine`, `IsComplete` and `GetBodyLength`.
pub record MessageClass (S : Type 0) : Type 0 where
  pub parse_start_line : List ℕ → S → Bool × S
  pub is_complete : Message S → List ℕ → Bool
  pub body_length : Message S → List ℕ → ℕ

module _ {S : Type 0} (k : MessageClass S) (body_callback : List ℕ → List ℕ) where
  -- A line of headers, without its end.
  unfoldable pub header_line : List ℕ → Parser S → Parser S
  header_line line p = by_colon (find_colon line 0)
    where
      by_length : List ℕ → Parser S
      by_length [] = record p { state = expect_body; headers_calls = suc p.headers_calls }
      by_length (x ∷ xs) = p

      by_colon : Option ℕ → Parser S
      by_colon (some colon) = record p {
        message = record p.message { headers = add_text line colon p.message.headers };
      }
      by_colon none = by_length line

  -- Bytes are taken for the body and consumed; there must be so many.
  unfoldable pub take_body : ℕ → Parser S → Option (Parser S)
  take_body n p =
      check (leb n (length p.buffer))
      >> some (record p {
        state = got_all;
        message = record p.message { body = p.message.body ++ take n p.buffer };
        buffer = drop n p.buffer;
      })

  unfoldable pub body_step : Parser S → Option (Parser S)
  body_step p =
      let p' = record p { buffer = body_callback p.buffer } in
      if k.is_complete p'.message p'.buffer
      then take_body (k.body_length p'.message p'.buffer) p'
      else some p'

  -- A start line that ends at offset `i`, as the class has parsed it.
  unfoldable pub started : ℕ → Bool × S → Parser S → Round S
  started i (true, s) p = goes_on (record p {
    state = expect_headers;
    message = record p.message { start = s };
    buffer = drop (i + 2) p.buffer;
  })
  started i (false, s) p = stops false (record p { message = record p.message { start = s } })

  unfoldable pub start_line : Option ℕ → Parser S → Round S
  start_line none p = stops true p
  start_line (some i) p = started i (k.parse_start_line (take i p.buffer) p.message.start) p

  unfoldable pub header : Option ℕ → Parser S → Round S
  header none p = stops true p
  header (some i) p =
      goes_on (record (header_line (take i p.buffer) p) { buffer = drop (i + 2) p.buffer })

  -- The body of the loop of `ParseMessage`, in a state.
  unfoldable pub round : ParseState → Parser S → Option (Round S)
  round expect_start_line p = some (start_line (search_crlf p.buffer 0) p)
  round expect_headers p = some (header (search_crlf p.buffer 0) p)
  round expect_body p = body_step p >>= λ p'. some (stops true p')
  round got_all p = some (goes_on p)

  abbrev pub after : (Parser S → Option (Bool × Parser S)) → Round S → Option (Bool × Parser S)
  after next_round (goes_on p) = next_round p
  after next_round (stops ok p) = some (ok, p)

  -- `ParseMessage`, on fuel: its answer and the parser that it leaves.
  unfoldable pub parse_rounds : ℕ → Parser S → Option (Bool × Parser S)
  parse_rounds zero p = none
  parse_rounds (suc fuel) p = round p.state p >>= after (λ p'. parse_rounds fuel p')

  -- `Parse`. A round takes an end of line or is the last, so this much fuel is enough.
  unfoldable pub parse_at : ParseState → Parser S → Option (Bool × Parser S)
  parse_at got_all p = some (true, p)
  parse_at _ p = parse_rounds (suc (length p.buffer)) p

  unfoldable pub parse : Parser S → Option (Bool × Parser S)
  parse p = parse_at p.state p
