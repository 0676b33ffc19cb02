-- ===== src/Http/Parse/Overread.antt =====
-- netty/http/HttpConnection.cc with HttpRequest.cc and HttpMessage.h: messages whose body is taken from
-- beyond the buffer.
use claire.Prelude.{
  ℕ, ◌<◌, ◌≡◌, ◌≢◌, refl, ◌∙◌, ap, Bool, true, false, List, [], ◌∷◌, ◌++◌, none, some, arith, leb,
  ◌>>=◌, length, All, ◌⊎◌, inl, inr,
}
use claire.Http.Headers.{get, append_to}
use claire.Http.Headers.Text.{PlainHeaders}
use claire.Http.Message.{
  Message, Method, invalid, get_method, post_method, head_method, put_method, delete_method,
  content_length, transfer_encoding, chunked, same_text, is_body_complete, get_body_length,
  search_chunked_end, request_is_complete,
}
use claire.Http.Parse.{Parser, expect_start_line, MessageClass, take_body, body_step, parse}
use claire.Http.Parse.Stream.{before_body, parse-append_to}

-- The requests, by C's `strtoul` and how their start lines are parsed.
abbrev pub request_class : (List ℕ → ℕ) → (List ℕ → Method → Bool × Method) → MessageClass Method
request_class strtoul parse_start_line = record {
  parse_start_line = parse_start_line;
  is_complete = request_is_complete strtoul;
  body_length = get_body_length strtoul;
}

-- A body that is longer than the buffer is not there to be taken.
body_step_beyond :
    {S : Type 0} (k : MessageClass S) (body_callback : List ℕ → List ℕ) (p : Parser S)
    → k.is_complete p.message (body_callback p.buffer) ≡ true
    → length (body_callback p.buffer) < k.body_length p.message (body_callback p.buffer)
    → body_step k body_callback p ≡ none
unfolding body_step take_body
body_step_beyond k body_callback p done lt =
    let beyond : leb (k.body_length p.message (body_callback p.buffer))
          (length (body_callback p.buffer))
        ≡ false =
      ground (arith, lt) in
    rw (done, beyond) refl

module _ (strtoul : List ℕ → ℕ) (parse_start_line : List ℕ → Method → Bool × Method)
    (body_callback : List ℕ → List ℕ) where
  -- The parser before a request whose text is in its buffer.
  abbrev pub before_request : List ℕ → List (List ℕ × List ℕ) → List ℕ → Method → Parser Method
  before_request line hs rest s = record {
    state = expect_start_line;
    message = record { start = s; headers = []; body = [] };
    buffer = line ++ b'\r' ∷ b'\n' ∷ (append_to hs ++ rest);
    headers_calls = 0;
  }

  parse_beyond :
      (line : List ℕ) (s s' : Method) (hs : List (List ℕ × List ℕ)) (rest : List ℕ)
      → All (λ x. x ≢ b'\r') line
      → parse_start_line line s ≡ (true, s')
      → PlainHeaders hs
      → request_is_complete strtoul
          (record { start = s'; headers = hs; body = [] })
          (body_callback rest)
        ≡ true
      → length (body_callback rest)
        < get_body_length strtoul
            (record { start = s'; headers = hs; body = [] })
            (body_callback rest)
      → parse (request_class strtoul parse_start_line) body_callback (before_request line hs rest s)
        ≡ none
  parse_beyond line s s' hs rest plain parsed ph done lt =
      let k = request_class strtoul parse_start_line in
      let m : Message Method = record { start = s'; headers = []; body = [] } in
      parse-append_to k body_callback line s s' hs rest [] 0 plain parsed ph
      ∙ ap (λ o. o >>= λ p. some (true, p))
          (body_step_beyond k body_callback (before_body m hs rest 1) done lt)

  -- A request by GET or HEAD, in the text that `AppendTo` writes for its headers (which are plain), whose
  -- Content-Length is greater than what the body callback leaves of the rest of the buffer: `Parse` takes
  -- its body at once, and reads bytes from beyond the buffer.
  pub request_overread :
      (line : List ℕ) (s s' : Method) (hs : List (List ℕ × List ℕ)) (rest value : List ℕ)
      → All (λ x. x ≢ b'\r') line
      → parse_start_line line s ≡ (true, s')
      → (s' ≡ get_method) ⊎ (s' ≡ head_method)
      → PlainHeaders hs
      → get content_length hs ≡ some value
      → length (body_callback rest) < strtoul value
      → parse (request_class strtoul parse_start_line) body_callback (before_request line hs rest s)
        ≡ none
  unfolding request_is_complete get_body_length
  request_overread line s s' hs rest value plain parsed by ph given lt =
      parse_beyond line s s' hs rest plain parsed ph (done by) (rw (given) lt)
    where
      done :
          (s' ≡ get_method) ⊎ (s' ≡ head_method)
          → request_is_complete strtoul
              (record { start = s'; headers = hs; body = [] })
              (body_callback rest)
            ≡ true
      done (inl e) = rw (e) refl
      done (inr e) = rw (e) refl

  -- A request by any method whose Transfer-Encoding is chunked and that has no Content-Length, in the text
  -- that `AppendTo` writes for its headers (which are plain), with an end of the chunks, as the source
  -- searches it, nowhere in what the body callback leaves of the rest of the buffer: `Parse` does not wait
  -- for the end, but reads bytes from beyond the buffer.
  pub chunked_overread :
      (line : List ℕ) (s s' : Method) (hs : List (List ℕ × List ℕ)) (rest value : List ℕ)
      → All (λ x. x ≢ b'\r') line
      → parse_start_line line s ≡ (true, s')
      → PlainHeaders hs
      → get transfer_encoding hs ≡ some value
      → same_text value chunked ≡ true
      → get content_length hs ≡ none
      → search_chunked_end (body_callback rest) ≡ length (body_callback rest)
      → parse (request_class strtoul parse_start_line) body_callback (before_request line hs rest s)
        ≡ none
  unfolding request_is_complete get_body_length is_body_complete
  chunked_overread line s s' hs rest value plain parsed ph encoded same not_given unended =
      parse_beyond line s s' hs rest plain parsed ph (done s')
        (rw (not_given, encoded, unended) (omega arith))
    where
      done :
          (s' : Method)
          → request_is_complete strtoul
              (record { start = s'; headers = hs; body = [] })
              (body_callback rest)
            ≡ true
      done get_method = refl
      done head_method = refl
      done invalid = rw (encoded) same
      done post_method = rw (encoded) same
      done put_method = rw (encoded) same
      done delete_method = rw (encoded) same
