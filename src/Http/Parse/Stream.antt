-- ===== src/Http/Parse/Stream.antt =====
-- The parser reads back what `AppendTo` writes.
use claire.Prelude.{
  ℕ, suc, ◌+◌, ◌-◌, ◌≤◌, ◌≡◌, ◌≢◌, refl, sym, ◌∙◌, ap, true, List, [], ◌∷◌, ◌++◌, append-nil,
  append_assoc, Option, none, some, arith, ◌==◌, ◌>>=◌, take, drop, length, take-append,
  length-append, All, Bool-cases, inl, inr,
}
use claire.Buffer.{search_crlf}
use claire.Http.Headers.{append_to, c_str}
use claire.Http.Headers.Text.{
  PlainField, PlainValue, PlainHeaders, line_of, add_text-line_of, c_str_plain,
}
use claire.Http.Message.{Message}
use claire.Http.Parse.{
  expect_start_line, expect_headers, expect_body, find_colon, Parser, goes_on, stops, MessageClass,
  header_line, body_step, started, start_line, header, round, parse_rounds, after, parse_at, parse,
}

-- A text without CR has its end found behind it.
search_crlf_plain :
    (xs ys : List ℕ) (i : ℕ)
    → All (λ x. x ≢ b'\r') xs
    → search_crlf (xs ++ b'\r' ∷ b'\n' ∷ ys) i ≡ some (i + length xs)
unfolding search_crlf
search_crlf_plain [] ys i h = ap some (omega arith)
search_crlf_plain (x ∷ []) ys i (ne, h) = elim (Bool-cases (x == b'\r')) [
  | inl b ↦ absurd (ground arith)
  | inr b ↦ rw (b) (ap some (omega arith))
]
search_crlf_plain (x ∷ y ∷ zs) ys i (ne, h) = elim (Bool-cases (x == b'\r')) [
  | inl b ↦ absurd (ground arith)
  | inr b ↦ rw (b) (search_crlf_plain (y ∷ zs) ys (i + 1) h ∙ ap some (omega arith))
]

find_colon_plain :
    (xs ys : List ℕ) (i : ℕ)
    → All (λ x. x ≢ b':') xs
    → find_colon (xs ++ b':' ∷ ys) i ≡ some (i + length xs)
unfolding find_colon
find_colon_plain [] ys i h = ap some (omega arith)
find_colon_plain (x ∷ xs) ys i (ne, h) = elim (Bool-cases (x == b':')) [
  | inl b ↦ absurd (ground arith)
  | inr b ↦ rw (b) (find_colon_plain xs ys (suc i) h ∙ ap some (omega arith))
]

drop_end : (xs ys : List ℕ) → drop (length xs + 2) (xs ++ b'\r' ∷ b'\n' ∷ ys) ≡ ys
drop_end [] ys = refl
drop_end (x ∷ xs) ys =
    let q : length (x ∷ xs) + 2 ≡ suc (length xs + 2) = omega arith in rw (q) (drop_end xs ys)

-- Before the body, with the headers and the rest of the buffer.
abbrev pub before_body : {S : Type 0} → Message S → List (List ℕ × List ℕ) → List ℕ → ℕ → Parser S
before_body m hs rest n = record {
  state = expect_body;
  message = record m { headers = hs };
  buffer = rest;
  headers_calls = n;
}

module _ {S : Type 0} (k : MessageClass S) (body_callback : List ℕ → List ℕ) where
  plain-append :
      (f v : List ℕ) → PlainField f → PlainValue v → All (λ x. x ≢ b'\r') (f ++ b':' ∷ b' ' ∷ v)
  plain-append [] v hf hv = ((λ e. cc), ((λ e. cc), no_cr v hv.0))
    where
      no_cr : (v : List ℕ) → All (λ x. (x ≢ b'\r') × (x ≢ 0)) v → All (λ x. x ≢ b'\r') v
      no_cr [] h = tt
      no_cr (x ∷ xs) h = (h.0.0, no_cr xs h.1)
  plain-append (x ∷ xs) v hf hv = (hf.0.1, plain-append xs v hf.1 hv)

  header_text :
      (h : List ℕ × List ℕ) (hs : List (List ℕ × List ℕ)) (rest : List ℕ)
      → PlainField h.0
      → PlainValue h.1
      → append_to (h ∷ hs) ++ rest ≡ line_of h ++ b'\r' ∷ b'\n' ∷ (append_to hs ++ rest)
  unfolding append_to
  header_text h hs rest hf hv =
      rw (c_str_plain h.0 (no_nul_field h.0 hf), c_str_plain h.1 (no_nul h.1 hv.0))
        (append_assoc h.0 (b':' ∷ b' ' ∷ (h.1 ++ b'\r' ∷ b'\n' ∷ append_to hs)) rest
          ∙ ap (λ t. h.0 ++ b':' ∷ b' ' ∷ t) (append_assoc h.1 (b'\r' ∷ b'\n' ∷ append_to hs) rest)
          ∙ sym (append_assoc h.0 (b':' ∷ b' ' ∷ h.1) (b'\r' ∷ b'\n' ∷ (append_to hs ++ rest))))
    where
      no_nul_field : (xs : List ℕ) → PlainField xs → All (λ x. x ≢ 0) xs
      no_nul_field [] h = tt
      no_nul_field (x ∷ xs) h = (h.0.2, no_nul_field xs h.1)

      no_nul : (xs : List ℕ) → All (λ x. (x ≢ b'\r') × (x ≢ 0)) xs → All (λ x. x ≢ 0) xs
      no_nul [] h = tt
      no_nul (x ∷ xs) h = (h.0.1, no_nul xs h.1)

  -- A header's line in the buffer is taken as the header.
  round-line :
      (p : Parser S) (h : List ℕ × List ℕ) (rest : List ℕ)
      → PlainField h.0
      → PlainValue h.1
      → p.buffer ≡ line_of h ++ b'\r' ∷ b'\n' ∷ rest
      → round k body_callback expect_headers p
        ≡ some (
            goes_on (record p {
              message = record p.message { headers = p.message.headers ++ h ∷ [] };
              buffer = rest;
            }))
  unfolding round header header_line
  round-line p h rest hf hv e =
      let found : search_crlf p.buffer 0 ≡ some (length (line_of h)) =
        ap (λ b. search_crlf b 0) e
        ∙ search_crlf_plain (line_of h) rest 0 (plain-append h.0 h.1 hf hv)
        ∙ ap some (omega arith) in
      let taken : take (length (line_of h)) p.buffer ≡ line_of h =
        ap (λ b. take (length (line_of h)) b) e
        ∙ take-append (length (line_of h)) (line_of h) (b'\r' ∷ b'\n' ∷ rest) refl in
      let left : drop (length (line_of h) + 2) p.buffer ≡ rest =
        ap (λ b. drop (length (line_of h) + 2) b) e ∙ drop_end (line_of h) rest in
      let colon : find_colon (line_of h) 0 ≡ some (length h.0) =
        find_colon_plain h.0 (b' ' ∷ h.1) 0 (no_colon h.0 hf) ∙ ap some (omega arith) in
      rw (found, taken, left, colon, add_text-line_of h p.message.headers hv) refl
    where
      no_colon : (xs : List ℕ) → PlainField xs → All (λ x. x ≢ b':') xs
      no_colon [] h = tt
      no_colon (x ∷ xs) h = (h.0.0, no_colon xs h.1)

  one_header :
      (h : List ℕ × List ℕ) (hs : List (List ℕ × List ℕ)) (fuel n : ℕ) (m : Message S)
      (rest : List ℕ)
      → PlainField h.0 × PlainValue h.1
      → parse_rounds k body_callback (suc fuel) (record {
        state = expect_headers;
        message = m;
        buffer = append_to (h ∷ hs) ++ rest;
        headers_calls = n;
      })
        ≡ parse_rounds k body_callback fuel (record {
          state = expect_headers;
          message = record m { headers = m.headers ++ h ∷ [] };
          buffer = append_to hs ++ rest;
          headers_calls = n;
        })
  unfolding parse_rounds
  one_header h hs fuel n m rest plain =
      let p : Parser S = record {
        state = expect_headers;
        message = m;
        buffer = append_to (h ∷ hs) ++ rest;
        headers_calls = n;
      } in
      ap (λ t. t >>= after k body_callback (λ p'. parse_rounds k body_callback fuel p'))
        (round-line p h (append_to hs ++ rest) plain.0 plain.1
          (header_text h hs rest plain.0 plain.1))

  rounds-append_to :
      (hs : List (List ℕ × List ℕ)) (fuel n : ℕ) (m : Message S) (rest : List ℕ)
      → PlainHeaders hs
      → parse_rounds k body_callback (length hs + suc fuel) (record {
        state = expect_headers;
        message = m;
        buffer = append_to hs ++ rest;
        headers_calls = n;
      })
        ≡ parse_rounds k body_callback fuel (before_body m (m.headers ++ hs) rest (suc n))
  unfolding parse_rounds round header header_line find_colon search_crlf append_to
  rounds-append_to [] fuel n m rest h =
      let q : 0 + suc fuel ≡ suc fuel = omega arith in rw (q, append-nil m.headers) refl
  rounds-append_to (h ∷ hs) fuel n m rest (plain, more) =
      let q : length (h ∷ hs) + suc fuel ≡ suc (length hs + suc fuel) = omega arith in
      rw (q) (
        one_header h hs (length hs + suc fuel) n m rest plain
        ∙ rounds-append_to hs fuel n (record m { headers = m.headers ++ h ∷ [] }) rest more
        ∙ ap (λ t. parse_rounds k body_callback fuel (before_body m t rest (suc n)))
            (append_assoc m.headers (h ∷ []) hs))

  length-append_to : (hs : List (List ℕ × List ℕ)) → length hs + 2 ≤ length (append_to hs)
  unfolding append_to
  length-append_to [] = omega arith
  length-append_to ((f, v) ∷ hs) = omega (
    arith,
    length-append (c_str f) (b':' ∷ b' ' ∷ (c_str v ++ b'\r' ∷ b'\n' ∷ append_to hs)),
    length-append (c_str v) (b'\r' ∷ b'\n' ∷ append_to hs),
    length-append_to hs,
  )

  round-start_line :
      (p : Parser S) (line rest : List ℕ) {s' : S}
      → All (λ x. x ≢ b'\r') line
      → k.parse_start_line line p.message.start ≡ (true, s')
      → p.buffer ≡ line ++ b'\r' ∷ b'\n' ∷ rest
      → round k body_callback expect_start_line p
        ≡ some (
            goes_on (record p {
              state = expect_headers;
              message = record p.message { start = s' };
              buffer = rest;
            }))
  unfolding round start_line started
  round-start_line p line rest plain parsed e =
      let found : search_crlf p.buffer 0 ≡ some (length line) =
        ap (λ b. search_crlf b 0) e ∙ search_crlf_plain line rest 0 plain ∙ ap some (omega arith) in
      let taken : take (length line) p.buffer ≡ line =
        ap (λ b. take (length line) b) e
        ∙ take-append (length line) line (b'\r' ∷ b'\n' ∷ rest) refl in
      let left : drop (length line + 2) p.buffer ≡ rest =
        ap (λ b. drop (length line + 2) b) e ∙ drop_end line rest in
      rw (found, taken, parsed, left) refl

  one_start_line :
      (fuel : ℕ) (p : Parser S) (line rest : List ℕ) {s' : S}
      → All (λ x. x ≢ b'\r') line
      → k.parse_start_line line p.message.start ≡ (true, s')
      → p.buffer ≡ line ++ b'\r' ∷ b'\n' ∷ rest
      → (round k body_callback expect_start_line p
          >>= after k body_callback (λ p'. parse_rounds k body_callback fuel p'))
        ≡ parse_rounds k body_callback fuel (record p {
          state = expect_headers;
          message = record p.message { start = s' };
          buffer = rest;
        })
  one_start_line fuel p line rest plain parsed e =
      ap (λ t. t >>= after k body_callback (λ p'. parse_rounds k body_callback fuel p'))
        (round-start_line p line rest plain parsed e)

  rounds_body :
      (fuel : ℕ) (m : Message S) (hs : List (List ℕ × List ℕ)) (rest : List ℕ) (n : ℕ)
      → parse_rounds k body_callback (suc fuel) (before_body m hs rest n)
        ≡ body_step k body_callback (before_body m hs rest n) >>= λ p. some (true, p)
  unfolding parse_rounds round
  rounds_body fuel m hs rest n = go (body_step k body_callback (before_body m hs rest n))
    where
      go :
          (o : Option (Parser S))
          → ((o >>= λ p. some (stops true p))
              >>= after k body_callback (λ p. parse_rounds k body_callback fuel p))
            ≡ (o >>= λ p. some (true, p))
      go none = refl
      go (some p) = refl

  -- A message that `AppendTo` has written, a start line that its class parses and headers without
  -- colons in their fields and without line ends, NULs and spaces at the ends of their values, is read
  -- back: `Parse` has the start line and the very headers, in their order, calls the headers callback
  -- once, and goes to the body with what follows in the buffer, which it takes where it is complete.
  pub parse-append_to :
      (line : List ℕ) (s s' : S) (hs : List (List ℕ × List ℕ)) (rest body : List ℕ) (n : ℕ)
      → All (λ x. x ≢ b'\r') line
      → k.parse_start_line line s ≡ (true, s')
      → PlainHeaders hs
      → parse k body_callback (record {
        state = expect_start_line;
        message = record { start = s; headers = []; body = body };
        buffer = line ++ b'\r' ∷ b'\n' ∷ (append_to hs ++ rest);
        headers_calls = n;
      })
        ≡ body_step k body_callback
            (before_body (record { start = s'; headers = []; body = body }) hs rest (suc n))
          >>= λ p. some (true, p)
  unfolding parse parse_at parse_rounds
  parse-append_to line s s' hs rest body n plain parsed ph =
      let text = append_to hs ++ rest in
      let whole = line ++ b'\r' ∷ b'\n' ∷ text in
      let spare = length whole - length hs - 2 in
      let enough : length whole ≡ length hs + suc (suc spare) = omega (
        arith,
        length-append line (b'\r' ∷ b'\n' ∷ text),
        length-append (append_to hs) rest,
        length-append_to hs,
      ) in
      let p : Parser S = record {
        state = expect_start_line;
        message = record { start = s; headers = []; body = body };
        buffer = whole;
        headers_calls = n;
      } in
      ap (λ f. parse_rounds k body_callback (suc f) p) enough
      ∙ one_start_line (length hs + suc (suc spare)) p line text plain parsed refl
      ∙ rounds-append_to hs (suc spare) n (record { start = s'; headers = []; body = body }) rest ph
      ∙ rounds_body spare (record { start = s'; headers = []; body = body }) hs rest (suc n)
