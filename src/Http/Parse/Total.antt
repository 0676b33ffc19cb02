-- ===== src/Http/Parse/Total.antt =====
-- The parser always comes to its end.
use claire.Prelude.{
  ℕ, zero, suc, ◌+◌, ◌≤◌, ◌<◌, ◌≡◌, ◌≢◌, refl, sym, ◌∙◌, Bool, true, false, ◌&&◌, List, [], ◌∷◌,
  some, arith, ◌==◌, take, drop, length, length-drop, Bool-cases, Option-cases, inl, inr, leb,
  Option, none, ◌⊎◌, ◌>>=◌, Returns,
}
use claire.Buffer.{search_crlf}
use claire.Http.Parse.{
  ParseState, expect_start_line, expect_headers, expect_body, got_all, find_colon, Parser, Round,
  goes_on, stops, MessageClass, header_line, take_body, body_step, started, start_line, header,
  round, parse_rounds, after, parse_at, parse,
}

search_crlf_bound :
    (xs : List ℕ) (i : ℕ) {k : ℕ} → search_crlf xs i ≡ some k → (k + 2 ≤ i + length xs) × (i ≤ k)
unfolding search_crlf
search_crlf_bound [] i e = absurd (cc)
search_crlf_bound (x ∷ []) i e = absurd (cc)
search_crlf_bound (x ∷ y ∷ zs) i {k} e = elim (Bool-cases ((x == b'\r') && (y == b'\n'))) [
  | inl b ↦ let e' : some i ≡ some k = rw (b) at (e) in ground arith
  | inr b ↦
      let e' : search_crlf (y ∷ zs) (i + 1) ≡ some k = rw (b) at (e) in
      let (hi, lo) = search_crlf_bound (y ∷ zs) (i + 1) e' in (omega (arith, hi), omega (arith, lo))
]

module _ {S : Type 0} (k : MessageClass S) (body_callback : List ℕ → List ℕ) where
  abbrev pub going_on : (Parser S → Option (Parser S)) → Round S → Option (Parser S)
  going_on more (goes_on p) = more p
  going_on more (stops ok p) = none

  -- The parser after so many rounds that go on.
  unfoldable pub parser_after : ℕ → Parser S → Option (Parser S)
  parser_after zero p = some p
  parser_after (suc n) p = round k body_callback p.state p >>= going_on (λ p'. parser_after n p')

  -- The message's class says that the body is there, but asks more bytes than the buffer has.
  abbrev pub ReadsBeyond : Parser S → Type 0
  ReadsBeyond p =
      (p.state ≡ expect_body)
      × (k.is_complete p.message (body_callback p.buffer) ≡ true)
      × (length (body_callback p.buffer) < k.body_length p.message (body_callback p.buffer))

  -- The state that a round goes on with, and how much of the buffer is left.
  abbrev pub Ahead : Parser S → Parser S → Type 0
  Ahead p p' = (p'.state ≢ got_all) × (length p'.buffer + 2 ≤ length p.buffer)

  abbrev pub Progress : Parser S → Round S → Type 0
  Progress p (goes_on p') = Ahead p p'
  Progress p (stops ok p') = Unit {0}

  header_line-Ahead :
      (line rest : List ℕ) (p : Parser S)
      → p.state ≢ got_all
      → (record (header_line k body_callback line p) { buffer = rest }).state ≢ got_all
  unfolding header_line find_colon
  header_line-Ahead [] rest p h = λ q. cc
  header_line-Ahead (x ∷ xs) rest p h = elim (Option-cases (find_colon (x ∷ xs) 0)) [
    | inl n ↦ rw (n) h
    | inr (c, e) ↦ rw (e) h
  ]

  started-Progress :
      (i : ℕ) (r : Bool × S) (p : Parser S)
      → i + 2 ≤ length p.buffer
      → Progress p (started k body_callback i r p)
  unfolding started
  started-Progress i (true, s) p le = ((λ q. cc), omega (arith, le, length-drop (i + 2) p.buffer))
  started-Progress i (false, s) p le = tt

  -- A round comes to its end, or reads beyond the buffer.
  round-Progress :
      (st : ParseState) (p : Parser S)
      → st ≢ got_all
      → p.state ≡ st
      → Returns (round k body_callback st p) (Progress p) ⊎ ReadsBeyond p
  unfolding round start_line header body_step take_body
  round-Progress expect_start_line p h e = elim (Option-cases (search_crlf p.buffer 0)) [
    | inl n ↦ inl (rw (n) tt)
    | inr (i, q) ↦ inl (
        rw (q) (
          started-Progress i (k.parse_start_line (take i p.buffer) p.message.start) p
            (omega (arith, (search_crlf_bound p.buffer 0 q).0))))
  ]
  round-Progress expect_headers p h e = elim (Option-cases (search_crlf p.buffer 0)) [
    | inl n ↦ inl (rw (n) tt)
    | inr (i, q) ↦ inl (
        rw (q) (
          header_line-Ahead (take i p.buffer) (drop (i + 2) p.buffer) p (λ g. h (sym e ∙ g)),
          omega (arith, (search_crlf_bound p.buffer 0 q).0, length-drop (i + 2) p.buffer),
        ))
  ]
  round-Progress expect_body p h e =
      let buf = body_callback p.buffer in
      elim (Bool-cases (k.is_complete p.message buf)) [
        | inr b ↦ inl (rw (b, Returns) tt)
        | inl b ↦ elim (Bool-cases (leb (k.body_length p.message buf) (length buf))) [
          | inl fits ↦ inl (rw (b, fits, Returns) tt)
          | inr beyond ↦ inr (e, b, ground (arith, beyond))
        ]
      ]
  round-Progress got_all p h e = absurd (h refl)

  -- The loop comes to its end, or some of its rounds reads beyond the buffer.
  abbrev pub EndsOrReadsBeyond : Parser S → Option (Bool × Parser S) → Type 0
  EndsOrReadsBeyond p o =
      Returns o (λ r. Unit {0})
      ⊎ ((n : ℕ) × (q : Parser S) × (parser_after n p ≡ some q) × ReadsBeyond q)

  parse_rounds_total :
      (fuel : ℕ) (p : Parser S)
      → p.state ≢ got_all
      → length p.buffer < fuel
      → EndsOrReadsBeyond p (parse_rounds k body_callback fuel p)
  unfolding parse_rounds parser_after
  parse_rounds_total zero p h lt = absurd (ground arith)
  parse_rounds_total (suc fuel) p h lt = elim (round-Progress p.state p h refl) [
    | inl ahead ↦
        after_total (round k body_callback p.state p) refl ahead
          (λ p' a. parse_rounds_total fuel p' a.0 (omega (arith, a.1, lt)))
    | inr beyond ↦ inr (0, p, refl, beyond)
  ]
    where
      after_total :
          (o : Option (Round S))
          → round k body_callback p.state p ≡ o
          → Returns o (Progress p)
          → ((p' : Parser S)
              → Ahead p p'
              → EndsOrReadsBeyond p' (parse_rounds k body_callback fuel p'))
          → EndsOrReadsBeyond p
              (o >>= after k body_callback (λ p'. parse_rounds k body_callback fuel p'))
      after_total none e r more = elim r [ ]
      after_total (some (goes_on p')) e a more = elim (more p' a) [
        | inl ends ↦ inl ends
        | inr (n, q, f, beyond) ↦ inr (suc n, q, rw (e) f, beyond)
      ]
      after_total (some (stops ok p')) e a more = inl tt

  -- `Parse` comes to its end on every buffer, in every state and for every class of messages: a loop
  -- that goes on has taken an end of line. The one way in which it does not is that a round of it, on
  -- the parser that the rounds before it have left, takes a body of which the class says that it is
  -- complete and longer than the buffer, so that bytes beyond the buffer are read.
  pub parse_total : (p : Parser S) → EndsOrReadsBeyond p (parse k body_callback p)
  unfolding parse parse_at
  parse_total p = go p.state refl
    where
      go : (st : ParseState) → p.state ≡ st → EndsOrReadsBeyond p (parse_at k body_callback st p)
      go got_all e = inl tt
      go expect_start_line e =
          parse_rounds_total (suc (length p.buffer)) p (λ g. absurd (cc)) (ground arith)
      go expect_headers e =
          parse_rounds_total (suc (length p.buffer)) p (λ g. absurd (cc)) (ground arith)
      go expect_body e =
          parse_rounds_total (suc (length p.buffer)) p (λ g. absurd (cc)) (ground arith)
