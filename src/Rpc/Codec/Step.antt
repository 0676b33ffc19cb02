-- ===== src/Rpc/Codec/Step.antt =====
-- One call of `Parse`, and one round of `ParseFromBuffer`, by what the buffer holds.
use claire.Prelude.{
  ℕ, ◌+◌, ◌-◌, ◌^◌, ◌≤◌, ◌<◌, ◌≡◌, ◌≢◌, refl, sym, ◌∙◌, ap, false, not, List, ◌++◌, Option, none,
  some, ◌==◌, if◌then◌else◌, arith, length, take, drop, take-append, drop-append, length-append,
  Returns, Returns->>=, ==_self,
}
use claire.Buffer.{Buffer, peek, peek_int32, consume, be32}
use claire.Buffer.Parts.{Holds}
use claire.Buffer.Content.{consume-Holds, take-peek}
use claire.Buffer.Ints.{peek_int-Holds, from_be-be32, length-be32}
use claire.Rpc.Message.{RpcMessage, invalid_checksum, parse_fail}
use claire.Rpc.Codec.{
  Wire, ParseResult, parsed, failed, bytes_checksum, uncompress_message, parse_body, take_message,
  parse,
}

pub peek_int32-Holds :
    (x : ℕ) (bs : List ℕ) (b : Buffer) → x < 2 ^ 32 → Holds (be32 x ++ bs) b → peek_int32 b ≡ some x
unfolding peek_int32
peek_int32-Holds x bs b hx h =
    peek_int-Holds (be32 x) bs 4 b h (sym (length-be32 x)) ∙ ap some (from_be-be32 x hx)

pub consume-be32 :
    (x : ℕ) (bs : List ℕ) (b : Buffer) → Holds (be32 x ++ bs) b → Returns (consume 4 b) (Holds bs)
consume-be32 x bs b h =
    let e = drop-append 4 (be32 x) bs (sym (length-be32 x)) in
    rw e at
      (consume-Holds (be32 x ++ bs) 4 b h (omega (arith, length-append (be32 x) bs, length-be32 x)))

pub checksum-lt : (w : Wire) (xs : List ℕ) → bytes_checksum w xs < 2 ^ 32
unfolding bytes_checksum
checksum-lt w xs = omega arith

took : (xs bs : List ℕ) (b : Buffer) → Holds (xs ++ bs) b → take (length xs) (peek b) ≡ xs
took xs bs b h =
    take-peek (xs ++ bs) (length xs) b h (omega (arith, length-append xs bs))
    ∙ take-append (length xs) xs bs refl

module _ (w : Wire) where
  -- What `Parse` makes of the bytes of a frame with this checksum.
  abbrev pub verdict_of : Option RpcMessage → ParseResult
  verdict_of none = failed parse_fail
  verdict_of (some m) = parsed (uncompress_message w m)

  -- What it leaves: the frame's bytes too, where it does not take them.
  abbrev pub left_by : Option RpcMessage → List ℕ → List ℕ → List ℕ
  left_by none xs bs = xs ++ bs
  left_by (some m) xs bs = bs

  parse_body-Holds :
      (xs bs : List ℕ) (n : ℕ) (b : Buffer)
      → n ≡ length xs
      → Holds (xs ++ bs) b
      → Returns (parse_body w n b) (λ r.
        (r.0 ≡ verdict_of (w.parse_from_array xs))
        × Holds (left_by (w.parse_from_array xs) xs bs) r.1)
  unfolding parse_body
  parse_body-Holds xs bs n b e h =
      let le : n ≤ length (xs ++ bs) = omega (arith, length-append xs bs) in
      rw (take-peek (xs ++ bs) n b h le ∙ take-append n xs bs e) (taken (w.parse_from_array xs) le)
    where
      taken :
          (o : Option RpcMessage)
          → n ≤ length (xs ++ bs)
          → Returns (take_message w o n b) (λ r. (r.0 ≡ verdict_of o) × Holds (left_by o xs bs) r.1)
      taken none le = (refl, h)
      taken (some m) le =
          Returns->>= (Holds (drop n (xs ++ bs))) _ (consume n b) _
            (consume-Holds (xs ++ bs) n b h le) (λ b' r. (refl, rw (drop-append n xs bs e) at r))

  -- The four bytes of length and the four of checksum are taken in any case.
  parse-header :
      (size c : ℕ) (bs : List ℕ) (b : Buffer) (Q : ParseResult × Buffer → Type 0)
      → size < 2 ^ 32
      → c < 2 ^ 32
      → Holds (be32 size ++ (be32 c ++ bs)) b
      → ((b' : Buffer)
          → Holds bs b'
          → Returns
              (if not (bytes_checksum w (take (size - 4) (peek b')) == c)
                then some (failed invalid_checksum, b')
                else parse_body w (size - 4) b')
              Q)
      → Returns (parse w b) Q
  unfolding parse
  parse-header size c bs b Q hs hc h k = rw (peek_int32-Holds size (be32 c ++ bs) b hs h) (
      Returns->>= _ _ (consume 4 b) _ (consume-be32 size (be32 c ++ bs) b h) λ b1 h1.
        rw (peek_int32-Holds c bs b1 hc h1)
          (Returns->>= _ _ (consume 4 b1) _ (consume-be32 c bs b1 h1) λ b2 h2. k b2 h2))

  -- The checksum is right: the bytes are read as a message.
  pub parse_checked :
      (c : ℕ) (xs bs : List ℕ) (b : Buffer)
      → length xs + 4 < 2 ^ 32
      → c ≡ bytes_checksum w xs
      → Holds (be32 (length xs + 4) ++ (be32 c ++ (xs ++ bs))) b
      → Returns (parse w b) (λ r.
        (r.0 ≡ verdict_of (w.parse_from_array xs))
        × Holds (left_by (w.parse_from_array xs) xs bs) r.1)
  parse_checked c xs bs b small e h =
      parse-header (length xs + 4) c (xs ++ bs) b _ small (rw e (checksum-lt w xs)) h λ b' h'.
        let n_eq : length xs + 4 - 4 ≡ length xs = omega arith in
        let taken = took xs bs b' h' in
        rw (n_eq, taken, e, ==_self (bytes_checksum w xs))
          (parse_body-Holds xs bs (length xs) b' refl h')

  -- The checksum is wrong.
  pub parse_unchecked :
      (c : ℕ) (xs bs : List ℕ) (b : Buffer)
      → length xs + 4 < 2 ^ 32
      → c < 2 ^ 32
      → c ≢ bytes_checksum w xs
      → Holds (be32 (length xs + 4) ++ (be32 c ++ (xs ++ bs))) b
      → Returns (parse w b) (λ r. (r.0 ≡ failed invalid_checksum) × Holds (xs ++ bs) r.1)
  parse_unchecked c xs bs b small hc ne h =
      parse-header (length xs + 4) c (xs ++ bs) b _ small hc h λ b' h'.
        let n_eq : length xs + 4 - 4 ≡ length xs = omega arith in
        let differs : (bytes_checksum w xs == c) ≡ false = ground (arith, ne) in
        rw (n_eq, took xs bs b' h', differs) (refl, h')
