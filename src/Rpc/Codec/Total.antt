-- ===== src/Rpc/Codec/Total.antt =====
-- `ParseFromBuffer` on bytes that no sender may have written: it always ends, on a valid buffer, and
-- reports a bad frame.
use claire.Prelude.{
  ℕ, zero, suc, ◌+◌, ◌-◌, ◌^◌, ◌≤◌, ◌<◌, ◌≡◌, ◌≢◌, refl, ap, Bool, true, false, List, [], ◌∷◌, ◌++◌,
  Option, none, some, leb, if◌then◌else◌, arith, length, take, drop, length-append, length-drop,
  Returns, Returns->>=, Returns-map, le→leb, leb→le, Bool-cases, ◌⊎◌, inl, inr,
}
use claire.Buffer.{Buffer, readable_bytes, peek_int32, peek_int, consume, be32, from_be}
use claire.Buffer.Parts.{Holds, Holds-length}
use claire.Buffer.Content.{consume-Holds, take-peek}
use claire.Buffer.Ints.{length-be32}
use claire.Rpc.Message.{RpcMessage, invalid_checksum}
use claire.Rpc.Codec.{
  Wire, ParseResult, parsed, failed, Event, delivered, bad_length, bad_message, bytes_checksum,
  parse_body, take_message, parse, out_of_range, rounds, max_message_length, add_event,
  parse_from_buffer,
}
use claire.Rpc.Codec.Step.{peek_int32-Holds, parse_unchecked}

-- An integer is there to peek at.
peek_int32_there :
    (bs : List ℕ) (b : Buffer)
    → Holds bs b
    → 4 ≤ length bs
    → peek_int32 b ≡ some (from_be 0 (take 4 bs))
unfolding peek_int32 peek_int
peek_int32_there bs b h le =
    rw (le→leb 4 (readable_bytes b) (omega (arith, Holds-length b h)))
      (ap (λ xs. some (from_be 0 xs)) (take-peek bs 4 b h le))

consume_some :
    (n : ℕ) (bs : List ℕ) (b : Buffer)
    → Holds bs b
    → n ≤ length bs
    → Returns (consume n b) (λ b'. (cs : List ℕ) × Holds cs b' × (length cs + n ≡ length bs))
consume_some n bs b h le =
    Returns-map _ _ (consume n b) (consume-Holds bs n b h le)
      λ b' r. (drop n bs, r, omega (arith, length-drop n bs, le))

in_range-le : (size : ℕ) → out_of_range size ≡ false → 4 ≤ size
unfolding out_of_range
in_range-le size e = ground arith

module _ (w : Wire) where
  -- At least the eight bytes before the message are gone.
  abbrev Fewer : ℕ → ParseResult × Buffer → Type 0
  Fewer n r = (cs : List ℕ) × Holds cs r.1 × (length cs + 8 ≤ n)

  taken-Fewer :
      (o : Option RpcMessage) (n total : ℕ) (bs : List ℕ) (b : Buffer)
      → Holds bs b
      → n ≤ length bs
      → length bs + 8 ≤ total
      → Returns (take_message w o n b) (Fewer total)
  taken-Fewer none n total bs b h le few = (bs, h, few)
  taken-Fewer (some m) n total bs b h le few =
      Returns->>= _ _ (consume n b) _ (consume_some n bs b h le)
        λ b' (cs, h', e). (cs, h', omega (arith, e))

  checked-Fewer :
      (t : Bool) (size total : ℕ) (bs : List ℕ) (b : Buffer)
      → Holds bs b
      → size ≤ length bs
      → length bs + 8 ≤ total
      → Returns (if t then some (failed invalid_checksum, b) else parse_body w size b) (Fewer total)
  checked-Fewer true size total bs b h le few = (bs, h, few)
  checked-Fewer false size total bs b h le few =
      unfold parse_body in taken-Fewer _ size total bs b h le few

  parse-Fewer :
      (bs : List ℕ) (b : Buffer)
      → Holds bs b
      → 8 ≤ length bs
      → from_be 0 (take 4 bs) + 4 ≤ length bs
      → Returns (parse w b) (Fewer (length bs))
  unfolding parse
  parse-Fewer bs b h le fits = rw (peek_int32_there bs b h (omega arith)) (
      Returns->>= _ _ (consume 4 b) _ (consume_some 4 bs b h (omega arith)) λ b1 (cs, h1, e1).
        rw (peek_int32_there cs b1 h1 (omega arith)) (
          Returns->>= _ _ (consume 4 b1) _ (consume_some 4 cs b1 h1 (omega arith))
            λ b2 (ds, h2, e2).
              checked-Fewer _ (from_be 0 (take 4 bs) - 4) (length bs) ds b2 h2 (omega arith)
                (omega arith)))

  abbrev Ends : List Event × Buffer → Type 0
  Ends r = (cs : List ℕ) × Holds cs r.1

  Ends-add :
      (e : Event) (o : Option (List Event × Buffer)) → Returns o Ends → Returns (add_event e o) Ends
  Ends-add e none h = h
  Ends-add e (some r) h = h

  rounds-Ends :
      (fuel : ℕ) (bs : List ℕ) (b : Buffer)
      → Holds bs b
      → length bs < fuel
      → Returns (rounds w fuel b) Ends
  unfolding rounds
  rounds-Ends zero bs b h f = absurd (omega arith)
  rounds-Ends (suc fuel) bs b h f = elim (Bool-cases (leb 4 (readable_bytes b))) [
    | inr few ↦ rw (few, Returns) (bs, h)
    | inl four ↦
        let le : 4 ≤ length bs = omega (arith, Holds-length b h, leb→le _ _ four) in
        let size = from_be 0 (take 4 bs) in
        elim (Bool-cases (out_of_range size)) [
          | inl bad ↦ rw (four, peek_int32_there bs b h le, bad, Returns) (bs, h)
          | inr good ↦ elim (Bool-cases (leb (size + 4) (readable_bytes b))) [
            | inr wait ↦ rw (four, peek_int32_there bs b h le, good, wait, Returns) (bs, h)
            | inl whole ↦
                let len = Holds-length b h in
                let whole' : size + 4 ≤ length bs = omega (arith, len, leb→le _ _ whole) in
                let eight : 8 ≤ length bs = omega (arith, whole', in_range-le size good) in
                rw (four, peek_int32_there bs b h le, good, whole, Returns)
                  (Returns->>= (Fewer (length bs)) Ends (parse w b) _
                    (parse-Fewer bs b h eight whole')
                    (λ (result, b') (cs, h', less).
                      next result b' cs h' (rounds-Ends fuel cs b' h' (omega (arith, less, f)))))
          ]
        ]
  ]
    where
      next :
          (result : ParseResult) (b' : Buffer) (cs : List ℕ)
          → Holds cs b'
          → Returns (rounds w fuel b') Ends
          → Returns
              (elim result [
                | failed e ↦ some (bad_message e ∷ [], b')
                | parsed m ↦ add_event (delivered m) (rounds w fuel b')
              ])
              Ends
      next (failed e) b' cs h' ih = (cs, h')
      next (parsed m) b' cs h' ih = Ends-add (delivered m) (rounds w fuel b') ih

  -- Whatever bytes a valid buffer holds, the codec's loop ends by itself and leaves a valid buffer: no
  -- check fails, and the rounds are enough.
  pub parse_from_buffer_total :
      (bs : List ℕ) (b : Buffer)
      → Holds bs b
      → Returns (parse_from_buffer w b) (λ r. (cs : List ℕ) × Holds cs r.1)
  unfolding parse_from_buffer
  parse_from_buffer_total bs b h =
      rounds-Ends (suc (readable_bytes b)) bs b h (omega (arith, Holds-length b h))

  rounds_bad_length :
      (fuel size : ℕ) (bs : List ℕ) (b : Buffer)
      → size < 2 ^ 32
      → (size < 4) ⊎ (max_message_length < size)
      → Holds (be32 size ++ bs) b
      → rounds w (suc fuel) b ≡ some (bad_length ∷ [], b)
  unfolding rounds
  rounds_bad_length fuel size bs b hs bad h =
      let e : out_of_range size ≡ true = unfold out_of_range in ground arith in
      ground (
        arith,
        peek_int32-Holds size bs b hs h,
        e,
        Holds-length b h,
        length-append (be32 size) bs,
        length-be32 size,
      )

  -- A length that is too small, too large or negative: one error for the connection, and the buffer
  -- is as it was.
  pub parse_from_buffer_bad_length :
      (size : ℕ) (bs : List ℕ) (b : Buffer)
      → size < 2 ^ 32
      → (size < 4) ⊎ (max_message_length < size)
      → Holds (be32 size ++ bs) b
      → parse_from_buffer w b ≡ some (bad_length ∷ [], b)
  unfolding parse_from_buffer
  parse_from_buffer_bad_length size bs b hs bad h =
      rounds_bad_length (readable_bytes b) size bs b hs bad h

  -- A frame with a wrong checksum: the messages behind it are not looked at, and the buffer goes on
  -- with the frame's own bytes.
  pub parse_from_buffer_bad_checksum :
      (c : ℕ) (xs bs : List ℕ) (b : Buffer)
      → length xs + 4 ≤ max_message_length
      → c < 2 ^ 32
      → c ≢ bytes_checksum w xs
      → Holds (be32 (length xs + 4) ++ (be32 c ++ (xs ++ bs))) b
      → Returns
          (parse_from_buffer w b)
          (λ r. (r.0 ≡ bad_message invalid_checksum ∷ []) × Holds (xs ++ bs) r.1)
  unfolding parse_from_buffer rounds
  parse_from_buffer_bad_checksum c xs bs b small hc ne h =
      let size = length xs + 4 in
      let rest = be32 c ++ (xs ++ bs) in
      let len = Holds-length b h in
      let all : readable_bytes b ≡ size + 4 + length bs = omega (
        arith,
        len,
        length-append (be32 size) rest,
        length-be32 size,
        length-append (be32 c) (xs ++ bs),
        length-be32 c,
        length-append xs bs,
      ) in
      let e : out_of_range size ≡ false = unfold out_of_range in ground arith in
      rw
        (
          le→leb 4 (readable_bytes b) (omega arith),
          peek_int32-Holds size rest b (omega (arith, small)) h,
          e,
          le→leb (size + 4) (readable_bytes b) (omega arith),
          Returns,
        )
        (Returns->>=
          (λ (r : ParseResult × Buffer). (r.0 ≡ failed invalid_checksum) × Holds (xs ++ bs) r.1) _
          (parse w b) _ (parse_unchecked w c xs bs b (omega (arith, small)) hc ne h)
          (λ (result, b') (e, h'). rw e (refl, h')))
