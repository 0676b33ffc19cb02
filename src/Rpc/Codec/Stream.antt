-- ===== src/Rpc/Codec/Stream.antt =====
-- The stream of frames: what `ParseFromBuffer` delivers when the bytes of a connection come in
-- pieces, each appended to the input buffer before a call.
use claire.Prelude.{
  ℕ, zero, suc, ◌+◌, ◌^◌, ◌≤◌, ◌<◌, ◌≡◌, refl, sym, subst, ap₂, ◌∙◌, ap, false, List, [], ◌∷◌, ◌++◌,
  append-nil, append_assoc, Option, none, some, ltb, ltb→lt, arith, length, length-append, All,
  All-append_right, flatten, append_split, Returns, Returns->>=, le→leb, Bool-cases, inl, inr,
  ◌>>=◌,
}
use claire.Buffer.{Buffer, readable_bytes, be32, append}
use claire.Buffer.Parts.{Holds, Holds-length}
use claire.Buffer.Content.{append-Holds}
use claire.Buffer.Ints.{length-be32}
use claire.Rpc.Message.{RpcMessage}
use claire.Rpc.Codec.{
  Wire, ParseResult, parsed, Event, delivered, bytes_checksum, uncompress_message, parse,
  out_of_range, rounds, max_message_length, add_event, parse_from_buffer,
}
use claire.Rpc.Codec.Step.{peek_int32-Holds, parse_checked}

out_of_range_no : (size : ℕ) → 4 ≤ size → size ≤ max_message_length → out_of_range size ≡ false
unfolding out_of_range
out_of_range_no size lo hi = ground arith

module _ (w : Wire) where
  -- The bytes of a frame round these bytes.
  unfoldable pub frame : List ℕ → List ℕ
  frame xs = be32 (length xs + 4) ++ (be32 (bytes_checksum w xs) ++ xs)

  pub length-frame : (xs : List ℕ) → length (frame xs) ≡ length xs + 8
  unfolding frame
  length-frame xs = omega (
    arith,
    length-append (be32 (length xs + 4)) (be32 (bytes_checksum w xs) ++ xs),
    length-append (be32 (bytes_checksum w xs)) xs,
    length-be32 (length xs + 4),
    length-be32 (bytes_checksum w xs),
  )

  frame-append :
      (xs bs : List ℕ)
      → frame xs ++ bs ≡ be32 (length xs + 4) ++ (be32 (bytes_checksum w xs) ++ (xs ++ bs))
  unfolding frame
  frame-append xs bs =
      append_assoc (be32 (length xs + 4)) _ bs
      ∙ ap (λ ys. be32 (length xs + 4) ++ ys) (append_assoc (be32 (bytes_checksum w xs)) xs bs)

  -- The message is read back from its bytes, and its frame is not too long.
  pub record Sendable (m : RpcMessage) : Type 0 where
    pub reads_back : w.parse_from_array (w.serialize m) ≡ some m
    pub short : length (w.serialize m) + 4 ≤ max_message_length

  abbrev pub frames : List RpcMessage → List ℕ
  frames [] = []
  frames (m ∷ ms) = frame (w.serialize m) ++ frames ms

  abbrev pub deliveries : List RpcMessage → List Event
  deliveries [] = []
  deliveries (m ∷ ms) = delivered (uncompress_message w m) ∷ deliveries ms

  deliveries-append :
      (ms ns : List RpcMessage) → deliveries (ms ++ ns) ≡ deliveries ms ++ deliveries ns
  deliveries-append [] ns = refl
  deliveries-append (m ∷ ms) ns =
      ap (λ es. delivered (uncompress_message w m) ∷ es) (deliveries-append ms ns)

  rounds_short :
      (fuel : ℕ) (b : Buffer) → readable_bytes b < 4 → rounds w (suc fuel) b ≡ some ([], b)
  unfolding rounds
  rounds_short fuel b h = ground arith

  rounds_wait :
      (fuel size : ℕ) (rest : List ℕ) (b : Buffer)
      → Holds (be32 size ++ rest) b
      → 4 ≤ size
      → size ≤ max_message_length
      → readable_bytes b < size + 4
      → rounds w (suc fuel) b ≡ some ([], b)
  unfolding rounds
  rounds_wait fuel size rest b h lo hi few = ground (
    arith,
    peek_int32-Holds size rest b (omega arith) h,
    out_of_range_no size lo hi,
    Holds-length b h,
    length-append (be32 size) rest,
    length-be32 size,
  )

  rounds_frame :
      (fuel : ℕ) (m : RpcMessage) (bs : List ℕ) (b : Buffer) (Q : List Event × Buffer → Type 0)
      → Sendable m
      → Holds (frame (w.serialize m) ++ bs) b
      → ((b' : Buffer)
          → Holds bs b'
          → Returns (add_event (delivered (uncompress_message w m)) (rounds w fuel b')) Q)
      → Returns (rounds w (suc fuel) b) Q
  unfolding rounds
  rounds_frame fuel m bs b Q s h k =
      let xs = w.serialize m in
      let size = length xs + 4 in
      let c = bytes_checksum w xs in
      let small : size < 2 ^ 32 = omega (arith, s.short) in
      let h' : Holds (be32 size ++ (be32 c ++ (xs ++ bs))) b =
        subst (λ ys. Holds ys b) (frame-append xs bs) h in
      let len : readable_bytes b ≡ length xs + 8 + length bs =
        omega (arith, Holds-length b h, length-append (frame xs) bs, length-frame xs) in
      rw
        (
          le→leb 4 (readable_bytes b) (omega arith),
          peek_int32-Holds size _ b small h',
          out_of_range_no size (omega arith) s.short,
          le→leb (size + 4) (readable_bytes b) (omega arith),
          Returns,
        )
        (Returns->>=
          (λ (r : ParseResult × Buffer). (r.0 ≡ parsed (uncompress_message w m)) × Holds bs r.1) Q
          (parse w b) _ (rw s.reads_back at (parse_checked w c xs bs b small refl h'))
          (λ (result, b') (e, hb). rw e (k b' hb)))

  -- What is left is less than the next frame.
  abbrev pub Stuck : List ℕ → List RpcMessage → Type 0
  Stuck q [] = Unit
  Stuck q (m ∷ ms) = length q < length (frame (w.serialize m))

  -- Where the stream of these messages goes on behind `later`: some are delivered, and of the rest
  -- the buffer holds less than a frame.
  pub record Progress (ms : List RpcMessage) (later : List ℕ) (r : List Event × Buffer)
      : Type 0 where
    pub done : List RpcMessage
    pub rest : List RpcMessage
    pub left : List ℕ
    pub split : ms ≡ done ++ rest
    pub events : r.0 ≡ deliveries done
    pub goes_on : left ++ later ≡ frames rest
    pub stuck : Stuck left rest
    pub holds : Holds left r.1

  Progress-cons :
      (m : RpcMessage) (ms : List RpcMessage) (later : List ℕ) (o : Option (List Event × Buffer))
      → Returns o (Progress ms later)
      → Returns (add_event (delivered (uncompress_message w m)) o) (Progress (m ∷ ms) later)
  Progress-cons m ms later none p = p
  Progress-cons m ms later (some (es, b)) p = record {
    done = m ∷ p.done;
    rest = p.rest;
    left = p.left;
    split = ap (λ ns. m ∷ ns) p.split;
    events = ap (λ fs. delivered (uncompress_message w m) ∷ fs) p.events;
    goes_on = p.goes_on;
    stuck = p.stuck;
    holds = p.holds;
  }

  stays_Progress :
      (ms : List RpcMessage) (p later : List ℕ) (fuel : ℕ) (b : Buffer)
      → rounds w fuel b ≡ some ([], b)
      → p ++ later ≡ frames ms
      → Stuck p ms
      → Holds p b
      → Returns (rounds w fuel b) (Progress ms later)
  stays_Progress ms p later fuel b e go st h = rw e (record {
    done = [];
    rest = ms;
    left = p;
    split = refl;
    events = refl;
    goes_on = go;
    stuck = st;
    holds = h;
  })

  waits :
      (fuel : ℕ) (m : RpcMessage) (p later bs : List ℕ) (b : Buffer)
      → Sendable m
      → p ++ later ≡ frame (w.serialize m) ++ bs
      → length p < length (frame (w.serialize m))
      → Holds p b
      → rounds w (suc fuel) b ≡ some ([], b)
  waits fuel m p later bs b s go few h =
      let xs = w.serialize m in
      let size = length xs + 4 in
      elim (Bool-cases (ltb (length p) 4)) [
        | inl tiny ↦ rounds_short fuel b (omega (arith, Holds-length b h, ltb→lt (length p) 4 tiny))
        | inr more ↦
            let le : length (be32 size) ≤ length p = ground (arith, length-be32 size) in
            let (zs, e, _) = append_split p later (be32 size) _ (go ∙ frame-append xs bs) le in
            rounds_wait fuel size zs b (subst (λ ys. Holds ys b) e h) (omega arith) s.short
              (omega (arith, Holds-length b h, length-frame xs))
      ]

  rounds-Progress :
      (ms : List RpcMessage) (p later : List ℕ) (fuel : ℕ) (b : Buffer)
      → All Sendable ms
      → p ++ later ≡ frames ms
      → length p < fuel
      → Holds p b
      → Returns (rounds w fuel b) (Progress ms later)
  rounds-Progress ms p later zero b s go f h = absurd (omega arith)
  rounds-Progress [] [] later (suc fuel) b s go f h =
      stays_Progress [] [] later (suc fuel) b
        (rounds_short fuel b (omega (arith, Holds-length b h))) go tt h
  rounds-Progress [] (x ∷ p) later (suc fuel) b s go f h = cc
  rounds-Progress (m ∷ ms) p later (suc fuel) b s go f h =
      let xs = w.serialize m in
      elim (Bool-cases (ltb (length p) (length (frame xs)))) [
        | inl few ↦
            let lt = ltb→lt (length p) (length (frame xs)) few in
            stays_Progress (m ∷ ms) p later (suc fuel) b
              (waits fuel m p later (frames ms) b s.0 go lt h) go lt h
        | inr enough ↦
            let (p', e, go') = append_split p later (frame xs) (frames ms) go (ground arith) in
            rounds_frame fuel m p' b (Progress (m ∷ ms) later) s.0 (subst (λ ys. Holds ys b) e h)
              λ b' h'. Progress-cons m ms later (rounds w fuel b') (
                rounds-Progress ms p' later fuel b' s.1 go'
                  (omega (arith, ap length e, length-append (frame xs) p', length-frame xs)) h')
      ]

  -- The pieces of a connection's input, each read into the buffer before the codec is called.
  pub feed : List (List ℕ) → Buffer → Option (List Event × Buffer)
  feed [] b = some ([], b)
  feed (c ∷ cs) b = do
    b1 ← append c b
    (es, b2) ← parse_from_buffer w b1
    (fs, b3) ← feed cs b2
    some (es ++ fs, b3)

  feed_rest :
      (cs : List (List ℕ)) (ms : List RpcMessage) (q : List ℕ) (b : Buffer)
      → All Sendable ms
      → q ++ flatten cs ≡ frames ms
      → Stuck q ms
      → Holds q b
      → Returns (feed cs b) (λ r. (r.0 ≡ deliveries ms) × Holds [] r.1)
  unfolding feed
  feed_rest [] [] q b s go st h = (refl, subst (λ ys. Holds ys b) (sym (append-nil q) ∙ go) h)
  feed_rest [] (m ∷ ms) q b s go st h = absurd (
      omega (
        arith,
        ap length (sym (append-nil q) ∙ go),
        length-append (frame (w.serialize m)) (frames ms),
      ))
  feed_rest (c ∷ cs) ms q b s go st h =
      Returns->>= _ _ (append c b) _ (append-Holds q c b h) λ b1 h1.
        Returns->>= _ _ (parse_from_buffer w b1) _ (parsed_piece b1 h1) λ (es, b2) p.
          Returns->>= _ _ (feed cs b2) _
            (feed_rest cs p.rest p.left b2
              (All-append_right Sendable p.done p.rest (subst (All Sendable) p.split s)) p.goes_on
              p.stuck p.holds)
            λ (fs, b3) (e, done). (
              ap₂ (λ xs ys. xs ++ ys) p.events e
                  ∙ sym (deliveries-append p.done p.rest)
                  ∙ ap deliveries (sym p.split),
              done,
            )
    where
      parsed_piece :
          (b1 : Buffer)
          → Holds (q ++ c) b1
          → Returns (parse_from_buffer w b1) (Progress ms (flatten cs))
      parsed_piece b1 h1 =
          unfold parse_from_buffer in
          rounds-Progress ms (q ++ c) (flatten cs) (suc (readable_bytes b1)) b1 s
            (append_assoc q c (flatten cs) ∙ go) (omega (arith, Holds-length b1 h1)) h1

  -- For messages whose frames are within the codec's limit and whose serialised bytes the parser reads
  -- back: however their frames are cut into pieces, the codec, from an empty buffer, delivers one
  -- message for each of them, in order, with its payload as the decompression leaves it, and nothing
  -- else, and leaves nothing in the buffer.
  pub feed-frames :
      (cs : List (List ℕ)) (ms : List RpcMessage) (b : Buffer)
      → All Sendable ms
      → flatten cs ≡ frames ms
      → Holds [] b
      → Returns (feed cs b) (λ r. (r.0 ≡ deliveries ms) × Holds [] r.1)
  feed-frames cs ms b s go h = feed_rest cs ms [] b s go (fresh ms) h
    where
      fresh : (ms : List RpcMessage) → Stuck [] ms
      fresh [] = tt
      fresh (m ∷ ms) = omega (arith, length-frame (w.serialize m))
