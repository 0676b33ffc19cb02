-- ===== src/Buffer/Content.antt =====
-- Each operation of the buffer by what it does to the content: a queue of bytes that also grows at
-- the front. None of the checks fails where the caller keeps to the sizes.
use claire.Prelude.{
  ℕ, ◌+◌, ◌-◌, ◌≤◌, ◌<◌, ◌≡◌, refl, sym, ◌∙◌, ap, inl, inr, List, [], ◌++◌, none, some,
  append_assoc, arith, length, take, drop, replicate, copy_to, min, length-take, length-drop,
  length-copy_to, length-replicate, take-append-drop, take_all, drop_all, take_at_end, drop_at_end,
  drop-append, length-append, copy_to-append, overlay-eq, Returns, Returns->>=, Returns-check,
  take-append_le, ltb, leb, Bool-cases, le→leb, lt→ltb, ltb→lt,
}
use claire.Buffer.{
  Buffer, cheap_prepend, content, readable_bytes, writable_bytes, prependable_bytes, peek, consume,
  consume_all, resize, reserve, ensure_writable_bytes, has_written, write_bytes, append, prepend,
  read, empty, of_bytes, consume_as_string,
}
use claire.Buffer.Parts.{
  Holds, Parts-Holds, front_of, back_of, Holds-Parts, Holds-length, length-front_of, length-back_of,
}

consume_all-Holds : (bs : List ℕ) (b : Buffer) → Holds bs b → Holds [] (consume_all b)
unfolding consume_all content readable_bytes
consume_all-Holds bs b h = record {
  valid = record { ordered = omega arith; fits = h.valid.room; room = h.valid.room };
  holds = refl;
}

-- Taking from the front leaves the rest, on each branch; more than there is ends the process.
pub consume-Holds :
    (bs : List ℕ) (n : ℕ) (b : Buffer)
    → Holds bs b
    → n ≤ length bs
    → Returns (consume n b) (Holds (drop n bs))
unfolding consume
consume-Holds bs n b h le = elim (Bool-cases (ltb n (readable_bytes b))) [
  | inl less ↦
      let lt : n < readable_bytes b = ltb→lt n (readable_bytes b) less in
      let p = Holds-Parts b h in
      rw (le→leb n (readable_bytes b) (omega arith), less)
        (Parts-Holds (front_of b ++ take n bs) (drop n bs) (back_of b) _ h.valid.room (record {
          bytes_eq =
              p.bytes_eq
              ∙ ap (λ xs. front_of b ++ xs)
                  (ap (λ xs. xs ++ back_of b) (sym (take-append-drop n bs))
                    ∙ append_assoc (take n bs) (drop n bs) (back_of b))
              ∙ sym (append_assoc (front_of b) (take n bs) (drop n bs ++ back_of b));
          reader_eq =
              omega (arith, p.reader_eq, length-append (front_of b) (take n bs), length-take n bs);
          writer_eq = omega (
            arith,
            p.writer_eq,
            length-append (front_of b) (take n bs),
            length-take n bs,
            length-drop n bs,
          );
        }))
  | inr all ↦
      let e : n ≡ length bs = ground (arith, Holds-length b h) in
      rw
        (
          le→leb n (readable_bytes b) (omega (arith, Holds-length b h)),
          all,
          drop_all n bs (omega arith),
        )
        (consume_all-Holds bs b h)
]

pub consume_too_much :
    (bs : List ℕ) (n : ℕ) (b : Buffer) → Holds bs b → length bs < n → consume n b ≡ none
unfolding consume
consume_too_much bs n b h lt = ground (arith, Holds-length b h)

-- The first branch of `Reserve`: longer storage.
grown-Holds :
    (bs : List ℕ) (n : ℕ) (b : Buffer)
    → Holds bs b
    → writable_bytes b < n
    → Holds bs (record b { bytes = resize (b.writer_index + n) b.bytes })
      × (n ≤ writable_bytes (record b { bytes = resize (b.writer_index + n) b.bytes }))
unfolding resize writable_bytes
grown-Holds bs n b h small =
    let p = Holds-Parts b h in
    let m = b.writer_index + n in
    let zeros = replicate (m - length b.bytes) 0 in
    let e : take m b.bytes ++ zeros ≡ b.bytes ++ zeros =
      ap (λ xs. xs ++ zeros) (take_all m b.bytes (omega (arith, h.valid.fits))) in
    let len : length (take m b.bytes ++ zeros) ≡ length b.bytes + (m - length b.bytes) =
      ap length e
      ∙ length-append b.bytes zeros
      ∙ ap (λ k. length b.bytes + k) (length-replicate (m - length b.bytes) 0) in
    (
      Parts-Holds (front_of b) bs (back_of b ++ zeros) _ (omega (arith, len, h.valid.room))
          (record {
            bytes_eq =
                e
                ∙ ap (λ xs. xs ++ zeros) p.bytes_eq
                ∙ append_assoc (front_of b) (bs ++ back_of b) zeros
                ∙ ap (λ xs. front_of b ++ xs) (append_assoc bs (back_of b) zeros);
            reader_eq = p.reader_eq;
            writer_eq = p.writer_eq;
          }),
      omega (arith, len, h.valid.fits),
    )

-- The second branch: the content moves to the front.
moved-Holds :
    (bs : List ℕ) (n : ℕ) (b : Buffer)
    → Holds bs b
    → n + cheap_prepend ≤ writable_bytes b + prependable_bytes b
    → (λ (b' : Buffer). Holds bs b' × (n ≤ writable_bytes b'))
        (record {
          bytes = copy_to cheap_prepend (content b) b.bytes;
          reader_index = cheap_prepend;
          writer_index = cheap_prepend + readable_bytes b;
        })
unfolding writable_bytes prependable_bytes readable_bytes
moved-Holds bs n b h enough =
    let start = take cheap_prepend b.bytes in
    let rest = drop cheap_prepend b.bytes in
    let start_len : cheap_prepend ≡ length start =
      omega (arith, length-take cheap_prepend b.bytes, h.valid.room) in
    let read_len = Holds-length b h in
    let e : copy_to cheap_prepend (content b) b.bytes ≡ start ++ (bs ++ drop (length bs) rest) =
      ap (λ ys. copy_to cheap_prepend ys b.bytes) h.holds
      ∙ ap (copy_to cheap_prepend bs) (sym (take-append-drop cheap_prepend b.bytes))
      ∙ copy_to-append cheap_prepend bs start rest start_len
      ∙ ap (λ xs. start ++ xs)
          (overlay-eq bs rest (
            omega (
              arith,
              length-drop cheap_prepend b.bytes,
              read_len,
              h.valid.fits,
              h.valid.ordered,
            ))) in
    (
      Parts-Holds start bs (drop (length bs) rest) _
          (omega (arith, length-copy_to cheap_prepend (content b) b.bytes, h.valid.room))
          (record {
            bytes_eq = e;
            reader_eq = start_len;
            writer_eq = omega (arith, start_len, read_len);
          }),
      omega
          (arith, length-copy_to cheap_prepend (content b) b.bytes, h.valid.fits, h.valid.ordered),
    )

-- Making room keeps the content, and no check fails.
reserve-Holds :
    (bs : List ℕ) (n : ℕ) (b : Buffer)
    → Holds bs b
    → writable_bytes b < n
    → Returns (reserve n b) (λ b'. Holds bs b' × (n ≤ writable_bytes b'))
unfolding reserve
reserve-Holds bs n b h small =
    let room = writable_bytes b + prependable_bytes b in
    elim (Bool-cases (ltb room (n + cheap_prepend))) [
      | inl grow ↦ rw grow (grown-Holds bs n b h small)
      | inr move ↦
          let le : n + cheap_prepend ≤ room = ground arith in
          let lt : cheap_prepend < b.reader_index = unfold prependable_bytes in omega arith in
          rw (move, lt→ltb cheap_prepend b.reader_index lt) (moved-Holds bs n b h le)
    ]

pub ensure_writable_bytes-Holds :
    (bs : List ℕ) (n : ℕ) (b : Buffer)
    → Holds bs b
    → Returns (ensure_writable_bytes n b) (λ b'. Holds bs b' × (n ≤ writable_bytes b'))
unfolding ensure_writable_bytes
ensure_writable_bytes-Holds bs n b h = elim (Bool-cases (ltb (writable_bytes b) n)) [
  | inl small ↦ rw small (
      Returns->>= (λ b'. Holds bs b' × (n ≤ writable_bytes b')) _ (reserve n b) _
        (reserve-Holds bs n b h (ltb→lt _ _ small))
        (λ b' r. rw (le→leb n (writable_bytes b') r.1) r))
  | inr enough ↦
      let le : n ≤ writable_bytes b = ground arith in
      rw (enough, le→leb n (writable_bytes b) le) (h, le)
]

pub written-Holds :
    (bs xs : List ℕ) (b : Buffer)
    → Holds bs b
    → length xs ≤ writable_bytes b
    → Holds (bs ++ xs) (has_written (length xs) (write_bytes xs b))
unfolding has_written write_bytes
written-Holds bs xs b h fit =
    let p = Holds-Parts b h in
    let front_len : b.writer_index ≡ length (front_of b ++ bs) =
      omega (arith, p.writer_eq, length-append (front_of b) bs) in
    let e : copy_to b.writer_index xs b.bytes
        ≡ front_of b ++ ((bs ++ xs) ++ drop (length xs) (back_of b)) =
      ap (copy_to b.writer_index xs) (p.bytes_eq ∙ sym (append_assoc (front_of b) bs (back_of b)))
      ∙ copy_to-append b.writer_index xs (front_of b ++ bs) (back_of b) front_len
      ∙ ap (λ ys. (front_of b ++ bs) ++ ys)
          (overlay-eq xs (back_of b) (omega (arith, length-back_of b)))
      ∙ append_assoc (front_of b) bs _
      ∙ ap (λ ys. front_of b ++ ys) (sym (append_assoc bs xs _)) in
    Parts-Holds (front_of b) (bs ++ xs) (drop (length xs) (back_of b)) _
      (omega (arith, length-copy_to b.writer_index xs b.bytes, h.valid.room))
      (record {
        bytes_eq = e;
        reader_eq = p.reader_eq;
        writer_eq = omega (arith, p.writer_eq, length-append bs xs);
      })

-- The prependable space of a new buffer is still there when room has been made.
pub ensure_writable_bytes-prependable :
    (n : ℕ) (b b' : Buffer)
    → cheap_prepend ≤ prependable_bytes b
    → ensure_writable_bytes n b ≡ some b'
    → cheap_prepend ≤ prependable_bytes b'
unfolding ensure_writable_bytes reserve prependable_bytes
ensure_writable_bytes-prependable n b b' h e = ground arith

pub written-prependable :
    (xs : List ℕ) (b : Buffer)
    → prependable_bytes (has_written (length xs) (write_bytes xs b)) ≡ prependable_bytes b
unfolding has_written write_bytes prependable_bytes
written-prependable xs b = refl

-- Appending to a buffer that holds some bytes gives one that holds them and the new ones, whatever
-- of the three ways to make room it takes. No check fails.
pub append-Holds :
    (bs xs : List ℕ) (b : Buffer) → Holds bs b → Returns (append xs b) (Holds (bs ++ xs))
unfolding append
append-Holds bs xs b h =
    Returns->>= (λ b'. Holds bs b' × (length xs ≤ writable_bytes b')) _
      (ensure_writable_bytes (length xs) b) _ (ensure_writable_bytes-Holds bs (length xs) b h)
      (λ b' r. written-Holds bs xs b' r.0 r.1)

pub empty-Holds : Holds [] empty
unfolding empty content
empty-Holds = record { valid = omega arith; holds = refl }

pub of_bytes-Holds : (xs : List ℕ) → Returns (of_bytes xs) (Holds xs)
unfolding of_bytes content
of_bytes-Holds xs =
    append-Holds [] xs
      (record {
        bytes = replicate cheap_prepend 0;
        reader_index = cheap_prepend;
        writer_index = cheap_prepend;
      })
      (record { valid = omega arith; holds = refl })

-- Bytes put in front of the content, where the prependable space has room for them. The space
-- shrinks by their number.
pub prepend-Holds :
    (bs xs : List ℕ) (b : Buffer)
    → Holds bs b
    → length xs ≤ prependable_bytes b
    → Returns
        (prepend xs b)
        (λ b'. Holds (xs ++ bs) b' × (prependable_bytes b' + length xs ≡ prependable_bytes b))
unfolding prepend prependable_bytes
prepend-Holds bs xs b h fit =
    let p = Holds-Parts b h in
    let i = b.reader_index - length xs in
    let start = take i (front_of b) in
    let gap = drop i (front_of b) in
    let start_len : i ≡ length start =
      omega (arith, length-take i (front_of b), length-front_of b h.valid) in
    let gap_len : length xs ≡ length gap =
      omega (arith, length-drop i (front_of b), length-front_of b h.valid, fit) in
    let rest = bs ++ back_of b in
    let e : copy_to i xs b.bytes ≡ start ++ ((xs ++ bs) ++ back_of b) =
      ap (copy_to i xs) (
        p.bytes_eq
        ∙ ap (λ ys. ys ++ rest) (sym (take-append-drop i (front_of b)))
        ∙ append_assoc start gap rest)
      ∙ copy_to-append i xs start (gap ++ rest) start_len
      ∙ ap (λ ys. start ++ ys)
          (overlay-eq xs (gap ++ rest) (omega (arith, gap_len, length-append gap rest))
            ∙ ap (λ ys. xs ++ ys) (drop-append (length xs) gap rest gap_len)
            ∙ sym (append_assoc xs bs (back_of b))) in
    rw (le→leb (length xs) b.reader_index fit) (
      Parts-Holds start (xs ++ bs) (back_of b) _
          (omega (arith, length-copy_to i xs b.bytes, h.valid.room))
          (record {
            bytes_eq = e;
            reader_eq = start_len;
            writer_eq =
                omega (arith, p.writer_eq, p.reader_eq, start_len, length-append xs bs, fit);
          }),
      omega (arith, fit),
    )

pub take-peek :
    (bs : List ℕ) (n : ℕ) (b : Buffer) → Holds bs b → n ≤ length bs → take n (peek b) ≡ take n bs
unfolding peek
take-peek bs n b h le =
    let p = Holds-Parts b h in
    ap (λ xs. take n (drop b.reader_index xs)) p.bytes_eq
    ∙ ap (take n) (drop-append b.reader_index (front_of b) (bs ++ back_of b) p.reader_eq)
    ∙ take-append_le n bs (back_of b) le

-- `Read` hands out the front of the content, at most what there is, and leaves the rest.
pub read-Holds :
    (bs : List ℕ) (n : ℕ) (b : Buffer)
    → Holds bs b
    → Returns (read n b) (λ r. (r.0 ≡ take n bs) × Holds (drop n bs) r.1)
unfolding read
read-Holds bs n b h =
    let m = min (readable_bytes b) n in
    let e : m ≡ min (length bs) n = omega (arith, Holds-length b h) in
    Returns->>= (Holds (drop m bs)) _ (consume m b) _ (consume-Holds bs m b h (omega arith))
      (λ b' r.
        (take-peek bs m b h (omega arith) ∙ take_at_end m n bs e, rw (drop_at_end m n bs e) at r))

-- `ConsumeAsString`: a round of `Read` that takes no more than there is.
pub consume_as_string-Holds :
    (bs : List ℕ) (n : ℕ) (b : Buffer)
    → Holds bs b
    → n ≤ length bs
    → Returns (consume_as_string n b) (λ r. (r.0 ≡ take n bs) × Holds (drop n bs) r.1)
unfolding consume_as_string
consume_as_string-Holds bs n b h le =
    Returns-check _ (leb n (readable_bytes b)) _ (le→leb _ _ (omega (arith, Holds-length b h))) (
      Returns->>= (Holds (drop n bs)) _ (consume n b) _ (consume-Holds bs n b h le)
        (λ b' r. (take-peek bs n b h le, r)))
