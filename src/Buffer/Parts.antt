-- ===== src/Buffer/Parts.antt =====
-- A valid buffer's storage as three parts: before the content, the content, and behind it.
use claire.Prelude.{
  ℕ, ◌+◌, ◌-◌, ◌≤◌, ◌≡◌, sym, ◌∙◌, ap, List, ◌++◌, arith, length, take, drop, length-take,
  length-drop, take-append-drop, take-append, drop-append, drop-drop, length-append,
}
use claire.Buffer.{Buffer, cheap_prepend, content, readable_bytes, writable_bytes, peek}

-- 0 <= reader_index <= writer_index <= size, and there is room for the cheap prepend.
pub record IsValid (b : Buffer) : Type 0 where
  pub ordered : b.reader_index ≤ b.writer_index
  pub fits : b.writer_index ≤ length b.bytes
  pub room : cheap_prepend ≤ length b.bytes

-- A valid buffer with this content.
pub record Holds (bs : List ℕ) (b : Buffer) : Type 0 where
  pub valid : IsValid b
  pub holds : content b ≡ bs

pub record Parts (front mid back : List ℕ) (b : Buffer) : Type 0 where
  pub bytes_eq : b.bytes ≡ front ++ (mid ++ back)
  pub reader_eq : b.reader_index ≡ length front
  pub writer_eq : b.writer_index ≡ length front + length mid

pub Parts-content :
    (front mid back : List ℕ) (b : Buffer) → Parts front mid back b → content b ≡ mid
unfolding content readable_bytes peek
Parts-content front mid back b p =
    let e : drop b.reader_index b.bytes ≡ mid ++ back =
      ap (drop b.reader_index) p.bytes_eq
      ∙ drop-append b.reader_index front (mid ++ back) p.reader_eq in
    rw e (
      take-append (b.writer_index - b.reader_index) mid back
        (omega (arith, p.writer_eq, p.reader_eq)))

pub Parts-Holds :
    (front mid back : List ℕ) (b : Buffer)
    → cheap_prepend ≤ length b.bytes
    → Parts front mid back b
    → Holds mid b
Parts-Holds front mid back b room p = record {
  valid = record {
    ordered = omega (arith, p.writer_eq, p.reader_eq);
    fits = omega (
      arith,
      p.writer_eq,
      ap length p.bytes_eq,
      length-append front (mid ++ back),
      length-append mid back,
    );
    room = room;
  };
  holds = Parts-content front mid back b p;
}

pub front_of : Buffer → List ℕ
front_of b = take b.reader_index b.bytes

pub back_of : Buffer → List ℕ
back_of b = drop b.writer_index b.bytes

pub length-content : (b : Buffer) → IsValid b → length (content b) ≡ readable_bytes b
unfolding content readable_bytes peek
length-content b v = omega (
  arith,
  v.ordered,
  v.fits,
  length-take (b.writer_index - b.reader_index) (drop b.reader_index b.bytes),
  length-drop b.reader_index b.bytes,
)

pub length-front_of : (b : Buffer) → IsValid b → length (front_of b) ≡ b.reader_index
unfolding front_of
length-front_of b v = omega (arith, v.ordered, v.fits, length-take b.reader_index b.bytes)

pub length-back_of : (b : Buffer) → length (back_of b) ≡ writable_bytes b
unfolding back_of writable_bytes
length-back_of b = length-drop b.writer_index b.bytes

pub valid-Parts : (b : Buffer) → IsValid b → Parts (front_of b) (content b) (back_of b) b
unfolding content readable_bytes peek front_of back_of
valid-Parts b v = record {
  bytes_eq =
      let n = b.writer_index - b.reader_index in
      let e : b.reader_index + n ≡ b.writer_index = omega (arith, v.ordered) in
      sym (take-append-drop b.reader_index b.bytes)
      ∙ ap (λ xs. take b.reader_index b.bytes ++ xs)
          (sym (take-append-drop n (drop b.reader_index b.bytes))
            ∙ ap (λ xs. take n (drop b.reader_index b.bytes) ++ xs)
                (drop-drop n b.reader_index b.bytes ∙ ap (λ k. drop k b.bytes) e));
  reader_eq = sym (length-front_of b v);
  writer_eq = omega (arith, v.ordered, length-front_of b v, length-content b v);
}

-- The same with the content named.
pub Holds-Parts : {bs : List ℕ} (b : Buffer) → Holds bs b → Parts (front_of b) bs (back_of b) b
Holds-Parts b h = rw h.holds at (valid-Parts b h.valid)

pub Holds-length : {bs : List ℕ} (b : Buffer) → Holds bs b → readable_bytes b ≡ length bs
Holds-length b h = sym (length-content b h.valid) ∙ ap length h.holds
