-- ===== src/Buffer/Ints.antt =====
-- The integers of a buffer, in network byte order.
use claire.Prelude.{
  ℕ, ◌^◌, ◌<◌, ◌≡◌, refl, sym, ◌∙◌, ap, List, [], ◌∷◌, ◌++◌, Option, some, none, arith, length,
  drop, take-append, drop-append, length-append, Returns, Returns->>=, le→leb, ◌>>=◌,
}
use claire.Buffer.{
  Buffer, readable_bytes, consume, be16, be32, be64, from_be, peek_int, read_int, append_int32,
  append_int16, append_int8,
}
use claire.Buffer.Parts.{Holds, Holds-length}
use claire.Buffer.Content.{consume-Holds, append-Holds, take-peek}

pub length-be32 : (x : ℕ) → length (be32 x) ≡ 4
unfolding be32
length-be32 x = refl

pub from_be-be32 : (x : ℕ) → x < 2 ^ 32 → from_be 0 (be32 x) ≡ x
unfolding from_be be32
from_be-be32 x h = omega arith

pub from_be-be16 : (x : ℕ) → x < 2 ^ 16 → from_be 0 (be16 x) ≡ x
unfolding from_be be16
from_be-be16 x h = omega arith

pub from_be-be8 : (x : ℕ) → from_be 0 (x ∷ []) ≡ x
unfolding from_be
from_be-be8 x = omega arith

pub from_be-be64 : (x : ℕ) → x < 2 ^ 64 → from_be 0 (be64 x) ≡ x
unfolding from_be be64
from_be-be64 x h = omega arith

pub peek_int-Holds :
    (ws bs : List ℕ) (size : ℕ) (b : Buffer)
    → Holds (ws ++ bs) b
    → size ≡ length ws
    → peek_int size b ≡ some (from_be 0 ws)
unfolding peek_int
peek_int-Holds ws bs size b h e =
    let len = length-append ws bs in
    rw (le→leb size (readable_bytes b) (omega (arith, Holds-length b h, len))) (
      ap (λ xs. some (from_be 0 xs))
        (take-peek (ws ++ bs) size b h (omega (arith, len)) ∙ take-append size ws bs e))

pub read_int-Holds :
    (ws bs : List ℕ) (size : ℕ) (b : Buffer)
    → Holds (ws ++ bs) b
    → size ≡ length ws
    → Returns (read_int size b) (λ r. (r.0 ≡ from_be 0 ws) × Holds bs r.1)
unfolding read_int
read_int-Holds ws bs size b h e =
    Returns->>= (λ (x : ℕ). x ≡ from_be 0 ws) _ (peek_int size b) _
      (rw (peek_int-Holds ws bs size b h e) refl)
      (λ x q.
        Returns->>= (Holds (drop size (ws ++ bs))) _ (consume size b) _
          (consume-Holds (ws ++ bs) size b h (omega (arith, length-append ws bs)))
          (λ b' r. (q, rw (drop-append size ws bs e) at r)))

-- An integer is not read where fewer bytes are there than it has: the process ends.
pub read_int_short :
    (bs : List ℕ) (size : ℕ) (b : Buffer) → Holds bs b → length bs < size → read_int size b ≡ none
unfolding read_int
read_int_short bs size b h lt = ground (arith, Holds-length b h)

pub append_int32-Holds :
    (bs : List ℕ) (x : ℕ) (b : Buffer)
    → Holds bs b
    → Returns (append_int32 x b) (Holds (bs ++ be32 x))
unfolding append_int32
append_int32-Holds bs x b h = append-Holds bs (be32 x) b h

pub append_int16-Holds :
    (bs : List ℕ) (x : ℕ) (b : Buffer)
    → Holds bs b
    → Returns (append_int16 x b) (Holds (bs ++ be16 x))
unfolding append_int16
append_int16-Holds bs x b h = append-Holds bs (be16 x) b h

pub append_int8-Holds :
    (bs : List ℕ) (x : ℕ) (b : Buffer)
    → Holds bs b
    → Returns (append_int8 x b) (Holds (bs ++ x ∷ []))
unfolding append_int8
append_int8-Holds bs x b h = append-Holds bs (x ∷ []) b h

-- The sender's three integers, and the receiver's.
pub write_three : ℕ → ℕ → ℕ → Buffer → Option Buffer
write_three x y z b = do b1 ← append_int32 x b; b2 ← append_int16 y b1; append_int8 z b2

pub read_three : Buffer → Option (ℕ × ℕ × ℕ × Buffer)
read_three b = do
  (x, b1) ← read_int 4 b
  (y, b2) ← read_int 2 b1
  (z, b3) ← read_int 1 b2
  some (x, y, z, b3)

write_three-Holds :
    (x y z : ℕ) (bs : List ℕ) (b : Buffer)
    → Holds bs b
    → Returns (write_three x y z b) (Holds (((bs ++ be32 x) ++ be16 y) ++ z ∷ []))
unfolding write_three
write_three-Holds x y z bs b h =
    Returns->>= _ _ (append_int32 x b) _ (append_int32-Holds bs x b h) λ b1 h1.
      Returns->>= _ _ (append_int16 y b1) _ (append_int16-Holds _ y b1 h1)
        λ b2 h2. append_int8-Holds _ z b2 h2

read_three-Holds :
    (x y z : ℕ) (bs : List ℕ) (b : Buffer)
    → x < 2 ^ 32
    → y < 2 ^ 16
    → Holds (be32 x ++ (be16 y ++ (z ∷ bs))) b
    → Returns (read_three b) (λ r. (r.0 ≡ x) × (r.1 ≡ y) × (r.2 ≡ z) × Holds bs r.3)
unfolding read_three
read_three-Holds x y z bs b hx hy h =
    Returns->>= _ _ (read_int 4 b) _ (read_int-Holds (be32 x) _ 4 b h (sym (length-be32 x)))
      λ (x', b1) (ex, h1).
        Returns->>= _ _ (read_int 2 b1) _
          (read_int-Holds (be16 y) (z ∷ bs) 2 b1 h1 (unfold be16 in refl))
          λ (y', b2) (ey, h2).
            Returns->>= _ _ (read_int 1 b2) _ (read_int-Holds (z ∷ []) bs 1 b2 h2 refl)
              λ (z', b3) (ez, h3).
                (ex ∙ from_be-be32 x hx, ey ∙ from_be-be16 y hy, ez ∙ from_be-be8 z, h3)

-- What one side appends as integers of four, two and one bytes to an empty buffer the other side
-- reads back in order, and nothing is left.
pub read_three-write_three :
    (x y z : ℕ) (b : Buffer)
    → x < 2 ^ 32
    → y < 2 ^ 16
    → Holds [] b
    → Returns
        (write_three x y z b >>= read_three)
        (λ r. (r.0 ≡ x) × (r.1 ≡ y) × (r.2 ≡ z) × Holds [] r.3)
read_three-write_three x y z b hx hy h =
    Returns->>= _ _ (write_three x y z b) _ (write_three-Holds x y z [] b h)
      λ b' h'. read_three-Holds x y z [] b' hx hy (unfold be32 be16 in h')
