-- ===== src/Buffer.antt =====
-- netty/Buffer.h, netty/Buffer.cc and netty/Endian.h: the byte buffer that every connection reads
-- into and writes from. A byte is a number below 256; a pointer into the buffer is an offset from
-- `Peek()`. A buffer holds far fewer than 2 ^ 63 bytes, so sums of its sizes do not wrap. A failed
-- `CHECK` ends the process and is `none`, and so is a failed `DCHECK`, as in a debug build.
-- An `intN_t` is its bit pattern, a number below 2 ^ N.
pub mod Parts
pub mod Content
pub mod Ints
pub mod Crlf
mod Tests
use claire.Prelude.{
  ℕ, zero, suc, ◌+◌, ◌-◌, ◌*◌, ◌/◌, ◌%◌, ◌^◌, min, Bool, ◌&&◌, List, [], ◌∷◌, ◌++◌, Option, none,
  some, ltb, leb, ◌==◌, if◌then◌else◌, ◌>>=◌, ◌>>◌, check, length, take, drop, replicate, copy_to,
}

abbrev pub cheap_prepend : ℕ
cheap_prepend = 8

abbrev pub initial_size : ℕ
initial_size = 1024

pub record Buffer : Type 0 where
  pub bytes : List ℕ
  pub reader_index : ℕ
  pub writer_index : ℕ

unfoldable pub readable_bytes : Buffer → ℕ
readable_bytes b = b.writer_index - b.reader_index

unfoldable pub writable_bytes : Buffer → ℕ
writable_bytes b = length b.bytes - b.writer_index

unfoldable pub prependable_bytes : Buffer → ℕ
prependable_bytes b = b.reader_index

-- The memory behind `Peek()`, of which the first `ReadableBytes()` are the content.
unfoldable pub peek : Buffer → List ℕ
peek b = drop b.reader_index b.bytes

-- `ToStringPiece()`.
unfoldable pub content : Buffer → List ℕ
unfolding peek readable_bytes
content b = take (readable_bytes b) (peek b)

-- `Buffer()`.
unfoldable pub empty : Buffer
empty = record {
  bytes = replicate (cheap_prepend + initial_size) 0;
  reader_index = cheap_prepend;
  writer_index = cheap_prepend;
}

-- `swap`: the two buffers after the call.
swap : Buffer → Buffer → Buffer × Buffer
swap a b = (
  record { bytes = b.bytes; reader_index = b.reader_index; writer_index = b.writer_index },
  record { bytes = a.bytes; reader_index = a.reader_index; writer_index = a.writer_index },
)

unfoldable pub consume_all : Buffer → Buffer
consume_all b = record b { reader_index = cheap_prepend; writer_index = cheap_prepend }

unfoldable pub consume : ℕ → Buffer → Option Buffer
unfolding readable_bytes consume_all
consume n b =
    if leb n (readable_bytes b)
    then if ltb n (readable_bytes b)
      then some (record b { reader_index = b.reader_index + n })
      else some (consume_all b)
    else none

-- `end` is given by its offset from `Peek()`.
unfoldable pub consume_until : ℕ → Buffer → Option Buffer
unfolding consume readable_bytes
consume_until offset b = do check (leb offset (readable_bytes b)); consume offset b

unfoldable pub consume_all_as_string : Buffer → List ℕ × Buffer
unfolding content consume_all
consume_all_as_string b = (content b, consume_all b)

unfoldable pub consume_as_string : ℕ → Buffer → Option (List ℕ × Buffer)
unfolding consume readable_bytes peek
consume_as_string n b = do
  check (leb n (readable_bytes b))
  let result = take n (peek b)
  rest ← consume n b
  some (result, rest)

-- `std::vector::resize`: new bytes are zero.
unfoldable pub resize : ℕ → List ℕ → List ℕ
resize n xs = take n xs ++ replicate (n - length xs) 0

-- The first branch makes the storage longer, the second moves the content to the front.
unfoldable pub reserve : ℕ → Buffer → Option Buffer
unfolding resize content readable_bytes writable_bytes prependable_bytes
reserve n b =
    if ltb (writable_bytes b + prependable_bytes b) (n + cheap_prepend)
    then some (record b { bytes = resize (b.writer_index + n) b.bytes })
    else if ltb cheap_prepend b.reader_index
    then some (record {
      bytes = copy_to cheap_prepend (content b) b.bytes;
      reader_index = cheap_prepend;
      writer_index = cheap_prepend + readable_bytes b;
    })
    else none

unfoldable pub ensure_writable_bytes : ℕ → Buffer → Option Buffer
unfolding reserve writable_bytes
ensure_writable_bytes n b = do
  b' ← if ltb (writable_bytes b) n then reserve n b else some b
  check (leb n (writable_bytes b'))
  some b'

unfoldable pub has_written : ℕ → Buffer → Buffer
has_written n b = record b { writer_index = b.writer_index + n }

-- `std::copy` to `BeginWrite()`.
unfoldable pub write_bytes : List ℕ → Buffer → Buffer
write_bytes xs b = record b { bytes = copy_to b.writer_index xs b.bytes }

unfoldable pub append : List ℕ → Buffer → Option Buffer
unfolding ensure_writable_bytes has_written write_bytes
append xs b = do
  b' ← ensure_writable_bytes (length xs) b
  some (has_written (length xs) (write_bytes xs b'))

-- `Buffer(data, length)`.
unfoldable pub of_bytes : List ℕ → Option Buffer
unfolding append
of_bytes xs = append xs (record {
  bytes = replicate cheap_prepend 0;
  reader_index = cheap_prepend;
  writer_index = cheap_prepend;
})

unfoldable pub prepend : List ℕ → Buffer → Option Buffer
unfolding prependable_bytes
prepend xs b =
    if leb (length xs) (prependable_bytes b)
    then some (record b {
      bytes = copy_to (b.reader_index - length xs) xs b.bytes;
      reader_index = b.reader_index - length xs;
    })
    else none

unfoldable pub read : ℕ → Buffer → Option (List ℕ × Buffer)
unfolding consume readable_bytes peek
read n b = do let m = min (readable_bytes b) n; rest ← consume m b; some (take m (peek b), rest)

-- The bytes in memory of `HostToNetwork16(x)`, `HostToNetwork32(x)` and `HostToNetwork64(x)`.
unfoldable pub be16 : ℕ → List ℕ
be16 x = (x / 2 ^ 8 % 2 ^ 8) ∷ (x % 2 ^ 8) ∷ []

unfoldable pub be32 : ℕ → List ℕ
unfolding be16
be32 x = be16 (x / 2 ^ 16) ++ be16 x

unfoldable pub be64 : ℕ → List ℕ
unfolding be32
be64 x = be32 (x / 2 ^ 32) ++ be32 x

-- `NetworkToHost16/32` of the bytes that `memcpy` put into an integer.
unfoldable pub from_be : ℕ → List ℕ → ℕ
from_be acc [] = acc
from_be acc (x ∷ xs) = from_be (acc * 2 ^ 8 + x) xs

unfoldable pub append_int64 : ℕ → Buffer → Option Buffer
unfolding append be64
append_int64 x = append (be64 x)

unfoldable pub append_int32 : ℕ → Buffer → Option Buffer
unfolding append be32
append_int32 x = append (be32 x)

unfoldable pub append_int16 : ℕ → Buffer → Option Buffer
unfolding append be16
append_int16 x = append (be16 x)

unfoldable pub append_int8 : ℕ → Buffer → Option Buffer
unfolding append
append_int8 x = append (x ∷ [])

-- `PeekInt32`, `PeekInt16` and `PeekInt8`, by the size of the integer.
unfoldable pub peek_int : ℕ → Buffer → Option ℕ
unfolding readable_bytes peek from_be
peek_int size b = do check (leb size (readable_bytes b)); some (from_be 0 (take size (peek b)))

unfoldable pub peek_int32 : Buffer → Option ℕ
unfolding peek_int
peek_int32 = peek_int 4

unfoldable pub read_int : ℕ → Buffer → Option (ℕ × Buffer)
unfolding peek_int consume
read_int size b = do x ← peek_int size b; rest ← consume size b; some (x, rest)

unfoldable pub prepend_int32 : ℕ → Buffer → Option Buffer
unfolding prepend be32
prepend_int32 x = prepend (be32 x)

unfoldable pub prepend_int16 : ℕ → Buffer → Option Buffer
unfolding prepend be16
prepend_int16 x = prepend (be16 x)

unfoldable pub prepend_int8 : ℕ → Buffer → Option Buffer
unfolding prepend
prepend_int8 x = prepend (x ∷ [])

-- `std::search` for "\r\n", from position `i` on.
unfoldable pub search_crlf : List ℕ → ℕ → Option ℕ
search_crlf [] i = none
search_crlf (x ∷ []) i = none
search_crlf (x ∷ y ∷ zs) i =
    let rest = search_crlf (y ∷ zs) (i + 1) in if (x == b'\r') && (y == b'\n') then some i else rest

unfoldable pub find_crlf : Buffer → Option ℕ
unfolding search_crlf content
find_crlf b = search_crlf (content b) 0

-- `FindCRLF(start)`, the pointers given by their offsets from `Peek()`.
unfoldable pub find_crlf_from : ℕ → Buffer → Option ℕ
unfolding search_crlf content readable_bytes
find_crlf_from start b = do
  check (leb start (readable_bytes b))
  search_crlf (drop start (content b)) start
