-- ===== src/Rpc/Codec.antt =====
-- protorpc/RpcCodec.cc. A frame is a length, a checksum and a serialised message. Protocol buffers,
-- zlib's checksum and snappy are parameters. A failed check is `none`; so is a loop out of fuel.
pub mod Step
pub mod Stream
pub mod Total
pub mod Send
pub mod Serialized
mod Tests
use claire.Prelude.{
  ℕ, zero, suc, ◌+◌, ◌-◌, ◌*◌, ◌%◌, ◌^◌, ◌≤◌, ◌≡◌, Bool, true, false, not, ◌&&◌, ◌||◌, List, [],
  ◌∷◌, ◌++◌, Option, none, some, ltb, leb, ◌==◌, if◌then◌else◌, ◌>>=◌, ◌>>◌, check, length, take,
}
use claire.Buffer.{
  Buffer, content, peek, readable_bytes, peek_int32, consume, prepend_int32, ensure_writable_bytes,
  write_bytes, has_written, empty,
}
use claire.Rpc.Message.{
  RpcMessage, CompressType, compress_none, compress_snappy, ErrorCode, invalid_checksum, parse_fail,
  payload, set_payload,
}

abbrev pub min_message_length : ℕ
min_message_length = 4

abbrev pub max_message_length : ℕ
max_message_length = 64 * 1024 * 1024

abbrev pub checksum_length : ℕ
checksum_length = 4

-- `adler32` starts from its first argument; `snappy_uncompress` may refuse its input.
pub record Wire : Type 0 where
  pub adler32 : ℕ → List ℕ → ℕ
  pub serialize : RpcMessage → List ℕ
  pub parse_from_array : List ℕ → Option RpcMessage
  pub snappy_compress : List ℕ → List ℕ
  pub snappy_uncompress : List ℕ → Option (List ℕ)

pub data ParseResult : Type 0 where
  parsed : RpcMessage → ParseResult
  failed : ErrorCode → ParseResult

-- What the codec does to the connection: a message for the callback, or `OnError` with status 400.
pub data Event : Type 0 where
  delivered : RpcMessage → Event
  bad_length : Event
  bad_message : ErrorCode → Event

-- `length > kMaxMessageLength || length < kMinMessageLength` of the `int32_t` with these bits.
unfoldable pub out_of_range : ℕ → Bool
out_of_range size =
    let negative = leb (2 ^ 31) size in
    not negative && ltb max_message_length size || (negative || ltb size min_message_length)

-- A round's events before those of the later rounds.
abbrev pub add_event : Event → Option (List Event × Buffer) → Option (List Event × Buffer)
add_event e r = do (es, b) ← r; some (e ∷ es, b)

module _ (w : Wire) where
  -- The result of `adler32` as an `int32_t`.
  unfoldable pub bytes_checksum : List ℕ → ℕ
  bytes_checksum xs = w.adler32 1 xs % 2 ^ 32

  -- Where snappy refuses the bytes they stay as they are.
  abbrev pub store_unpacked : Option (List ℕ) → RpcMessage → RpcMessage
  store_unpacked none m = set_payload (payload m) m
  store_unpacked (some xs) m = set_payload xs m

  -- The receiver's `switch`.
  abbrev pub uncompress_as : Option CompressType → RpcMessage → RpcMessage
  uncompress_as none m = m
  uncompress_as (some compress_snappy) m = store_unpacked (w.snappy_uncompress (payload m)) m
  uncompress_as (some compress_none) m = record m { compress_type = some compress_none }

  unfoldable pub uncompress_message : RpcMessage → RpcMessage
  uncompress_message m = uncompress_as m.compress_type m

  -- The sender's `switch`.
  abbrev pub compress_as : Option CompressType → RpcMessage → RpcMessage
  compress_as none m = m
  compress_as (some compress_snappy) m =
      let xs = w.snappy_compress (payload m) in
      if ltb 0 (length xs) then set_payload xs m else set_payload (payload m) m
  compress_as (some compress_none) m = record m { compress_type = some compress_none }

  unfoldable pub compress_message : RpcMessage → RpcMessage
  compress_message m = compress_as m.compress_type m

  -- What follows the check of the checksum in `Parse`.
  abbrev pub take_message : Option RpcMessage → ℕ → Buffer → Option (ParseResult × Buffer)
  take_message none n b = some (failed parse_fail, b)
  take_message (some m) n b = do b' ← consume n b; some (parsed (uncompress_message m), b')

  unfoldable pub parse_body : ℕ → Buffer → Option (ParseResult × Buffer)
  parse_body n b = take_message (w.parse_from_array (take n (peek b))) n b

  -- `Parse`. Its caller has seen to it that `length` is at least `kChecksumLength`.
  unfoldable pub parse : Buffer → Option (ParseResult × Buffer)
  parse b = do
    size ← peek_int32 b
    b1 ← consume 4 b
    expected ← peek_int32 b1
    b2 ← consume checksum_length b1
    let n = size - checksum_length
    let body = parse_body n b2
    if not (bytes_checksum (take n (peek b2)) == expected)
        then some (failed invalid_checksum, b2)
        else body

  -- The rounds of `ParseFromBuffer`, with fuel.
  pub rounds : ℕ → Buffer → Option (List Event × Buffer)
  rounds zero b = none
  rounds (suc fuel) b = elim (leb min_message_length (readable_bytes b)) [
    | false ↦ some ([], b)
    | true ↦ do
      size ← peek_int32 b
      elim (out_of_range size) [
        | true ↦ some (bad_length ∷ [], b)
        | false ↦ elim (leb (size + 4) (readable_bytes b)) [
          | false ↦ some ([], b)
          | true ↦ do
            (result, b') ← parse b
            elim result [
              | failed e ↦ some (bad_message e ∷ [], b')
              | parsed m ↦ add_event (delivered m) (rounds fuel b')
            ]
        ]
      ]
  ]

  -- Each round but the last takes at least eight bytes from the buffer.
  unfoldable pub parse_from_buffer : Buffer → Option (List Event × Buffer)
  parse_from_buffer b = rounds (suc (readable_bytes b)) b

  -- The last two lines of `SerializeToBuffer`: the checksum and the length in front of the content.
  unfoldable pub add_header : Buffer → Option Buffer
  add_header b = do
    b' ← prepend_int32 (bytes_checksum (content b)) b
    prepend_int32 (readable_bytes b' % 2 ^ 32) b'

  -- The message's own copy changes where it is compressed.
  unfoldable pub serialize_to_buffer : RpcMessage → Buffer → Option (RpcMessage × Buffer)
  serialize_to_buffer m b = do
    let m' = compress_message m
    let xs = w.serialize m'
    check (ltb (length xs) max_message_length)
    b1 ← ensure_writable_bytes (length xs + checksum_length + 4) b
    b2 ← add_header (has_written (length xs) (write_bytes xs b1))
    some (m', b2)

  -- A caller of `SerializeToBuffer`, with a new buffer: it goes on where no check fails. What it sends is
  -- kept as the message.
  unfoldable pub serialized {ℓ} : {A : Type ℓ} → RpcMessage → A → Option A
  serialized m x = serialize_to_buffer m empty >>= λ (m', b). some x
