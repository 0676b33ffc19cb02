-- ===== src/Rpc/Codec/Tests.antt =====
-- Tests of the codec over a small wire format, and its theorems at concrete inputs.
use claire.Prelude.{
  ap, ◌^◌, ◌≤◌, ◌∙◌, take-append-drop, ℕ, ◌+◌, ◌≡◌, inl, refl, List, [], ◌∷◌, ◌++◌, Option, some,
  none, arith, Returns, ◌>>=◌, take, drop, length, flatten, append-nil, replicate, length-replicate,
  ◌-◌, All,
}
use claire.Buffer.{Buffer, content, empty, prependable_bytes, be32}
use claire.Buffer.Parts.{Holds}
use claire.Buffer.Content.{empty-Holds}
use claire.Rpc.Message.{
  RpcMessage, request_type, compress_snappy, invalid_checksum, payload, set_payload, choose_payload,
}
use claire.Rpc.Codec.{
  Wire, bad_length, bad_message, bytes_checksum, compress_message, parse_from_buffer,
  serialize_to_buffer, max_message_length,
}
use claire.Rpc.Codec.Stream.{feed, feed-frames, frames, deliveries, Sendable}
use claire.Rpc.Codec.Total.{parse_from_buffer_total, parse_from_buffer_bad_checksum}
use claire.Rpc.Codec.Send.{
  CanSend, send_all, feed-send_all, delivered_all, parse_from_buffer-serialize_to_buffer_too_long,
}

-- A request with this id and these bytes, compressed.
abbrev ping : ℕ → List ℕ → RpcMessage
ping i xs = record {
  type = request_type;
  id = i;
  service = none;
  method = none;
  request = some xs;
  response = none;
  error = none;
  reason = none;
  compress_type = some compress_snappy;
  trace_id = none;
}

abbrev sum : List ℕ → ℕ
sum [] = 0
sum (x ∷ xs) = x + sum xs

abbrev decode : List ℕ → Option RpcMessage
decode [] = none
decode (i ∷ xs) = some (ping i xs)

abbrev unpack : List ℕ → Option (List ℕ)
unpack [] = none
unpack (x ∷ xs) = some xs

-- Writes the id and the payload; "compression" puts a byte in front.
abbrev wire : Wire
wire = record {
  adler32 = λ start xs. start + sum xs;
  serialize = λ m. m.id ∷ choose_payload m.request m.response;
  parse_from_array = decode;
  snappy_compress = λ xs. 0 ∷ xs;
  snappy_uncompress = unpack;
}

abbrev two_pings : List RpcMessage
two_pings = ping 1 (10 ∷ 20 ∷ []) ∷ ping 2 [] ∷ []

pings-Sendable : All (Sendable wire) two_pings
pings-Sendable = (
  record { reads_back = refl; short = omega arith },
  (record { reads_back = refl; short = omega arith }, tt),
)

-- Cut after three bytes and after seven more.
abbrev cut : List ℕ → List (List ℕ)
cut xs = take 3 xs ∷ take 7 (drop 3 xs) ∷ drop 7 (drop 3 xs) ∷ []

cut-flatten : (xs : List ℕ) → flatten (cut xs) ≡ xs
cut-flatten xs =
    ap (λ ys. take 3 xs ++ ys)
      (ap (λ ys. take 7 (drop 3 xs) ++ ys) (append-nil (drop 7 (drop 3 xs)))
        ∙ take-append-drop 7 (drop 3 xs))
    ∙ take-append-drop 3 xs

feed-frames_example :
    Returns
      (feed wire (cut (frames wire two_pings)) empty)
      (λ r. (r.0 ≡ deliveries wire two_pings) × Holds [] r.1)
feed-frames_example =
    feed-frames wire (cut (frames wire two_pings)) two_pings empty pings-Sendable
      (cut-flatten (frames wire two_pings)) empty-Holds

pings-CanSend : All (CanSend wire) two_pings
unfolding compress_message payload set_payload
pings-CanSend = (
  record {
    packs = record { unpacks = refl; not_empty = omega arith; has_payload = inl (cc) };
    sendable = record { reads_back = refl; short = omega arith };
  },
  (
    record {
      packs = record { unpacks = refl; not_empty = omega arith; has_payload = inl (cc) };
      sendable = record { reads_back = refl; short = omega arith };
    },
    tt,
  ),
)

feed-send_all_example :
    Returns
      (do xs ← send_all wire two_pings; feed wire (cut xs) empty)
      (λ r. (r.0 ≡ delivered_all wire two_pings) × Holds [] r.1)
feed-send_all_example = feed-send_all wire cut two_pings empty cut-flatten pings-CanSend empty-Holds

-- A buffer that holds these bytes behind the cheap prepend.
abbrev holding : List ℕ → Buffer
holding xs = record { bytes = replicate 8 0 ++ xs; reader_index = 8; writer_index = 8 + length xs }

abbrev noise : List ℕ
noise = 255 ∷ 255 ∷ 255 ∷ 0 ∷ 1 ∷ 2 ∷ []

noise-Holds : Holds noise (holding noise)
unfolding content
noise-Holds = record { valid = omega arith; holds = refl }

parse_from_buffer_total_example :
    Returns (parse_from_buffer wire (holding noise)) (λ r. (cs : List ℕ) × Holds cs r.1)
parse_from_buffer_total_example = parse_from_buffer_total wire noise (holding noise) noise-Holds

abbrev negative : List ℕ
negative = be32 (2 ^ 32 - 1) ++ 7 ∷ []

negative-Holds : Holds negative (holding negative)
unfolding content be32
negative-Holds = record { valid = omega arith; holds = refl }

abbrev corrupt : List ℕ
corrupt = be32 6 ++ (be32 999 ++ (1 ∷ 0 ∷ [] ++ 5 ∷ []))

corrupt-Holds : Holds corrupt (holding corrupt)
unfolding content be32
corrupt-Holds = record { valid = omega arith; holds = refl }

parse_from_buffer_bad_checksum_example :
    Returns
      (parse_from_buffer wire (holding corrupt))
      (λ r. (r.0 ≡ bad_message invalid_checksum ∷ []) × Holds (1 ∷ 0 ∷ 5 ∷ []) r.1)
parse_from_buffer_bad_checksum_example =
    parse_from_buffer_bad_checksum wire 999 (1 ∷ 0 ∷ []) (5 ∷ []) (holding corrupt) (omega arith)
      (omega arith) (unfold bytes_checksum in omega arith) corrupt-Holds

empty-room : 8 ≤ prependable_bytes empty
unfolding empty prependable_bytes
empty-room = omega arith

zeros : ℕ → List ℕ
zeros n = replicate n 0

length-zeros : (n : ℕ) → length (zeros n) ≡ n
unfolding zeros
length-zeros n = length-replicate n 0

-- A wire format whose messages have 64 MiB less two bytes.
abbrev wide : Wire
wide = record wire { serialize = λ m. zeros (max_message_length - 2) }

parse_from_buffer-serialize_to_buffer_too_long_example :
    Returns
      (do (_, b) ← serialize_to_buffer wide (ping 1 []) empty; parse_from_buffer wide b)
      (λ r. r.0 ≡ bad_length ∷ [])
parse_from_buffer-serialize_to_buffer_too_long_example =
    parse_from_buffer-serialize_to_buffer_too_long wide (ping 1 []) empty empty-Holds empty-room
      (omega (arith, length-zeros (max_message_length - 2)))
      (omega (arith, length-zeros (max_message_length - 2)))
