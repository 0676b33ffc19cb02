-- ===== src/Rpc/Codec/Send.antt =====
-- `SerializeToBuffer` into a new buffer, and the way of a message from one side to the other.
use claire.Prelude.{
  ℕ, ◌+◌, ◌%◌, ◌^◌, ◌≤◌, ◌<◌, ◌≡◌, ◌≢◌, refl, ap₂, ◌∙◌, ap, List, [], ◌∷◌, ◌++◌, Option, none, some,
  ltb, ◌>>=◌, arith, length, length-append, All, flatten, Returns, Returns->>=, Returns-map,
  Returns-check, Returns-and, lt→ltb, ◌⊎◌, inr,
}
use claire.Buffer.{
  Buffer, cheap_prepend, writable_bytes, content, readable_bytes, prependable_bytes, prepend_int32,
  be32, ensure_writable_bytes, write_bytes, has_written, empty,
}
use claire.Buffer.Parts.{Holds, Holds-length}
use claire.Buffer.Content.{
  prepend-Holds, written-Holds, written-prependable, ensure_writable_bytes-Holds,
  ensure_writable_bytes-prependable, empty-Holds,
}
use claire.Buffer.Ints.{length-be32}
use claire.Rpc.Message.{
  RpcMessage, CompressType, compress_none, compress_snappy, payload, set_payload,
  payload-set_payload, compress_type-set_payload, set_payload_again, set_payload_self,
}
use claire.Rpc.Codec.{
  Wire, Event, delivered, bad_length, bytes_checksum, add_header, compress_message, compress_as,
  uncompress_message, uncompress_as, store_unpacked, serialize_to_buffer, max_message_length,
  parse_from_buffer,
}
use claire.Rpc.Codec.Stream.{frame, Sendable, frames, deliveries, feed, feed-frames}
use claire.Rpc.Codec.Total.{parse_from_buffer_bad_length}

module _ (w : Wire) where
  -- Snappy gives the payload back, and never makes it empty.
  pub record Compressible (m : RpcMessage) : Type 0 where
    pub unpacks : w.snappy_uncompress (w.snappy_compress (payload m)) ≡ some (payload m)
    pub not_empty : 0 < length (w.snappy_compress (payload m))
    pub has_payload : (m.request ≢ none) ⊎ (m.response ≢ none)

  prepend_int32-Holds :
      (x : ℕ) (bs : List ℕ) (b : Buffer)
      → Holds bs b
      → 4 ≤ prependable_bytes b
      → Returns
          (prepend_int32 x b)
          (λ b'. Holds (be32 x ++ bs) b' × (prependable_bytes b' + 4 ≡ prependable_bytes b))
  unfolding prepend_int32
  prepend_int32-Holds x bs b h room =
      let e = length-be32 x in rw e at (prepend-Holds bs (be32 x) b h (omega (arith, e)))

  add_header-Holds :
      (xs : List ℕ) (b : Buffer)
      → Holds xs b
      → cheap_prepend ≤ prependable_bytes b
      → length xs + 4 < 2 ^ 32
      → Returns (add_header w b) (Holds (frame w xs))
  unfolding add_header frame
  add_header-Holds xs b h room small = rw h.holds (
      Returns->>= _ _ (prepend_int32 (bytes_checksum w xs) b) _
        (prepend_int32-Holds (bytes_checksum w xs) xs b h (omega arith))
        λ b' (h', room').
          let len : readable_bytes b' % 2 ^ 32 ≡ length xs + 4 = omega (
            arith,
            Holds-length b' h',
            length-append (be32 (bytes_checksum w xs)) xs,
            length-be32 (bytes_checksum w xs),
          ) in
          rw len (
            Returns-map _ _ (prepend_int32 (length xs + 4) b')
              (prepend_int32-Holds (length xs + 4) _ b' h' (omega (arith, room'))) (λ b2 p. p.0)))

  -- `SerializeToBuffer` on a buffer with the cheap prepend free: the buffer becomes one frame round
  -- what it held and the message, so the caller has to give it an empty one. No check fails where the
  -- message is shorter than the limit.
  pub serialize_to_buffer-Holds :
      (m : RpcMessage) (bs : List ℕ) (b : Buffer)
      → Holds bs b
      → cheap_prepend ≤ prependable_bytes b
      → length (w.serialize (compress_message w m)) < max_message_length
      → length bs < max_message_length
      → Returns (serialize_to_buffer w m b) (λ r.
        (r.0 ≡ compress_message w m)
        × Holds (frame w (bs ++ w.serialize (compress_message w m))) r.1)
  unfolding serialize_to_buffer
  serialize_to_buffer-Holds m bs b h room short held =
      let m' = compress_message w m in
      let xs = w.serialize m' in
      let n = length xs + 4 + 4 in
      Returns-check _ (ltb (length xs) max_message_length) _ (lt→ltb _ _ short) (
        Returns->>= _ _ (ensure_writable_bytes n b) _
          (Returns-and (λ b1. Holds bs b1 × (n ≤ writable_bytes b1))
            (λ b1. cheap_prepend ≤ prependable_bytes b1) (ensure_writable_bytes n b)
            (ensure_writable_bytes-Holds bs n b h)
            (λ b1 e. ensure_writable_bytes-prependable n b b1 room e))
          λ b1 ((h1, fit), room1).
            let b2 = has_written (length xs) (write_bytes xs b1) in
            Returns->>= _ _ (add_header w b2) _
              (add_header-Holds (bs ++ xs) b2 (written-Holds bs xs b1 h1 (omega arith))
                (omega (arith, written-prependable xs b1)) (omega (arith, length-append bs xs)))
              λ b3 h3. (refl, h3))

  -- What the receiver's `switch` does to what the sender's did.
  abbrev pub PacksAs : Option CompressType → RpcMessage → Type 0
  PacksAs (some compress_snappy) m = Compressible m
  PacksAs _ m = Unit {0}

  -- The message can be sent: it can be packed, is read back, and is short enough for the receiver.
  pub record CanSend (m : RpcMessage) : Type 0 where
    pub packs : PacksAs m.compress_type m
    pub sendable : Sendable w (compress_message w m)

  unpack-pack :
      (o : Option CompressType) (m : RpcMessage)
      → m.compress_type ≡ o
      → PacksAs o m
      → uncompress_message w (compress_as w o m) ≡ m
  unfolding uncompress_message
  unpack-pack none m e p = ground arith
  unpack-pack (some compress_none) m e p = ground arith
  unpack-pack (some compress_snappy) m e p =
      let xs = w.snappy_compress (payload m) in
      let m' = set_payload xs m in
      let as_set : uncompress_message w (compress_as w (some compress_snappy) m)
          ≡ uncompress_message w m' =
        rw (lt→ltb 0 (length xs) p.not_empty) refl in
      as_set
      ∙ ap (λ o. uncompress_as w o m') (compress_type-set_payload xs m ∙ e)
      ∙ ap (λ ys. store_unpacked w (w.snappy_uncompress ys) m') (payload-set_payload xs m)
      ∙ ap (λ o. store_unpacked w o m') p.unpacks
      ∙ set_payload_again xs (payload m) m
      ∙ set_payload_self m p.has_payload

  -- Snappy and back: the message as it was.
  pub uncompress-compress :
      (m : RpcMessage) → PacksAs m.compress_type m → uncompress_message w (compress_message w m) ≡ m
  unfolding compress_message
  uncompress-compress m p = unpack-pack m.compress_type m refl p

  -- Each message into a buffer of its own, as the callers of `SerializeToBuffer` do.
  pub send_all : List RpcMessage → Option (List ℕ)
  send_all [] = some []
  send_all (m ∷ ms) = do
    (_, b) ← serialize_to_buffer w m empty
    xs ← send_all ms
    some (content b ++ xs)

  abbrev pub delivered_all : List RpcMessage → List Event
  delivered_all [] = []
  delivered_all (m ∷ ms) = delivered m ∷ delivered_all ms

  abbrev compressed : List RpcMessage → List RpcMessage
  compressed [] = []
  compressed (m ∷ ms) = compress_message w m ∷ compressed ms

  compressed-Sendable : (ms : List RpcMessage) → All CanSend ms → All (Sendable w) (compressed ms)
  compressed-Sendable [] h = tt
  compressed-Sendable (m ∷ ms) h = (h.0.sendable, compressed-Sendable ms h.1)

  deliveries-compressed :
      (ms : List RpcMessage) → All CanSend ms → deliveries w (compressed ms) ≡ delivered_all ms
  deliveries-compressed [] h = refl
  deliveries-compressed (m ∷ ms) h =
      ap₂ (λ x xs. delivered x ∷ xs) (uncompress-compress m h.0.packs)
        (deliveries-compressed ms h.1)

  send_all-frames :
      (ms : List RpcMessage)
      → All CanSend ms
      → Returns (send_all ms) (λ xs. xs ≡ frames w (compressed ms))
  unfolding send_all
  send_all-frames [] h = refl
  send_all-frames (m ∷ ms) h =
      Returns->>= _ _ (serialize_to_buffer w m empty) _
        (serialize_to_buffer-Holds m [] empty empty-Holds
          (unfold empty prependable_bytes in omega arith) (omega (arith, h.0.sendable.short))
          (omega arith))
        λ (m', b) (_, hb).
          Returns->>= _ _ (send_all ms) _ (send_all-frames ms h.1)
            λ xs e. ap₂ (λ ys zs. ys ++ zs) hb.holds e

  -- From one side's codec to the other's, for messages that can be sent: each has a frame (its bytes
  -- with the checksum) within the receiver's limit, is read back by the parser from its serialised
  -- bytes, and where its type is snappy it has a payload, which snappy packs into some bytes and
  -- unpacks again. These are all serialised with no check failing, and however the network cuts the
  -- bytes into pieces, the receiver, whose buffer was empty, delivers the same messages in the same
  -- order, compressed payloads restored, and is left with an empty buffer.
  pub feed-send_all :
      (cut : List ℕ → List (List ℕ)) (ms : List RpcMessage) (b : Buffer)
      → ((xs : List ℕ) → flatten (cut xs) ≡ xs)
      → All CanSend ms
      → Holds [] b
      → Returns
          (do xs ← send_all ms; feed w (cut xs) b)
          (λ r. (r.0 ≡ delivered_all ms) × Holds [] r.1)
  feed-send_all cut ms b cuts h hb = Returns->>= _ _ (send_all ms) _ (send_all-frames ms h) λ xs e.
      rw (deliveries-compressed ms h) at
        (feed-frames w (cut xs) (compressed ms) b (compressed-Sendable ms h) (cuts xs ∙ e) hb)

  -- A message of one to three bytes below the sender's limit passes the sender's check and is refused
  -- by the receiver: the checksum's four bytes count for the one and not for the other.
  pub parse_from_buffer-serialize_to_buffer_too_long :
      (m : RpcMessage) (b : Buffer)
      → Holds [] b
      → cheap_prepend ≤ prependable_bytes b
      → length (w.serialize (compress_message w m)) < max_message_length
      → max_message_length < length (w.serialize (compress_message w m)) + 4
      → Returns
          (do (_, b') ← serialize_to_buffer w m b; parse_from_buffer w b')
          (λ r. r.0 ≡ bad_length ∷ [])
  parse_from_buffer-serialize_to_buffer_too_long m b h room fits long =
      let xs = w.serialize (compress_message w m) in
      Returns->>= _ _ (serialize_to_buffer w m b) _
        (serialize_to_buffer-Holds m [] b h room fits (omega arith))
        λ (m', b') (_, h').
          rw
            (parse_from_buffer_bad_length w (length xs + 4) (be32 (bytes_checksum w xs) ++ xs) b'
              (omega arith) (inr long) (unfold frame in h'))
            refl
