-- ===== src/Rpc/Codec/Serialized.antt =====
-- The callers of `SerializeToBuffer`, in RpcChannel.cc and RpcServer.cc: when its check does not fail.
use claire.Prelude.{
  ℕ, ◌<◌, ◌≡◌, refl, ap, Option, none, some, List, [], ◌∷◌, ◌>>=◌, arith, length, flatten,
  IfReturns, Returns, subst,
}
use claire.Buffer.{Buffer, empty, prependable_bytes}
use claire.Buffer.Parts.{Holds}
use claire.Buffer.Content.{empty-Holds}
use claire.Rpc.Message.{RpcMessage}
use claire.Rpc.Codec.{
  Wire, Event, delivered, compress_message, serialize_to_buffer, serialized, max_message_length,
}
use claire.Rpc.Codec.Stream.{feed}
use claire.Rpc.Codec.Send.{CanSend, serialize_to_buffer-Holds, send_all, feed-send_all}

module _ (w : Wire) where
  -- The message is shorter than `kMaxMessageLength`.
  abbrev pub Fits : RpcMessage → Type 0
  Fits m = length (w.serialize (compress_message w m)) < max_message_length

  pub CanSend-Fits : (m : RpcMessage) → CanSend w m → Fits m
  CanSend-Fits m h = omega (arith, h.sendable.short)

  pub serialized_there {ℓ} :
      {A : Type ℓ} (m : RpcMessage) (x : A) → Fits m → serialized w m x ≡ some x
  unfolding serialized
  serialized_there m x fits = go _ (serialize_to_buffer w m empty) (
      serialize_to_buffer-Holds w m [] empty empty-Holds
        (unfold empty prependable_bytes in omega arith) fits (omega arith))
    where
      go :
          (P : RpcMessage × Buffer → Type 0) (o : Option (RpcMessage × Buffer))
          → Returns o P
          → (o >>= λ (m', b). some x) ≡ some x
      go P none h = elim h [ ]
      go P (some (m', b)) h = refl

  pub serialized_keeps {ℓ} :
      {A : Type ℓ} (m : RpcMessage) (x : A) (P : A → Type 0) → P x → IfReturns (serialized w m x) P
  unfolding serialized
  serialized_keeps m x P h = go (serialize_to_buffer w m empty)
    where
      go : (o : Option (RpcMessage × Buffer)) → IfReturns (o >>= λ (m', b). some x) P
      go none = tt
      go (some (m', b)) = h

-- The message that is delivered, where it is one.
abbrev pub arrived : List Event → Option RpcMessage
arrived (delivered m ∷ []) = some m
arrived _ = none

-- A message's way from one side's codec to the other's, whose buffer is empty; the network cuts its bytes
-- into pieces.
unfoldable pub carry : Wire → Wire → (List ℕ → List (List ℕ)) → RpcMessage → Option RpcMessage
carry w w' cut m = (send_all w (m ∷ []) >>= λ xs. feed w' (cut xs) empty) >>= λ (es, b). arrived es

-- The other side, which has the same format, gets the message.
pub carry_lem :
    (w w' : Wire) (cut : List ℕ → List (List ℕ)) (m : RpcMessage)
    → w ≡ w'
    → ((xs : List ℕ) → flatten (cut xs) ≡ xs)
    → CanSend w m
    → carry w w' cut m ≡ some m
unfolding carry
carry_lem w w' cut m same cuts h =
    subst
      (λ v.
        ((send_all w (m ∷ []) >>= λ xs. feed v (cut xs) empty) >>= λ (es, b). arrived es) ≡ some m)
      same
      (go (send_all w (m ∷ []) >>= λ xs. feed w (cut xs) empty)
        (feed-send_all w cut (m ∷ []) empty cuts (h, tt) empty-Holds))
  where
    go :
        (o : Option (List Event × Buffer))
        → Returns o (λ r. (r.0 ≡ delivered m ∷ []) × Holds [] r.1)
        → (o >>= λ (es, b). arrived es) ≡ some m
    go none r = elim r [ ]
    go (some (es, b)) r = ap arrived r.0
