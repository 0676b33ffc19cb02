-- ===== src/Rpc/Message.antt =====
-- The types that protoc generates from protorpc/rpcmessage.proto. A string or bytes field is a list
-- of bytes; an optional field that is not set is `none`.
use claire.Prelude.{ℕ, ◌≡◌, ◌≢◌, ◌⊎◌, List, [], Option, none, some, arith}

pub data MessageType : Type 0 where
  request_type response_type : MessageType

pub data CompressType : Type 0 where
  compress_none compress_snappy : CompressType

pub data ErrorCode : Type 0 where
  success invalid_checksum invalid_service invalid_method invalid_request : ErrorCode
  invalid_response auth_fail uncompress_fail parse_fail invalid_length : ErrorCode
  invalid_type internal_error request_timeout unknown_error : ErrorCode

pub record TraceId : Type 0 where
  pub trace : ℕ
  pub span : ℕ
  pub parent_span : Option ℕ

pub record RpcMessage : Type 0 where
  pub type : MessageType
  pub id : ℕ
  pub service : Option (List ℕ)
  pub method : Option (List ℕ)
  pub request : Option (List ℕ)
  pub response : Option (List ℕ)
  pub error : Option ErrorCode
  pub reason : Option (List ℕ)
  pub compress_type : Option CompressType
  pub trace_id : Option TraceId

-- `has_request() ? mutable_request() : mutable_response()`: the bytes that are compressed.
abbrev pub choose_payload : Option (List ℕ) → Option (List ℕ) → List ℕ
choose_payload (some xs) r = xs
choose_payload none (some xs) = xs
choose_payload none none = []

unfoldable pub payload : RpcMessage → List ℕ
payload m = choose_payload m.request m.response

abbrev pub put_payload : Option (List ℕ) → List ℕ → RpcMessage → RpcMessage
put_payload (some xs) ys m = record m { request = some ys }
put_payload none ys m = record m { response = some ys }

-- What a write through that pointer makes of the message; `mutable_response()` sets the field.
unfoldable pub set_payload : List ℕ → RpcMessage → RpcMessage
set_payload ys m = put_payload m.request ys m

pub payload-set_payload : (xs : List ℕ) (m : RpcMessage) → payload (set_payload xs m) ≡ xs
unfolding payload set_payload
payload-set_payload xs m = ground arith

pub compress_type-set_payload :
    (xs : List ℕ) (m : RpcMessage) → (set_payload xs m).compress_type ≡ m.compress_type
unfolding set_payload
compress_type-set_payload xs m = ground arith

pub set_payload_again :
    (xs ys : List ℕ) (m : RpcMessage) → set_payload ys (set_payload xs m) ≡ set_payload ys m
unfolding set_payload
set_payload_again xs ys m = ground arith

pub set_payload_self :
    (m : RpcMessage) → (m.request ≢ none) ⊎ (m.response ≢ none) → set_payload (payload m) m ≡ m
unfolding payload set_payload
set_payload_self m h = ground arith
