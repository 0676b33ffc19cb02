-- ===== src/Rpc/Server.antt =====
-- protorpc/RpcServer.cc, protorpc/BuiltinService.cc: the server's side. Connections, ids and services
-- are numbers. Protocol buffers and the conversion to JSON enter as `Library`, the names of the error
-- codes as a parameter. A method that is called runs until it calls `done`, which may be at any later
-- time. Tracing, the durations that are measured and the counters' names are left out.
pub mod Counts
pub mod Accounts
pub mod Checks
pub mod Runs
pub mod Tests
use claire.Prelude.{
  ℕ, suc, ◌==◌, Bool, true, false, not, ◌&&◌, ◌||◌, List, [], ◌∷◌, ◌++◌, Option, none, some,
  if◌then◌else◌, ◌>>=◌, is_nil, same, look_up, put,
}
use claire.Rpc.Message.{
  RpcMessage, response_type, CompressType, compress_none, compress_snappy, ErrorCode,
  invalid_request, invalid_service, invalid_method, parse_fail,
}
use claire.Rpc.Codec.{Wire, serialized}
use claire.Rpc.Controller.{Controller, new_controller, has_failed, set_failed, error_text}

-- Of a service: its descriptor's name, its methods by their names, a request of a method from bytes,
-- with whether that succeeds, and from JSON; of a response, its bytes and its JSON; and what
-- the codec uses.
pub record Library (K M : Type 0) : Type 0 where
  pub full_name : ℕ → List ℕ
  pub find_method_by_name : ℕ → List ℕ → Option K
  pub parse_from_string : ℕ → K → List ℕ → Bool × M
  pub parse_from_json : ℕ → K → List ℕ → Option M
  pub serialize_as_string : M → List ℕ
  pub serialize_to_json : M → Option (List ℕ)
  pub wire : Wire

-- `Context`.
pub record Context : Type 0 where
  pub id : ℕ
  pub connection_id : ℕ

-- A method that runs: what `CallMethod` was given.
pub record Running (K M : Type 0) : Type 0 where
  pub context : Context
  pub controller : Controller
  pub service : ℕ
  pub method : K
  pub request : M

-- `HttpResponse::StatusCode`, as far as the server uses it.
pub data StatusCode : Type 0 where
  bad_request method_not_allowed internal_server_error : StatusCode

-- The texts of the server's complaints, and that of a controller.
pub data Complaint : Type 0 where
  only_get only_post invalid_pair invalid_service_name invalid_method_name : Complaint
  bad_json bad_response_json : Complaint
  failed_with : List ℕ → Complaint

-- What a browser gets: `OnError`, one of the two pages, or JSON.
pub data Reply : Type 0 where
  fails : StatusCode → Complaint → Reply
  forms_page : List ℕ → Reply
  methods_page : List ℕ → List ℕ → Reply
  json : List ℕ → Reply

-- `sent` is what was given to `SendByHttpConnectionId` of which connection, as a message; `replies` are
-- the HTTP responses.
pub record Server (K M : Type 0) : Type 0 where
  pub services : List (List ℕ × ℕ)
  pub total_request : ℕ
  pub total_response : ℕ
  pub failed_request : ℕ
  pub running : List (Running K M)
  pub running_json : List (Running K M)
  pub sent : List (ℕ × RpcMessage)
  pub replies : List (ℕ × Reply)

abbrev pub text_or_empty : Option (List ℕ) → List ℕ
text_or_empty none = []
text_or_empty (some xs) = xs

-- `FillContext`: the context, and the controller as it starts.
abbrev pub with_compress_type : Option CompressType → Controller → Controller
with_compress_type none t = t
with_compress_type (some k) t = record t { compress_type = k }

unfoldable pub fill_context : ℕ → RpcMessage → Context × Controller
fill_context connection m = (
  record { id = m.id; connection_id = connection },
  record (with_compress_type m.compress_type new_controller) { trace_id = m.trace_id },
)

abbrev pub is_compressed : CompressType → Bool
is_compressed compress_none = false
is_compressed compress_snappy = true

-- The response to a request, of a controller that has not failed and of one that has.
unfoldable pub good_response : Context → Controller → List ℕ → RpcMessage
good_response context t bytes = record {
  type = response_type;
  id = context.id;
  service = none;
  method = none;
  request = none;
  response = some bytes;
  error = none;
  reason = none;
  compress_type = if is_compressed t.compress_type then some t.compress_type else none;
  trace_id = t.trace_id;
}

unfoldable pub bad_response : (ErrorCode → List ℕ) → Context → Controller → RpcMessage
bad_response name context t = record {
  type = response_type;
  id = context.id;
  service = none;
  method = none;
  request = none;
  response = none;
  error = some t.error;
  reason = some (error_text name t);
  compress_type = none;
  trace_id = t.trace_id;
}

module _ {K M : Type 0} (lib : Library K M) (name : ErrorCode → List ℕ) where
  abbrev pub new_server : Server K M
  new_server = record {
    services = [];
    total_request = 0;
    total_response = 0;
    failed_request = 0;
    running = [];
    running_json = [];
    sent = [];
    replies = [];
  }

  unfoldable pub register_service : ℕ → Server K M → Server K M
  register_service service s = record s {
    services = put (lib.full_name service) service s.services;
  }

  -- The end of `OnRequestComplete`: the message is serialised, sent and counted.
  unfoldable pub send_response : ℕ → RpcMessage → Server K M → Option (Server K M)
  send_response connection m s =
      serialized lib.wire m
        (record s { sent = s.sent ++ (connection, m) ∷ []; total_response = suc s.total_response })

  -- `OnRequestComplete`, of a controller that has failed or not; a null response is used only of one
  -- that has not.
  unfoldable pub answer_request :
      Bool → Context → Controller → Option M → Server K M → Option (Server K M)
  answer_request true context t response s =
      send_response context.connection_id (bad_response name context t) s >>= λ s'.
      some (record s' { failed_request = suc s'.failed_request })
  answer_request false context t none s = none
  answer_request false context t (some response) s =
      send_response context.connection_id
        (good_response context t (lib.serialize_as_string response)) s

  unfoldable pub on_request_complete :
      Context → Controller → Option M → Server K M → Option (Server K M)
  on_request_complete context t response s = answer_request (has_failed t) context t response s

  -- `SetFailed` and the response to it.
  unfoldable pub fail_request : ErrorCode → Context → Controller → Server K M → Option (Server K M)
  fail_request e context t s = on_request_complete context (set_failed e t) none s

  -- The method is called with a request that could be parsed.
  unfoldable pub call_parsed :
      ℕ → K → Bool × M → Context → Controller → Server K M → Option (Server K M)
  call_parsed service method (false, request) context t s = fail_request parse_fail context t s
  call_parsed service method (true, request) context t s = some (record s {
    running =
        s.running
        ++ record {
          context = context;
          controller = t;
          service = service;
          method = method;
          request = request;
        }
          ∷ [];
  })

  unfoldable pub call_found :
      ℕ → Option K → List ℕ → Context → Controller → Server K M → Option (Server K M)
  call_found service none bytes context t s = fail_request invalid_method context t s
  call_found service (some method) bytes context t s =
      call_parsed service method (lib.parse_from_string service method bytes) context t s

  unfoldable pub call_service :
      Option ℕ → List ℕ → List ℕ → Context → Controller → Server K M → Option (Server K M)
  call_service none method bytes context t s = fail_request invalid_service context t s
  call_service (some service) method bytes context t s =
      call_found service (lib.find_method_by_name service method) bytes context t s

  unfoldable pub call_requested :
      Option (List ℕ) → RpcMessage → Context → Controller → Server K M → Option (Server K M)
  call_requested none m context t s = fail_request invalid_request context t s
  call_requested (some bytes) m context t s =
      call_service (look_up (text_or_empty m.service) s.services) (text_or_empty m.method) bytes
        context t s

  unfoldable pub on_request : ℕ → RpcMessage → Server K M → Option (Server K M)
  on_request connection m s =
      let (context, t) = fill_context connection m in
      call_requested m.request m context t (record s { total_request = suc s.total_request })

  -- `OnForm`, of a request that is a GET or not; the test of an incomplete pair is the source's.
  unfoldable pub form_page : List ℕ → List ℕ → List ℕ → Reply
  form_page host service method =
      if is_nil service && not (is_nil method) && (not (is_nil service) && is_nil method)
      then fails bad_request invalid_pair
      else (if is_nil service && is_nil method
          then forms_page host
          else methods_page service method)

  abbrev pub reply : ℕ → Reply → Server K M → Server K M
  reply connection x s = record s { replies = s.replies ++ (connection, x) ∷ [] }

  unfoldable pub on_form : Bool → ℕ → List ℕ → List ℕ → List ℕ → Server K M → Server K M
  on_form false connection host service method s =
      reply connection (fails method_not_allowed only_get) s
  on_form true connection host service method s = reply connection (form_page host service method) s

  -- `OnJson`, of a request that is a POST or not.
  unfoldable pub json_parsed : ℕ → ℕ → K → Option M → Server K M → Server K M
  json_parsed connection service method none s = reply connection (fails bad_request bad_json) s
  json_parsed connection service method (some request) s = record s {
    running_json =
        s.running_json
        ++ record {
          context = record { id = 0; connection_id = connection };
          controller = new_controller;
          service = service;
          method = method;
          request = request;
        }
          ∷ [];
  }

  unfoldable pub json_found : ℕ → ℕ → Option K → List ℕ → Server K M → Server K M
  json_found connection service none body s =
      reply connection (fails bad_request invalid_method_name) s
  json_found connection service (some method) body s =
      json_parsed connection service method (lib.parse_from_json service method body) s

  unfoldable pub json_service : ℕ → Option ℕ → List ℕ → List ℕ → Server K M → Server K M
  json_service connection none method body s =
      reply connection (fails bad_request invalid_service_name) s
  json_service connection (some service) method body s =
      json_found connection service (lib.find_method_by_name service method) body s

  unfoldable pub on_json : Bool → ℕ → List ℕ → List ℕ → List ℕ → Server K M → Server K M
  on_json false connection service method body s =
      reply connection (fails method_not_allowed only_post) s
  on_json true connection service method body s =
      json_service connection (look_up service s.services) method body s

  -- `OnJsonComplete`.
  unfoldable pub reply_json : ℕ → Option (List ℕ) → Server K M → Server K M
  reply_json connection (some text) s = reply connection (json text) s
  reply_json connection none s =
      reply connection (fails internal_server_error bad_response_json)
        (record s { failed_request = suc s.failed_request })

  unfoldable pub complete_json : Bool → ℕ → Controller → Option M → Server K M → Option (Server K M)
  complete_json true connection t response s = some (
      reply connection (fails internal_server_error (failed_with (error_text name t)))
        (record s { failed_request = suc s.failed_request }))
  complete_json false connection t none s = none
  complete_json false connection t (some response) s =
      some (reply_json connection (lib.serialize_to_json response) s)

  unfoldable pub on_json_complete : ℕ → Controller → Option M → Server K M → Option (Server K M)
  on_json_complete connection t response s =
      complete_json (has_failed t) connection t response
        (record s { total_request = suc s.total_request })

-- `OnHeaders`: a POST to `/__protorpc__` becomes a connection of RPC; `kRpcServicePath` is that text.
abbrev pub rpc_service_path : List ℕ
rpc_service_path =
    b'/' ∷ b'_' ∷ b'_' ∷ b'p' ∷ b'r' ∷ b'o' ∷ b't' ∷ b'o' ∷ b'r' ∷ b'p' ∷ b'c' ∷ b'_' ∷ b'_' ∷ []

unfoldable pub becomes_rpc : Bool → List ℕ → Bool
becomes_rpc is_post path = is_post && same path rpc_service_path

-- The service that is built in: the status of `HeartBeat`, the names of `Services` and the files of
-- `GetFileSet`, of a map of services with the built-in one among them.
unfoldable pub heart_beat_status : Bool → List ℕ
heart_beat_status true = b'O' ∷ b'k' ∷ []
heart_beat_status false = b'B' ∷ b'a' ∷ b'd' ∷ []

unfoldable pub service_names : (ℕ → List ℕ) → ℕ → List (List ℕ × ℕ) → List (List ℕ)
service_names full_name this [] = []
service_names full_name this ((k, service) ∷ m) =
    let rest = service_names full_name this m in
    if service == this then rest else full_name service ∷ rest

abbrev add_some {ℓ} : {F : Type ℓ} → (ℕ → F) → Option ℕ → List F → List F
add_some file none rest = rest
add_some file (some service) rest = file service ∷ rest

unfoldable pub file_set {ℓ} : {F : Type ℓ} → (ℕ → F) → List (List ℕ × ℕ) → List (List ℕ) → List F
file_set file m [] = []
file_set file m (n ∷ ns) = add_some file (look_up n m) (file_set file m ns)

-- The paths that the constructor registers, by the options.
pub record Options : Type 0 where
  pub disable_form : Bool
  pub disable_json : Bool
  pub disable_builtin_service : Bool

pub data Registered : Type 0 where
  form_path form_asset json_path builtin_service : Registered

unfoldable pub registered : Options → List Registered
registered o =
    (if not o.disable_form && not o.disable_json && not o.disable_builtin_service
      then form_path ∷ form_asset ∷ []
      else [])
    ++ (if not o.disable_json then json_path ∷ [] else [])
    ++ (if not o.disable_builtin_service then builtin_service ∷ [] else [])
