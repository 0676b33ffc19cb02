-- ===== src/Rpc/Channel/Tests.antt =====
-- Tests of the channel, and its theorems at concrete inputs. A message is its bytes.
use claire.Prelude.{
  ℕ, arith, ◌≡◌, refl, Bool, true, false, List, [], ◌∷◌, none, some, ◌==◌, count, Returns, not, ◌+◌,
  Option, if◌then◌else◌,
}
use claire.LoadBalancer.RoundRobin.{
  RoundRobin, new_round_robin, round_robin, add_backend, release_backend, remove, next_backend,
  backend_at,
}
use claire.Rpc.Message.{
  RpcMessage, MessageType, request_type, response_type, ErrorCode, auth_fail, invalid_request,
  compress_none, choose_payload,
}
use claire.Buffer.{
  ensure_writable_bytes, writable_bytes, has_written, write_bytes, prepend_int32, prepend, be32,
  content, readable_bytes, prependable_bytes, peek, empty,
}
use claire.Rpc.Codec.{
  Wire, serialized, serialize_to_buffer, compress_message, add_header, bytes_checksum,
}
use claire.Rpc.Controller.{new_controller, set_failed}
use claire.Rpc.Channel.{
  Reflection, Method, user, OutstandingCall, Channel, new_channel, make_request, register_request,
  start_call, get_request_timeout, add_pending_request, send_in_loop, hand_over, call_method,
  run_posted, run_next, on_disconnected, on_headers, on_heart_beat_response, run_callback,
  note_error, complete, finish, take_call, respond, on_response, on_response_of,
  dispatch_pending_request, send_all, without,
}
use claire.Rpc.Channel.Answers.{
  Operation, calls, gets_headers, responds, fires, step, answered, Sound,
}
use claire.Rpc.Channel.Runs.{run, fire_all, made_all, run_answers}
use claire.Rpc.Channel.Checks.{Calm, channel_total}
use claire.Rpc.Channel.Fitting.{Fitting}

-- A message whose first byte is 1 is "Ok"; one that starts with 0 cannot be parsed.
abbrev pub starts_with_one : List ℕ → Bool
starts_with_one [] = false
starts_with_one (x ∷ xs) = x == 1

abbrev pub parse_bytes : ℕ → List ℕ → Bool × List ℕ
parse_bytes p [] = (true, [])
parse_bytes p (x ∷ xs) = (not (x == 0), x ∷ xs)

abbrev pub echo : Method
echo = record { service = 69 ∷ []; name = 101 ∷ [] }

abbrev pub response_to : ℕ → List ℕ → RpcMessage
response_to id xs = record {
  type = response_type;
  id = id;
  service = none;
  method = none;
  request = none;
  response = some xs;
  error = none;
  reason = none;
  compress_type = none;
  trace_id = none;
}

-- The serialised form of what the tests send: a request to `echo`, a response, or an error.
abbrev kind_of : MessageType → Option ErrorCode → ℕ
kind_of request_type e = 0
kind_of response_type none = 1
kind_of response_type (some e) = 2

abbrev sum : List ℕ → ℕ
sum [] = 0
sum (x ∷ xs) = x + sum xs

abbrev message_of_kind : ℕ → ℕ → List ℕ → RpcMessage
message_of_kind kind id xs =
    if kind == 0
    then record (make_request echo xs id) { compress_type = some compress_none }
    else (if kind == 1 then response_to id xs else record (response_to id xs) {
      response = none;
      error = some auth_fail;
      reason = some [];
    })

abbrev decode : List ℕ → Option RpcMessage
decode [] = none
decode (kind ∷ []) = none
decode (kind ∷ id ∷ xs) = some (message_of_kind kind id xs)

abbrev pub plain_wire : Wire
plain_wire = record {
  adler32 = λ start xs. start + sum xs;
  serialize = λ m. kind_of m.type m.error ∷ m.id ∷ choose_payload m.request m.response;
  parse_from_array = decode;
  snappy_compress = λ xs. xs;
  snappy_uncompress = λ xs. some xs;
}

abbrev pub bytes_reflection : Reflection ℕ (List ℕ)
bytes_reflection = record {
  parse_from_string = parse_bytes;
  is_ok = starts_with_one;
  heart_beat_response = 0;
  method_timeout = λ m. none;
  service_timeout = λ m. 1000;
  wire = plain_wire;
}

-- Two calls before anything is connected, then a connection; the second is answered.
abbrev two_calls : List (Operation ℕ)
two_calls =
    calls true echo new_controller (7 ∷ []) 5 1
    ∷ calls false echo new_controller (8 ∷ []) 5 2
    ∷ gets_headers true 80
    ∷ responds 80 (response_to 2 (9 ∷ []))
    ∷ []

abbrev waiting_call : OutstandingCall ℕ
waiting_call = record {
  response_prototype = some 5;
  callback = user 1;
  controller = new_controller;
}

abbrev after_two_calls : Channel RoundRobin ℕ (List ℕ)
after_two_calls = record {
  next_id = 3;
  balancer = record { backends = 80 ∷ []; current = 1 };
  connections = 80 ∷ [];
  connected = true;
  outstandings = (1, waiting_call) ∷ [];
  pending_requests = [];
  timers = 1 ∷ [];
  posted = [];
  sent =
      (80, record (make_request echo (7 ∷ []) 1) { compress_type = some compress_none })
      ∷ (80, record (make_request echo (8 ∷ []) 2) { compress_type = some compress_none })
      ∷ [];
  shut_down = [];
  answers = record { callback = 2; controller = new_controller; response = some (9 ∷ []) } ∷ [];
}

run-two_calls :
    run round_robin bytes_reflection two_calls (new_channel new_round_robin) ≡ some after_two_calls
unfolding run step call_method hand_over add_pending_request on_headers serialized
    serialize_to_buffer compress_message ensure_writable_bytes writable_bytes has_written
    write_bytes add_header prepend_int32 prepend be32 bytes_checksum content readable_bytes
    prependable_bytes peek empty register_request start_call get_request_timeout
    dispatch_pending_request send_all send_in_loop next_backend backend_at round_robin add_backend
    on_response on_response_of respond finish complete note_error run_callback take_call without
    make_request
run-two_calls = refl

run_answers_example :
    Returns (fire_all round_robin bytes_reflection after_two_calls.timers after_two_calls) (λ c'.
      ((n : ℕ) → count n (answered c'.answers) ≡ made_all round_robin bytes_reflection n two_calls)
      × (c'.outstandings ≡ []))
unfolding round_robin
run_answers_example =
    run_answers round_robin bytes_reflection new_round_robin two_calls after_two_calls tt refl
      run-two_calls

after_two_calls-Sound : Sound round_robin bytes_reflection after_two_calls
unfolding round_robin
after_two_calls-Sound =
    ((refl, (refl, tt), (omega arith, tt), tt, (λ x h. h), refl), ((λ e. cc), tt))

channel_total_example : Returns (step round_robin bytes_reflection (fires 1) after_two_calls) (λ c'.
    (Calm round_robin bytes_reflection c' × Sound round_robin bytes_reflection c')
    × Fitting round_robin bytes_reflection c')
unfolding round_robin
channel_total_example =
    channel_total round_robin bytes_reflection (fires 1) after_two_calls after_two_calls-Sound
      ((λ x h. h), ((λ e. cc), tt)) (tt, tt) refl

-- The channel with a task that another thread has posted.
abbrev with_posted : Channel RoundRobin ℕ (List ℕ)
with_posted = record after_two_calls { posted = make_request echo (7 ∷ []) 1 ∷ [] }

-- Its only connection goes down before the task runs: the load balancer is asked for a backend of none.
posted_late_test :
    run_posted round_robin bytes_reflection
      (on_disconnected round_robin bytes_reflection 80 with_posted)
    ≡ none
unfolding run_posted run_next send_in_loop on_disconnected next_backend round_robin release_backend
    remove without
posted_late_test = refl

-- The only backend fails its heartbeat, and is released while the channel stays connected: the next call
-- asks for a backend of none.
unhealthy_test :
    call_method round_robin bytes_reflection true echo new_controller (7 ∷ []) (some 5) 3 (
      on_heart_beat_response round_robin bytes_reflection 80 new_controller
        (some (0 ∷ []))
        after_two_calls)
    ≡ none
unfolding call_method hand_over serialized serialize_to_buffer compress_message
    ensure_writable_bytes writable_bytes has_written write_bytes add_header prepend_int32 prepend
    be32 bytes_checksum content readable_bytes prependable_bytes peek empty register_request
    start_call get_request_timeout send_in_loop on_heart_beat_response next_backend round_robin
    release_backend remove
unhealthy_test = refl

-- A request without bytes: the controller has failed, and nothing waits for the callback.
empty_request_test :
    call_method round_robin bytes_reflection true echo new_controller [] (some 5) 3 after_two_calls
    ≡ some (set_failed invalid_request new_controller, record after_two_calls { next_id = 4 })
unfolding call_method
empty_request_test = refl

-- A channel that is connected to one server, before its first call.
abbrev pub ready_channel : Channel RoundRobin ℕ (List ℕ)
ready_channel =
    record (new_channel {P = ℕ} {M = List ℕ} (record { backends = 80 ∷ []; current = 0 })) {
      connections = 80 ∷ [];
      connected = true;
    }
