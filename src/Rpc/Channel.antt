-- ===== src/Rpc/Channel.antt =====
-- protorpc/RpcChannel.cc: the client's side. Ids, addresses and the user's callbacks are numbers. The
-- load balancer is any that keeps the promises of `LoadBalancer`. Protocol buffers enter as `Reflection`.
-- A call is made at once: that its timer could fire between `RunAfter` and the registration, on another
-- thread, is left out, as is tracing. A map is a list of its entries in the order in which it is gone
-- through; no theorem depends on that order. A callback that runs last in its function is written into
-- the log `answers`; what it then calls of the channel is a later operation.

pub mod Invariant
pub mod Answers
pub mod Runs
pub mod Fitting
pub mod Checks
pub mod Tests
use claire.Prelude.{
  ℕ, suc, ◌+◌, ◌%◌, ◌^◌, ltb, ◌≡◌, Bool, true, false, not, ◌&&◌, ◌||◌, List, [], ◌∷◌, ◌++◌, Option,
  none, some, ◌==◌, if◌then◌else◌, ◌>>=◌, ◌>>◌, check, has, find, erase_key, keys, insert_new,
  assign, is_nil,
}
use claire.LoadBalancer.{LoadBalancer}
use claire.Rpc.Message.{
  RpcMessage, MessageType, request_type, response_type, CompressType, compress_none, ErrorCode,
  success, invalid_request, parse_fail, request_timeout,
}
use claire.Rpc.Codec.{Wire, serialized}
use claire.Rpc.Controller.{
  Controller, new_controller, has_failed, is_success, set_failed, set_failed_with,
}

-- The method that is called.
pub record Method : Type 0 where
  pub service : List ℕ
  pub name : List ℕ

-- `ParseFromString` on a new message of a prototype: whether it succeeds, and the message in any case;
-- and whether a message is a `HeartBeatResponse` with the status "Ok"; the options of a method and of its
-- service, an `int64_t` as its 64 bits; and what the codec uses.
pub record Reflection (P M : Type 0) : Type 0 where
  pub parse_from_string : P → List ℕ → Bool × M
  pub is_ok : M → Bool
  pub heart_beat_response : P
  pub method_timeout : Method → Option ℕ
  pub service_timeout : Method → ℕ
  pub wire : Wire

-- `done`: a callback of the user, or `OnHeartBeatResponse` for an address.
pub data Callback : Type 0 where
  user : ℕ → Callback
  heart_beat : ℕ → Callback

-- `OutstandingCall`; its timer is that of its id.
pub record OutstandingCall (P : Type 0) : Type 0 where
  pub response_prototype : Option P
  pub callback : Callback
  pub controller : Controller

-- How a callback of the user was called.
pub record Answer (M : Type 0) : Type 0 where
  pub callback : ℕ
  pub controller : Controller
  pub response : Option M

-- `timers` are the ids of the calls whose timers run, `posted` the tasks of `SendInLoop`, `sent` what
-- went to which address, and `shut_down` the connections that were shut down.
pub record Channel (B P M : Type 0) : Type 0 where
  pub next_id : ℕ
  pub balancer : B
  pub connections : List ℕ
  pub connected : Bool
  pub outstandings : List (ℕ × OutstandingCall P)
  pub pending_requests : List (ℕ × RpcMessage)
  pub timers : List ℕ
  pub posted : List RpcMessage
  pub sent : List (ℕ × RpcMessage)
  pub shut_down : List ℕ
  pub answers : List (Answer M)

abbrev pub new_channel : {B P M : Type 0} → B → Channel B P M
new_channel b = record {
  next_id = 1;
  balancer = b;
  connections = [];
  connected = false;
  outstandings = [];
  pending_requests = [];
  timers = [];
  posted = [];
  sent = [];
  shut_down = [];
  answers = [];
}

-- `std::map::erase` and `Cancel`.
unfoldable pub without : ℕ → List ℕ → List ℕ
without a [] = []
without a (x ∷ xs) = let rest = without a xs in if x == a then rest else x ∷ rest

abbrev pub with_new : ℕ → List ℕ → List ℕ
with_new a xs = if has a xs then xs else xs ++ a ∷ []

unfoldable pub make_request : Method → List ℕ → ℕ → RpcMessage
make_request m bytes id = record {
  type = request_type;
  id = id;
  service = some m.service;
  method = some m.name;
  request = some bytes;
  response = none;
  error = none;
  reason = none;
  compress_type = none;
  trace_id = none;
}

-- `static_cast<int>` of an `int64_t` is greater than 0.
abbrev pub is_positive_int : ℕ → Bool
is_positive_int x = ltb 0 (x % 2 ^ 32) && ltb (x % 2 ^ 32) (2 ^ 31)

abbrev pub timeout_of : Option ℕ → ℕ → ℕ
timeout_of (some x) y = x
timeout_of none y = y

module _ {B P M : Type 0} (l : LoadBalancer B) (r : Reflection P M) where
  unfoldable pub get_request_timeout : Method → ℕ
  get_request_timeout method = timeout_of (r.method_timeout method) (r.service_timeout method)

  -- A call's timer, and its place in the map.
  unfoldable pub start_call : OutstandingCall P → ℕ → Channel B P M → Channel B P M
  start_call call id c = record c {
    outstandings = assign id call c.outstandings;
    timers = c.timers ++ id ∷ [];
  }

  -- `RegisterRequest` of the id that `MakeRequest` has taken.
  unfoldable pub register_request :
      Method → OutstandingCall P → ℕ → Channel B P M → Option (Channel B P M)
  register_request method call id c =
      check (is_positive_int (get_request_timeout method)) >> some (start_call call id c)

  unfoldable pub add_pending_request : RpcMessage → Channel B P M → Channel B P M
  add_pending_request m c = record c { pending_requests = insert_new m.id m c.pending_requests }

  unfoldable pub send_in_loop : RpcMessage → Channel B P M → Option (Channel B P M)
  send_in_loop m c = l.next_backend c.balancer >>= λ (address, b).
      check (has address c.connections)
      >> serialized r.wire m (record c { balancer = b; sent = c.sent ++ (address, m) ∷ [] })

  unfoldable pub send_all : List (ℕ × RpcMessage) → Channel B P M → Option (Channel B P M)
  send_all [] c = some c
  send_all ((id, m) ∷ ms) c = send_in_loop m c >>= λ c'. send_all ms c'

  unfoldable pub dispatch_pending_request : Channel B P M → Option (Channel B P M)
  dispatch_pending_request c = send_all c.pending_requests (record c { pending_requests = [] })

  -- The end of `CallMethod`: pending where nothing is connected, sent in the loop, or posted to it.
  unfoldable pub hand_over : Bool → Bool → RpcMessage → Channel B P M → Option (Channel B P M)
  hand_over false in_loop m c = some (add_pending_request m c)
  hand_over true true m c = send_in_loop m c
  hand_over true false m c = some (record c { posted = c.posted ++ m ∷ [] })

  -- `CallMethod`: the controller as it leaves it, and the channel.
  unfoldable pub call_method :
      Bool
      → Method
      → Controller
      → List ℕ
      → Option P
      → ℕ
      → Channel B P M
      → Option (Controller × Channel B P M)
  call_method in_loop method controller bytes prototype done c =
      let m = record (make_request method bytes c.next_id) {
        compress_type = some controller.compress_type;
      } in
      let c1 = record c { next_id = suc c.next_id } in
      let call : OutstandingCall P = record {
        response_prototype = prototype;
        callback = user done;
        controller = controller;
      } in
      if is_nil bytes
      then some (set_failed invalid_request controller, c1)
      else (register_request method call c.next_id c1 >>= λ c2.
          hand_over c.connected in_loop m c2 >>= λ c3. some (controller, c3))

  -- The loop runs the next posted `SendInLoop`.
  unfoldable pub run_next : List RpcMessage → Channel B P M → Option (Channel B P M)
  run_next [] c = some c
  run_next (m ∷ ms) c = send_in_loop m (record c { posted = ms })

  unfoldable pub run_posted : Channel B P M → Option (Channel B P M)
  run_posted c = run_next c.posted c

  -- `OnConnection`, of a connection that is down. One that is up gets the request line that turns it
  -- into a channel, and its headers are awaited.
  unfoldable pub on_disconnected : ℕ → Channel B P M → Channel B P M
  on_disconnected address c =
      let left = without address c.connections in
      record c {
        connections = left;
        balancer = l.release_backend address c.balancer;
        connected = not (is_nil left);
      }

  -- `OnHeaders`, with whether the status is 200.
  unfoldable pub on_headers : Bool → ℕ → Channel B P M → Option (Channel B P M)
  on_headers false address c = some (record c { shut_down = c.shut_down ++ address ∷ [] })
  on_headers true address c =
      let c' = record c {
        connections = with_new address c.connections;
        balancer = l.add_backend address c.balancer;
        connected = true;
      } in
      if is_nil c.pending_requests then some c' else dispatch_pending_request c'

  abbrev pub status_ok : Option M → Bool
  status_ok none = false
  status_ok (some m) = r.is_ok m

  unfoldable pub on_heart_beat_response : ℕ → Controller → Option M → Channel B P M → Channel B P M
  on_heart_beat_response address controller response c =
      if has_failed controller || not (status_ok response)
      then record c { balancer = l.release_backend address c.balancer }
      else c

  unfoldable pub run_callback : Callback → Controller → Option M → Channel B P M → Channel B P M
  run_callback (user n) controller response c = record c {
    answers =
        c.answers ++ record { callback = n; controller = controller; response = response } ∷ [];
  }
  run_callback (heart_beat address) controller response c =
      on_heart_beat_response address controller response c

  -- The controller after a response: the error that it carries, and then that of its parsing.
  abbrev pub note_error_of : Option ErrorCode → Option (List ℕ) → Controller → Controller
  note_error_of none text controller = controller
  note_error_of (some e) none controller =
      if is_success e then controller else set_failed e controller
  note_error_of (some e) (some text) controller =
      if is_success e then controller else set_failed_with e text controller

  unfoldable pub note_error : RpcMessage → Controller → Controller
  note_error m controller = note_error_of m.error m.reason controller

  abbrev pub bytes_of : Option (List ℕ) → List ℕ
  bytes_of none = []
  bytes_of (some xs) = xs

  -- The response is parsed, and the callback called in any case.
  unfoldable pub complete : Callback → Controller → Bool × M → Channel B P M → Channel B P M
  complete done controller (true, response) c = run_callback done controller (some response) c
  complete done controller (false, response) c =
      run_callback done (set_failed parse_fail controller) (some response) c

  -- `OnResponse` from the call that is found on: without a prototype the connection is shut down.
  unfoldable pub finish :
      Option P → ℕ → RpcMessage → OutstandingCall P → Channel B P M → Channel B P M
  finish none address m call c = record c { shut_down = c.shut_down ++ address ∷ [] }
  finish (some p) address m call c =
      complete call.callback (note_error m call.controller)
        (r.parse_from_string p (bytes_of m.response)) c

  -- The call of the id is taken out, and its timer cancelled.
  unfoldable pub take_call : ℕ → Channel B P M → Channel B P M
  take_call id c = record c {
    outstandings = erase_key id c.outstandings;
    timers = without id c.timers;
  }

  unfoldable pub respond :
      Option (OutstandingCall P) → ℕ → RpcMessage → Channel B P M → Channel B P M
  respond none address m c = c
  respond (some call) address m c = finish call.response_prototype address m call (take_call m.id c)

  unfoldable pub refuse : ℕ → Channel B P M → Channel B P M
  refuse address c = record c { shut_down = c.shut_down ++ address ∷ [] }

  unfoldable pub on_response_of :
      MessageType → Option (List ℕ) → ℕ → RpcMessage → Channel B P M → Channel B P M
  on_response_of request_type response address m c = refuse address c
  on_response_of response_type none address m c = refuse address c
  on_response_of response_type (some xs) address m c =
      respond (find m.id c.outstandings) address m c

  unfoldable pub on_response : ℕ → RpcMessage → Channel B P M → Channel B P M
  on_response address m c = on_response_of m.type m.response address m c

  -- `OnTimeout`: a timer that has fired runs no longer; on an id that is not there, `NOTREACHED`.
  unfoldable pub time_out : Option (OutstandingCall P) → ℕ → Channel B P M → Option (Channel B P M)
  time_out none id c = none
  time_out (some call) id c = some (
      run_callback call.callback (set_failed request_timeout call.controller) none
        (record (take_call id c) { pending_requests = erase_key id c.pending_requests }))

  unfoldable pub on_timeout : ℕ → Channel B P M → Option (Channel B P M)
  on_timeout id c = time_out (find id c.outstandings) id c

  -- `SendHeartBeat` to the addresses of the clients that are connected.
  unfoldable pub send_heart_beat : Method → List ℕ → List ℕ → Channel B P M → Option (Channel B P M)
  send_heart_beat method bytes [] c = some c
  send_heart_beat method bytes (address ∷ rest) c =
      let call : OutstandingCall P = record {
        response_prototype = some r.heart_beat_response;
        callback = heart_beat address;
        controller = new_controller;
      } in
      let m = make_request method bytes c.next_id in
      register_request method call c.next_id (record c { next_id = suc c.next_id }) >>= λ c1.
      serialized r.wire m (record c1 { sent = c1.sent ++ (address, m) ∷ [] }) >>= λ c2.
      send_heart_beat method bytes rest c2
