-- ===== src/Rpc/Channel/Fitting.antt =====
-- protorpc/RpcChannel.cc: the messages that wait in a channel can be serialised, whatever happens to it.
use claire.Prelude.{
  ℕ, suc, ◌≡◌, Bool, true, false, not, ◌||◌, List, [], ◌∷◌, Option, none, some, ◌>>=◌, has, find,
  erase_key, keys, is_nil, All, All-append, All-erase_key, Bool-cases, inl, inr, ◌⊎◌, IfReturns,
  IfReturns->>=, Option-cases, insert_new, ◌++◌,
}
use claire.LoadBalancer.{LoadBalancer}
use claire.Rpc.Message.{
  RpcMessage, MessageType, request_type, response_type, parse_fail, request_timeout,
}
use claire.Rpc.Codec.Serialized.{Fits, serialized_keeps}
use claire.Rpc.Controller.{Controller, set_failed, has_failed}
use claire.Rpc.Channel.{
  Reflection, Method, register_request, is_positive_int, get_request_timeout, add_pending_request,
  status_ok, on_heart_beat_response, Callback, user, heart_beat, OutstandingCall, Channel,
  make_request, start_call, send_in_loop, dispatch_pending_request, send_all, hand_over,
  call_method, run_posted, run_next, on_disconnected, on_headers, run_callback, note_error, finish,
  complete, take_call, on_response, on_response_of, respond, refuse, bytes_of, on_timeout, time_out,
}
use claire.Rpc.Channel.Invariant.{joined}
use claire.Rpc.Channel.Answers.{
  Operation, calls, runs_posted, disconnects, gets_headers, responds, fires, beats, step,
}

module _ {B P M : Type 0} (l : LoadBalancer B) (r : Reflection P M) where
  -- The messages that wait are shorter than the codec's limit.
  abbrev pub Fitting : Channel B P M → Type 0
  Fitting c = All (λ e. Fits r.wire e.1) c.pending_requests × All (Fits r.wire) c.posted

  -- The message of a call.
  abbrev pub message_of : Method → Controller → List ℕ → ℕ → RpcMessage
  message_of method t bytes id = record (make_request method bytes id) {
    compress_type = some t.compress_type;
  }

  -- What may happen: the method that is called has a timeout that is greater than 0 as an `int`, and its
  -- message is shorter than the codec's limit; a posted task runs while the channel is connected, a timer
  -- that fires is one that runs, and there are no heartbeats.
  abbrev pub Allowed : Operation P → Channel B P M → Type 0
  Allowed (calls b method t [] p k) c = Unit {0}
  Allowed (calls b method t (x ∷ xs) p k) c =
      (is_positive_int (get_request_timeout l r method) ≡ true)
      × Fits r.wire (message_of method t (x ∷ xs) c.next_id)
  Allowed runs_posted c = (c.posted ≡ []) ⊎ (c.connected ≡ true)
  Allowed (fires id) c = has id c.timers ≡ true
  Allowed (beats method bytes xs) c = ⊥
  Allowed _ c = Unit {0}

  send_in_loop-Fitting :
      (m : RpcMessage) (c : Channel B P M) → Fitting c → IfReturns (send_in_loop l r m c) Fitting
  unfolding send_in_loop
  send_in_loop-Fitting m c f = elim (Option-cases (l.next_backend c.balancer)) [
    | inl n ↦ rw (n) tt
    | inr ((a, b), e) ↦ elim (Bool-cases (has a c.connections)) [
      | inr h ↦ rw (e, h) tt
      | inl h ↦
          rw (e, h)
            (serialized_keeps r.wire m (record c { balancer = b; sent = c.sent ++ (a, m) ∷ [] })
              Fitting f)
    ]
  ]

  send_all-Fitting :
      (ms : List (ℕ × RpcMessage)) (c : Channel B P M)
      → Fitting c
      → IfReturns (send_all l r ms c) Fitting
  unfolding send_all
  send_all-Fitting [] c f = f
  send_all-Fitting ((id, m) ∷ ms) c f =
      IfReturns->>= Fitting Fitting (send_in_loop l r m c) (λ c'. send_all l r ms c')
        (send_in_loop-Fitting m c f) (λ c1 f1. send_all-Fitting ms c1 f1)

  hand_over-Fitting :
      (up b : Bool) (m : RpcMessage) (c : Channel B P M)
      → Fits r.wire m
      → Fitting c
      → IfReturns (hand_over l r up b m c) Fitting
  unfolding hand_over add_pending_request
  hand_over-Fitting false b m c fits f =
      (pending (Bool-cases (has m.id (keys c.pending_requests))), f.1)
    where
      pending :
          ((has m.id (keys c.pending_requests) ≡ true)
            ⊎ (has m.id (keys c.pending_requests) ≡ false))
          → All (λ e. Fits r.wire e.1) (insert_new m.id m c.pending_requests)
      pending (inl e) = rw (e) f.0
      pending (inr e) =
          rw (e)
            (All-append (λ e. Fits r.wire e.1) c.pending_requests ((m.id, m) ∷ []) f.0 (fits, tt))
  hand_over-Fitting true true m c fits f = send_in_loop-Fitting m c f
  hand_over-Fitting true false m c fits f =
      (f.0, All-append (Fits r.wire) c.posted (m ∷ []) f.1 (fits, tt))

  called :
      (k : Callback) (t : Controller) (o : Option M) (c : Channel B P M)
      → Fitting c
      → Fitting (run_callback l r k t o c)
  unfolding run_callback on_heart_beat_response
  called (user n) t o c f = f
  called (heart_beat a) t o c f = elim (Bool-cases (has_failed t || not (status_ok l r o))) [
    | inl e ↦ rw (e) f
    | inr e ↦ rw (e) f
  ]

  on_response-Fitting :
      (a : ℕ) (m : RpcMessage) (c : Channel B P M) → Fitting c → Fitting (on_response l r a m c)
  unfolding on_response on_response_of respond finish refuse complete
  on_response-Fitting a m c f = by_type m.type m.response
    where
      by_parsed :
          (k : Callback) (t : Controller) (x : Bool × M)
          → Fitting (complete l r k t x (take_call l r m.id c))
      by_parsed k t (true, w) = called k t (some w) (take_call l r m.id c) (unfold take_call in f)
      by_parsed k t (false, w) =
          called k (set_failed parse_fail t) (some w) (take_call l r m.id c) (unfold take_call in f)

      by_prototype :
          (p : Option P) (call : OutstandingCall P)
          → Fitting (finish l r p a m call (take_call l r m.id c))
      by_prototype none call = unfold take_call in f
      by_prototype (some p) call =
          by_parsed call.callback (note_error l r m call.controller)
            (r.parse_from_string p (bytes_of l r m.response))

      found : (o : Option (OutstandingCall P)) → Fitting (respond l r o a m c)
      found none = f
      found (some call) = by_prototype call.response_prototype call

      by_type : (t : MessageType) (o : Option (List ℕ)) → Fitting (on_response_of l r t o a m c)
      by_type request_type o = f
      by_type response_type none = f
      by_type response_type (some xs) = found (find m.id c.outstandings)

  pub step-Fitting :
      (o : Operation P) (c : Channel B P M)
      → Fitting c
      → Allowed o c
      → IfReturns (step l r o c) Fitting
  unfolding step
  step-Fitting (calls b method t [] p k) c f al = unfold call_method in f
  step-Fitting (calls b method t (x ∷ xs) p k) c f al =
      unfold call_method register_request in
      let call : OutstandingCall P = record {
        response_prototype = some p;
        callback = user k;
        controller = t;
      } in
      let m = message_of method t (x ∷ xs) c.next_id in
      let c1 = start_call l r call c.next_id (record c { next_id = suc c.next_id }) in
      rw (al.0) (
        without_result t (hand_over l r c.connected b m c1)
          (hand_over-Fitting c.connected b m c1 al.1 (unfold start_call in f)))
    where
      without_result :
          (t : Controller) (o : Option (Channel B P M))
          → IfReturns o Fitting
          → IfReturns ((o >>= λ c'. some (t, c')) >>= λ (t', c'). some c') Fitting
      without_result t none h = tt
      without_result t (some c') h = h
  step-Fitting runs_posted c f al = unfold run_posted in go c.posted f.1
    where
      go : (ms : List RpcMessage) → All (Fits r.wire) ms → IfReturns (run_next l r ms c) Fitting
      go [] h = unfold run_next in f
      go (m ∷ ms) h =
          unfold run_next in send_in_loop-Fitting m (record c { posted = ms }) (f.0, h.1)
  step-Fitting (disconnects a) c f al = unfold on_disconnected in f
  step-Fitting (gets_headers false a) c f al = unfold on_headers in f
  step-Fitting (gets_headers true a) c f al =
      unfold on_headers dispatch_pending_request in
      elim (Bool-cases (is_nil c.pending_requests)) [
        | inl e ↦ rw (e) f
        | inr e ↦ rw (e) (
            send_all-Fitting c.pending_requests (record (joined l r a c) { pending_requests = [] })
              (tt, f.1))
      ]
  step-Fitting (responds a m) c f al = on_response-Fitting a m c f
  step-Fitting (fires id) c f al = unfold on_timeout in fired (find id c.outstandings)
    where
      fired : (o : Option (OutstandingCall P)) → IfReturns (time_out l r o id c) Fitting
      fired none = unfold time_out in tt
      fired (some call) =
          unfold time_out take_call in
          called call.callback (set_failed request_timeout call.controller) none
            (record (take_call l r id c) { pending_requests = erase_key id c.pending_requests })
            (All-erase_key (λ e. Fits r.wire e.1) id c.pending_requests f.0, f.1)
  step-Fitting (beats method bytes xs) c f al = elim al [ ]
