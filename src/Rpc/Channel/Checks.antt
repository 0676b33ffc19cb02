-- ===== src/Rpc/Channel/Checks.antt =====
-- When no check of the channel fails, and when one does.
use claire.Prelude.{
  ℕ, suc, ◌≡◌, ◌≢◌, refl, sym, ap, ◌∙◌, subst, Bool, true, false, not, ◌&&◌, ◌||◌, List, [], ◌∷◌,
  Option, none, some, ◌==◌, ◌>>=◌, arith, has, find, erase_key, keys, is_nil, All, All-append,
  erase_key_absent, has-find, find-All, All-erase_key, Bool-cases, inl, inr, ◌⊎◌, ==_self, Returns,
  Returns-map, Returns-IfReturns, IfReturns-map, Returns-both,
}
use claire.LoadBalancer.{LoadBalancer}
use claire.Rpc.Message.{
  RpcMessage, MessageType, request_type, response_type, parse_fail, request_timeout,
}
use claire.Rpc.Codec.Serialized.{Fits}
use claire.Rpc.Controller.{Controller, set_failed}
use claire.Rpc.Channel.{
  Reflection, register_request, Callback, user, heart_beat, OutstandingCall, Channel, start_call,
  send_in_loop, dispatch_pending_request, send_all, hand_over, call_method, run_posted, run_next,
  on_disconnected, on_headers, run_callback, note_error, finish, complete, take_call, on_response,
  on_response_of, respond, refuse, bytes_of, on_timeout, time_out,
}
use claire.Rpc.Channel.Invariant.{
  Inv, Frame, above_absent, has-without, has-with_new, joined, joined-Inv, joined_backend,
  hand_over-Inv, hand_over_there, send_in_loop-Inv, send_in_loop_there, send_all_there,
  start_call-Inv,
}
use claire.Rpc.Channel.Answers.{
  Operation, calls, runs_posted, disconnects, gets_headers, responds, fires, beats, step, Sound,
  Grown, made, tags,
}
use claire.Rpc.Channel.Runs.{step-Grown}
use claire.Rpc.Channel.Fitting.{message_of, Fitting, Allowed, step-Fitting}

module _ {B P M : Type 0} (l : LoadBalancer B) (r : Reflection P M) where
  -- Every connection is a backend, which a failed heartbeat would undo.
  abbrev pub Served : Channel B P M → Type 0
  Served c = (x : ℕ) → has x c.connections ≡ true → has x (l.backends c.balancer) ≡ true

  -- No heartbeat is outstanding.
  abbrev pub Users : Channel B P M → Type 0
  Users c = All (λ e. tags e.1.callback ≢ []) c.outstandings

  some_backend :
      (c : Channel B P M) → Inv l r c → Served c → c.connected ≡ true → l.backends c.balancer ≢ []
  some_backend c v served up nil = go c.connections refl
    where
      go : (xs : List ℕ) → c.connections ≡ xs → ⊥
      go [] e = (let q : true ≡ false = sym up ∙ v.5 ∙ ap (λ xs. not (is_nil xs)) e in cc)
      go (x ∷ xs) e =
          let h : has x c.connections ≡ true = ap (λ xs. has x xs) e ∙ rw (==_self x) refl in
          let f : has x [] ≡ true = subst (λ bs. has x bs ≡ true) nil (served x h) in cc

  Frame-Served : (c c' : Channel B P M) → Frame l r c c' → Served c → Served c'
  Frame-Served c c' (o, a, n, b) served x h =
      subst (λ bs. has x bs ≡ true) (sym b) (served x (subst (λ xs. has x xs ≡ true) n h))

  disconnected-Served :
      (a : ℕ) (c : Channel B P M) → Inv l r c → Served c → Served (on_disconnected l r a c)
  unfolding on_disconnected
  disconnected-Served a c v served x h =
      let q : not (a == x) && has x c.connections ≡ true =
        sym (has-without x a c.connections) ∙ h in
      l.release_has a x c.balancer v.3 ∙ ground (arith, q, served x)

  joined-Served : (a : ℕ) (c : Channel B P M) → Inv l r c → Served c → Served (joined l r a c)
  joined-Served a c v served x h =
      let q : (a == x || has x c.connections) ≡ true = sym (has-with_new x a c.connections) ∙ h in
      l.add_has a x c.balancer v.3 ∙ ground (arith, q, served x)

  abbrev pub Calm : Channel B P M → Type 0
  Calm c = Served c × Users c

  callback-Calm :
      (k : Callback) (t : Controller) (m : Option M) (c : Channel B P M)
      → tags k ≢ []
      → Calm c
      → Calm (run_callback l r k t m c)
  unfolding run_callback
  callback-Calm (user n) t m c u v = v
  callback-Calm (heart_beat a) t m c u v = absurd (u refl)

  complete-Calm :
      (k : Callback) (t : Controller) (p : Bool × M) (c : Channel B P M)
      → tags k ≢ []
      → Calm c
      → Calm (complete l r k t p c)
  unfolding complete
  complete-Calm k t (true, m) c u v = callback-Calm k t (some m) c u v
  complete-Calm k t (false, m) c u v = callback-Calm k (set_failed parse_fail t) (some m) c u v

  on_response-Calm :
      (a : ℕ) (m : RpcMessage) (c : Channel B P M) → Calm c → Calm (on_response l r a m c)
  unfolding on_response
  on_response-Calm a m c v = by_type m.type m.response
    where
      by_prototype :
          (p : Option P) (call : OutstandingCall P)
          → tags call.callback ≢ []
          → Calm (finish l r p a m call (take_call l r m.id c))
      by_prototype none call u =
          unfold finish take_call in
          (v.0, All-erase_key (λ e. tags e.1.callback ≢ []) m.id c.outstandings v.1)
      by_prototype (some p) call u =
          unfold finish in
          complete-Calm call.callback (note_error l r m call.controller)
            (r.parse_from_string p (bytes_of l r m.response)) (take_call l r m.id c) u
            (unfold take_call in
              (v.0, All-erase_key (λ e. tags e.1.callback ≢ []) m.id c.outstandings v.1))

      found :
          (o : Option (OutstandingCall P))
          → find m.id c.outstandings ≡ o
          → Calm (respond l r o a m c)
      found none e = unfold respond in v
      found (some call) e =
          unfold respond in
          by_prototype call.response_prototype call
            (find-All (λ d. tags d.callback ≢ []) m.id c.outstandings v.1 e)

      by_type : (t : MessageType) (o : Option (List ℕ)) → Calm (on_response_of l r t o a m c)
      by_type request_type o = unfold on_response_of refuse in v
      by_type response_type none = unfold on_response_of refuse in v
      by_type response_type (some xs) =
          unfold on_response_of in found (find m.id c.outstandings) refl

  on_timeout-Calm :
      (id : ℕ) (c : Channel B P M)
      → has id (keys c.outstandings) ≡ true
      → Calm c
      → Returns (on_timeout l r id c) Calm
  unfolding on_timeout time_out
  on_timeout-Calm id c there v =
      let (call, found) = has-find id c.outstandings there in
      rw (found, Returns)
        (callback-Calm call.callback (set_failed request_timeout call.controller) none
          (record (take_call l r id c) { pending_requests = erase_key id c.pending_requests })
          (find-All (λ d. tags d.callback ≢ []) id c.outstandings v.1 found)
          (unfold take_call in
            (v.0, All-erase_key (λ e. tags e.1.callback ≢ []) id c.outstandings v.1)))

  Frame-Calm : (c c' : Channel B P M) → Frame l r c c' → Calm c → Calm c'
  Frame-Calm c c' f v =
      (Frame-Served c c' f v.0, subst (All (λ e. tags e.1.callback ≢ [])) (sym f.0) v.1)

  send_in_loop-Calm :
      (m : RpcMessage) (c : Channel B P M)
      → Inv l r c
      → Calm c
      → c.connected ≡ true
      → Fits r.wire m
      → Returns (send_in_loop l r m c) Calm
  send_in_loop-Calm m c i v up fits =
      Returns-map (λ c'. Inv l r c' × Frame l r c c') Calm (send_in_loop l r m c)
        (Returns-IfReturns (λ c'. Inv l r c' × Frame l r c c') (send_in_loop l r m c)
          (send_in_loop-Inv l r m c i)
          (send_in_loop_there l r m c i (some_backend c i v.0 up) fits))
        (λ c' (i', f). Frame-Calm c c' f v)

  run_posted-Calm :
      (c : Channel B P M)
      → Inv l r c
      → Calm c
      → (c.posted ≡ []) ⊎ (c.connected ≡ true)
      → All (Fits r.wire) c.posted
      → Returns (run_posted l r c) Calm
  unfolding run_posted
  run_posted-Calm c i v h fits = go c.posted h fits
    where
      go :
          (ms : List RpcMessage)
          → (ms ≡ []) ⊎ (c.connected ≡ true)
          → All (Fits r.wire) ms
          → Returns (run_next l r ms c) Calm
      go [] h f = unfold run_next in v
      go (m ∷ ms) (inl e) f = absurd (cc)
      go (m ∷ ms) (inr up) f =
          unfold run_next in send_in_loop-Calm m (record c { posted = ms }) i v up f.0

  on_headers-Calm :
      (ok : Bool) (a : ℕ) (c : Channel B P M)
      → Inv l r c
      → Calm c
      → All (λ e. Fits r.wire e.1) c.pending_requests
      → Returns (on_headers l r ok a c) Calm
  unfolding on_headers dispatch_pending_request
  on_headers-Calm false a c i v fits = v
  on_headers-Calm true a c i v fits = elim (Bool-cases (is_nil c.pending_requests)) [
    | inl e ↦ rw (e, Returns) (joined-Served a c i v.0, v.1)
    | inr e ↦
        let d : Channel B P M = record (joined l r a c) { pending_requests = [] } in
        rw (e) (
          Returns-map (λ c'. Inv l r c' × Frame l r (joined l r a c) c') Calm
            (send_all l r c.pending_requests d)
            (send_all_there l r c.pending_requests d (joined-Inv l r a c i)
              (joined_backend l r a c i) fits)
            (λ c' (i', f). Frame-Calm (joined l r a c) c' f (joined-Served a c i v.0, v.1)))
  ]

  hand_over-Calm :
      (b : Bool) (m : RpcMessage) (c : Channel B P M)
      → Inv l r c
      → Calm c
      → Fits r.wire m
      → Returns (hand_over l r c.connected b m c) Calm
  hand_over-Calm b m c i v fits =
      Returns-map (λ c'. Inv l r c' × Frame l r c c') Calm (hand_over l r c.connected b m c)
        (Returns-IfReturns (λ c'. Inv l r c' × Frame l r c c') (hand_over l r c.connected b m c)
          (hand_over-Inv l r c.connected b m c i)
          (hand_over_there l r c.connected b m c i (λ up. some_backend c i v.0 up) fits))
        (λ c' (i', f). Frame-Calm c c' f v)

  registered-Calm :
      (call : OutstandingCall P) (c : Channel B P M)
      → Inv l r c
      → Calm c
      → tags call.callback ≢ []
      → Calm (start_call l r call c.next_id (record c { next_id = suc c.next_id }))
  unfolding start_call
  registered-Calm call c i v u =
      let same : erase_key c.next_id c.outstandings ≡ c.outstandings =
        erase_key_absent c.next_id c.outstandings (above_absent c.next_id c.outstandings i.2) in
      (
        v.0,
        rw (same) (
            All-append (λ e. tags e.1.callback ≢ []) c.outstandings ((c.next_id, call) ∷ []) v.1
              (u, tt)),
      )

  unwrapped :
      (t : Controller) (o : Option (Channel B P M))
      → Returns o Calm
      → Returns ((o >>= λ c'. some (t, c')) >>= λ (t', c'). some c') Calm
  unwrapped t none h = h
  unwrapped t (some c') h = h

  step-Calm :
      (o : Operation P) (c : Channel B P M)
      → Inv l r c
      → Calm c
      → Fitting l r c
      → Allowed l r o c
      → Returns (step l r o c) Calm
  unfolding step
  step-Calm (calls b method t [] p k) c i v f al = unfold call_method in v
  step-Calm (calls b method t (x ∷ xs) p k) c i v f al =
      unfold call_method register_request in
      let call : OutstandingCall P = record {
        response_prototype = some p;
        callback = user k;
        controller = t;
      } in
      let m = message_of l r method t (x ∷ xs) c.next_id in
      let c1 = start_call l r call c.next_id (record c { next_id = suc c.next_id }) in
      rw (al.0) (
        unwrapped t (hand_over l r c.connected b m c1) (
          unfold start_call in
          hand_over-Calm b m c1 (start_call-Inv l r call c i) (registered-Calm call c i v (λ e. cc))
            al.1))
  step-Calm runs_posted c i v f al = run_posted-Calm c i v al f.1
  step-Calm (disconnects a) c i v f al =
      (disconnected-Served a c i v.0, unfold on_disconnected in v.1)
  step-Calm (gets_headers ok a) c i v f al = on_headers-Calm ok a c i v f.0
  step-Calm (responds a m) c i v f al = on_response-Calm a m c v
  step-Calm (fires id) c i v f al = on_timeout-Calm id c (subst (λ ts. has id ts ≡ true) i.0 al) v
  step-Calm (beats method bytes xs) c i v f al = elim al [ ]

  -- No check of a channel fails, whatever happens to it: a load balancer is asked only where it has a
  -- backend, its answer is connected, a timer that fires finds its call, timeouts are positive, and the
  -- codec serialises what it is given. This is where the method that is called has a timeout above 0 (as
  -- an `int`) and its message is shorter than the codec's limit, where a posted task does not run when
  -- nothing is connected any more, and without heartbeats. The channel stays such that it goes on: every
  -- connection is a backend, no heartbeat is outstanding, and what waits is shorter than the limit.
  pub channel_total :
      (o : Operation P) (c : Channel B P M)
      → Sound l r c
      → Calm c
      → Fitting l r c
      → Allowed l r o c
      → Returns (step l r o c) (λ c'. (Calm c' × Sound l r c') × Fitting l r c')
  channel_total o c s v f al =
      Returns-both (λ c'. Calm c' × Sound l r c') (Fitting l r) (step l r o c)
        (Returns-both Calm (Sound l r) (step l r o c) (step-Calm o c s.0 v f al) (
          IfReturns-map (Grown l r (λ n. made l r n o) c) (Sound l r) (step l r o c)
            (step-Grown l r o c s) (λ c' g. g.0)))
        (step-Fitting l r o c f al)
