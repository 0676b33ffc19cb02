-- ===== src/Rpc/Call.antt =====
-- protorpc/RpcChannel.cc with RpcServer.cc: one call, from the client's `CallMethod` by the server's
-- method to the client's callback, with each message carried from codec to codec.
mod Tests
use claire.Prelude.{
  ℕ, suc, ◌+◌, ◌≡◌, ◌≢◌, refl, sym, ap, ◌∙◌, subst, Bool, true, false, List, [], ◌∷◌, ◌++◌, Option,
  none, some, ◌>>=◌, arith, has, has-append, keys, keys-append, erase_key, find, look_up, last,
  last-append, find-append_new, erase_key-append_new, erase_key_absent, Option-cases, Bool-cases,
  inl, inr, Returns, flatten,
}
use claire.LoadBalancer.{LoadBalancer}
use claire.Rpc.Message.{RpcMessage, ErrorCode}
use claire.Rpc.Codec.{Wire}
use claire.Rpc.Codec.Send.{CanSend}
use claire.Rpc.Codec.Serialized.{Fits, CanSend-Fits, serialized_there, carry, carry_lem}
use claire.Rpc.Server.Checks.{send_response_there}
use claire.Rpc.Controller.{Controller, has_failed, error_text}
use claire.Rpc.Channel.{
  register_request, is_positive_int, get_request_timeout, Reflection, Method, Callback, user,
  OutstandingCall, Channel, make_request, start_call, send_in_loop, hand_over, call_method,
  on_response, on_response_of, respond, finish, complete, take_call, run_callback, refuse,
  note_error,
}
use claire.Rpc.Channel.Invariant.{Inv, above_absent}
use claire.Rpc.Server.{
  Library, Server, Context, Running, on_request, call_requested, call_service, call_found,
  call_parsed, on_request_complete, answer_request, fill_context, good_response, bad_response,
}

module _ {B K P M : Type 0} (l : LoadBalancer B) (r : Reflection P M) (lib : Library K M)
    (name : ErrorCode → List ℕ) where
  -- A call in the loop's thread, whose request goes through the codecs, whose method completes, and whose
  -- response goes back through the codecs; the network cuts the bytes into pieces. The method is a
  -- function of the request and the controller that it is given.
  unfoldable pub converse :
      (List ℕ → List (List ℕ))
      → (M → Controller → Controller × Option M)
      → ℕ
      → Method
      → Controller
      → List ℕ
      → P
      → ℕ
      → Channel B P M
      → Server K M
      → Option (Channel B P M × Server K M)
  converse cut handler connection method t bytes p n c s =
      call_method l r true method t bytes (some p) n c >>= λ (t', c1). last c1.sent >>= λ (a, m).
      carry r.wire lib.wire cut m >>= λ m'. on_request lib name connection m' s >>= λ s1.
      last s1.running >>= λ y.
      on_request_complete lib name y.context (handler y.request y.controller).0
        (handler y.request y.controller).1 (record s1 { running = s.running })
      >>= λ s2. last s2.sent >>= λ (connection', reply).
          carry lib.wire r.wire cut reply >>= λ reply'. some (on_response l r a reply' c1, s2)

  -- The request that a call sends.
  abbrev pub request_of : Method → Controller → List ℕ → Channel B P M → RpcMessage
  request_of method t bytes c = record (make_request method bytes c.next_id) {
    compress_type = some t.compress_type;
  }

  abbrev pub call_of : Controller → P → ℕ → OutstandingCall P
  call_of t p n = record { response_prototype = some p; callback = user n; controller = t }

  -- The channel that waits for the response.
  abbrev pub waits : Method → Controller → List ℕ → P → ℕ → ℕ → B → Channel B P M → Channel B P M
  waits method t bytes p n a b c = record c {
    next_id = suc c.next_id;
    outstandings = c.outstandings ++ (c.next_id, call_of t p n) ∷ [];
    timers = c.timers ++ c.next_id ∷ [];
    balancer = b;
    sent = c.sent ++ (a, request_of method t bytes c) ∷ [];
  }

  -- A channel that is connected and has a backend.
  abbrev pub Ready : Channel B P M → Type 0
  Ready c = Inv l r c × (c.connected ≡ true) × (l.backends c.balancer ≢ [])

  call_method_lem :
      (method : Method) (t : Controller) (x : ℕ) (xs : List ℕ) (p : P) (n : ℕ) (c : Channel B P M)
      → Ready c
      → is_positive_int (get_request_timeout l r method) ≡ true
      → Fits r.wire (request_of method t (x ∷ xs) c)
      → (a : ℕ) × (b : B) × (call_method l r true method t (x ∷ xs) (some p) n c
          ≡ some (t, waits method t (x ∷ xs) p n a b c))
  unfolding call_method hand_over send_in_loop start_call register_request
  call_method_lem method t x xs p n c (i, up, there) timed fits =
      elim (Option-cases (l.next_backend c.balancer)) [
        | inl e ↦ absurd (l.next_there c.balancer i.3 there e)
        | inr ((a, b), e) ↦
            let backed = (l.next_lem c.balancer a b i.3 e).0 in
            let same : erase_key c.next_id c.outstandings ≡ c.outstandings =
              erase_key_absent c.next_id c.outstandings
                (above_absent c.next_id c.outstandings i.2) in
            (
              a,
              b,
              rw
                  (
                    timed,
                    up,
                    e,
                    i.4 a backed,
                    same,
                    serialized_there r.wire (request_of method t (x ∷ xs) c)
                        (record (waits method t (x ∷ xs) p n a b c) { connected = true }) fits,
                  )
                  refl,
            )
      ]

  -- The server knows the method, and can parse the request.
  abbrev pub Known : Server K M → Method → List ℕ → ℕ → K → M → Type 0
  Known s method bytes service k q =
      (look_up method.service s.services ≡ some service)
      × (lib.find_method_by_name service method.name ≡ some k)
      × (lib.parse_from_string service k bytes ≡ (true, q))

  abbrev pub running_of : ℕ → ℕ → K → M → RpcMessage → Running K M
  running_of connection service k q m = record {
    context = (fill_context connection m).0;
    controller = (fill_context connection m).1;
    service = service;
    method = k;
    request = q;
  }

  on_request_lem :
      (connection : ℕ) (method : Method) (t : Controller) (bytes : List ℕ) (c : Channel B P M)
      (s : Server K M) (service : ℕ) (k : K) (q : M)
      → Known s method bytes service k q
      → on_request lib name connection (request_of method t bytes c) s
        ≡ some (record s {
          total_request = suc s.total_request;
          running =
              s.running ++ running_of connection service k q (request_of method t bytes c) ∷ [];
        })
  unfolding on_request call_requested call_service call_found call_parsed make_request
  on_request_lem connection method t bytes c s service k q (e, f, g) = rw (e, f, g) refl

  -- The response reaches the call, which is answered and waits no more.
  on_response_lem :
      (a : ℕ) (b : B) (connection : ℕ) (method : Method) (t t' : Controller) (bytes ys : List ℕ)
      (p : P) (n : ℕ) (c : Channel B P M) (w : M)
      → Ready c
      → r.parse_from_string p ys ≡ (true, w)
      → let m = good_response (fill_context connection (request_of method t bytes c)).0 t' ys in
        ((on_response l r a m (waits method t bytes p n a b c)).answers
          ≡ c.answers ++ record { callback = n; controller = t; response = some w } ∷ [])
        × ((on_response l r a m (waits method t bytes p n a b c)).outstandings ≡ c.outstandings)
  unfolding on_response on_response_of respond finish complete run_callback take_call note_error
      good_response fill_context make_request
  on_response_lem a b connection method t t' bytes ys p n c w (i, up, there) e =
      let new = above_absent c.next_id c.outstandings i.2 in
      (
        rw (find-append_new c.next_id (call_of t p n) c.outstandings new, e) refl,
        rw (find-append_new c.next_id (call_of t p n) c.outstandings new, e)
            (erase_key-append_new c.next_id (call_of t p n) c.outstandings new),
      )

  -- What a response that is an error does.
  on_bad_response_lem :
      (a connection : ℕ) (m : RpcMessage) (t' : Controller) (c : Channel B P M)
      → on_response l r a (bad_response name (fill_context connection m).0 t') c ≡ refuse l r a c
  unfolding on_response on_response_of bad_response
  on_bad_response_lem a connection m t' c = refl

  -- The end of a call, from the method's result on.
  abbrev pub concludes :
      (List ℕ → List (List ℕ))
      → Context
      → ℕ
      → Channel B P M
      → Server K M
      → Controller × Option M
      → Option (Channel B P M × Server K M)
  concludes cut x a c s result = on_request_complete lib name x result.0 result.1 s >>= λ s2.
      last s2.sent >>= λ (connection', reply).
      carry lib.wire r.wire cut reply >>= λ reply'. some (on_response l r a reply' c, s2)

  converse_lem :
      (cut : List ℕ → List (List ℕ)) (handler : M → Controller → Controller × Option M)
      (connection : ℕ) (method : Method) (t : Controller) (z : ℕ) (zs : List ℕ) (p : P) (n : ℕ)
      (c : Channel B P M) (s : Server K M) (service : ℕ) (k : K) (q : M)
      → Ready c
      → Known s method (z ∷ zs) service k q
      → is_positive_int (get_request_timeout l r method) ≡ true
      → r.wire ≡ lib.wire
      → ((xs : List ℕ) → flatten (cut xs) ≡ xs)
      → CanSend r.wire (request_of method t (z ∷ zs) c)
      → (a : ℕ) × (b : B) × (converse cut handler connection method t (z ∷ zs) p n c s
          ≡ concludes cut
              (fill_context connection (request_of method t (z ∷ zs) c)).0
              a
              (waits method t (z ∷ zs) p n a b c)
              (record s { total_request = suc s.total_request })
              (handler q (fill_context connection (request_of method t (z ∷ zs) c)).1))
  unfolding converse
  converse_lem cut handler connection method t z zs p n c s service k q ready known timed same cuts
        fits =
      let m = request_of method t (z ∷ zs) c in
      let (a, b, e) =
        call_method_lem method t z zs p n c ready timed (CanSend-Fits r.wire m fits) in
      (
        a,
        b,
        rw
            (
              e,
              last-append c.sent (a, m),
              carry_lem r.wire lib.wire cut m same cuts fits,
              on_request_lem connection method t (z ∷ zs) c s service k q known,
              last-append s.running (running_of connection service k q m),
            )
            refl,
      )

  -- The response of the method, and the one that has its error.
  abbrev pub reply_of :
      ℕ → Method → Controller → Controller → List ℕ → Channel B P M → M → RpcMessage
  reply_of connection method t t' bytes c v =
      good_response (fill_context connection (request_of method t bytes c)).0 t'
        (lib.serialize_as_string v)

  abbrev pub error_of : ℕ → Method → Controller → Controller → List ℕ → Channel B P M → RpcMessage
  error_of connection method t t' bytes c =
      bad_response name (fill_context connection (request_of method t bytes c)).0 t'

  abbrev pub Answered :
      Controller → ℕ → M → Channel B P M → Option (Channel B P M × Server K M) → Type 0
  Answered t n w c o = Returns o (λ (c', s').
      (c'.answers ≡ c.answers ++ record { callback = n; controller = t; response = some w } ∷ [])
      × (c'.outstandings ≡ c.outstandings))

  concludes_good :
      (cut : List ℕ → List (List ℕ)) (connection : ℕ) (method : Method) (t t' : Controller)
      (bytes : List ℕ) (p : P) (n a : ℕ) (b : B) (c : Channel B P M) (s : Server K M) (v w : M)
      → Ready c
      → has_failed t' ≡ false
      → r.parse_from_string p (lib.serialize_as_string v) ≡ (true, w)
      → lib.wire ≡ r.wire
      → ((xs : List ℕ) → flatten (cut xs) ≡ xs)
      → CanSend lib.wire (reply_of connection method t t' bytes c v)
      → Answered t n w c (
          concludes cut
            (fill_context connection (request_of method t bytes c)).0
            a
            (waits method t bytes p n a b c)
            s
            (t', some v))
  unfolding on_request_complete answer_request
  concludes_good cut connection method t t' bytes p n a b c s v w ready good e same cuts fits =
      let x = (fill_context connection (request_of method t bytes c)).0 in
      rw
        (
          good,
          send_response_there lib name x.connection_id
              (good_response x t' (lib.serialize_as_string v)) s
              (CanSend-Fits lib.wire (good_response x t' (lib.serialize_as_string v)) fits),
          last-append s.sent (x.connection_id, good_response x t' (lib.serialize_as_string v)),
          carry_lem lib.wire r.wire cut (good_response x t' (lib.serialize_as_string v)) same cuts
              fits,
          Returns,
        )
        (on_response_lem a b connection method t t' bytes (lib.serialize_as_string v) p n c w ready
          e)

  -- A call with a request that has bytes, made in the loop of a channel that is connected and has a
  -- backend, to a method that has a timeout above 0, that the server knows, whose request it can parse,
  -- and that does not fail, where the request's message and the response's can be sent (they are short
  -- enough for the receiver, are read back from their bytes, and snappy gives back what it packs), both
  -- sides having the same format: through the codecs, however the network cuts the bytes, the caller's
  -- callback is called once with its controller and the response that the bytes of the method's response
  -- are parsed as, and no other call's state changes.
  pub converse-Answered :
      (cut : List ℕ → List (List ℕ)) (handler : M → Controller → Controller × Option M)
      (connection : ℕ) (method : Method) (t : Controller) (z : ℕ) (zs : List ℕ) (p : P) (n : ℕ)
      (c : Channel B P M) (s : Server K M) (service : ℕ) (k : K) (q : M) (t' : Controller) (v w : M)
      → Ready c
      → Known s method (z ∷ zs) service k q
      → handler q (fill_context connection (request_of method t (z ∷ zs) c)).1 ≡ (t', some v)
      → has_failed t' ≡ false
      → r.parse_from_string p (lib.serialize_as_string v) ≡ (true, w)
      → is_positive_int (get_request_timeout l r method) ≡ true
      → r.wire ≡ lib.wire
      → ((xs : List ℕ) → flatten (cut xs) ≡ xs)
      → CanSend r.wire (request_of method t (z ∷ zs) c)
      → CanSend lib.wire (reply_of connection method t t' (z ∷ zs) c v)
      → Answered t n w c (converse cut handler connection method t (z ∷ zs) p n c s)
  converse-Answered cut handler connection method t z zs p n c s service k q t' v w ready known h
        good e timed same cuts fits fits' =
      let (a, b, f) =
        converse_lem cut handler connection method t z zs p n c s service k q ready known timed same
          cuts fits in
      rw (f, h)
        (concludes_good cut connection method t t' (z ∷ zs) p n a b c
          (record s { total_request = suc s.total_request }) v w ready good e (sym same) cuts fits')

  -- The server has sent a message with the error and the reason; the call has no answer, and waits.
  abbrev pub Unheard :
      ℕ → Controller → Channel B P M → Server K M → Option (Channel B P M × Server K M) → Type 0
  Unheard connection t' c s o = Returns o (λ (c', s').
      (c'.answers ≡ c.answers)
      × (has c.next_id (keys c'.outstandings) ≡ true)
      × ((a : ℕ) × (c'.shut_down ≡ c.shut_down ++ a ∷ []))
      × ((m : RpcMessage) × (s'.sent ≡ s.sent ++ (connection, m) ∷ [])
          × (m.id ≡ c.next_id)
          × (m.error ≡ some t'.error)
          × (m.reason ≡ some (error_text name t'))))

  has-keys-append :
      (k : ℕ) (call : OutstandingCall P) (m : List (ℕ × OutstandingCall P))
      → has k (keys (m ++ (k, call) ∷ [])) ≡ true
  has-keys-append k call m =
      rw (keys-append m ((k, call) ∷ []), has-append k (keys m) (k ∷ [])) (ground arith)

  -- A call as before (with bytes, on a ready channel, to a method with a timeout above 0 that the server
  -- knows and whose request it can parse), to a method that fails, with any error and reason, where the
  -- request's message and the error's can be sent between codecs of the same format: the server sends one
  -- message, with the call's id, the error and its text as the reason, but the client takes no response
  -- without a response's bytes. It shuts a connection down and calls nothing; the call goes on waiting.
  pub converse-Unheard :
      (cut : List ℕ → List (List ℕ)) (handler : M → Controller → Controller × Option M)
      (connection : ℕ) (method : Method) (t : Controller) (z : ℕ) (zs : List ℕ) (p : P) (n : ℕ)
      (c : Channel B P M) (s : Server K M) (service : ℕ) (k : K) (q : M) (t' : Controller)
      (o : Option M)
      → Ready c
      → Known s method (z ∷ zs) service k q
      → handler q (fill_context connection (request_of method t (z ∷ zs) c)).1 ≡ (t', o)
      → has_failed t' ≡ true
      → is_positive_int (get_request_timeout l r method) ≡ true
      → r.wire ≡ lib.wire
      → ((xs : List ℕ) → flatten (cut xs) ≡ xs)
      → CanSend r.wire (request_of method t (z ∷ zs) c)
      → CanSend lib.wire (error_of connection method t t' (z ∷ zs) c)
      → Unheard connection t' c s (converse cut handler connection method t (z ∷ zs) p n c s)
  unfolding on_request_complete answer_request refuse
  converse-Unheard cut handler connection method t z zs p n c s service k q t' o ready known h bad
        timed same cuts fits fits' =
      let (a, b, f) =
        converse_lem cut handler connection method t z zs p n c s service k q ready known timed same
          cuts fits in
      let m = request_of method t (z ∷ zs) c in
      let x = (fill_context connection m).0 in
      rw
        (
          f,
          h,
          bad,
          send_response_there lib name x.connection_id (bad_response name x t')
              (record s { total_request = suc s.total_request })
              (CanSend-Fits lib.wire (bad_response name x t') fits'),
          last-append s.sent (x.connection_id, bad_response name x t'),
          carry_lem lib.wire r.wire cut (bad_response name x t') (sym same) cuts fits',
          on_bad_response_lem a connection m t' (waits method t (z ∷ zs) p n a b c),
          Returns,
        )
        (
          refl,
          has-keys-append c.next_id (call_of t p n) c.outstandings,
          (a, refl),
          (unfold bad_response fill_context make_request in
              (bad_response name x t', refl, refl, refl, refl)),
        )
