-- ===== src/Rpc/Channel/Answers.antt =====
-- Every call is answered once: by its response, or by its timeout.
use claire.Prelude.{
  ℕ, suc, ◌+◌, ◌≡◌, ◌≢◌, refl, sym, ap, ◌∙◌, subst, Bool, true, false, List, [], ◌∷◌, ◌++◌, Option,
  none, some, ◌==◌, ◌>>=◌, arith, has, count, count-append, find, erase_key, keys, All, All-append,
  Once, erase_key_absent, find-All, All-erase_key, Bool-cases, inl, inr, ==_iff, IfReturns,
  IfReturns->>=, IfReturns-map,
}
use claire.LoadBalancer.{LoadBalancer}
use claire.Rpc.Message.{
  RpcMessage, MessageType, request_type, response_type, request_timeout, parse_fail,
}
use claire.Rpc.Codec.{serialized}
use claire.Rpc.Codec.Serialized.{serialized_keeps}
use claire.Rpc.Controller.{Controller, new_controller, set_failed}
use claire.Rpc.Channel.{
  Reflection, Method, Callback, user, heart_beat, OutstandingCall, Answer, Channel, without,
  make_request, start_call, register_request, is_positive_int, get_request_timeout, call_method,
  run_posted, on_disconnected, on_headers, on_heart_beat_response, run_callback, note_error, finish,
  complete, take_call, on_response, on_response_of, respond, refuse, bytes_of, on_timeout, time_out,
  send_heart_beat,
}
use claire.Rpc.Channel.Invariant.{
  Inv, above_absent, start_call-Inv, on_response_of-Inv, time_out-Inv,
}

-- The user's callback, where it is one.
abbrev pub tags : Callback → List ℕ
tags (user n) = n ∷ []
tags (heart_beat a) = []

module _ {P : Type 0} where
  abbrev pub waiting : List (ℕ × OutstandingCall P) → List ℕ
  waiting [] = []
  waiting ((id, call) ∷ m) = tags call.callback ++ waiting m

  pub keys-erase_first :
      (id : ℕ) (ids : List ℕ) (m : List (ℕ × OutstandingCall P))
      → keys m ≡ id ∷ ids
      → Once (keys m)
      → keys (erase_key id m) ≡ ids
  keys-erase_first id ids [] e o = absurd (cc)
  keys-erase_first id ids ((j, call) ∷ m) e (new, o) =
      let q : j ≡ id = cc in
      let rest : keys m ≡ ids = cc in
      let b : (j == id) ≡ true = ground (arith, q) in
      let absent : has id (keys m) ≡ false = subst (λ t. has t (keys m) ≡ false) q new in
      rw (b, erase_key_absent id m absent) rest

  waiting-append :
      (n : ℕ) (m : List (ℕ × OutstandingCall P)) (id : ℕ) (call : OutstandingCall P)
      → count n (waiting (m ++ (id, call) ∷ []))
        ≡ count n (waiting m) + count n (tags call.callback)
  waiting-append n [] id call = count-append n (tags call.callback) [] ∙ omega arith
  waiting-append n ((j, d) ∷ m) id call =
      count-append n (tags d.callback) (waiting (m ++ (id, call) ∷ []))
      ∙ omega (arith, waiting-append n m id call, count-append n (tags d.callback) (waiting m))

  waiting-erase_key :
      (n id : ℕ) (m : List (ℕ × OutstandingCall P)) (call : OutstandingCall P)
      → Once (keys m)
      → find id m ≡ some call
      → count n (waiting m) ≡ count n (tags call.callback) + count n (waiting (erase_key id m))
  waiting-erase_key n id [] call o e = absurd (cc)
  waiting-erase_key n id ((j, d) ∷ m) call (new, o) e = elim (Bool-cases (j == id)) [
    | inl b ↦
        let f : some d ≡ some call = rw (b) at (e) in
        let q : d ≡ call = cc (f) in
        let absent : has id (keys m) ≡ false =
          subst (λ t. has t (keys m) ≡ false) ((==_iff j id).0 b) new in
        rw (b, erase_key_absent id m absent, count-append n (tags d.callback) (waiting m))
          (ap (λ t. count n (tags t.callback) + count n (waiting m)) q)
    | inr b ↦
        let ih = waiting-erase_key n id m call o (rw (b) at (e)) in
        rw (b) (
          count-append n (tags d.callback) (waiting m)
          ∙ omega (arith, ih, count-append n (tags d.callback) (waiting (erase_key id m))))
  ]

abbrev pub answered : {M : Type 0} → List (Answer M) → List ℕ
answered [] = []
answered (a ∷ as_) = a.callback ∷ answered as_

answered-append :
    {M : Type 0} (n : ℕ) (xs : List (Answer M)) (a : Answer M)
    → count n (answered (xs ++ a ∷ [])) ≡ count n (answered xs) + count n (a.callback ∷ [])
answered-append n [] a = omega arith
answered-append n (x ∷ xs) a = omega (arith, answered-append n xs a)

-- What happens to a channel: a call with a prototype, as the generated stubs make them, on the loop's
-- thread or on another; the loop's next posted task; a connection that goes down or whose headers come;
-- a response; a timer that fires; and heartbeats.
pub data Operation (P : Type 0) : Type 0 where
  calls : Bool → Method → Controller → List ℕ → P → ℕ → Operation P
  runs_posted : Operation P
  disconnects : ℕ → Operation P
  gets_headers : Bool → ℕ → Operation P
  responds : ℕ → RpcMessage → Operation P
  fires : ℕ → Operation P
  beats : Method → List ℕ → List ℕ → Operation P

module _ {B P M : Type 0} (l : LoadBalancer B) (r : Reflection P M) where
  unfoldable pub step : Operation P → Channel B P M → Option (Channel B P M)
  step (calls in_loop method t bytes p n) c =
      call_method l r in_loop method t bytes (some p) n c >>= λ (t', c'). some c'
  step runs_posted c = run_posted l r c
  step (disconnects a) c = some (on_disconnected l r a c)
  step (gets_headers ok a) c = on_headers l r ok a c
  step (responds a m) c = some (on_response l r a m c)
  step (fires id) c = on_timeout l r id c
  step (beats method bytes xs) c = send_heart_beat l r method bytes xs c

  -- How often a callback has been called or waits to be.
  abbrev pub tally : ℕ → Channel B P M → ℕ
  tally n c = count n (answered c.answers) + count n (waiting c.outstandings)

  -- How often an operation makes a call with the callback; a request without bytes is none.
  abbrev pub made : ℕ → Operation P → ℕ
  made n (calls in_loop method t [] p k) = 0
  made n (calls in_loop method t (x ∷ xs) p k) = count n (k ∷ [])
  made n _ = 0

  abbrev pub Prototypes : Channel B P M → Type 0
  Prototypes c = All (λ e. e.1.response_prototype ≢ none) c.outstandings

  -- The invariant, and that every outstanding call has a prototype.
  abbrev pub Sound : Channel B P M → Type 0
  Sound c = Inv l r c × Prototypes c

  -- So many calls more than before.
  abbrev pub Grown : (ℕ → ℕ) → Channel B P M → Channel B P M → Type 0
  Grown f c c' = Sound c' × ((n : ℕ) → tally n c' ≡ tally n c + f n)

  run_callback-tally :
      (n : ℕ) (k : Callback) (t : Controller) (m : Option M) (c : Channel B P M)
      → (count n (answered (run_callback l r k t m c).answers)
          ≡ count n (answered c.answers) + count n (tags k))
        × ((run_callback l r k t m c).outstandings ≡ c.outstandings)
  unfolding run_callback on_heart_beat_response
  run_callback-tally n (user j) t m c =
      (answered-append n c.answers (record { callback = j; controller = t; response = m }), refl)
  run_callback-tally n (heart_beat a) t m c = ground arith

  complete-tally :
      (n : ℕ) (k : Callback) (t : Controller) (p : Bool × M) (c : Channel B P M)
      → (count n (answered (complete l r k t p c).answers)
          ≡ count n (answered c.answers) + count n (tags k))
        × ((complete l r k t p c).outstandings ≡ c.outstandings)
  unfolding complete
  complete-tally n k t (true, m) c = run_callback-tally n k t (some m) c
  complete-tally n k t (false, m) c = run_callback-tally n k (set_failed parse_fail t) (some m) c

  -- A call that is found is answered, and waits no more.
  respond_lem :
      (o : Option (OutstandingCall P)) (a : ℕ) (m : RpcMessage) (c : Channel B P M)
      → Sound c
      → find m.id c.outstandings ≡ o
      → ((n : ℕ) → tally n (respond l r o a m c) ≡ tally n c) × Prototypes (respond l r o a m c)
  unfolding respond finish take_call
  respond_lem none a m c v e = ((λ n. refl), v.1)
  respond_lem (some call) a m c v e = go call.response_prototype refl
    where
      go :
          (p : Option P)
          → call.response_prototype ≡ p
          → ((n : ℕ) → tally n (finish l r p a m call (take_call l r m.id c)) ≡ tally n c)
            × Prototypes (finish l r p a m call (take_call l r m.id c))
      go none q = absurd (find-All (λ d. d.response_prototype ≢ none) m.id c.outstandings v.1 e q)
      go (some p) q =
          let t = note_error l r m call.controller in
          let parsed = r.parse_from_string p (bytes_of l r m.response) in
          (
            (λ n.
                let (up, same) = complete-tally n call.callback t parsed (take_call l r m.id c) in
                omega (
                  arith,
                  up,
                  ap (λ o. count n (waiting o)) same,
                  waiting-erase_key n m.id c.outstandings call v.0.1 e,
                )),
            subst (All (λ d. d.1.response_prototype ≢ none))
                (sym (complete-tally 0 call.callback t parsed (take_call l r m.id c)).1)
                (All-erase_key (λ d. d.1.response_prototype ≢ none) m.id c.outstandings v.1),
          )

  pub on_response-Grown :
      (a : ℕ) (m : RpcMessage) (c : Channel B P M)
      → Sound c
      → Grown (λ n. 0) c (on_response l r a m c)
  unfolding on_response
  on_response-Grown a m c v =
      let (same, protos) = go m.type m.response in
      ((on_response_of-Inv l r m.type m.response a m c v.0, protos), (λ n. omega (arith, same n)))
    where
      go :
          (t : MessageType) (o : Option (List ℕ))
          → ((n : ℕ) → tally n (on_response_of l r t o a m c) ≡ tally n c)
            × Prototypes (on_response_of l r t o a m c)
      go request_type o = unfold on_response_of refuse in ((λ n. refl), v.1)
      go response_type none = unfold on_response_of refuse in ((λ n. refl), v.1)
      go response_type (some xs) =
          unfold on_response_of in respond_lem (find m.id c.outstandings) a m c v refl

  -- A timer that fires answers its call, with the error of a timeout, and the call waits no more.
  pub time_out-Grown :
      (id : ℕ) (o : Option (OutstandingCall P)) (c : Channel B P M)
      → Sound c
      → find id c.outstandings ≡ o
      → IfReturns
          (time_out l r o id c)
          (λ c'. Grown (λ n. 0) c c' × (c'.outstandings ≡ erase_key id c.outstandings))
  unfolding time_out take_call
  time_out-Grown id none c v e = tt
  time_out-Grown id (some call) c v e =
      let t = set_failed request_timeout call.controller in
      let d : Channel B P M = record c {
        outstandings = erase_key id c.outstandings;
        timers = without id c.timers;
        pending_requests = erase_key id c.pending_requests;
      } in
      (
        (
          (
            time_out-Inv l r (some call) id c v.0,
            subst (All (λ d. d.1.response_prototype ≢ none))
                (sym (run_callback-tally 0 call.callback t none d).1)
                (All-erase_key (λ d. d.1.response_prototype ≢ none) id c.outstandings v.1),
          ),
          (λ n.
              let (up, same) = run_callback-tally n call.callback t none d in
              omega (
                arith,
                up,
                ap (λ o. count n (waiting o)) same,
                waiting-erase_key n id c.outstandings call v.0.1 e,
              )),
        ),
        (run_callback-tally 0 call.callback t none d).1,
      )

  pub start_call-Grown :
      (call : OutstandingCall P) (c : Channel B P M)
      → Sound c
      → call.response_prototype ≢ none
      → Grown
          (λ n. count n (tags call.callback))
          c
          (start_call l r call c.next_id (record c { next_id = suc c.next_id }))
  unfolding start_call
  start_call-Grown call c v p =
      let same : erase_key c.next_id c.outstandings ≡ c.outstandings =
        erase_key_absent c.next_id c.outstandings (above_absent c.next_id c.outstandings v.0.2) in
      (
        (
          start_call-Inv l r call c v.0,
          rw (same) (
              All-append (λ d. d.1.response_prototype ≢ none) c.outstandings
                ((c.next_id, call) ∷ []) v.1 (p, tt)),
        ),
        (λ n. rw (same) (omega (arith, waiting-append n c.outstandings c.next_id call))),
      )

  Grown-trans :
      (f g : ℕ → ℕ) (c c1 c2 : Channel B P M)
      → Grown f c c1
      → Grown g c1 c2
      → Grown (λ n. f n + g n) c c2
  Grown-trans f g c c1 c2 h k = (k.0, (λ n. omega (arith, h.1 n, k.1 n)))

  pub send_heart_beat-Grown :
      (method : Method) (bytes xs : List ℕ) (c : Channel B P M)
      → Sound c
      → IfReturns (send_heart_beat l r method bytes xs c) (Grown (λ n. 0) c)
  unfolding send_heart_beat register_request
  send_heart_beat-Grown method bytes [] c v = (v, (λ n. omega arith))
  send_heart_beat-Grown method bytes (a ∷ xs) c v =
      let call : OutstandingCall P = record {
        response_prototype = some r.heart_beat_response;
        callback = heart_beat a;
        controller = new_controller;
      } in
      let c1 = start_call l r call c.next_id (record c { next_id = suc c.next_id }) in
      let c2 : Channel B P M = record c1 {
        sent = c1.sent ++ (a, make_request method bytes c.next_id) ∷ [];
      } in
      let h = start_call-Grown call c v (λ e. cc) in
      elim (Bool-cases (is_positive_int (get_request_timeout l r method))) [
        | inr b ↦ rw (b) tt
        | inl b ↦ rw (b) (
            IfReturns->>= (λ c'. c' ≡ c2) (Grown (λ n. 0) c)
              (serialized r.wire (make_request method bytes c.next_id) c2)
              (λ c'. send_heart_beat l r method bytes xs c')
              (serialized_keeps r.wire (make_request method bytes c.next_id) c2 (λ c'. c' ≡ c2)
                refl)
              (λ c' e.
                subst (λ d. IfReturns (send_heart_beat l r method bytes xs d) (Grown (λ n. 0) c))
                  (sym e)
                  (IfReturns-map (Grown (λ n. 0) c2) (Grown (λ n. 0) c)
                    (send_heart_beat l r method bytes xs c2)
                    (send_heart_beat-Grown method bytes xs c2 h.0)
                    (λ d k. (k.0, (λ n. omega (arith, h.1 n, k.1 n)))))))
      ]
