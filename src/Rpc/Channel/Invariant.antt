-- ===== src/Rpc/Channel/Invariant.antt =====
-- What holds of a channel whatever happens to it, and when no check fails.
use claire.Prelude.{
  ℕ, suc, ◌<◌, ◌≡◌, ◌≢◌, refl, sym, ap, ◌∙◌, subst, Bool, true, false, not, ◌&&◌, ◌||◌, List, [],
  ◌∷◌, ◌++◌, Option, none, some, ◌==◌, arith, has, find, erase_key, keys, assign, is_nil, All,
  All-append, Once, Once-append_new, has-append, keys-append, erase_key_absent, erase_key-Once,
  All-keys-erase_key, Bool-cases, Option-cases, inl, inr, ==_iff, ==_self, Returns, Returns->>=,
  Returns-map, Returns-IfReturns, IfReturns, IfReturns->>=, IfReturns-map,
}
use claire.LoadBalancer.{LoadBalancer}
use claire.Rpc.Message.{
  RpcMessage, MessageType, request_type, response_type, request_timeout, parse_fail,
}
use claire.Rpc.Codec.Serialized.{Fits, serialized_there, serialized_keeps}
use claire.Rpc.Controller.{Controller, has_failed, set_failed}
use claire.Rpc.Channel.{
  Reflection, Callback, user, heart_beat, OutstandingCall, Channel, without, with_new, start_call,
  add_pending_request, send_in_loop, send_all, dispatch_pending_request, hand_over, on_disconnected,
  on_headers, on_heart_beat_response, run_callback, note_error, finish, take_call, on_response_of,
  respond, refuse, complete, status_ok, bytes_of, time_out, run_next,
}

without-keys : {V : Type 0} (k : ℕ) (m : List (ℕ × V)) → without k (keys m) ≡ keys (erase_key k m)
unfolding without
without-keys k [] = refl
without-keys k ((j, v) ∷ m) = elim (Bool-cases (j == k)) [
  | inl e ↦ rw (e) (without-keys k m)
  | inr e ↦ rw (e) (ap (λ ks. j ∷ ks) (without-keys k m))
]

pub has-without : (x a : ℕ) (xs : List ℕ) → has x (without a xs) ≡ (not (a == x) && has x xs)
unfolding without
has-without x a [] = ground arith
has-without x a (y ∷ ys) = elim (Bool-cases (y == a)) [
  | inl e ↦ rw (e) (ground (arith, e, has-without x a ys))
  | inr e ↦ rw (e) (ground (arith, e, has-without x a ys))
]

pub has-with_new : (x a : ℕ) (xs : List ℕ) → has x (with_new a xs) ≡ (a == x || has x xs)
has-with_new x a xs = elim (Bool-cases (has a xs)) [
  | inl e ↦ rw (e) (elim (Bool-cases (a == x)) [
    | inl q ↦
        let h : has x xs ≡ true = subst (λ t. has t xs ≡ true) ((==_iff a x).0 q) e in
        rw (q, h) refl
    | inr q ↦ rw (q) refl
  ])
  | inr e ↦ rw (e, has-append x xs (a ∷ [])) (ground arith)
]

is_nil-with_new : (a : ℕ) (xs : List ℕ) → is_nil (with_new a xs) ≡ false
is_nil-with_new a [] = refl
is_nil-with_new a (x ∷ xs) = elim (Bool-cases (has a (x ∷ xs))) [
  | inl e ↦ rw (e) refl
  | inr e ↦ rw (e) refl
]

pub above_absent :
    {V : Type 0} (n : ℕ) (m : List (ℕ × V)) → All (λ k. k < n) (keys m) → has n (keys m) ≡ false
above_absent n [] h = refl
above_absent n ((j, v) ∷ m) (lt, h) = ground (arith, lt, above_absent n m h)

pub below_suc : (n : ℕ) (ks : List ℕ) → All (λ k. k < n) ks → All (λ k. k < suc n) ks
below_suc n [] h = tt
below_suc n (k ∷ ks) (lt, h) = (omega (arith, lt), below_suc n ks h)

module _ {B P M : Type 0} (l : LoadBalancer B) (r : Reflection P M) where
  -- The running timers are those of the outstanding calls, whose ids are distinct and were taken; every
  -- backend is connected; and `connected_` says whether there is a connection.
  abbrev pub Inv : Channel B P M → Type 0
  Inv c =
      (c.timers ≡ keys c.outstandings)
      × Once (keys c.outstandings)
      × All (λ k. k < c.next_id) (keys c.outstandings)
      × l.IsValid c.balancer
      × ((x : ℕ) → has x (l.backends c.balancer) ≡ true → has x c.connections ≡ true)
      × (c.connected ≡ not (is_nil c.connections))

  pub start_call-Inv :
      (call : OutstandingCall P) (c : Channel B P M)
      → Inv c
      → Inv (start_call l r call c.next_id (record c { next_id = suc c.next_id }))
  unfolding start_call
  start_call-Inv call c (timers, distinct, below, valid, backed, match) =
      let new = above_absent c.next_id c.outstandings below in
      let same : erase_key c.next_id c.outstandings ≡ c.outstandings =
        erase_key_absent c.next_id c.outstandings new in
      let ks : keys (assign c.next_id call c.outstandings) ≡ keys c.outstandings ++ c.next_id ∷ [] =
        ap (λ m. keys (m ++ (c.next_id, call) ∷ [])) same
        ∙ keys-append c.outstandings ((c.next_id, call) ∷ []) in
      (
        ap (λ ts. ts ++ c.next_id ∷ []) timers ∙ sym ks,
        subst Once (sym ks) (Once-append_new c.next_id (keys c.outstandings) new distinct),
        subst (All (λ k. k < suc c.next_id)) (sym ks) (
            All-append (λ k. k < suc c.next_id) (keys c.outstandings) (c.next_id ∷ [])
              (below_suc c.next_id (keys c.outstandings) below) (omega arith, tt)),
        valid,
        backed,
        match,
      )

  -- What sending leaves alone.
  abbrev pub Frame : Channel B P M → Channel B P M → Type 0
  Frame c c' =
      (c'.outstandings ≡ c.outstandings)
      × (c'.answers ≡ c.answers)
      × (c'.connections ≡ c.connections)
      × (l.backends c'.balancer ≡ l.backends c.balancer)

  pub send_in_loop-Inv :
      (m : RpcMessage) (c : Channel B P M)
      → Inv c
      → IfReturns (send_in_loop l r m c) (λ c'. Inv c' × Frame c c')
  unfolding send_in_loop
  send_in_loop-Inv m c (timers, distinct, below, valid, backed, match) =
      elim (Option-cases (l.next_backend c.balancer)) [
        | inl n ↦ rw (n) tt
        | inr ((a, b), e) ↦
            let (there, same, valid') = l.next_lem c.balancer a b valid e in
            rw (e, backed a there)
              (serialized_keeps r.wire m (record c { balancer = b; sent = c.sent ++ (a, m) ∷ [] })
                (λ c'. Inv c' × Frame c c')
                (
                  (
                    timers,
                    distinct,
                    below,
                    valid',
                    (λ x h. backed x (subst (λ bs. has x bs ≡ true) same h)),
                    match,
                  ),
                  (refl, refl, refl, same),
                ))
      ]

  pub send_in_loop_there :
      (m : RpcMessage) (c : Channel B P M)
      → Inv c
      → l.backends c.balancer ≢ []
      → Fits r.wire m
      → send_in_loop l r m c ≢ none
  unfolding send_in_loop
  send_in_loop_there m c (timers, distinct, below, valid, backed, match) some_backend fits e =
      elim (Option-cases (l.next_backend c.balancer)) [
        | inl n ↦ l.next_there c.balancer valid some_backend n
        | inr ((a, b), q) ↦
            let (there, same, valid') = l.next_lem c.balancer a b valid q in
            let f : ◌≡◌ {A = Option (Channel B P M)}
                (some (record c { balancer = b; sent = c.sent ++ (a, m) ∷ [] })) none =
              rw
                (
                  q,
                  backed a there,
                  serialized_there r.wire m
                      (record c { balancer = b; sent = c.sent ++ (a, m) ∷ [] }) fits,
                )
                at (e) in
            cc
      ]

  pub send_all-Inv :
      (ms : List (ℕ × RpcMessage)) (c : Channel B P M)
      → Inv c
      → IfReturns (send_all l r ms c) (λ c'. Inv c' × Frame c c')
  unfolding send_all
  send_all-Inv [] c v = (v, (refl, refl, refl, refl))
  send_all-Inv ((id, m) ∷ ms) c v =
      IfReturns->>= (λ c'. Inv c' × Frame c c') (λ c'. Inv c' × Frame c c') (send_in_loop l r m c)
        (λ c'. send_all l r ms c') (send_in_loop-Inv m c v)
        (λ c1 (v1, (o1, a1, n1, b1)).
          IfReturns-map (λ c'. Inv c' × Frame c1 c') (λ c'. Inv c' × Frame c c')
            (send_all l r ms c1) (send_all-Inv ms c1 v1)
            (λ c2 (v2, (o2, a2, n2, b2)). (v2, (o2 ∙ o1, a2 ∙ a1, n2 ∙ n1, b2 ∙ b1))))

  pub send_all_there :
      (ms : List (ℕ × RpcMessage)) (c : Channel B P M)
      → Inv c
      → l.backends c.balancer ≢ []
      → All (λ e. Fits r.wire e.1) ms
      → Returns (send_all l r ms c) (λ c'. Inv c' × Frame c c')
  unfolding send_all
  send_all_there [] c v h fits = (v, (refl, refl, refl, refl))
  send_all_there ((id, m) ∷ ms) c v h fits =
      Returns->>= (λ c'. Inv c' × Frame c c') (λ c'. Inv c' × Frame c c') (send_in_loop l r m c)
        (λ c'. send_all l r ms c')
        (Returns-IfReturns (λ c'. Inv c' × Frame c c') (send_in_loop l r m c)
          (send_in_loop-Inv m c v) (send_in_loop_there m c v h fits.0))
        (λ c1 (v1, (o1, a1, n1, b1)).
          Returns-map (λ c'. Inv c' × Frame c1 c') (λ c'. Inv c' × Frame c c') (send_all l r ms c1)
            (send_all_there ms c1 v1 (λ q. h (sym b1 ∙ q)) fits.1)
            (λ c2 (v2, (o2, a2, n2, b2)). (v2, (o2 ∙ o1, a2 ∙ a1, n2 ∙ n1, b2 ∙ b1))))

  pub take_call-Inv : (id : ℕ) (c : Channel B P M) → Inv c → Inv (take_call l r id c)
  unfolding take_call
  take_call-Inv id c (timers, distinct, below, valid, backed, match) = (
    ap (λ ts. without id ts) timers ∙ without-keys id c.outstandings,
    erase_key-Once id c.outstandings distinct,
    All-keys-erase_key (λ k. k < c.next_id) id c.outstandings below,
    valid,
    backed,
    match,
  )

  released_backed :
      (a : ℕ) (c : Channel B P M)
      → Inv c
      → (x : ℕ) → has x (l.backends (l.release_backend a c.balancer)) ≡ true
      → not (a == x) && has x c.connections ≡ true
  released_backed a c (timers, distinct, below, valid, backed, match) x h =
      let q : not (a == x) && has x (l.backends c.balancer) ≡ true =
        sym (l.release_has a x c.balancer valid) ∙ h in
      ground (arith, q, backed x)

  pub run_callback-Inv :
      (k : Callback) (t : Controller) (m : Option M) (c : Channel B P M)
      → Inv c
      → Inv (run_callback l r k t m c)
  unfolding run_callback on_heart_beat_response
  run_callback-Inv (user n) t m c v = v
  run_callback-Inv (heart_beat a) t m c (timers, distinct, below, valid, backed, match) =
      elim (Bool-cases (has_failed t || not (status_ok l r m))) [
        | inl e ↦ rw (e) (
          timers,
          distinct,
          below,
          l.release_valid a c.balancer valid,
          (λ x h.
              ground
                (arith, released_backed a c (timers, distinct, below, valid, backed, match) x h)),
          match,
        )
        | inr e ↦ rw (e) (timers, distinct, below, valid, backed, match)
      ]

  pub complete-Inv :
      (k : Callback) (t : Controller) (p : Bool × M) (c : Channel B P M)
      → Inv c
      → Inv (complete l r k t p c)
  unfolding complete
  complete-Inv k t (true, m) c v = run_callback-Inv k t (some m) c v
  complete-Inv k t (false, m) c v = run_callback-Inv k (set_failed parse_fail t) (some m) c v

  pub finish-Inv :
      (p : Option P) (a : ℕ) (m : RpcMessage) (call : OutstandingCall P) (c : Channel B P M)
      → Inv c
      → Inv (finish l r p a m call c)
  unfolding finish
  finish-Inv none a m call c v = v
  finish-Inv (some p) a m call c v =
      complete-Inv call.callback (note_error l r m call.controller)
        (r.parse_from_string p (bytes_of l r m.response)) c v

  pub on_response_of-Inv :
      (t : MessageType) (o : Option (List ℕ)) (a : ℕ) (m : RpcMessage) (c : Channel B P M)
      → Inv c
      → Inv (on_response_of l r t o a m c)
  unfolding on_response_of refuse respond
  on_response_of-Inv request_type o a m c v = v
  on_response_of-Inv response_type none a m c v = v
  on_response_of-Inv response_type (some xs) a m c v = go (find m.id c.outstandings)
    where
      go : (o : Option (OutstandingCall P)) → Inv (respond l r o a m c)
      go none = v
      go (some call) =
          finish-Inv call.response_prototype a m call (take_call l r m.id c)
            (take_call-Inv m.id c v)

  pub time_out-Inv :
      (o : Option (OutstandingCall P)) (id : ℕ) (c : Channel B P M)
      → Inv c
      → IfReturns (time_out l r o id c) Inv
  unfolding time_out
  time_out-Inv none id c v = tt
  time_out-Inv (some call) id c v =
      run_callback-Inv call.callback (set_failed request_timeout call.controller) none
        (record (take_call l r id c) { pending_requests = erase_key id c.pending_requests })
        (take_call-Inv id c v)

  pub on_disconnected-Inv : (a : ℕ) (c : Channel B P M) → Inv c → Inv (on_disconnected l r a c)
  unfolding on_disconnected
  on_disconnected-Inv a c (timers, distinct, below, valid, backed, match) = (
    timers,
    distinct,
    below,
    l.release_valid a c.balancer valid,
    (λ x h.
        has-without x a c.connections
        ∙ released_backed a c (timers, distinct, below, valid, backed, match) x h),
    refl,
  )

  -- A connection whose headers came, before the pending requests go.
  abbrev pub joined : ℕ → Channel B P M → Channel B P M
  joined a c = record c {
    connections = with_new a c.connections;
    balancer = l.add_backend a c.balancer;
    connected = true;
  }

  pub joined-Inv : (a : ℕ) (c : Channel B P M) → Inv c → Inv (joined a c)
  joined-Inv a c (timers, distinct, below, valid, backed, match) = (
    timers,
    distinct,
    below,
    l.add_valid a c.balancer valid,
    (λ x h.
        let q : (a == x || has x (l.backends c.balancer)) ≡ true =
          sym (l.add_has a x c.balancer valid) ∙ h in
        has-with_new x a c.connections ∙ ground (arith, q, backed x)),
    rw (is_nil-with_new a c.connections) refl,
  )

  pub joined_backend : (a : ℕ) (c : Channel B P M) → Inv c → l.backends (joined a c).balancer ≢ []
  joined_backend a c (timers, distinct, below, valid, backed, match) e =
      let h : has a (l.backends (l.add_backend a c.balancer)) ≡ true =
        l.add_has a a c.balancer valid ∙ rw (==_self a) refl in
      let f : has a [] ≡ true = subst (λ bs. has a bs ≡ true) e h in cc

  pub on_headers_lem :
      (ok : Bool) (a : ℕ) (c : Channel B P M)
      → Inv c
      → IfReturns
          (on_headers l r ok a c)
          (λ c'. Inv c' × (c'.outstandings ≡ c.outstandings) × (c'.answers ≡ c.answers))
  unfolding on_headers dispatch_pending_request
  on_headers_lem false a c v = (v, refl, refl)
  on_headers_lem true a c v = elim (Bool-cases (is_nil c.pending_requests)) [
    | inl e ↦ rw (e) (joined-Inv a c v, refl, refl)
    | inr e ↦
        let h =
          send_all-Inv c.pending_requests (record (joined a c) { pending_requests = [] })
            (joined-Inv a c v) in
        rw (e) (
          IfReturns-map (λ c'. Inv c' × Frame (joined a c) c')
            (λ c'. Inv c' × (c'.outstandings ≡ c.outstandings) × (c'.answers ≡ c.answers)) _ h
            (λ c' (v', f). (v', f.0, f.1)))
  ]

  pub hand_over-Inv :
      (up b : Bool) (m : RpcMessage) (c : Channel B P M)
      → Inv c
      → IfReturns (hand_over l r up b m c) (λ c'. Inv c' × Frame c c')
  unfolding hand_over add_pending_request
  hand_over-Inv false b m c v = (v, (refl, refl, refl, refl))
  hand_over-Inv true false m c v = (v, (refl, refl, refl, refl))
  hand_over-Inv true true m c v = send_in_loop-Inv m c v

  pub hand_over_there :
      (up b : Bool) (m : RpcMessage) (c : Channel B P M)
      → Inv c
      → (up ≡ true → l.backends c.balancer ≢ [])
      → Fits r.wire m
      → hand_over l r up b m c ≢ none
  unfolding hand_over
  hand_over_there false b m c v h fits e = cc
  hand_over_there true false m c v h fits e = cc
  hand_over_there true true m c v h fits e = send_in_loop_there m c v (h refl) fits e

  pub run_next-Inv :
      (ms : List RpcMessage) (c : Channel B P M)
      → Inv c
      → IfReturns (run_next l r ms c) (λ c'. Inv c' × Frame c c')
  unfolding run_next
  run_next-Inv [] c v = (v, (refl, refl, refl, refl))
  run_next-Inv (m ∷ ms) c v = send_in_loop-Inv m (record c { posted = ms }) v
