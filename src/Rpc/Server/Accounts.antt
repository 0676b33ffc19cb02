-- ===== src/Rpc/Server/Accounts.antt =====
-- The server's accounts of requests, running methods, and responses.
use claire.Prelude.{
  IfReturns->>=, sym, subst, ℕ, suc, ◌+◌, ◌≡◌, refl, ap, Bool, true, false, List, [], ◌∷◌, ◌++◌,
  Option, none, some, ◌>>=◌, arith, All, All-append, length, length-append, look_up, IfReturns,
}
use claire.Rpc.Message.{
  RpcMessage, ErrorCode, invalid_request, invalid_service, invalid_method, parse_fail,
}
use claire.Rpc.Codec.{serialized}
use claire.Rpc.Codec.Serialized.{serialized_keeps}
use claire.Rpc.Controller.{Controller, has_failed, is_success, set_failed}
use claire.Rpc.Server.{
  send_response, Library, Context, Running, Server, register_service, answer_request,
  on_request_complete, fail_request, call_parsed, call_found, call_service, call_requested,
  on_request, on_form, on_json, on_json_complete, fill_context, good_response, bad_response,
  text_or_empty,
}
use claire.Rpc.Server.Counts.{
  take_at, one, concerns, answers, is_failure, failures, completed, server_errors, Proper,
  answers-append, failures-append, runs, runs-append,
}

-- What happens to the server: a request comes, a method completes by its place in the list of those that
-- run, with the controller and the response that it gives, and the same of browsers; a service is
-- registered.
pub data Operation (M : Type 0) : Type 0 where
  requests : ℕ → RpcMessage → Operation M
  completes : ℕ → Controller → Option M → Operation M
  gets_form : Bool → ℕ → List ℕ → List ℕ → List ℕ → Operation M
  gets_json : Bool → ℕ → List ℕ → List ℕ → List ℕ → Operation M
  completes_json : ℕ → Controller → Option M → Operation M
  registers : ℕ → Operation M

abbrev pub asked : {M : Type 0} → ℕ → ℕ → Operation M → ℕ
asked c i (requests a m) = one (concerns c i a m.id)
asked c i _ = 0

abbrev pub asked_all : {M : Type 0} → ℕ → ℕ → List (Operation M) → ℕ
asked_all c i [] = 0
asked_all c i (o ∷ os) = asked c i o + asked_all c i os

module _ {K M : Type 0} (lib : Library K M) (name : ErrorCode → List ℕ) where
  abbrev pub complete_taken :
      Option (Running K M × List (Running K M))
      → Controller
      → Option M
      → Server K M
      → Option (Server K M)
  complete_taken none t response s = some s
  complete_taken (some (x, xs)) t response s =
      on_request_complete lib name x.context t response (record s { running = xs })

  abbrev pub complete_json_taken :
      Option (Running K M × List (Running K M))
      → Controller
      → Option M
      → Server K M
      → Option (Server K M)
  complete_json_taken none t response s = some s
  complete_json_taken (some (x, xs)) t response s =
      on_json_complete lib name x.context.connection_id t response (record s { running_json = xs })

  unfoldable pub step : Operation M → Server K M → Option (Server K M)
  step (requests a m) s = on_request lib name a m s
  step (completes n t response) s = complete_taken (take_at n s.running) t response s
  step (gets_form get a host service method) s = some (on_form lib name get a host service method s)
  step (gets_json post a service method body) s =
      some (on_json lib name post a service method body s)
  step (completes_json n t response) s = complete_json_taken (take_at n s.running_json) t response s
  step (registers x) s = some (register_service lib name x s)

  unfoldable pub run : List (Operation M) → Server K M → Option (Server K M)
  run [] s = some s
  run (o ∷ os) s = step o s >>= λ s'. run os s'

  abbrev pub owed : Option Context → ℕ → ℕ → ℕ
  owed none c i = 0
  owed (some x) c i = one (concerns c i x.connection_id x.id)

  abbrev pub owed_count : Option Context → ℕ
  owed_count none = 0
  owed_count (some x) = 1

  -- The server's accounts, where requests were made so often, and where one of those is being answered.
  abbrev pub Accounts : Option Context → (ℕ → ℕ → ℕ) → Server K M → Type 0
  Accounts o n s =
      ((c i : ℕ) → answers c i s.sent + runs c i s.running + owed o c i ≡ n c i)
      × (s.total_response ≡ length s.sent)
      × (s.total_request ≡ length s.sent + length s.running + completed s.replies + owed_count o)
      × (s.failed_request ≡ failures s.sent + server_errors s.replies)
      × All (λ e. Proper e.1) s.sent

  -- The response that is owed is sent.
  sent_Accounts :
      (x : Context) (m : RpcMessage) (n : ℕ → ℕ → ℕ) (s : Server K M)
      → m.id ≡ x.id
      → Proper m
      → Accounts (some x) n s
      → ((c i : ℕ)
          → answers c i (s.sent ++ (x.connection_id, m) ∷ []) + runs c i s.running + 0 ≡ n c i)
        × (suc s.total_response ≡ length (s.sent ++ (x.connection_id, m) ∷ []))
        × (s.total_request
            ≡ length (s.sent ++ (x.connection_id, m) ∷ [])
              + length s.running
              + completed s.replies
              + 0)
        × (s.failed_request + is_failure m.error
            ≡ failures (s.sent ++ (x.connection_id, m) ∷ []) + server_errors s.replies)
        × All (λ e. Proper e.1) (s.sent ++ (x.connection_id, m) ∷ [])
  sent_Accounts x m n s e p (a, b, d, f, g) = (
    (λ c i. omega (
      arith,
      a c i,
      answers-append c i s.sent x.connection_id m,
      ap (λ j. one (concerns c i x.connection_id j)) e,
    )),
    omega (arith, b, length-append s.sent ((x.connection_id, m) ∷ [])),
    omega (arith, d, length-append s.sent ((x.connection_id, m) ∷ [])),
    omega (arith, f, failures-append s.sent x.connection_id m),
    All-append (λ e. Proper e.1) s.sent ((x.connection_id, m) ∷ []) g (p, tt),
  )

  answer_request-Accounts :
      (failed : Bool) (x : Context) (t : Controller) (response : Option M) (n : ℕ → ℕ → ℕ)
      (s : Server K M)
      → has_failed t ≡ failed
      → Accounts (some x) n s
      → IfReturns (answer_request lib name failed x t response s) (Accounts none n)
  unfolding answer_request send_response
  answer_request-Accounts true x t response n s e v =
      let success_not : is_success t.error ≡ false = ground (arith, e) in
      let (a, b, d, f, g) =
        sent_Accounts x (bad_response name x t) n s (unfold bad_response in refl)
          (unfold bad_response in (refl, success_not)) v in
      let m = bad_response name x t in
      let s1 : Server K M = record s {
        sent = s.sent ++ (x.connection_id, m) ∷ [];
        total_response = suc s.total_response;
      } in
      IfReturns->>= (λ s'. s' ≡ s1) (Accounts none n) (serialized lib.wire m s1)
        (λ s'. some (record s' { failed_request = suc s'.failed_request }))
        (serialized_keeps lib.wire m s1 (λ s'. s' ≡ s1) refl)
        (λ s' q.
          subst (λ y. Accounts none n (record y { failed_request = suc y.failed_request })) (sym q)
            (a, b, d, unfold bad_response in omega (arith, f), g))
  answer_request-Accounts false x t none n s e v = tt
  answer_request-Accounts false x t (some response) n s e v =
      let (a, b, d, f, g) =
        sent_Accounts x (good_response x t (lib.serialize_as_string response)) n s
          (unfold good_response in refl) (unfold good_response in (refl, tt)) v in
      let m = good_response x t (lib.serialize_as_string response) in
      serialized_keeps lib.wire m
        (record s {
          sent = s.sent ++ (x.connection_id, m) ∷ [];
          total_response = suc s.total_response;
        })
        (Accounts none n) (a, b, d, unfold good_response in omega (arith, f), g)

  pub on_request_complete-Accounts :
      (x : Context) (t : Controller) (response : Option M) (n : ℕ → ℕ → ℕ) (s : Server K M)
      → Accounts (some x) n s
      → IfReturns (on_request_complete lib name x t response s) (Accounts none n)
  unfolding on_request_complete
  on_request_complete-Accounts x t response n s v =
      answer_request-Accounts (has_failed t) x t response n s refl v

  -- An error is answered at once.
  fail_request-Accounts :
      (e : ErrorCode) (x : Context) (t : Controller) (n : ℕ → ℕ → ℕ) (s : Server K M)
      → is_success e ≡ false
      → Accounts (some x) n s
      → IfReturns (fail_request lib name e x t s) (Accounts none n)
  unfolding fail_request
  fail_request-Accounts e x t n s h v = on_request_complete-Accounts x (set_failed e t) none n s v

  call_parsed-Accounts :
      (service : ℕ) (method : K) (p : Bool × M) (x : Context) (t : Controller) (n : ℕ → ℕ → ℕ)
      (s : Server K M)
      → Accounts (some x) n s
      → IfReturns (call_parsed lib name service method p x t s) (Accounts none n)
  unfolding call_parsed
  call_parsed-Accounts service method (false, q) x t n s v =
      fail_request-Accounts parse_fail x t n s refl v
  call_parsed-Accounts service method (true, q) x t n s (a, b, d, f, g) =
      let y : Running K M = record {
        context = x;
        controller = t;
        service = service;
        method = method;
        request = q;
      } in
      (
        (λ c i. omega (arith, a c i, runs-append c i s.running y)),
        b,
        omega (arith, d, length-append s.running (y ∷ [])),
        f,
        g,
      )

  pub on_request-Accounts :
      (a : ℕ) (m : RpcMessage) (n : ℕ → ℕ → ℕ) (s : Server K M)
      → Accounts none n s
      → IfReturns
          (on_request lib name a m s)
          (Accounts none (λ c i. n c i + one (concerns c i a m.id)))
  unfolding on_request fill_context call_requested call_service call_found
  on_request-Accounts a m n s (u, b, d, f, g) = by_request m.request
    where
      x : Context
      x = record { id = m.id; connection_id = a }

      n' : ℕ → ℕ → ℕ
      n' c i = n c i + one (concerns c i a m.id)

      s' : Server K M
      s' = record s { total_request = suc s.total_request }

      v : Accounts (some x) n' s'
      v = ((λ c i. omega (arith, u c i)), b, omega (arith, d), f, g)

      t : Controller
      t = (fill_context a m).1

      by_method :
          (service : ℕ) (o : Option K) (bytes : List ℕ)
          → IfReturns (call_found lib name service o bytes x t s') (Accounts none n')
      by_method service none bytes = fail_request-Accounts invalid_method x t n' s' refl v
      by_method service (some k) bytes =
          call_parsed-Accounts service k (lib.parse_from_string service k bytes) x t n' s' v

      by_service :
          (o : Option ℕ) (bytes : List ℕ)
          → IfReturns
              (call_service lib name o (text_or_empty m.method) bytes x t s')
              (Accounts none n')
      by_service none bytes = fail_request-Accounts invalid_service x t n' s' refl v
      by_service (some k) bytes =
          by_method k (lib.find_method_by_name k (text_or_empty m.method)) bytes

      by_request :
          (o : Option (List ℕ)) → IfReturns (call_requested lib name o m x t s') (Accounts none n')
      by_request none = fail_request-Accounts invalid_request x t n' s' refl v
      by_request (some bytes) = by_service (look_up (text_or_empty m.service) s'.services) bytes
