-- ===== src/Rpc/Server/Runs.antt =====
-- Any sequence of what happens to the server.
use claire.Prelude.{
  ℕ, suc, ◌+◌, ◌≡◌, ◌≢◌, refl, Bool, true, false, List, [], ◌∷◌, Option, none, some, arith, All,
  length, look_up, Returns, Returns->>=, Returns-map, Returns-IfReturns, IfReturns,
}
use claire.Rpc.Message.{ErrorCode}
use claire.Rpc.Controller.{Controller, has_failed, is_success, set_failed}
use claire.Rpc.Server.{
  send_response, Library, Context, Running, Server, new_server, Reply, fails, forms_page,
  methods_page, json, StatusCode, bad_request, method_not_allowed, internal_server_error,
  register_service, answer_request, on_request_complete, fail_request, call_parsed, call_found,
  call_service, call_requested, on_request, on_form, form_page, reply, on_json, json_service,
  json_found, json_parsed, reply_json, complete_json, on_json_complete, fill_context, good_response,
  bad_response, text_or_empty, failed_with,
}
use claire.Rpc.Server.Counts.{
  take_at, answers, failures, completes_method, is_server_error, completed, server_errors, Proper,
  completed-append, server_errors-append, runs, runs-take_at,
}
use claire.Rpc.Server.Accounts.{
  Operation, requests, completes, gets_form, gets_json, completes_json, registers, asked, asked_all,
  complete_taken, complete_json_taken, step, run, Accounts, on_request_complete-Accounts,
  on_request-Accounts,
}
use claire.Rpc.Server.Checks.{
  Decided, on_request_there, complete_taken_there, complete_json_taken_there,
}

module _ {K M : Type 0} (lib : Library K M) (name : ErrorCode → List ℕ) where
  -- A reply to a browser counts as a completed method where it completes one.
  reply-Accounts :
      (a : ℕ) (x : Reply) (n : ℕ → ℕ → ℕ) (s : Server K M)
      → completes_method x ≡ 0
      → is_server_error x ≡ 0
      → Accounts lib name none n s
      → Accounts lib name none n (reply lib name a x s)
  reply-Accounts a x n s e h (u, b, d, f, g) = (
    u,
    b,
    omega (arith, d, e, completed-append s.replies a x),
    omega (arith, f, h, server_errors-append s.replies a x),
    g,
  )

  on_form-Accounts :
      (get : Bool) (a : ℕ) (host service method : List ℕ) (n : ℕ → ℕ → ℕ) (s : Server K M)
      → Accounts lib name none n s
      → Accounts lib name none n (on_form lib name get a host service method s)
  unfolding on_form form_page
  on_form-Accounts false a host service method n s v =
      reply-Accounts a (fails method_not_allowed claire.Rpc.Server.only_get) n s refl refl v
  on_form-Accounts true a host service method n s v =
      let x = form_page lib name host service method in
      let (p, q) = harmless service method in reply-Accounts a x n s p q v
    where
      harmless :
          (xs ys : List ℕ)
          → (completes_method (form_page lib name host xs ys) ≡ 0)
            × (is_server_error (form_page lib name host xs ys) ≡ 0)
      harmless [] [] = (refl, refl)
      harmless [] (y ∷ ys) = (refl, refl)
      harmless (x ∷ xs) [] = (refl, refl)
      harmless (x ∷ xs) (y ∷ ys) = (refl, refl)

  on_json-Accounts :
      (post : Bool) (a : ℕ) (service method body : List ℕ) (n : ℕ → ℕ → ℕ) (s : Server K M)
      → Accounts lib name none n s
      → Accounts lib name none n (on_json lib name post a service method body s)
  unfolding on_json json_service json_found json_parsed
  on_json-Accounts false a service method body n s v =
      reply-Accounts a (fails method_not_allowed claire.Rpc.Server.only_post) n s refl refl v
  on_json-Accounts true a service method body n s v = by_service (look_up service s.services)
    where
      by_body :
          (k : ℕ) (m : K) (o : Option M) → Accounts lib name none n (json_parsed lib name a k m o s)
      by_body k m none =
          reply-Accounts a (fails bad_request claire.Rpc.Server.bad_json) n s refl refl v
      by_body k m (some q) = v

      by_method :
          (k : ℕ) (o : Option K) → Accounts lib name none n (json_found lib name a k o body s)
      by_method k none =
          reply-Accounts a (fails bad_request claire.Rpc.Server.invalid_method_name) n s refl refl v
      by_method k (some m) = by_body k m (lib.parse_from_json k m body)

      by_service :
          (o : Option ℕ) → Accounts lib name none n (json_service lib name a o method body s)
      by_service none =
          reply-Accounts a (fails bad_request claire.Rpc.Server.invalid_service_name) n s refl refl
            v
      by_service (some k) = by_method k (lib.find_method_by_name k method)

  reply_json-Accounts :
      (a : ℕ) (o : Option (List ℕ)) (n : ℕ → ℕ → ℕ) (s : Server K M)
      → Accounts lib name none n s
      → Accounts lib name none n
          (reply_json lib name a o (record s { total_request = suc s.total_request }))
  unfolding reply_json
  reply_json-Accounts a (some text) n s (u, b, d, f, g) = (
    u,
    b,
    omega (arith, d, completed-append s.replies a (json text)),
    omega (arith, f, server_errors-append s.replies a (json text)),
    g,
  )
  reply_json-Accounts a none n s (u, b, d, f, g) =
      let x = fails internal_server_error claire.Rpc.Server.bad_response_json in
      (
        u,
        b,
        omega (arith, d, completed-append s.replies a x),
        omega (arith, f, server_errors-append s.replies a x),
        g,
      )

  complete_json-Accounts :
      (failed : Bool) (a : ℕ) (t : Controller) (response : Option M) (n : ℕ → ℕ → ℕ)
      (s : Server K M)
      → Accounts lib name none n s
      → IfReturns
          (complete_json lib name failed a t response
            (record s { total_request = suc s.total_request }))
          (Accounts lib name none n)
  unfolding complete_json
  complete_json-Accounts true a t response n s (u, b, d, f, g) =
      let x = fails internal_server_error (failed_with (claire.Rpc.Controller.error_text name t)) in
      (
        u,
        b,
        omega (arith, d, completed-append s.replies a x),
        omega (arith, f, server_errors-append s.replies a x),
        g,
      )
  complete_json-Accounts false a t none n s v = tt
  complete_json-Accounts false a t (some response) n s v =
      reply_json-Accounts a (lib.serialize_to_json response) n s v

  zero_more :
      (n : ℕ → ℕ → ℕ) (s : Server K M)
      → Accounts lib name none n s
      → Accounts lib name none (λ c i. n c i + 0) s
  zero_more n s (u, b, d, f, g) = ((λ c i. omega (arith, u c i)), b, d, f, g)

  pub step-Accounts :
      (o : Operation M) (n : ℕ → ℕ → ℕ) (s : Server K M)
      → Accounts lib name none n s
      → IfReturns (step lib name o s) (Accounts lib name none (λ c i. n c i + asked c i o))
  unfolding step
  step-Accounts (requests a m) n s v = on_request-Accounts lib name a m n s v
  step-Accounts (completes k t response) n s v = go (take_at k s.running) refl
    where
      go :
          (o : Option (Running K M × List (Running K M)))
          → take_at k s.running ≡ o
          → IfReturns
              (complete_taken lib name o t response s)
              (Accounts lib name none (λ c i. n c i + 0))
      go none e = zero_more n s v
      go (some (x, xs)) e =
          on_request_complete-Accounts lib name x.context t response (λ c i. n c i + 0)
            (record s { running = xs })
            (
              (λ c i. omega (arith, v.0 c i, (runs-take_at c i k s.running x xs e).0)),
              v.1,
              omega (arith, v.2, (runs-take_at 0 0 k s.running x xs e).1),
              v.3,
              v.4,
            )
  step-Accounts (gets_form get a host service method) n s v =
      zero_more n (on_form lib name get a host service method s)
        (on_form-Accounts get a host service method n s v)
  step-Accounts (gets_json post a service method body) n s v =
      zero_more n (on_json lib name post a service method body s)
        (on_json-Accounts post a service method body n s v)
  step-Accounts (completes_json k t response) n s v = go (take_at k s.running_json)
    where
      go :
          (o : Option (Running K M × List (Running K M)))
          → IfReturns
              (complete_json_taken lib name o t response s)
              (Accounts lib name none (λ c i. n c i + 0))
      go none = zero_more n s v
      go (some (x, xs)) =
          unfold on_json_complete in
          complete_json-Accounts (has_failed t) x.context.connection_id t response
            (λ c i. n c i + 0) (record s { running_json = xs })
            (zero_more n (record s { running_json = xs }) v)
  step-Accounts (registers k) n s v =
      unfold register_service in
      zero_more n (record s { services = (register_service lib name k s).services }) v

  step_total :
      (o : Operation M) (n : ℕ → ℕ → ℕ) (s : Server K M)
      → Decided lib name o
      → Accounts lib name none n s
      → Returns (step lib name o s) (Accounts lib name none (λ c i. n c i + asked c i o))
  step_total o n s h v =
      Returns-IfReturns (Accounts lib name none (λ c i. n c i + asked c i o)) (step lib name o s)
        (step-Accounts o n s v) (there o h)
    where
      there : (o : Operation M) → Decided lib name o → step lib name o s ≢ none
      there (requests a m) h = unfold step in on_request_there lib name a m s h
      there (completes k t response) h =
          unfold step in complete_taken_there lib name (take_at k s.running) t response s h
      there (gets_form get a host service method) h = unfold step in λ e. cc
      there (gets_json post a service method body) h = unfold step in λ e. cc
      there (completes_json k t response) h =
          unfold step in
          complete_json_taken_there lib name (take_at k s.running_json) t response s h
      there (registers k) h = unfold step in λ e. cc

  run-Accounts :
      (os : List (Operation M)) (n : ℕ → ℕ → ℕ) (s : Server K M)
      → All (Decided lib name) os
      → Accounts lib name none n s
      → Returns (run lib name os s) (Accounts lib name none (λ c i. n c i + asked_all c i os))
  unfolding run
  run-Accounts [] n s h v = zero_more n s v
  run-Accounts (o ∷ os) n s (h, hs) v =
      Returns->>= (Accounts lib name none (λ c i. n c i + asked c i o))
        (Accounts lib name none (λ c i. n c i + (asked c i o + asked_all c i os)))
        (step lib name o s) (λ s'. run lib name os s') (step_total o n s h v)
        (λ s1 w.
          Returns-map (Accounts lib name none (λ c i. n c i + asked c i o + asked_all c i os))
            (Accounts lib name none (λ c i. n c i + (asked c i o + asked_all c i os)))
            (run lib name os s1) (run-Accounts os (λ c i. n c i + asked c i o) s1 hs w)
            (λ s2 (u, b, d, f, g). ((λ c i. omega (arith, u c i)), b, d, f, g)))

  abbrev pub Balanced : List (Operation M) → Server K M → Type 0
  Balanced os s =
      ((c i : ℕ) → answers c i s.sent + runs c i s.running ≡ asked_all c i os)
      × (s.total_response ≡ length s.sent)
      × (s.total_request ≡ length s.sent + length s.running + completed s.replies)
      × (s.failed_request ≡ failures s.sent + server_errors s.replies)
      × All (λ e. Proper e.1) s.sent

  -- A new server, after any requests, completed methods and calls of browsers in any order, where a
  -- method that has not failed gives a response, and where the responses, and the errors that a request
  -- may be answered with, are shorter than the codec's limit: the server does not abort. Of each
  -- connection and id, as many responses were sent as requests came, less those whose method still runs;
  -- every response has its bytes or an error, never both; and the counters count what they say: the
  -- responses, the requests with the methods that browsers completed, and the failures of both.
  pub run_lem :
      (os : List (Operation M))
      → All (Decided lib name) os
      → Returns (run lib name os (new_server lib name)) (Balanced os)
  run_lem os h =
      Returns-map (Accounts lib name none (λ c i. 0 + asked_all c i os)) (Balanced os)
        (run lib name os (new_server lib name))
        (run-Accounts os (λ c i. 0) (new_server lib name) h ((λ c i. refl), refl, refl, refl, tt))
        (λ s (u, b, d, f, g). ((λ c i. omega (arith, u c i)), b, omega (arith, d), f, g))
