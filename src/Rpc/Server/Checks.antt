-- ===== src/Rpc/Server/Checks.antt =====
-- protorpc/RpcServer.cc: when no check fails.
use claire.Prelude.{
  sym, subst, ◌++◌, ℕ, suc, ◌≡◌, ◌≢◌, refl, Bool, true, false, List, [], ◌∷◌, Option, none, some,
  look_up,
}
use claire.Rpc.Message.{
  RpcMessage, ErrorCode, invalid_request, invalid_service, invalid_method, parse_fail,
}
use claire.Rpc.Codec.Serialized.{Fits, serialized_there}
use claire.Rpc.Controller.{Controller, has_failed, is_success, set_failed}
use claire.Rpc.Server.{
  send_response, Library, Context, Running, Server, answer_request, on_request_complete,
  fail_request, call_parsed, call_found, call_service, call_requested, on_request, complete_json,
  on_json_complete, fill_context, good_response, bad_response, text_or_empty,
}
use claire.Rpc.Server.Accounts.{
  Operation, requests, completes, completes_json, complete_taken, complete_json_taken,
}

module _ {K M : Type 0} (lib : Library K M) (name : ErrorCode → List ℕ) where
  -- The response to a request, where the method has failed and where it has not, is short enough for the
  -- codec.
  abbrev pub AnswerFits : Controller → Option M → Type 0
  AnswerFits t response =
      (has_failed t ≡ true → (x : Context) → Fits lib.wire (bad_response name x t))
      × (has_failed t ≡ false
          → (y : M) × (response ≡ some y)
            × ((x : Context) → Fits lib.wire (good_response x t (lib.serialize_as_string y))))

  -- A method that completes has failed or gives a response, as generated services do, and what is sent
  -- then is short enough; so is the error that a request may be answered with at once.
  abbrev pub Decided : Operation M → Type 0
  Decided (requests a m) =
      (e : ErrorCode)
      → Fits lib.wire (bad_response name (fill_context a m).0 (set_failed e (fill_context a m).1))
  Decided (completes k t response) = AnswerFits t response
  Decided (completes_json k t response) = (has_failed t ≡ false → response ≢ none)
  Decided _ = Unit

  pub send_response_there :
      (a : ℕ) (m : RpcMessage) (s : Server K M)
      → Fits lib.wire m
      → send_response lib name a m s
        ≡ some (record s { sent = s.sent ++ (a, m) ∷ []; total_response = suc s.total_response })
  unfolding send_response
  send_response_there a m s fits = serialized_there lib.wire m _ fits

  answer_request_there :
      (failed : Bool) (x : Context) (t : Controller) (response : Option M) (s : Server K M)
      → (failed ≡ true → Fits lib.wire (bad_response name x t))
      → (failed ≡ false
          → (y : M) × (response ≡ some y)
            × Fits lib.wire (good_response x t (lib.serialize_as_string y)))
      → answer_request lib name failed x t response s ≢ none
  unfolding answer_request
  answer_request_there true x t response s bad good =
      rw (send_response_there x.connection_id (bad_response name x t) s (bad refl)) (λ e. cc)
  answer_request_there false x t none s bad good = λ e. let (y, q, f) = good refl in cc
  answer_request_there false x t (some response) s bad good =
      let (y, q, f) = good refl in
      let same : response ≡ y = cc in
      let fits : Fits lib.wire (good_response x t (lib.serialize_as_string response)) =
        subst (λ z. Fits lib.wire (good_response x t (lib.serialize_as_string z))) (sym same) f in
      rw
        (send_response_there x.connection_id (good_response x t (lib.serialize_as_string response))
          s fits)
        (λ e. cc)

  fail_request_there :
      (e : ErrorCode) (x : Context) (t : Controller) (s : Server K M)
      → is_success e ≡ false
      → Fits lib.wire (bad_response name x (set_failed e t))
      → fail_request lib name e x t s ≢ none
  unfolding fail_request on_request_complete
  fail_request_there e x t s h fits =
      let go = answer_request_there true x (set_failed e t) none s (λ q. fits) (λ q. absurd (cc)) in
      rw (h) go

  call_parsed_there :
      (service : ℕ) (method : K) (p : Bool × M) (x : Context) (t : Controller) (s : Server K M)
      → ((e : ErrorCode) → Fits lib.wire (bad_response name x (set_failed e t)))
      → call_parsed lib name service method p x t s ≢ none
  unfolding call_parsed
  call_parsed_there service method (false, q) x t s fits =
      fail_request_there parse_fail x t s refl (fits parse_fail)
  call_parsed_there service method (true, q) x t s fits = λ e. cc

  pub on_request_there :
      (a : ℕ) (m : RpcMessage) (s : Server K M)
      → Decided (requests a m)
      → on_request lib name a m s ≢ none
  unfolding on_request call_requested call_service call_found
  on_request_there a m s fits = by_request m.request
    where
      x : Context
      x = (fill_context a m).0

      t : Controller
      t = (fill_context a m).1

      s' : Server K M
      s' = record s { total_request = suc s.total_request }

      by_method :
          (service : ℕ) (o : Option K) (bytes : List ℕ)
          → call_found lib name service o bytes x t s' ≢ none
      by_method service none bytes =
          fail_request_there invalid_method x t s' refl (fits invalid_method)
      by_method service (some k) bytes =
          call_parsed_there service k (lib.parse_from_string service k bytes) x t s' fits

      by_service :
          (o : Option ℕ) (bytes : List ℕ)
          → call_service lib name o (text_or_empty m.method) bytes x t s' ≢ none
      by_service none bytes = fail_request_there invalid_service x t s' refl (fits invalid_service)
      by_service (some k) bytes =
          by_method k (lib.find_method_by_name k (text_or_empty m.method)) bytes

      by_request : (o : Option (List ℕ)) → call_requested lib name o m x t s' ≢ none
      by_request none = fail_request_there invalid_request x t s' refl (fits invalid_request)
      by_request (some bytes) = by_service (look_up (text_or_empty m.service) s'.services) bytes

  complete_json_there :
      (failed : Bool) (a : ℕ) (t : Controller) (response : Option M) (s : Server K M)
      → (failed ≡ false → response ≢ none)
      → complete_json lib name failed a t response s ≢ none
  unfolding complete_json
  complete_json_there true a t response s h e = cc
  complete_json_there false a t none s h e = h refl refl
  complete_json_there false a t (some response) s h e = cc

  pub complete_taken_there :
      (o : Option (Running K M × List (Running K M))) (t : Controller) (response : Option M)
      (s : Server K M)
      → AnswerFits t response
      → complete_taken lib name o t response s ≢ none
  unfolding on_request_complete
  complete_taken_there none t response s h = λ e. cc
  complete_taken_there (some (x, xs)) t response s (bad, good) =
      answer_request_there (has_failed t) x.context t response (record s { running = xs })
        (λ q. bad q x.context) (λ q. let (y, e, f) = good q in (y, e, f x.context))

  pub complete_json_taken_there :
      (o : Option (Running K M × List (Running K M))) (t : Controller) (response : Option M)
      (s : Server K M)
      → (has_failed t ≡ false → response ≢ none)
      → complete_json_taken lib name o t response s ≢ none
  unfolding on_json_complete
  complete_json_taken_there none t response s h = λ e. cc
  complete_json_taken_there (some (x, xs)) t response s h =
      complete_json_there (has_failed t) x.context.connection_id t response
        (record s { running_json = xs; total_request = suc s.total_request }) h
