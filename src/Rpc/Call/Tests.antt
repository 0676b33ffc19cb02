-- ===== src/Rpc/Call/Tests.antt =====
-- Tests of a whole call, and its theorems at concrete inputs.
use claire.Prelude.{ℕ, ◌≡◌, ap, arith, flatten, refl, List, [], ◌∷◌, ◌++◌, Option, none, some}
use claire.LoadBalancer.RoundRobin.{round_robin}
use claire.Rpc.Message.{auth_fail, RpcMessage}
use claire.Rpc.Controller.{Controller, new_controller, set_failed, error_text}
use claire.Rpc.Channel.{make_request, get_request_timeout}
use claire.Rpc.Channel.Tests.{plain_wire, bytes_reflection, echo, ready_channel}
use claire.Rpc.Server.{fill_context, good_response, bad_response}
use claire.Rpc.Server.Tests.{echo_library, echo_server, no_names}
use claire.Rpc.Codec.{compress_message}
use claire.Rpc.Codec.Send.{CanSend}
use claire.Rpc.Call.{
  request_of, reply_of, error_of, converse, Answered, Unheard, Ready, converse-Answered,
  converse-Unheard,
}

abbrev echoes : List ℕ → Controller → Controller × Option (List ℕ)
echoes q t = (t, some (q ++ q))

abbrev rejects : List ℕ → Controller → Controller × Option (List ℕ)
rejects q t = (set_failed auth_fail t, none)

ready_channel-Ready : Ready round_robin bytes_reflection echo_library no_names ready_channel
unfolding round_robin
ready_channel-Ready = ((refl, tt, tt, tt, (λ x h. h), refl), refl, (λ e. cc))

-- The bytes come one by one.
abbrev one_by_one : List ℕ → List (List ℕ)
one_by_one [] = []
one_by_one (x ∷ xs) = (x ∷ []) ∷ one_by_one xs

flatten-one_by_one : (xs : List ℕ) → flatten (one_by_one xs) ≡ xs
flatten-one_by_one [] = refl
flatten-one_by_one (x ∷ xs) = ap (λ ys. x ∷ ys) (flatten-one_by_one xs)

abbrev sent_request : RpcMessage
sent_request =
    request_of round_robin bytes_reflection echo_library no_names echo new_controller (7 ∷ [])
      ready_channel

sent_request-CanSend : CanSend plain_wire sent_request
unfolding compress_message make_request
sent_request-CanSend = record {
  packs = tt;
  sendable = record { reads_back = refl; short = omega arith };
}

sent_reply-CanSend : CanSend plain_wire (
    reply_of round_robin bytes_reflection echo_library no_names 4 echo new_controller new_controller
      (7 ∷ [])
      ready_channel
      (7 ∷ 7 ∷ []))
unfolding compress_message make_request good_response fill_context
sent_reply-CanSend = record {
  packs = tt;
  sendable = record { reads_back = refl; short = omega arith };
}

sent_error-CanSend : CanSend plain_wire (
    error_of round_robin bytes_reflection echo_library no_names 4 echo new_controller
      (set_failed auth_fail new_controller)
      (7 ∷ [])
      ready_channel)
unfolding compress_message make_request bad_response fill_context error_text
sent_error-CanSend = record {
  packs = tt;
  sendable = record { reads_back = refl; short = omega arith };
}

converse-Answered_example :
    Answered round_robin bytes_reflection echo_library no_names new_controller 1
      (7 ∷ 7 ∷ [])
      ready_channel
      (converse round_robin bytes_reflection echo_library no_names one_by_one echoes 4 echo
        new_controller
        (7 ∷ [])
        5
        1
        ready_channel
        echo_server)
unfolding fill_context make_request get_request_timeout
converse-Answered_example =
    converse-Answered round_robin bytes_reflection echo_library no_names one_by_one echoes 4 echo
      new_controller 7 [] 5 1 ready_channel echo_server 3 8 (7 ∷ []) new_controller (7 ∷ 7 ∷ [])
      (7 ∷ 7 ∷ []) ready_channel-Ready (refl, refl, refl) refl refl refl refl refl
      flatten-one_by_one sent_request-CanSend sent_reply-CanSend

converse-Unheard_example :
    Unheard round_robin bytes_reflection echo_library no_names 4
      (set_failed auth_fail new_controller)
      ready_channel
      echo_server
      (converse round_robin bytes_reflection echo_library no_names one_by_one rejects 4 echo
        new_controller
        (7 ∷ [])
        5
        1
        ready_channel
        echo_server)
unfolding fill_context make_request get_request_timeout
converse-Unheard_example =
    converse-Unheard round_robin bytes_reflection echo_library no_names one_by_one rejects 4 echo
      new_controller 7 [] 5 1 ready_channel echo_server 3 8 (7 ∷ [])
      (set_failed auth_fail new_controller) none ready_channel-Ready (refl, refl, refl) refl refl
      refl refl flatten-one_by_one sent_request-CanSend sent_error-CanSend
