-- ===== src/Rpc/Server/Tests.antt =====
-- Tests of the server, and its theorem at a concrete input.
use claire.Prelude.{
  arith, ℕ, ◌≡◌, refl, Bool, true, ◌==◌, not, List, [], ◌∷◌, Option, none, some, ◌>>=◌, same,
  if◌then◌else◌, length, Returns,
}
use claire.Rpc.Message.{RpcMessage, request_type, ErrorCode, internal_error}
use claire.Buffer.{
  ensure_writable_bytes, writable_bytes, has_written, write_bytes, prepend_int32, prepend, be32,
  content, readable_bytes, prependable_bytes, peek, empty,
}
use claire.Rpc.Codec.{serialized, serialize_to_buffer, compress_message, add_header, bytes_checksum}
use claire.Rpc.Controller.{new_controller, set_failed}
use claire.Rpc.Channel.Tests.{plain_wire}
use claire.Rpc.Server.{
  send_response, Library, Server, new_server, register_service, on_request, on_request_complete,
  answer_request, fail_request, call_requested, call_service, call_found, call_parsed, fill_context,
  good_response, bad_response, form_page, Reply, methods_page, fails, bad_request, invalid_pair,
  service_names, becomes_rpc, rpc_service_path,
}
use claire.Rpc.Server.Accounts.{Operation, requests, completes, registers, step, run}
use claire.Rpc.Server.Runs.{Balanced, run_lem}

-- The service 3 is called "E", and has the method "e", which is 8.
abbrev find_e : List ℕ → Option ℕ
find_e name = if same name (101 ∷ []) then some 8 else none

abbrev parse_any : ℕ → ℕ → List ℕ → Bool × List ℕ
parse_any service k [] = (true, [])
parse_any service k (x ∷ xs) = (not (x == 0), x ∷ xs)

abbrev pub echo_library : Library ℕ (List ℕ)
echo_library = record {
  full_name = λ service. 69 ∷ [];
  find_method_by_name = λ service name. find_e name;
  parse_from_string = parse_any;
  parse_from_json = λ service k xs. some xs;
  serialize_as_string = λ xs. xs;
  serialize_to_json = λ xs. some xs;
  wire = plain_wire;
}

abbrev pub no_names : ErrorCode → List ℕ
no_names e = []

abbrev pub echo_server : Server ℕ (List ℕ)
echo_server = record (new_server echo_library no_names) { services = (69 ∷ [], 3) ∷ [] }

abbrev request_to : ℕ → List ℕ → List ℕ → RpcMessage
request_to id name xs = record {
  type = request_type;
  id = id;
  service = some name;
  method = some (101 ∷ []);
  request = some xs;
  response = none;
  error = none;
  reason = none;
  compress_type = none;
  trace_id = none;
}

-- Two requests that run, one to a service that is not there; the second completes, and the first fails.
abbrev some_operations : List (Operation (List ℕ))
some_operations =
    registers 3
    ∷ requests 4 (request_to 1 (69 ∷ []) (7 ∷ []))
    ∷ requests 4 (request_to 2 (69 ∷ []) (8 ∷ []))
    ∷ requests 5 (request_to 1 (70 ∷ []) (7 ∷ []))
    ∷ completes 1 new_controller (some (9 ∷ []))
    ∷ completes 0 (set_failed internal_error new_controller) none
    ∷ []

abbrev counters : Server ℕ (List ℕ) → List ℕ
counters s = s.total_request ∷ s.total_response ∷ s.failed_request ∷ length s.sent ∷ []

counters_test :
    (run echo_library no_names some_operations (new_server echo_library no_names) >>= λ s.
    some (counters s))
    ≡ some (3 ∷ 3 ∷ 2 ∷ 3 ∷ [])
unfolding run step register_service on_request fill_context call_requested call_service call_found
    call_parsed fail_request on_request_complete answer_request good_response bad_response
    claire.Rpc.Server.Counts.take_at serialized serialize_to_buffer compress_message
    ensure_writable_bytes writable_bytes has_written write_bytes add_header prepend_int32 prepend
    be32 bytes_checksum content readable_bytes prependable_bytes peek empty send_response
counters_test = refl

run_lem_example :
    Returns
      (run echo_library no_names some_operations (new_server echo_library no_names))
      (Balanced echo_library no_names some_operations)
unfolding compress_message fill_context bad_response good_response
run_lem_example = run_lem echo_library no_names some_operations (
  tt,
  (
    (λ e. omega arith),
    (
      (λ e. omega arith),
      (
        (λ e. omega arith),
        (
          ((λ e. cc), (λ e. (9 ∷ [], refl, (λ x. omega arith)))),
          (((λ e x. omega arith), (λ e. cc)), tt),
        ),
      ),
    ),
  ),
)

-- A form for a service without a method is shown as a page: its test for an incomplete pair never holds.
incomplete_pair_test : form_page echo_library no_names [] (69 ∷ []) [] ≡ methods_page (69 ∷ []) []
unfolding form_page
incomplete_pair_test = refl
