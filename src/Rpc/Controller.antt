-- ===== src/Rpc/Controller.antt =====
-- protorpc/RpcController.h and RpcController.cc, RpcUtil.cc: the outcome of one call. Its parent and
-- its context are left out. The names of the error codes are a parameter.
use claire.Prelude.{
  ℕ, Bool, true, false, not, List, [], ◌∷◌, ◌++◌, Option, none, is_nil, if◌then◌else◌,
}
use claire.Rpc.Message.{ErrorCode, success, internal_error, CompressType, compress_none, TraceId}

pub record Controller : Type 0 where
  pub error : ErrorCode
  pub reason : List ℕ
  pub compress_type : CompressType
  pub trace_id : Option TraceId

abbrev pub new_controller : Controller
new_controller = record {
  error = success;
  reason = [];
  compress_type = compress_none;
  trace_id = none;
}

abbrev pub is_success : ErrorCode → Bool
is_success success = true
is_success _ = false

abbrev pub has_failed : Controller → Bool
has_failed c = not (is_success c.error)

-- `SetFailed`, with a code, with a code and a reason, and with a reason.
abbrev pub set_failed : ErrorCode → Controller → Controller
set_failed e c = record c { error = e }

abbrev pub set_failed_with : ErrorCode → List ℕ → Controller → Controller
set_failed_with e text c = record c { error = e; reason = text }

abbrev pub set_failed_reason : List ℕ → Controller → Controller
set_failed_reason text c = set_failed_with internal_error text c

unfoldable pub error_text : (ErrorCode → List ℕ) → Controller → List ℕ
error_text name c =
    if has_failed c
    then (if is_nil c.reason then name c.error else name c.error ++ (b':' ∷ b' ' ∷ c.reason))
    else []
