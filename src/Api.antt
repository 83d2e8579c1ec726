-- ===== src/Api.antt =====
-- The worker's HTTP handlers around calls (internal/api/server.go): what they refuse, what they hand
-- to the manager, and the status and envelope of every answer. A message is the list of its pieces; a
-- body that does not decode is none.
pub mod Statuses
pub mod Reserved
pub mod Waits
use tg_control_api_server.Prelude.{
  ℕ, ◌+◌, ◌-◌, ◌/◌, max, String, Bool, true, false, not, ◌&&◌, ◌||◌, Option, none, some, List, [],
  ◌∷◌, leb, ◌==◌, ◌is◌, if◌then◌else◌, contains, ℤ, pos, negsuc,
}
use tg_control_api_server.Tdjson.{TdError, retry_after}
use tg_control_api_server.Store.Limits.{Limit, Time}
use tg_control_api_server.Session.Observe.{second}
use tg_control_api_server.Session.Admit.{Refusal, cooldown, pace, limit}
use tg_control_api_server.Session.Json.{Value, Fields, Raw}
use tg_control_api_server.Session.Calls.{
  Reply, returned, td_failed, other_error, Env, Session, Worker, Stop, not_found, path_denied,
  interrupted, not_authorized, refused_call, unresolved, Outcome, stopped, answered, object_of,
  call,
}

pub data Body : Type 0 where
  result : Value → Body
  gateway_error : List String → Body
  -- code, message, the wait
  tdlib_error : ℤ → String → Option ℕ → Body
  rate_limited : Refusal → ℕ → Body

pub record Response : Type 0 where
  pub status : ℕ
  -- the header Retry-After
  pub retry_header : Option ℕ
  pub body : Body

pub data CallError : Type 0 where
  refusal : Refusal → CallError
  tdlib : TdError → CallError
  plain : List String → CallError

abbrev write_ok : Value → Response
write_ok v = record { status = 200; retry_header = none; body = result v }

abbrev pub write_err : ℕ → List String → Response
write_err status message = record {
  status = status;
  retry_header = none;
  body = gateway_error message;
}

pub http_status_for_td : ℤ → ℕ
http_status_for_td (negsuc n) = 400
http_status_for_td (pos n) =
    if n == 0 then 502 else if n == 420 then 429 else if leb 400 n && leb n 599 then n else 400

abbrev pub until_of : Refusal → Time
until_of (cooldown scope until cause) = until
until_of (pace scope until) = until
until_of (limit l until) = until

-- `RefusedError.RetryAfter`, rounded up; doubles hold waits below 48 days to the nanosecond. A time
-- that has passed asks for no wait.
pub wait_seconds : Refusal → Time → ℕ
wait_seconds r now = (until_of r - now + (second - 1)) / second

abbrev refused_response : Refusal → ℕ → Response
refused_response r secs = record {
  status = 429;
  retry_header = some secs;
  body = rate_limited r secs;
}

pub write_refused : Refusal → Time → Response
unfolding wait_seconds
write_refused r now = refused_response r (max (wait_seconds r now) 1)

pub write_call_err : CallError → Time → Response
unfolding write_refused http_status_for_td
write_call_err (refusal r) now = write_refused r now
write_call_err (tdlib e) now = record {
  status = http_status_for_td e.err_code;
  retry_header = retry_after e;
  body = tdlib_error e.err_code e.message (retry_after e);
}
write_call_err (plain m) now = write_err 502 m

-- `writeLoginErr`.
unfoldable pub write_login_err : CallError → Time → Response
unfolding write_call_err
write_login_err (tdlib e) now = write_call_err (tdlib e) now
write_login_err (refusal r) now = write_err 409 []
write_login_err (plain m) now = write_err 409 m

-- `IsBlockedMethod` (internal/session/manager.go).
abbrev pub blocked_methods : List String
blocked_methods =
    "close" ∷ "destroy" ∷ "logOut" ∷ "setTdlibParameters" ∷ "setDatabaseEncryptionKey"
    ∷ "setAuthenticationPhoneNumber" ∷ "checkAuthenticationCode" ∷ "checkAuthenticationPassword"
    ∷ "checkAuthenticationBotToken" ∷ "checkAuthenticationEmailCode" ∷ "resendAuthenticationCode"
    ∷ "registerUser" ∷ "requestQrCodeAuthentication" ∷ "addProxy" ∷ "editProxy" ∷ "removeProxy"
    ∷ "enableProxy" ∷ "disableProxy" ∷ "setLogStream" ∷ "setLogVerbosityLevel"
    ∷ "setLogTagVerbosityLevel" ∷ []

pub is_blocked_method : String → Bool
is_blocked_method method = contains blocked_methods method

pub record CallBody : Type 0 where
  pub method : String
  pub params : Raw

-- `ExecuteSync` (internal/tdjson/raw.go), where `execute` is TDLib's td_execute.
abbrev executed : (String → Fields → Reply) → String → Option Fields → Reply
executed execute method none = other_error "params must be a JSON object"
executed execute method (some ps) = execute method ps

abbrev pub replied : Reply → Time → Response
replied (returned v) now = write_ok v
replied (td_failed e) now = write_call_err (tdlib e) now
replied (other_error m) now = write_call_err (plain (m ∷ [])) now

unfoldable pub handle_execute : (String → Fields → Reply) → Option CallBody → Time → Response
unfolding is_blocked_method
handle_execute execute none now = write_err 400 ("invalid JSON body" ∷ [])
handle_execute execute (some b) now =
    if b.method is ""
    then write_err 400 ("method is required" ∷ [])
    else if is_blocked_method b.method
    then write_err 403 ("method reserved by the gateway" ∷ [])
    else replied (executed execute b.method (object_of b.params)) now

-- The error that `Call` returns where it is stopped.
abbrev unresolved_error : Reply → CallError
unresolved_error (returned v) = plain ("resolve: no chat id" ∷ [])
unresolved_error (td_failed e) = tdlib e
unresolved_error (other_error m) = plain ("resolve: " ∷ m ∷ [])

abbrev pub stop_error : Stop → CallError
stop_error not_found = plain ("session not found" ∷ [])
stop_error path_denied = plain ("inputFileLocal path must be within the uploads volume" ∷ [])
stop_error interrupted = plain ("context canceled" ∷ [])
stop_error (not_authorized st) = plain ("session is " ∷ st ∷ ", not authorized" ∷ [])
stop_error (refused_call r) = refusal r
stop_error (unresolved r) = unresolved_error r

abbrev pub call_response : Outcome → Time → Response
call_response (stopped path_denied) now =
    write_err 403 ("inputFileLocal path must be within the uploads volume" ∷ [])
call_response (stopped o) now = write_call_err (stop_error o) now
call_response (answered r) now = replied r now

abbrev called : Worker × Outcome → Time → Worker × Response
called (w, o) now = (w, call_response o now)

-- `handleCall`, of the session that the path names, none if the worker does not hold it.
pub handle_call : Env → Option Session → Worker → Option CallBody → Time → Worker × Response
unfolding is_blocked_method call write_call_err
handle_call env s w none now = (w, write_err 400 ("invalid JSON body" ∷ []))
handle_call env s w (some b) now =
    if b.method is ""
    then (w, write_err 400 ("method is required" ∷ []))
    else if is_blocked_method b.method
    then (w, write_err 403 ("method reserved by the gateway" ∷ []))
    else called (call env s w b.method b.params) now
