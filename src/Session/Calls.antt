-- ===== src/Session/Calls.antt =====
-- A call from its arrival to its answer (internal/session/manager.go, `Call` and
-- `resolveChatUsername`; internal/tdjson/raw.go, `Call`). Telegram is a function of the number of
-- requests sent before, of the method and of its parameters; what encoding/json reads of a result and
-- what a rule counts of the parameters are decoded by functions of the environment.
pub mod Confined
pub mod Preparing
pub mod Requests
pub mod Kept
pub mod Held
use tg_control_api_server.Prelude.{
  ℕ, suc, ◌+◌, String, Bool, true, false, not, ◌&&◌, ◌||◌, Option, none, some, List, [], ◌∷◌,
  length, ◌==◌, ◌is◌, if◌then◌else◌, ℤ, pos, int_same,
}
use tg_control_api_server.Tdjson.{TdError, Text, codes, contains_text, trim_space, after_prefix}
use tg_control_api_server.Store.Limits.{Limit, Time}
use tg_control_api_server.Store.Counters.{Faults}
use tg_control_api_server.Store.Sends.{SendTable}
use tg_control_api_server.Quota.Methods.{CallParams, scope}
use tg_control_api_server.Session.Limits.{Caller}
use tg_control_api_server.Session.Guard.{Guard}
use tg_control_api_server.Session.Admit.{
  Call, World, Verdict, admitted, canceled, refused, Refusal, check_cooldown, asks_user, admit,
}
use tg_control_api_server.Session.Observe.{
  Answer, through, other_failure, failed_with, Writes, observe,
}
use tg_control_api_server.Session.Json.{
  Value, null, boolean, number, decimal, string, array, object, Fields, end, field, Raw, empty,
  malformed, document, with_field, int64_field,
}
use tg_control_api_server.Session.LocalFiles.{guard_local_paths}
use tg_control_api_server.Session.Live.{Live, ready_client}
use tg_control_api_server.Session.Sent.{SendResult, Pending, track_upload, register_sends}
use tg_control_api_server.Session.Peers.{
  Load, force_load_chat, string_chat_id, numeric_chat_id, username, structure, fields_of,
}

pub data Reply : Type 0 where
  returned : Value → Reply
  td_failed : TdError → Reply
  other_error : String → Reply

pub record Request : Type 0 where
  pub method : String
  pub params : Fields

-- What one admission meets besides the call itself.
pub record Moment : Type 0 where
  pub at_cooldown : Time
  pub at_check : Time
  pub at_limits : Time
  pub at_pace : Time
  pub at_answer : Time
  pub gave_up : Bool
  pub rules : List Limit
  pub faults : Faults
  pub release_exec : ℕ → Bool

pub record Env : Type 0 where
  pub telegram : ℕ → String → Fields → Reply
  pub root : Text
  pub decode_sent : Value → Option SendResult
  pub decode_params : Raw → CallParams
  -- `is_mutual_contact` of a user, none where it does not decode
  pub decode_mutual : Value → Option Bool
  pub at_resolve : Moment
  pub at_call : Moment
  pub registers : ℕ → Bool

-- A session held by the worker, and the token of the caller, "" the master.
pub record Session : Type 0 where
  pub id : String
  pub token_id : String
  pub live : Live

pub record Worker : Type 0 where
  pub world : World
  pub pending : Pending
  pub sends : SendTable
  -- the requests sent to Telegram and the writes of the guard, the last one first
  pub log : List Request
  pub writes : List Writes

-- Why a call is not sent.
pub data Stop : Type 0 where
  not_found path_denied interrupted : Stop
  not_authorized : String → Stop
  refused_call : Refusal → Stop
  unresolved : Reply → Stop

pub data Outcome : Type 0 where
  stopped : Stop → Outcome
  answered : Reply → Outcome

-- `tdjson.Call`: the parameters are an object or a null.
abbrev pub object_of : Raw → Option Fields
object_of empty = some end
object_of malformed = none
object_of (document v) = structure v

-- `rawRequest.MarshalJSON`: the method wins over a `@type` among the parameters.
unfoldable pub request_body : String → String → Fields → Fields
request_body method extra params =
    let body = with_field params "@type" (string method) in
    if extra is "" then body else with_field body "@extra" (string extra)

abbrev pub send_object : Env → Worker → String → Option Fields → Worker × Reply
send_object env w method none = (w, other_error "params must be a JSON object")
send_object env w method (some ps) = (
  record w { log = record { method = method; params = ps } ∷ w.log },
  env.telegram (length w.log) method ps,
)

pub send : Env → Worker → String → Raw → Worker × Reply
send env w method params = send_object env w method (object_of params)

-- `isChatUnresolved`, on an error's text; the code before TDLib's message adds no match.
abbrev is_unresolved_text : Text → Bool
is_unresolved_text t =
    contains_text t (codes "Chat not found")
    || contains_text t (codes "Chat info not found")
    || contains_text t (codes "CHANNEL_INVALID")

abbrev pub is_chat_unresolved : Reply → Bool
is_chat_unresolved (returned v) = false
is_chat_unresolved (td_failed e) = is_unresolved_text (codes e.message)
is_chat_unresolved (other_error s) = is_unresolved_text (codes s)

abbrev pub answer_of : Reply → Answer
answer_of (returned v) = through
answer_of (td_failed e) = failed_with e
answer_of (other_error s) = other_failure

pub observed : Worker → String → String → Reply → Time → Worker
observed w kind sc r now =
    let o = observe w.world.guard kind sc (answer_of r) now in
    record w { world = record w.world { guard = o.0 }; writes = o.1 ∷ w.writes }

abbrev zero_if_none : Option ℤ → ℤ
zero_if_none none = pos 0
zero_if_none (some n) = n

abbrev pub admission : Env → Session → Moment → String → String → Raw → Option Bool → Call
admission env s m method sc params known = record {
  caller = record {
    session_id = s.id;
    kind = s.live.kind;
    token_id = s.token_id;
    method = method;
    params = env.decode_params params;
  };
  scope = sc;
  chat_id = zero_if_none (numeric_chat_id params);
  known = known;
  at_check = m.at_check;
  at_limits = m.at_limits;
  at_pace = m.at_pace;
  gave_up = m.gave_up;
  rules = m.rules;
  faults = m.faults;
  release_exec = m.release_exec;
}

-- A step that goes on with a value, or ends the call.
pub data Progress : Type 0 where
  goes_on : Raw → Progress
  stops : Stop → Progress

abbrev verdict_of : Verdict → Raw → Progress
verdict_of admitted params = goes_on params
verdict_of canceled params = stops interrupted
verdict_of (refused r) params = stops (refused_call r)

-- `spamBlocked`, where it asks TDLib for the addressee.
abbrev pub user_query : ℤ → Fields
user_query id = field "user_id" (number id) end

abbrev pub mutual_of : Env → Worker × Reply → Worker × Option Bool
mutual_of env (w, returned v) = (w, env.decode_mutual v)
mutual_of env (w, td_failed e) = (w, none)
mutual_of env (w, other_error s) = (w, none)

unfoldable pub asked_user :
    Env → Session → Moment → Worker → String → String → Raw → Worker × Option Bool
unfolding send asks_user
asked_user env s m w method sc params =
    let c = admission env s m method sc params none in
    if asks_user c w.world.guard
    then mutual_of env (send env w "getUser" (document (object (user_query c.chat_id))))
    else (w, none)

abbrev admitted_as : World × Verdict → Worker → Raw → Worker × Progress
admitted_as r w params = (record w { world = r.0 }, verdict_of r.1 params)

abbrev admitted_with :
    Env → Session → Moment → String → String → Raw → Worker × Option Bool → Worker × Progress
admitted_with env s m method sc params (w, known) =
    admitted_as (admit (admission env s m method sc params known) w.world) w params

pub admits : Env → Session → Moment → Worker → String → String → Raw → Worker × Progress
unfolding admit asked_user
admits env s m w method sc params =
    admitted_with env s m method sc params (asked_user env s m w method sc params)

abbrev pub cooling : Option Refusal → Worker → Raw → Worker × Progress
cooling (some r) w params = (w, stops (refused_call r))
cooling none w params = (w, goes_on params)

pub checks : Moment → Worker → String → Raw → Worker × Progress
unfolding check_cooldown
checks m w sc params = cooling (check_cooldown w.world.guard sc m.at_cooldown) w params

abbrev pub then_do : Worker × Progress → (Worker → Raw → Worker × Progress) → Worker × Progress
then_do (w, goes_on params) f = f w params
then_do (w, stops o) f = (w, stops o)

-- `resolveChatUsername`: the name's search, its answer, and the chat id put in its place.
abbrev pub username_query : String → Fields
username_query name = field "username" (string name) end

abbrev chat_id_in : Option Fields → Option ℤ
chat_id_in none = none
chat_id_in (some fs) = int64_field fs "id" (pos 0)

abbrev id_or_failure : Option ℤ → Option ℤ
id_or_failure none = none
id_or_failure (some n) = if int_same n (pos 0) then none else some n

abbrev with_chat_id : Option Fields → ℤ → Reply → Progress
with_chat_id none id r = stops (unresolved r)
with_chat_id (some fs) id r = goes_on (document (object (with_field fs "chat_id" (number id))))

abbrev put_chat_id : Raw → Reply → Option ℤ → Progress
put_chat_id params r none = stops (unresolved r)
put_chat_id params r (some id) = with_chat_id (fields_of params) id r

abbrev pub on_search : Raw → Worker × Reply → Worker × Progress
on_search params (w, returned v) =
    (w, put_chat_id params (returned v) (id_or_failure (chat_id_in (structure v))))
on_search params (w, td_failed e) = (w, stops (unresolved (td_failed e)))
on_search params (w, other_error s) = (w, stops (unresolved (other_error s)))

abbrev pub search_observed : Env → Session → Worker × Reply → Worker × Reply
search_observed env s (w, r) = (observed w s.live.kind "@resolve" r env.at_resolve.at_answer, r)

pub resolve_name : Env → Session → Worker → String → Raw → Worker × Progress
unfolding checks admits send observed
resolve_name env s w name params =
    let q = document (object (username_query name)) in
    then_do (checks env.at_resolve w "@resolve" q) (λ w1 _.
      then_do (admits env s env.at_resolve w1 "searchPublicChat" "@resolve" q)
        (λ w2 _. on_search params (search_observed env s (send env w2 "searchPublicChat" q))))

abbrev pub resolve_given : Env → Session → Worker → Raw → Option String → Worker × Progress
resolve_given env s w params none = (w, goes_on params)
resolve_given env s w params (some name) =
    if username name is "" then (w, goes_on params) else resolve_name env s w (username name) params

pub resolve_chat_username : Env → Session → Worker → Raw → Worker × Progress
unfolding resolve_name string_chat_id
resolve_chat_username env s w params = resolve_given env s w params (string_chat_id params)

-- The request, and once more after its chat has been loaded.
abbrev pub retried : Env → String → Raw → Reply → Worker × Reply → Worker × Reply
retried env method params first (w, returned v) = send env w method params
retried env method params first (w, td_failed e) = (w, first)
retried env method params first (w, other_error s) = (w, first)

abbrev pub loaded : Env → String → Raw → Worker × Reply → Option Load → Worker × Reply
loaded env method params (w, r) none = (w, r)
loaded env method params (w, r) (some l) =
    retried env method params r (send env w l.method (document (object l.params)))

abbrev pub unless_resolved : Env → String → Raw → Worker × Reply → Worker × Reply
unless_resolved env method params (w, r) =
    if is_chat_unresolved r
    then loaded env method params (w, r) (force_load_chat params)
    else (w, r)

pub request : Env → Worker → String → Raw → Worker × Reply
unfolding send
request env w method params = unless_resolved env method params (send env w method params)

-- What a successful call leaves behind.
abbrev tracked : Pending → Option SendResult → List Text → Pending
tracked p res [] = p
tracked p res (d ∷ dirs) = track_upload p res (d ∷ dirs)

abbrev recorded : Env → Session → List Text → Worker → Reply → Worker
recorded env s dirs w (returned v) = record w {
  pending = tracked w.pending (env.decode_sent v) dirs;
  sends = register_sends env.registers w.sends s.id (env.decode_sent v) env.at_call.at_answer;
}
recorded env s dirs w (td_failed e) = w
recorded env s dirs w (other_error t) = w

abbrev pub finish : Env → Session → List Text → String → Worker × Reply → Worker × Outcome
finish env s dirs sc (w, r) =
    (recorded env s dirs (observed w s.live.kind sc r env.at_call.at_answer) r, answered r)

abbrev pub sent_if : Env → Session → List Text → String → Worker × Progress → Worker × Outcome
sent_if env s dirs method (w, stops o) = (w, stopped o)
sent_if env s dirs method (w, goes_on params) =
    finish env s dirs (scope method) (request env w method params)

-- `Call`, on a session whose client is ready and whose local files are in the volume.
pub call_admitted : Env → Session → Worker → String → Raw → List Text → Worker × Outcome
unfolding checks admits resolve_chat_username request observed
call_admitted env s w method params dirs = sent_if env s dirs method (
    then_do (checks env.at_call w (scope method) params) (λ w1 p1.
      then_do (resolve_chat_username env s w1 p1)
        (λ w2 p2. admits env s env.at_call w2 method (scope method) p2)))

abbrev pub call_guarded :
    Env → Session → Worker → String → Raw → Option (List Text) → Worker × Outcome
call_guarded env s w method params none = (w, stopped path_denied)
call_guarded env s w method params (some dirs) = call_admitted env s w method params dirs

abbrev pub call_with : Env → Session → Worker → String → Raw → Option ℕ → Worker × Outcome
call_with env s w method params none = (w, stopped (not_authorized s.live.status))
call_with env s w method params (some cl) =
    call_guarded env s w method params (guard_local_paths env.root params)

unfoldable pub call : Env → Option Session → Worker → String → Raw → Worker × Outcome
unfolding call_admitted ready_client guard_local_paths
call env none w method params = (w, stopped not_found)
call env (some s) w method params = call_with env s w method params (ready_client s.live)
