-- ===== src/Examples/Calls.antt =====
-- Calls on a concrete worker (internal/session/manager.go, `Call`; internal/api/server.go).
use tg_control_api_server.Prelude.{
  ℕ, ◌+◌, ◌-◌, ◌*◌, ◌≤◌, ◌<◌, ◌≡◌, ◌≢◌, refl, String, true, false, none, some, List, [], ◌∷◌, ◌++◌,
  pos, negsuc, All, arith, get,
}
use tg_control_api_server.Tdjson.{
  TdError, codes, retry_after, after_prefix, contains_text, after_last, atoi, trim_space,
}
use tg_control_api_server.Upload.Inside.{is_rooted, within, clean, parts, slashed}
use tg_control_api_server.Session.Guard.{new_guard, active, reserve}
use tg_control_api_server.Session.Observe.{second}
use tg_control_api_server.Session.Admit.{Refusal, pace}
use tg_control_api_server.Session.Json.{
  Value, string, number, object, Fields, end, field, Raw, document, empty, lookup, has_key,
  raw_field, fold_same, int64_field,
}
use tg_control_api_server.Quota.Methods.{scope, map_has, groups, map_read}
use tg_control_api_server.Quota.Rules.{applicable}
use tg_control_api_server.Session.Limits.{take_quota}
use tg_control_api_server.Session.LocalFiles.{collect_local_file_paths}
use tg_control_api_server.Session.LocalFiles.Confined.{Reads, here, in_field}
use tg_control_api_server.Session.Live.{Live}
use tg_control_api_server.Session.Peers.{numeric_chat_id, force_load_chat}
use tg_control_api_server.Session.Peers.Encoding.{
  supergroup, chat_id_of, loader, force_load_chat-peer,
}
use tg_control_api_server.Session.Calls.{
  Reply, returned, td_failed, Request, Moment, Env, Session, Worker, answered, call,
}
use tg_control_api_server.Session.Calls.Confined.{IsConfined, call-Confined}
use tg_control_api_server.Session.Calls.Held.{at_once, then_call, flood_wait_held}
use tg_control_api_server.Api.{CallBody, handle_call, rate_limited, until_of, write_refused}
use tg_control_api_server.Api.Reserved.{IsOpen, handle_call-IsOpen}
use tg_control_api_server.Api.Statuses.{IsAnswer, handle_call-IsAnswer}
use tg_control_api_server.Api.Waits.{write_refused_wait}
use tg_control_api_server.Examples.Registry.{all_go}

abbrev moment : Moment
moment = record {
  at_cooldown = 100;
  at_check = 100;
  at_limits = 100;
  at_pace = 100;
  at_answer = 200;
  gave_up = false;
  rules = [];
  faults = all_go;
  release_exec = (λ i. true);
}

abbrev with_telegram : (ℕ → String → Fields → Reply) → Env
with_telegram t = record {
  telegram = t;
  root = codes "/data/uploads";
  decode_sent = (λ v. none);
  decode_params = (λ p. record {
    only_local = false;
    message_ids = [];
    input_message_contents = [];
    user_ids = [];
    contacts = [];
  });
  decode_mutual = (λ v. none);
  at_resolve = moment;
  at_call = moment;
  registers = (λ i. true);
}

abbrev accepting : Env
accepting = with_telegram (λ n m ps. returned (object end))

abbrev flood : TdError
flood = record { err_code = pos 429; message = "Too Many Requests: retry after 30" }

abbrev flooding : Env
flooding = with_telegram (λ n m ps. td_failed flood)

abbrev online : Live
online = record {
  kind = "user";
  status = "authorized";
  client = some 7;
  err = none;
  logging_in = false;
  code_info = none;
  last_err = "";
  attempt = none;
  canceled = false;
  login_done = none;
  mirrored = [];
}

abbrev session : Session
session = record { id = "s1"; token_id = ""; live = online }

abbrev fresh : Worker
fresh = record {
  world = record { guard = new_guard; table = [] };
  pending = [];
  sends = [];
  log = [];
  writes = [];
}

abbrev local_file : Fields
local_file =
    field "@type" (string "inputFileLocal") (field "path" (string "/data/uploads/u1/a.png") end)

abbrev with_file : Value
with_file = object (field "document" (object local_file) end)

named : Reads "/data/uploads/u1/a.png" with_file
unfolding lookup
named = in_field "document" refl (here refl refl)

file_sent :
    (call accepting (some session) fresh "sendMessage" (document with_file)).0.log
    ≡ record { method = "sendMessage"; params = field "document" (object local_file) end } ∷ []
unfolding call collect_local_file_paths lookup has_key within clean parts slashed after_prefix
    active get raw_field fold_same take_quota applicable scope map_has groups map_read reserve
file_sent = refl

flooded : (call flooding (some session) fresh "sendMessage" empty).1 ≡ answered (td_failed flood)
unfolding call collect_local_file_paths active get take_quota applicable scope map_has groups
    map_read reserve contains_text
flooded = refl

something_sent :
    (call accepting (some session) fresh "sendMessage" (document with_file)).0.log ≢ fresh.log
something_sent = rw file_sent (λ e. cc)

rooted : is_rooted accepting.root ≡ true
rooted = refl

call-Confined_example : IsConfined accepting.root "/data/uploads/u1/a.png"
call-Confined_example =
    call-Confined accepting (some session) fresh "sendMessage" with_file rooted named something_sent

waits_thirty : retry_after flood ≡ some 30
unfolding retry_after after_last atoi trim_space
waits_thirty = refl

-- A join comes in between.
abbrev joined : Worker
joined =
    (call accepting (some session) (call flooding (some session) fresh "sendMessage" empty).0
      "joinChat" empty).0

flood_wait_held_example :
    (call accepting (some session) joined "sendMessage" (document with_file)).0 ≡ joined
flood_wait_held_example =
    flood_wait_held flooding accepting session (some session) fresh "sendMessage" "sendMessage"
      empty (document with_file) {e = flood} 30 refl flooded waits_thirty (omega arith) refl
      (omega arith) (then_call accepting (some session) "joinChat" empty at_once)

abbrev body : CallBody
body = record { method = "sendMessage"; params = document with_file }

handle_call-IsOpen_example :
    (rs : List Request) × ((handle_call accepting (some session) fresh (some body) 300).0.log
      ≡ rs ++ fresh.log)
    × All IsOpen rs
handle_call-IsOpen_example = handle_call-IsOpen accepting (some session) fresh (some body) 300

handle_call-IsAnswer_example :
    IsAnswer (handle_call flooding (some session) fresh (some body) 300).1
handle_call-IsAnswer_example = handle_call-IsAnswer flooding (some session) fresh (some body) 300

abbrev full : Refusal
full = pace "@send" 12000000005

write_refused_wait_example :
    (secs : ℕ) × ((write_refused full 5).status ≡ 429)
    × ((write_refused full 5).retry_header ≡ some secs)
    × ((write_refused full 5).body ≡ rate_limited full secs)
    × (1 ≤ secs)
    × (until_of full ≤ 5 + secs * second)
    × (2 ≤ secs → 5 + (secs - 1) * second < until_of full)
write_refused_wait_example = write_refused_wait full 5

abbrev channel_params : Raw
channel_params = document (object (field "chat_id" (number (negsuc 1000000001233)) end))

channel_id : numeric_chat_id channel_params ≡ some (chat_id_of (supergroup 1234))
unfolding numeric_chat_id int64_field fold_same
channel_id = refl

force_load_chat-peer_example : force_load_chat channel_params ≡ loader (supergroup 1234)
force_load_chat-peer_example =
    force_load_chat-peer channel_params (supergroup 1234) (omega arith) channel_id
