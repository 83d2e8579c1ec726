-- ===== src/Examples/Queues.antt =====
-- Sends, subscriptions and held sessions on concrete rows (internal/session/sends.go,
-- internal/session/uploads.go, internal/store/store.go, internal/session/manager.go).
use tg_control_api_server.Prelude.{
  ℕ, ◌+◌, ◌≤◌, ◌≡◌, refl, String, true, false, not, ◌&&◌, Option, none, some, [], ◌∷◌, ◌is◌,
  if◌then◌else◌, List, contains, length, select, ℤ, pos, text_eq, int_eq, get, All, arith,
}
use tg_control_api_server.Tdjson.{TdError, codes}
use tg_control_api_server.Store.Sends.{get_send}
use tg_control_api_server.Store.Sends.Resolved.{told, ended}
use tg_control_api_server.Store.Deliveries.{pending, Delivery}
use tg_control_api_server.Store.Workers.{Sessions}
use tg_control_api_server.Store.Subscriptions.{
  SubRow, Queue, Subscription, sees, of_sub, list_subscriptions, delete_subscription,
  claim_deliveries, find_sub, find_session, by_due, ranked,
}
use tg_control_api_server.Store.Subscriptions.Served.{IsServed, claim_deliveries_lem}
use tg_control_api_server.Store.Subscriptions.Owned.{subscriptions_owned}
use tg_control_api_server.Session.Live.{Live}
use tg_control_api_server.Session.Sent.{
  Message, SendResult, SendUpdate, outcome_of, note_send_outcome, run_send_writer,
  extract_sent_refs, track_upload, finish_upload, dirs_of,
}
use tg_control_api_server.Session.Sent.Cleanup.{names, finish_upload-track_upload}
use tg_control_api_server.Session.Sent.Resolution.{get_send-note_send_outcome}
use tg_control_api_server.Session.Reconcile.{Manager, shed}
use tg_control_api_server.Session.Reconcile.Fencing.{is_usable}
use tg_control_api_server.Session.Reconcile.Handover.{shed_lem}
use tg_control_api_server.Examples.Registry.{scopes}

abbrev confirmed : SendUpdate
confirmed = record {
  old_message_id = pos 11;
  message_id = pos 900;
  message_chat_id = pos 77;
  error = none;
}

abbrev render : TdError → String
render e = e.message

get_send-note_send_outcome_example :
    let o = outcome_of render "s1" confirmed in
    get_send
      (run_send_writer (λ i. true) (λ i. i) 0 [] (note_send_outcome render [] "s1" confirmed))
      o.key
    ≡ told (ended o.outcome)
get_send-note_send_outcome_example =
    get_send-note_send_outcome (λ i. true) (λ i. i) render [] [] "s1" confirmed (λ e. cc) (λ e. cc)
      (omega arith) refl

abbrev sending : ℤ → Message
sending n = record {
  type = "message";
  id = n;
  chat_id = pos 77;
  sending_state = some "messageSendingStatePending";
  scheduling_state = none;
}

-- An album of two files.
abbrev album : Option SendResult
album = some (record {
  own = record {
    type = "messages";
    id = pos 0;
    chat_id = pos 0;
    sending_state = none;
    scheduling_state = none;
  };
  messages = sending (pos 11) ∷ sending (pos 12) ∷ [];
})

finish_upload-track_upload_example :
    let q = track_upload [] album (codes "/u/a" ∷ codes "/u/b" ∷ []) in
    ((finish_upload q (pos 11)).1 ≡ (
      if names (extract_sent_refs album) (pos 11)
      then codes "/u/a" ∷ codes "/u/b" ∷ []
      else dirs_of (get [] (pos 11))))
    × ((finish_upload (finish_upload q (pos 11)).0 (pos 11)).1 ≡ [])
finish_upload-track_upload_example =
    finish_upload-track_upload [] album (codes "/u/a" ∷ codes "/u/b" ∷ []) (pos 11) (λ e. cc)

abbrev subscription : String → Option String → SubRow
subscription id token = record {
  id = id;
  session_id = "s1";
  token_id = token;
  url = "https://receiver";
  secret_enc = "k";
  filters = none;
  created_at = 1;
  health = record { last_delivered_at = none; last_error = none; last_error_at = none };
  dropped = 0;
}

abbrev row : String → String → Delivery
row id sub = record {
  id = id;
  session_id = "s1";
  subscription_id = sub;
  payload = "{}";
  attempts = 0;
  status = pending;
  next_try_at = 5;
  created_at = 5;
}

abbrev queue : Queue
queue = record {
  subs = subscription "a" none ∷ subscription "b" (some "t1") ∷ [];
  deliveries = row "1" "a" ∷ row "2" "a" ∷ row "3" "b" ∷ [];
}

abbrev hosted : Sessions
hosted =
    record {
      session_id = "s1";
      kind = "user";
      status = "authorized";
      app_id = "a1";
      proxy_id = none;
      db_dir = none;
      db_key_enc = none;
      worker_id = some "w1";
      updated_at = 1;
    }
    ∷ []

-- One row of each subscription, if the token still covers the session.
one_each : length (claim_deliveries queue scopes hosted "w1" [] 1 10 9) ≡ 2
unfolding claim_deliveries find_sub find_session by_due ranked
one_each = refl

claim_deliveries_lem_example :
    let out = claim_deliveries queue scopes hosted "w1" [] 1 10 9 in
    All (IsServed queue scopes hosted "w1" [] 9) out
    × ((id : String) → of_sub id out ≤ 1)
    × (length out ≤ 10)
claim_deliveries_lem_example = claim_deliveries_lem queue scopes hosted "w1" [] 1 10 9

subscriptions_owned_example :
    All
      (λ (x : Subscription). ((x.row.session_id is "s1") && sees "t1" x.row) ≡ true)
      (list_subscriptions queue "s1" "t1" "")
    × (select (λ s. not (sees "t1" s)) (delete_subscription queue "s1" "t1" "").0.subs
        ≡ select (λ s. not (sees "t1" s)) queue.subs)
subscriptions_owned_example = subscriptions_owned queue "s1" "t1" ""

abbrev account : String → Option ℕ → Live
account status client = record {
  kind = "user";
  status = status;
  client = client;
  err = none;
  logging_in = false;
  code_info = none;
  last_err = "";
  attempt = none;
  canceled = false;
  login_done = none;
  mirrored = [];
}

abbrev holder : Manager
holder = record {
  worker_id = "w1";
  stopping = false;
  live = ("s1", account "authorized" (some 1)) ∷ ("s2", account "awaiting_code" (some 2)) ∷ [];
  retry = [];
  closed = [];
}

shed_lem_example :
    let out = shed (λ id. true) holder hosted 2 9 in
    (ids : List String) × (length ids ≤ 2)
    × All (λ id. is_usable (get holder.live id) ≡ true) ids
    × ((k : String) → get out.0.live k ≡ (if contains ids k then none else get holder.live k))
    × ((k : String) → is_usable (get holder.live k) ≡ false → get out.0.live k ≡ get holder.live k)
    × (length out.0.closed ≤ 2 + length holder.closed)
shed_lem_example = shed_lem (λ id. true) holder hosted 2 9 (omega arith)
