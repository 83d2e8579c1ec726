-- ===== src/Examples/Registry.antt =====
-- The registry's tables on concrete rows (internal/store).
use tg_control_api_server.Prelude.{
  ℕ, ◌≤◌, ◌≡◌, refl, contains, select, String, true, false, Option, none, some, List, [], ◌∷◌,
  length, pos, text_eq,
}
use tg_control_api_server.Store.Counters.{
  CounterKey, CounterUse, Table, Faults, committed, counted, take_counters, calls, read, take_one,
  put, take_loop, purge_counters,
}
use tg_control_api_server.Store.Counters.Take.{
  Outcome, first_full, verdict, take_counters_atomic, take_counters-first_full,
}
use tg_control_api_server.Store.Counters.Bounded.{Within, take, purge, here, next, Reach-Within}
use tg_control_api_server.Store.Sends.{SendKey, get_send}
use tg_control_api_server.Store.Sends.Resolved.{
  Write, register, resolve, writes, told, known_after, unknown, get_send-writes,
}
use tg_control_api_server.Store.Tokens.{Scopes, TokenPatch}
use tg_control_api_server.Store.Workers.{SessionRow, Sessions, Workers, ids_of, claim_orphans}
use tg_control_api_server.Store.Workers.Claims.{Claimed, may_claim, claim_orphans_lem}
use tg_control_api_server.Prelude.{Pairs}

abbrev hourly : CounterUse
hourly = record {
  key = record { limit_id = "hourly"; bucket = "s1"; window_start = 3600 };
  n = 3;
  max_calls = 5;
}

abbrev daily : CounterUse
daily = record {
  key = record { limit_id = "daily"; bucket = "s1"; window_start = 0 };
  n = 3;
  max_calls = 4;
}

-- Two calls counted by the day before.
abbrev counted_table : Table
counted_table = (daily.key, 2) ∷ []

abbrev pub all_go : Faults
all_go = record { begin = true; exec = λ _. true; commit = committed }

take_counters_atomic_example :
    Outcome counted_table
      (hourly ∷ daily ∷ [])
      committed
      (take_counters all_go counted_table (hourly ∷ daily ∷ []))
take_counters_atomic_example = take_counters_atomic all_go counted_table (hourly ∷ daily ∷ [])

take_counters-first_full_example :
    (take_counters all_go counted_table (hourly ∷ daily ∷ [])).1
    ≡ verdict (first_full (calls counted_table) 0 (hourly ∷ daily ∷ []))
take_counters-first_full_example = take_counters-first_full counted_table (hourly ∷ daily ∷ [])

hourly-counted : (take_counters all_go counted_table (hourly ∷ [])).1 ≡ counted
unfolding take_counters take_loop take_one read put
hourly-counted = refl

abbrev five : CounterKey → ℕ
five k = 5

Reach-Within_example : Within five (purge_counters (take_counters all_go [] (hourly ∷ [])).0 7200).0
Reach-Within_example =
    Reach-Within (next (next here (take all_go [] (hourly ∷ []) (refl, tt))) (purge _ 7200))

abbrev sent_key : SendKey
sent_key = record { session_id = "s1"; chat_id = pos 7; temp_id = pos 1 }

abbrev early_outcome : List Write
early_outcome =
    resolve sent_key (record { final_id = pos 42; td_err = "" }) 10 ∷ register sent_key 11 ∷ []

get_send-writes_example :
    get_send (writes [] early_outcome) sent_key ≡ told (known_after sent_key unknown early_outcome)
get_send-writes_example = get_send-writes sent_key early_outcome

abbrev pub scopes : Scopes
scopes = record {
  tokens =
      record {
        token_id = "t1";
        name = none;
        secret_hash = "h1";
        enabled = true;
        all_sessions = false;
      }
      ∷ [];
  token_apps = ("t1", "a1") ∷ [];
  token_sessions = [];
  canonical = λ s. s;
  apps = "a1" ∷ "a2" ∷ [];
  sessions =
      record { session_id = "s1"; app_id = "a1" }
      ∷ record { session_id = "s2"; app_id = "a2" }
      ∷ [];
}

abbrev grant_s2 : TokenPatch
grant_s2 = record {
  name = some "reader";
  enabled = none;
  all_sessions = none;
  app_ids = none;
  session_ids = some ("s2" ∷ []);
}

abbrev hosted_row : String → Option String → SessionRow
hosted_row s w = record {
  session_id = s;
  kind = "user";
  status = "authorized";
  app_id = "a1";
  proxy_id = none;
  db_dir = some "/data";
  db_key_enc = some "key";
  worker_id = w;
  updated_at = 5;
}

abbrev pub sessions : Sessions
sessions = hosted_row "s1" (some "w1") ∷ hosted_row "s2" (some "gone") ∷ hosted_row "s3" none ∷ []

abbrev pub workers : Workers
workers =
    record { worker = "w1"; addr = "http://w1"; last_seen_at = 100 }
    ∷ record { worker = "w2"; addr = "http://w2"; last_seen_at = 101 }
    ∷ record { worker = "gone"; addr = "http://gone"; last_seen_at = 3 }
    ∷ []

claim_orphans_lem_example :
    let out = claim_orphans workers sessions ("s3" ∷ []) "w2" 50 8 200 in
    Pairs (Claimed (may_claim workers 50 ("s3" ∷ [])) (ids_of out.1) "w2" 200) sessions out.0
    × (length out.1 ≤ 8)
    × (length (select (λ (r : SessionRow). contains (ids_of out.1) r.session_id) sessions) ≤ 8)
claim_orphans_lem_example =
    claim_orphans_lem workers sessions ("s3" ∷ []) "w2" 50 8 200 (refl, (refl, (refl, tt)))
