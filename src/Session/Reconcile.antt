-- ===== src/Session/Reconcile.antt =====
-- Which sessions a worker holds (internal/session/manager.go): the manager's map, the passes of
-- `reconcile` that fence and adopt, `rehydrateOne`, `shed`, `Shutdown` and `DeleteSession`. The order
-- of the map stands for the one in which Go walks it; what the registry and TDLib answer are
-- arguments.
pub mod Handover
pub mod Fencing
use tg_control_api_server.Prelude.{
  ◌==◌, ℕ, zero, suc, ◌+◌, String, Bool, true, false, not, Option, none, some, List, [], ◌∷◌, ◌++◌,
  ltb, if◌then◌else◌, Map, text_eq, get, put, remove,
}
use tg_control_api_server.Store.Limits.{Time}
use tg_control_api_server.Store.Workers.{SessionRow, Sessions, set_session_owner, release_session}
use tg_control_api_server.Session.Live.{
  Live, new_live_session, set_client, ready_client, abort_login,
}

pub record Manager : Type 0 where
  pub worker_id : String
  pub stopping : Bool
  pub live : Map String Live
  -- the earliest time of the next open attempt
  pub retry : Map String Time
  -- the clients that were sent `close`, the last one first
  pub closed : List ℕ

-- 20 seconds.
abbrev open_backoff : ℕ
open_backoff = 20000000000

abbrev past : Time → Option Time → Bool
past now none = true
past now (some t) = ltb t now

pub retry_ready : Manager → String → Time → Bool
retry_ready m id now = past now (get m.retry id)

unfoldable pub backoff : Manager → String → Time → Manager
backoff m id now = record m { retry = put m.retry id (now + open_backoff) }

pub clear_retry : Manager → String → Manager
clear_retry m id = record m { retry = remove m.retry id }

abbrev pub is_ready : Option ℕ → Bool
is_ready none = false
is_ready (some cl) = true

abbrev pub ready_of : Option Live → Option ℕ
ready_of none = none
ready_of (some s) = ready_client s

-- Fencing, of the sessions that the registry gives to a live peer; `ok` tells whether a session's new
-- owner is written.
abbrev pub fence_one :
    (String → Bool) → Manager → Sessions → String → Time → Option ℕ → Manager × Sessions
fence_one ok m rows id now none = (record m { live = remove m.live id }, rows)
fence_one ok m rows id now (some cl) =
    (m, if ok id then set_session_owner rows id m.worker_id now else rows)

pub fence : (String → Bool) → Manager → Sessions → List String → Time → Manager × Sessions
unfolding set_session_owner ready_client
fence ok m rows [] now = (m, rows)
fence ok m rows (id ∷ ids) now =
    let r = fence_one ok m rows id now (ready_of (get m.live id)) in fence ok r.0 r.1 ids now

-- How opening a session from its binlog ends: its app, key or proxy is not to be had, TDLib asks for a
-- login, the client cannot be opened, or it is there.
pub data Opening : Type 0 where
  unavailable expired unopened : Opening
  opened : ℕ → Opening

-- `rehydrateOne`; whether the session is to be marked expired.
pub rehydrate_one : Manager → String → String → Opening → Time → Manager × Bool
unfolding backoff clear_retry new_live_session set_client
rehydrate_one m id kind unavailable now = (m, false)
rehydrate_one m id kind expired now = (clear_retry (record m { live = remove m.live id }) id, true)
rehydrate_one m id kind unopened now =
    (backoff (record m { live = remove m.live id }) id now, false)
rehydrate_one m id kind (opened cl) now = (
  record (clear_retry m id) { live = put m.live id (set_client (new_live_session kind false) cl) },
  false,
)

abbrev is_held : Option Live → Bool
is_held none = false
is_held (some s) = true

-- The pass over the sessions that the registry assigns to this worker.
unfoldable pub adopt : (String → Opening) → Manager → List SessionRow → Time → Manager
unfolding rehydrate_one retry_ready
adopt opens m [] now = m
adopt opens m (r ∷ rs) now =
    let id = r.session_id in
    adopt opens
      (if is_held (get m.live id)
        then m
        else if retry_ready m id now
        then (rehydrate_one m id r.kind (opens id) now).0
        else m)
      rs now

abbrev pub keys_of : Map String Live → List String
keys_of [] = []
keys_of ((id, s) ∷ m) = id ∷ keys_of m

-- `shed`: sessions with a usable client are closed, dropped and released. The loop that gathers them
-- ends when it has just appended the `n`th, `gathered` being those before; for n = 0 that is never.
pub to_shed : ℕ → ℕ → Map String Live → List String → List String
unfolding ready_client
to_shed n gathered m [] = []
to_shed n gathered m (id ∷ ids) =
    let later = to_shed n (suc gathered) m ids in
    elim (ready_of (get m id)) [
      | none ↦ to_shed n gathered m ids
      | some cl ↦ id ∷ (if suc gathered == n then [] else later)
    ]

abbrev pub close_client : Option ℕ → List ℕ → List ℕ
close_client none cs = cs
close_client (some cl) cs = cl ∷ cs

pub shed_ids : (String → Bool) → Manager → Sessions → List String → Time → Manager × Sessions
unfolding release_session ready_client
shed_ids ok m rows [] now = (m, rows)
shed_ids ok m rows (id ∷ ids) now =
    shed_ids ok
      (record m {
        closed = close_client (ready_of (get m.live id)) m.closed;
        live = remove m.live id;
      })
      (if ok id then release_session rows id now else rows) ids now

pub shed : (String → Bool) → Manager → Sessions → ℕ → Time → Manager × Sessions
unfolding to_shed shed_ids
shed ok m rows n now = shed_ids ok m rows (to_shed n 0 m.live (keys_of m.live)) now

-- `Shutdown`, up to its statements: usable clients are closed, the other logins aborted.
abbrev shut : Live → Option ℕ → Live
shut s none = (abort_login s).0
shut s (some cl) = s

pub shut_all : Map String Live → Map String Live × List ℕ
unfolding ready_client abort_login
shut_all [] = ([], [])
shut_all ((id, s) ∷ m) =
    let rest = shut_all m in
    ((id, shut s (ready_client s)) ∷ rest.0, close_client (ready_client s) rest.1)

unfoldable pub shutdown : Manager → Manager
unfolding shut_all
shutdown m = record m {
  stopping = true;
  live = (shut_all m.live).0;
  closed = (shut_all m.live).1 ++ m.closed;
}

-- `DeleteSession`: an unfinished login is aborted first, which drops its client if it unwinds in
-- time; a client that is still there is closed. `unwinds` is the session after the wait.
abbrev drop_live : Manager → String → (Live → Live) → Option Live → Manager
drop_live m id unwinds none = m
drop_live m id unwinds (some s) = record m {
  closed =
      close_client
        ((if (abort_login s).1 then unwinds (abort_login s).0 else (abort_login s).0).client)
        m.closed;
  live = remove m.live id;
}

unfoldable pub delete_session : Manager → String → (Live → Live) → Manager
unfolding clear_retry abort_login
delete_session m id unwinds = clear_retry (drop_live m id unwinds (get m.live id)) id
