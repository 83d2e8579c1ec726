-- ===== src/Store/Workers.antt =====
-- Who hosts a session: tables worker and session (internal/store/store.go).
pub mod Rows
pub mod Claims
pub mod Placed
use tg_control_api_server.Prelude.{
  ℕ, zero, suc, ◌+◌, String, Bool, true, false, not, ◌&&◌, ◌||◌, Option, none, some, List, [], ◌∷◌,
  ◌++◌, ltb, leb, ◌==◌, ◌is◌, if◌then◌else◌, points_to, any, select, contains, length, map,
}
use tg_control_api_server.Store.Limits.{Time}

-- The columns that ownership reads and writes.
pub record SessionRow : Type 0 where
  pub session_id : String
  pub kind : String
  pub status : String
  pub app_id : String
  pub proxy_id : Option String
  pub db_dir : Option String
  pub db_key_enc : Option String
  pub worker_id : Option String
  pub updated_at : Time

pub record WorkerRow : Type 0 where
  pub worker : String
  pub addr : String
  pub last_seen_at : Time

abbrev pub Sessions : Type 0
Sessions = List SessionRow

abbrev pub Workers : Type 0
Workers = List WorkerRow

-- `RegisterWorker`: an upsert.
unfoldable pub register_worker : Workers → String → String → Time → Workers
register_worker [] w addr now = record { worker = w; addr = addr; last_seen_at = now } ∷ []
register_worker (r ∷ rs) w addr now =
    if r.worker is w
    then record { worker = r.worker; addr = addr; last_seen_at = now } ∷ rs
    else r ∷ register_worker rs w addr now

abbrev pub owned_by : Option String → Time → SessionRow → SessionRow
owned_by w now r = record {
  session_id = r.session_id;
  kind = r.kind;
  status = r.status;
  app_id = r.app_id;
  proxy_id = r.proxy_id;
  db_dir = r.db_dir;
  db_key_enc = r.db_key_enc;
  worker_id = w;
  updated_at = now;
}

-- `UPDATE session SET worker_id=w WHERE p`.
abbrev pub set_owner_where : (SessionRow → Bool) → Option String → Time → Sessions → Sessions
set_owner_where p w now [] = []
set_owner_where p w now (r ∷ rs) =
    (if p r then owned_by w now r else r) ∷ set_owner_where p w now rs

-- `SetSessionOwner`.
unfoldable pub set_session_owner : Sessions → String → String → Time → Sessions
set_session_owner ss s w now = set_owner_where (λ r. r.session_id is s) (some w) now ss

-- `ReleaseSession`.
unfoldable pub release_session : Sessions → String → Time → Sessions
release_session ss s now = set_owner_where (λ r. r.session_id is s) none now ss

abbrev is_authorized : SessionRow → Bool
is_authorized r = r.status is "authorized"

abbrev is_present : Option String → Bool
is_present none = false
is_present (some s) = true

abbrev is_openable : SessionRow → Bool
is_openable r = is_authorized r && is_present r.db_dir && is_present r.db_key_enc

-- `ReleaseSessions`: the rows, and how many were let go.
release_sessions : Sessions → String → Time → Sessions × ℕ
release_sessions ss w now = (
  set_owner_where (λ r. points_to r.worker_id w && is_authorized r) none now ss,
  length (select (λ (r : SessionRow). points_to r.worker_id w && is_authorized r) ss),
)

-- Whether a worker's heartbeat is newer than the cutoff.
abbrev pub is_alive : Time → WorkerRow → Bool
is_alive cutoff w = ltb cutoff w.last_seen_at

abbrev alive_id : Workers → Time → String → Bool
alive_id ws cutoff w = any (λ r. (r.worker is w) && is_alive cutoff r) ws

abbrev is_unowned : Workers → Time → Option String → Bool
is_unowned ws cutoff none = true
is_unowned ws cutoff (some w) = not (alive_id ws cutoff w)

abbrev pub is_orphan : Workers → Time → SessionRow → Bool
is_orphan ws cutoff r = is_openable r && is_unowned ws cutoff r.worker_id

abbrev insert_by_age : SessionRow → Sessions → Sessions
insert_by_age r [] = r ∷ []
insert_by_age r (s ∷ ss) =
    if leb r.updated_at s.updated_at then r ∷ s ∷ ss else s ∷ insert_by_age r ss

-- `ORDER BY s.updated_at`.
abbrev pub by_age : Sessions → Sessions
by_age [] = []
by_age (r ∷ rs) = insert_by_age r (by_age rs)

-- `LIMIT`.
abbrev pub at_most {ℓ} : {A : Type ℓ} → ℕ → List A → List A
at_most zero xs = []
at_most (suc n) [] = []
at_most (suc n) (x ∷ xs) = x ∷ at_most n xs

abbrev pub ids_of : Sessions → List String
ids_of [] = []
ids_of (r ∷ rs) = r.session_id ∷ ids_of rs

-- The sessions that a claim takes, `locked` being the rows that a concurrent claim holds.
pub claimed : Workers → Sessions → List String → Time → ℕ → Sessions
claimed ws ss locked cutoff limit =
    at_most limit
      (by_age (select (λ r. is_orphan ws cutoff r && not (contains locked r.session_id)) ss))

-- `ClaimOrphans`: the rows after it, and those it returns.
pub claim_orphans :
    Workers → Sessions → List String → String → Time → ℕ → Time → Sessions × Sessions
unfolding claimed
claim_orphans ws ss locked w cutoff limit now =
    let ids = ids_of (claimed ws ss locked cutoff limit) in
    (
      set_owner_where (λ r. contains ids r.session_id) (some w) now ss,
      map (owned_by (some w) now) (claimed ws ss locked cutoff limit),
    )

abbrev pub live_addr : Workers → Time → Option String → String
live_addr [] cutoff o = ""
live_addr (w ∷ ws) cutoff o =
    if points_to o w.worker && is_alive cutoff w then w.addr else live_addr ws cutoff o

-- `SessionRoute`: kind and address, the address "" when nobody alive hosts the session.
unfoldable pub session_route : Workers → Sessions → String → Time → Option (String × String)
session_route ws [] s cutoff = none
session_route ws (r ∷ rs) s cutoff =
    if r.session_id is s
    then some (r.kind, live_addr ws cutoff r.worker_id)
    else session_route ws rs s cutoff

-- `DeregisterWorker`.
deregister_worker : Workers → String → Workers
deregister_worker ws w = select (λ (r : WorkerRow). not (r.worker is w)) ws

-- `PurgeWorkers`.
purge_workers : Workers → Time → Workers × ℕ
purge_workers ws before = (
  select (λ (r : WorkerRow). not (ltb r.last_seen_at before)) ws,
  length (select (λ (r : WorkerRow). ltb r.last_seen_at before) ws),
)

abbrev pub hosted : Sessions → String → ℕ
hosted ss w = length (select (λ (r : SessionRow). points_to r.worker_id w && is_authorized r) ss)

-- `WorkerLoad`: own sessions, all sessions, live workers.
unfoldable pub worker_load : Workers → Sessions → String → Time → ℕ × ℕ × ℕ
worker_load ws ss w cutoff =
    (hosted ss w, length (select is_authorized ss), length (select (is_alive cutoff) ws))

-- `ListOwned`.
unfoldable pub list_owned : Sessions → String → Sessions
list_owned ss w = select (λ (r : SessionRow). points_to r.worker_id w && is_openable r) ss

abbrev other_alive : Workers → String → Time → Option String → Bool
other_alive ws w cutoff none = false
other_alive ws w cutoff (some v) = alive_id ws cutoff v && not (v is w)

-- `ForeignOwned`.
unfoldable pub foreign_owned : Workers → Sessions → String → List String → Time → List String
foreign_owned ws ss w ids cutoff =
    ids_of (select (λ r. contains ids r.session_id && other_alive ws w cutoff r.worker_id) ss)

-- Fewer sessions first, then the newest heartbeat.
abbrev pub is_lighter : Sessions → WorkerRow → WorkerRow → Bool
is_lighter ss a b =
    ltb (hosted ss a.worker) (hosted ss b.worker)
    || ((hosted ss a.worker == hosted ss b.worker) && leb b.last_seen_at a.last_seen_at)

abbrev pub lightest : Sessions → WorkerRow → Workers → WorkerRow
lightest ss a [] = a
lightest ss a (b ∷ bs) = if is_lighter ss a b then lightest ss a bs else lightest ss b bs

abbrev pub addr_of_lightest : Sessions → Workers → String
addr_of_lightest ss [] = ""
addr_of_lightest ss (a ∷ rest) = (lightest ss a rest).addr

-- `PickWorker`: "" when no worker is alive.
pub pick_worker : Workers → Sessions → Time → String
pick_worker ws ss cutoff = addr_of_lightest ss (select (is_alive cutoff) ws)
