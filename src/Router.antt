-- ===== src/Router.antt =====
-- The gateway's front door (internal/router/router.go): which requests a token may make, and which
-- worker a request goes to.
pub mod Paths
pub mod Routes
pub mod Entitled
pub mod Placement
pub mod Limits
pub mod LimitHandlers
use Prim.Native.String.{◌++◌ as join}
use tg_control_api_server.Prelude.{
  ℕ, String, Bool, true, false, not, ◌&&◌, ◌||◌, Option, none, some, List, [], ◌∷◌, ltb, leb, ◌==◌,
  ◌is◌, if◌then◌else◌, length, get_elem?,
}
use tg_control_api_server.Store.Limits.{Time}
use tg_control_api_server.Store.Tokens.{Token, Scopes, resolve_token, token_grants_session}
use tg_control_api_server.Store.Workers.{Workers, Sessions, session_route, pick_worker}
use tg_control_api_server.Router.Paths.{segments, cut_prefix, is_files_path}

abbrev or_empty : Option String → String
or_empty none = ""
or_empty (some s) = s

-- A part of a path; the code reads none beyond the last.
abbrev part : List String → ℕ → String
part parts i = or_empty (get_elem? parts i)

abbrev subscription_target : String → List String → String → Option String
subscription_target method parts id =
    if (length parts == 5) && ((method is "GET") || (method is "POST"))
    then some id
    else if (length parts == 6) && ((method is "GET") || (method is "DELETE"))
    then some id
    else none

abbrev pub target_of : String → List String → Option String
target_of method parts =
    if ltb (length parts) 3
      || not (part parts 0 is "v1")
      || (not (part parts 1 is "user") && not (part parts 1 is "bot"))
    then none
    else if (method is "GET") && (length parts == 3)
    then some (part parts 2)
    else if (method is "POST") && (length parts == 4) && (part parts 3 is "call")
    then some (part parts 2)
    else if (method is "GET") && (length parts == 5) && (part parts 3 is "files")
    then some (part parts 2)
    else if (method is "GET") && (length parts == 4) && (part parts 3 is "sends")
    then some (part parts 2)
    else if (method is "GET") && (length parts == 4) && (part parts 3 is "limits")
    then some (part parts 2)
    else if leb 5 (length parts) && (part parts 3 is "updates") && (part parts 4 is "subscriptions")
    then subscription_target method parts (part parts 2)
    else none

-- `sessionTarget`.
pub session_target : String → String → Option String
session_target method path = target_of method (segments path)

-- What `auth` does with a request: it is refused with a status, or handed on, tagged with the
-- scoped token's id where the handlers narrow their answer to it.
pub data Access : Type 0 where
  refused : ℕ → Access
  passed : Option String → Access

pub record Request : Type 0 where
  pub method : String
  pub path : String
  pub authorization : String

-- Whether the two lookups of the token fail.
pub record StoreFaults : Type 0 where
  pub resolve_fails : Bool
  pub grants_fails : Bool

abbrev is_execute : Request → Bool
is_execute r = (r.method is "POST") && (r.path is "/v1/execute")

abbrev is_own_listing : Request → Bool
is_own_listing r =
    (r.method is "GET") && ((r.path is "/v1/sessions") || (r.path is "/v1/me/limits"))

abbrev pub auth_target : Scopes → StoreFaults → String → Option String → Access
auth_target db f t none = refused 403
auth_target db f t (some s) =
    if f.grants_fails
    then refused 502
    else if not (token_grants_session db t s)
    then refused 403
    else passed (some t)

abbrev pub auth_token : Scopes → StoreFaults → Request → Option Token → Access
auth_token db f r none = refused 401
auth_token db f r (some t) =
    if not t.enabled
    then refused 403
    else if is_files_path r.path
    then passed none
    else if is_execute r
    then passed none
    else if is_own_listing r
    then passed (some t.token_id)
    else auth_target db f t.token_id (session_target r.method r.path)

abbrev pub auth_bearer : (String → String) → Scopes → StoreFaults → Request → Option String → Access
auth_bearer sha256 db f r none = refused 401
auth_bearer sha256 db f r (some tok) =
    if tok is ""
    then refused 401
    else if f.resolve_fails
    then refused 502
    else auth_token db f r (resolve_token db.tokens (sha256 tok))

abbrev pub bearer : String → String
bearer token = join "Bearer " token

-- `auth`.
pub auth : (String → String) → Scopes → StoreFaults → String → Request → Access
auth sha256 db f master r =
    if r.path is "/healthz"
    then passed none
    else if r.authorization is ""
    then refused 401
    else if r.authorization is bearer master
    then passed none
    else auth_bearer sha256 db f r (cut_prefix "Bearer " r.authorization)

-- `pathKind`.
abbrev kind_of : List String → String
kind_of parts = if leb 2 (length parts) && (part parts 0 is "v1") then part parts 1 else ""

unfoldable pub path_kind : String → String
path_kind path = kind_of (segments path)

-- Where a request ends: an error status, or a worker's address and the token id that it is told.
pub data Routed : Type 0 where
  failed : ℕ → Routed
  forwarded : String → Option String → Routed

-- `resolveSession` then `k`, which is given the owner's address.
abbrev pub with_route : Option (String × String) → String → (String → Routed) → Routed
with_route none kind k = failed 404
with_route (some (kind, addr)) want k = if not (kind is want) then failed 404 else k addr

-- `forward`; the header that the client sent is overwritten. `parses` is `url.Parse`.
abbrev forward : (String → Bool) → Option String → String → Routed
forward parses t addr = if parses addr then forwarded addr t else failed 502

abbrev pub to_owner : (String → Bool) → Option String → String → Routed
to_owner parses t addr = if addr is "" then failed 503 else forward parses t addr

-- What the handlers meet: `url.Parse`, how Postgres reads a UUID, and whether a statement fails, that
-- of the session's route or that of picking a worker.
pub record Routing : Type 0 where
  pub parses : String → Bool
  pub canonical : String → String
  pub route_fails : Bool
  pub pick_fails : Bool

-- `scoped`.
unfoldable pub scoped :
    Routing → Workers → Sessions → Time → String → String → Option String → Routed
scoped x ws ss cutoff path id t =
    if x.route_fails
    then failed 502
    else with_route (session_route ws ss (x.canonical id) cutoff) (path_kind path)
        (to_owner x.parses t)

-- `anyWorker`.
unfoldable pub any_worker : Routing → Workers → Sessions → Time → Option String → Routed
any_worker x ws ss cutoff t =
    if x.pick_fails then failed 502 else to_owner x.parses t (pick_worker ws ss cutoff)

abbrev to_owner_or_any : Routing → Workers → Sessions → Time → Option String → String → Routed
to_owner_or_any x ws ss cutoff t addr =
    if addr is "" then any_worker x ws ss cutoff t else to_owner x.parses t addr

-- `ownerOrAnyWorker`.
unfoldable pub owner_or_any_worker :
    Routing → Workers → Sessions → Time → String → String → Option String → Routed
owner_or_any_worker x ws ss cutoff path id t =
    if x.route_fails
    then failed 502
    else with_route (session_route ws ss (x.canonical id) cutoff) (path_kind path)
        (to_owner_or_any x ws ss cutoff t)
