-- ===== src/Examples/Gateway.antt =====
-- Requests at the gateway (internal/router).
use tg_control_api_server.Prelude.{
  ◌≡◌, refl, String, true, false, not, ◌&&◌, ◌||◌, Option, some, ◌is◌, if◌then◌else◌, any,
}
use tg_control_api_server.Store.Workers.{session_route}
use tg_control_api_server.Router.Paths.{segments, cut_prefix}
use tg_control_api_server.Router.{
  session_target, Routing, Request, StoreFaults, bearer, auth, scoped, forwarded, path_kind,
}
use tg_control_api_server.Router.Routes.{table_target, session_target-table}
use tg_control_api_server.Router.Entitled.{is_passed, bears_token, is_passed-auth}
use tg_control_api_server.Router.Placement.{hosted_at, scoped-forwards}
use tg_control_api_server.Examples.Registry.{scopes, sessions, workers}

session_target-table_example :
    session_target "GET" "/v1/bot/s1/updates/subscriptions/9/"
    ≡ table_target "GET" (segments "/v1/bot/s1/updates/subscriptions/9/")
session_target-table_example = session_target-table "GET" "/v1/bot/s1/updates/subscriptions/9/"

abbrev no_faults : StoreFaults
no_faults = record { resolve_fails = false; grants_fails = false }

abbrev sha256 : String → String
sha256 s = if s is "secret" then "h1" else "h0"

abbrev request : Request
request = record { method = "POST"; path = "/v1/user/s1/call"; authorization = "Bearer secret" }

is_passed-auth_example : is_passed (auth sha256 scopes no_faults "master" request) ≡ (
    (request.path is "/healthz")
    || (not (request.authorization is "")
        && ((request.authorization is bearer "master")
            || bears_token sha256 scopes no_faults request
                (cut_prefix "Bearer " request.authorization))))
is_passed-auth_example = is_passed-auth sha256 scopes no_faults "master" request

abbrev asker : Option String
asker = some "t1"

abbrev routing : Routing
routing = record { parses = λ a. true; canonical = λ s. s; route_fails = false; pick_fails = false }

forwards :
    scoped routing workers sessions 50 "/v1/user/s1/call" "s1" asker ≡ forwarded "http://w1" asker
unfolding scoped session_route path_kind segments
forwards = refl

scoped-forwards_example :
    (any (hosted_at workers 50 "s1" (path_kind "/v1/user/s1/call") "http://w1") sessions ≡ true)
    × (asker ≡ asker)
scoped-forwards_example =
    scoped-forwards routing workers sessions 50 "/v1/user/s1/call" "s1" "http://w1" asker asker
      forwards
