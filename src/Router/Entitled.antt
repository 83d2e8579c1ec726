-- ===== src/Router/Entitled.antt =====
-- Who may do what.
use tg_control_api_server.Prelude.{
  ◌≡◌, refl, String, Bool, true, false, not, ◌&&◌, ◌||◌, Option, none, some, ◌is◌, arith,
}
use tg_control_api_server.Store.Tokens.{Token, Scopes, resolve_token, token_grants_session}
use tg_control_api_server.Router.Paths.{cut_prefix, is_files_path}
use tg_control_api_server.Router.{
  session_target, Access, refused, passed, Request, StoreFaults, auth_target, auth_token,
  auth_bearer, bearer, auth,
}

-- Whether a request is handed on.
abbrev pub is_passed : Access → Bool
is_passed (refused n) = false
is_passed (passed t) = true

abbrev may_target : Scopes → StoreFaults → Token → Option String → Bool
may_target db f t none = false
may_target db f t (some s) = not f.grants_fails && token_grants_session db t.token_id s

-- What an enabled token may do, besides what a session's routes are.
abbrev is_open : Request → Bool
is_open r =
    is_files_path r.path
    || ((r.method is "POST") && (r.path is "/v1/execute"))
    || ((r.method is "GET") && ((r.path is "/v1/sessions") || (r.path is "/v1/me/limits")))

abbrev is_entitled : Scopes → StoreFaults → Request → Option Token → Bool
is_entitled db f r none = false
is_entitled db f r (some t) =
    t.enabled && (is_open r || may_target db f t (session_target r.method r.path))

abbrev pub bears_token : (String → String) → Scopes → StoreFaults → Request → Option String → Bool
bears_token sha256 db f r none = false
bears_token sha256 db f r (some tok) =
    not (tok is "")
    && not f.resolve_fails
    && is_entitled db f r (resolve_token db.tokens (sha256 tok))

is_passed-target :
    (db : Scopes) (f : StoreFaults) (t : Token) (s : Option String)
    → is_passed (auth_target db f t.token_id s) ≡ may_target db f t s
is_passed-target db f t none = refl
is_passed-target db f t (some s) = ground arith

is_passed-token :
    (db : Scopes) (f : StoreFaults) (r : Request) (o : Option Token)
    → is_passed (auth_token db f r o) ≡ is_entitled db f r o
is_passed-token db f r none = refl
is_passed-token db f r (some t) =
    ground (arith, is_passed-target db f t (session_target r.method r.path))

is_passed-bearer :
    (sha256 : String → String) (db : Scopes) (f : StoreFaults) (r : Request) (o : Option String)
    → is_passed (auth_bearer sha256 db f r o) ≡ bears_token sha256 db f r o
is_passed-bearer sha256 db f r none = refl
is_passed-bearer sha256 db f r (some tok) =
    ground (arith, is_passed-token db f r (resolve_token db.tokens (sha256 tok)))

-- A request is handed on when it is the liveness probe, or carries the master token, or carries a
-- scoped token that is known and enabled and asks for what such a token may do: uploads, a local
-- execute, its own listings, or a scoped route of a session that its grants cover. No other is.
pub is_passed-auth :
    (sha256 : String → String) (db : Scopes) (f : StoreFaults) (master : String) (r : Request)
    → is_passed (auth sha256 db f master r) ≡ (
        (r.path is "/healthz")
        || (not (r.authorization is "")
            && ((r.authorization is bearer master)
                || bears_token sha256 db f r (cut_prefix "Bearer " r.authorization))))
unfolding auth
is_passed-auth sha256 db f master r =
    ground (arith, is_passed-bearer sha256 db f r (cut_prefix "Bearer " r.authorization))
