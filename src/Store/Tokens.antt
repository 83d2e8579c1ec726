-- ===== src/Store/Tokens.antt =====
-- Scoped API tokens and their grants (internal/store/store.go, tables api_token, api_token_app,
-- api_token_session). A statement that fails, or a commit, rolls the whole transaction back:
-- `faulty` says that one does. An id that the referenced table does not hold fails its insert.
pub mod Scope
use tg_control_api_server.Prelude.{
  String, Bool, true, false, not, ◌&&◌, ◌||◌, Option, none, some, List, [], ◌∷◌, ◌++◌, ◌is◌,
  if◌then◌else◌, any, select, contains,
}

pub record Token : Type 0 where
  pub token_id : String
  pub name : Option String
  pub secret_hash : String
  pub enabled : Bool
  pub all_sessions : Bool

-- The rows of a session that scopes look at.
pub record SessionApp : Type 0 where
  pub session_id : String
  pub app_id : String

-- A grant table: who, what.
abbrev pub Grants : Type 0
Grants = List (String × String)

pub record Scopes : Type 0 where
  pub tokens : List Token
  pub token_apps : Grants
  pub token_sessions : Grants
  pub apps : List String
  pub sessions : List SessionApp
  -- how Postgres reads a UUID that a request gives
  pub canonical : String → String

-- `nullStr`.
abbrev pub null_str : String → Option String
null_str s = if s is "" then none else some s

abbrev pub has_grant : Grants → String → String → Bool
has_grant g t x = any (λ r. (r.0 is t) && (r.1 is x)) g

-- `INSERT … ON CONFLICT DO NOTHING`.
abbrev pub add_grant : Grants → String → String → Grants
add_grant g t x = if has_grant g t x then g else g ++ (t, x) ∷ []

-- The inserts of one list of ids; `none` when one does not exist.
pub add_grants : List String → List String → Grants → String → Option Grants
add_grants [] known g t = some g
add_grants (x ∷ xs) known g t =
    let rest = add_grants xs known (add_grant g t x) t in if contains known x then rest else none

abbrev pub delete_grants : Grants → String → Grants
delete_grants g t = select (λ r. not (r.0 is t)) g

abbrev pub session_ids : List SessionApp → List String
session_ids [] = []
session_ids (s ∷ ss) = s.session_id ∷ session_ids ss

abbrev pub set_grants : Scopes → Option Grants → Option Grants → Option Scopes
set_grants db (some a) (some s) = some (record {
  tokens = db.tokens;
  token_apps = a;
  token_sessions = s;
  canonical = db.canonical;
  apps = db.apps;
  sessions = db.sessions;
})
set_grants db (some a) none = none
set_grants db none s = none

-- `replaceTokenGrants`.
pub replace_token_grants : Scopes → String → List String → List String → Option Scopes
replace_token_grants db t apps sessions =
    set_grants db (add_grants apps db.apps (delete_grants db.token_apps t) t)
      (add_grants sessions (session_ids db.sessions) (delete_grants db.token_sessions t) t)

-- The list that was provided, if any, replaces the one there.
abbrev pub patched : Option (List String) → List String → Grants → String → Option Grants
patched none known g t = some g
patched (some xs) known g t = add_grants xs known (delete_grants g t) t

-- `patchTokenGrants`; `none` for a list that was not provided.
pub patch_token_grants :
    Scopes → String → Option (List String) → Option (List String) → Option Scopes
patch_token_grants db t apps sessions =
    set_grants db (patched apps db.apps db.token_apps t)
      (patched sessions (session_ids db.sessions) db.token_sessions t)

abbrev pub find_token : List Token → String → Option Token
find_token [] t = none
find_token (r ∷ rs) t = if r.token_id is t then some r else find_token rs t

-- What a call answers.
pub data Answer : Type 0 where
  failed missing : Answer
  done : String → Answer

abbrev committed : Bool → Scopes → Option Scopes → String → Scopes × Answer
committed true db new t = (db, failed)
committed false db none t = (db, failed)
committed false db (some new) t = (new, done t)

abbrev with_tokens : Scopes → List Token → Scopes
with_tokens db ts = record {
  tokens = ts;
  token_apps = db.token_apps;
  token_sessions = db.token_sessions;
  canonical = db.canonical;
  apps = db.apps;
  sessions = db.sessions;
}

-- `CreateToken`; the database makes the id.
unfoldable pub create_token : Scopes → Bool → Token → List String → List String → Scopes × Answer
unfolding replace_token_grants
create_token db faulty row apps sessions =
    committed faulty db
      (replace_token_grants (with_tokens db (db.tokens ++ row ∷ [])) row.token_id apps sessions)
      row.token_id

pub record TokenPatch : Type 0 where
  pub name : Option String
  pub enabled : Option Bool
  pub all_sessions : Option Bool
  pub app_ids : Option (List String)
  pub session_ids : Option (List String)

abbrev or_kept {ℓ} : {A : Type ℓ} → Option A → A → A
or_kept none a = a
or_kept (some b) a = b

abbrev renamed : Option String → Option String → Option String
renamed none old = old
renamed (some s) old = null_str s

abbrev patch_row : TokenPatch → Token → Token
patch_row p r = record {
  token_id = r.token_id;
  name = renamed p.name r.name;
  secret_hash = r.secret_hash;
  enabled = or_kept p.enabled r.enabled;
  all_sessions = or_kept p.all_sessions r.all_sessions;
}

abbrev patch_rows : TokenPatch → String → List Token → List Token
patch_rows p t [] = []
patch_rows p t (r ∷ rs) = (if r.token_id is t then patch_row p r else r) ∷ patch_rows p t rs

abbrev pub updated : Scopes → Bool → String → TokenPatch → Option Token → Scopes × Answer
updated db faulty t p none = (db, if faulty then failed else missing)
updated db faulty t p (some row) =
    committed faulty db
      (patch_token_grants (with_tokens db (patch_rows p t db.tokens)) t p.app_ids p.session_ids) t

-- `UpdateToken`.
pub update_token : Scopes → Bool → String → TokenPatch → Scopes × Answer
update_token db faulty t p = updated db faulty t p (find_token db.tokens t)

-- `DeleteToken`: the grants go with the token.
delete_token : Scopes → String → Scopes × Answer
delete_token db t = elim (find_token db.tokens t) [
  | none ↦ (db, missing)
  | some row ↦ (
    record {
      tokens = select (λ (r : Token). not (r.token_id is t)) db.tokens;
      token_apps = delete_grants db.token_apps t;
      token_sessions = delete_grants db.token_sessions t;
      canonical = db.canonical;
      apps = db.apps;
      sessions = db.sessions;
    },
    done t,
  )
]

-- `ResolveToken`: the token with a secret's hash.
unfoldable pub resolve_token : List Token → String → Option Token
resolve_token [] h = none
resolve_token (r ∷ rs) h = if r.secret_hash is h then some r else resolve_token rs h

abbrev scope_covers : Scopes → Token → String → Bool
scope_covers db t s =
    t.enabled
    && (t.all_sessions
        || has_grant db.token_sessions t.token_id s
        || any
            (λ (r : SessionApp). (r.session_id is s) && has_grant db.token_apps t.token_id r.app_id)
            db.sessions)

abbrev granted_to : Scopes → Option Token → String → Bool
granted_to db none s = false
granted_to db (some t) s = scope_covers db t s

-- `TokenGrantsSession`.
pub token_grants_session : Scopes → String → String → Bool
token_grants_session db t s = granted_to db (find_token db.tokens (db.canonical t)) (db.canonical s)

abbrev pub row_covered : Scopes → Token → SessionApp → Bool
row_covered db t r =
    t.enabled
    && (t.all_sessions
        || has_grant db.token_sessions t.token_id r.session_id
        || has_grant db.token_apps t.token_id r.app_id)

abbrev row_listed : Scopes → Option Token → SessionApp → Bool
row_listed db none r = false
row_listed db (some t) r = row_covered db t r

-- `ListSessionsForToken`: the rows, in order of creation.
pub list_sessions_for_token : Scopes → String → List SessionApp
list_sessions_for_token db t = select (row_listed db (find_token db.tokens t)) db.sessions
