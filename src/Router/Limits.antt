-- ===== src/Router/Limits.antt =====
-- Which target an operator may give a rule (internal/router/limits.go).
pub mod Targets
use tg_control_api_server.Prelude.{
  ℕ, zero, suc, String, Bool, true, false, not, ◌&&◌, ◌||◌, Option, none, some, List, [], ◌∷◌, leb,
  ◌==◌, ◌is◌, if◌then◌else◌,
}
use tg_control_api_server.Tdjson.{Text, codes}
use tg_control_api_server.Store.Limits.{Limit}

abbrev is_hex : ℕ → Bool
is_hex c = (leb b'0' c && leb c b'9') || (leb b'a' c && leb c b'f') || (leb b'A' c && leb c b'F')

-- So many hexadecimal digits in each group, with a dash between the groups.
hex_groups : ℕ → List ℕ → Text → Bool
hex_groups zero [] [] = true
hex_groups zero [] (c ∷ s) = false
hex_groups zero (n ∷ ns) [] = false
hex_groups zero (n ∷ ns) (c ∷ s) = let rest = hex_groups n ns s in if c == b'-' then rest else false
hex_groups (suc k) ns [] = false
hex_groups (suc k) ns (c ∷ s) = let rest = hex_groups k ns s in if is_hex c then rest else false

-- `uuidPattern`.
unfoldable pub is_uuid : String → Bool
unfolding hex_groups
is_uuid s = hex_groups 8 (4 ∷ 4 ∷ 4 ∷ 12 ∷ []) (codes s)

abbrev pub is_id : Option String → Bool
is_id none = false
is_id (some s) = is_uuid s

abbrev pub is_absent : Option String → Bool
is_absent none = true
is_absent (some s) = false

abbrev pub is_kind : Option String → Bool
is_kind none = false
is_kind (some k) = (k is "user") || (k is "bot")

abbrev pub want_session : String
want_session =
    "a session limit takes session_id, or kind (user or bot) for the default of every session of the kind"

abbrev pub session_level : Limit → String
session_level l =
    if not (is_absent l.token_id)
    then want_session
    else if is_absent l.session_id
    then (if not (is_kind l.kind) then want_session else "")
    else if not (is_id l.session_id) || not (is_absent l.kind)
    then want_session
    else ""

abbrev pub token_level : Limit → String
token_level l =
    if not (is_id l.token_id) || not (is_absent l.kind) || not (is_absent l.session_id)
    then "a token limit takes only token_id"
    else ""

-- `validTarget`: the complaint, or "".
unfoldable pub valid_target : Limit → String
valid_target l =
    if l.level is "session"
    then session_level l
    else if l.level is "token"
    then token_level l
    else "level must be session or token"
