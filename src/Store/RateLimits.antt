-- ===== src/Store/RateLimits.antt =====
-- The rows of rate_limit (internal/store/limits.go). A statement may fail with an error of its own;
-- Postgres writes a UUID in its canonical form. The rows arrive checked, so the table's CHECKs pass.
use tg_control_api_server.Prelude.{
  String, Bool, true, not, ◌&&◌, Option, none, some, List, [], ◌∷◌, ◌++◌, leb, ◌is◌, if◌then◌else◌,
  select, any,
}
use tg_control_api_server.Store.Limits.{Limit, Time}
use tg_control_api_server.Store.Counters.{Table, Row}

pub record RateLimits : Type 0 where
  pub rules : List Limit
  pub counters : Table

-- What the statements meet: Postgres's UUIDs, and the rows that the foreign keys point to.
pub record Registry : Type 0 where
  pub canonical : String → String
  pub has_session : String → Bool
  pub has_token : String → Bool

-- A row, none, `ErrLimitTarget`, or another error.
pub data Found : Type 0 where
  row : Limit → Found
  no_row no_target : Found
  failed : String → Found

abbrev pub stored_id : (String → String) → Option String → Option String
stored_id canonical none = none
stored_id canonical (some s) = some (canonical s)

abbrev pub present : (String → Bool) → Option String → Bool
present has none = true
present has (some s) = has s

abbrev pub stored : Registry → String → Time → Limit → Limit
stored g id now l = record l {
  id = id;
  session_id = stored_id g.canonical l.session_id;
  token_id = stored_id g.canonical l.token_id;
  created_at = now;
}

abbrev insert : Registry → RateLimits → Limit → RateLimits × Found
insert g t l =
    if present g.has_session l.session_id && present g.has_token l.token_id
    then (record t { rules = t.rules ++ (l ∷ []) }, row l)
    else (t, no_target)

-- `CreateLimit`, with the id and the time that Postgres gives the row.
unfoldable pub create_limit :
    Registry → RateLimits → String → Time → Limit → Option String → RateLimits × Found
create_limit g t id now l none = insert g t (stored g id now l)
create_limit g t id now l (some e) = (t, failed e)

unfoldable pub find_rule : List Limit → String → Found
find_rule [] id = no_row
find_rule (l ∷ ls) id = let rest = find_rule ls id in if l.id is id then row l else rest

-- `GetLimit`.
unfoldable pub get_limit : Registry → RateLimits → String → Option String → Found
unfolding find_rule
get_limit g t id none = find_rule t.rules (g.canonical id)
get_limit g t id (some e) = failed e

insert_rule : Limit → List Limit → List Limit
insert_rule l [] = l ∷ []
insert_rule l (m ∷ ms) =
    let rest = insert_rule l ms in if leb l.created_at m.created_at then l ∷ m ∷ ms else m ∷ rest

unfoldable pub by_age : List Limit → List Limit
unfolding insert_rule
by_age [] = []
by_age (l ∷ ls) = insert_rule l (by_age ls)

-- `ListLimits`.
unfoldable pub list_limits : RateLimits → List Limit
unfolding by_age
list_limits t = by_age t.rules

-- `UpdateLimit`.
abbrev pub changed : Limit → Limit → Limit
changed l m = record m {
  methods = l.methods;
  max_calls = l.max_calls;
  per = l.per;
  label = l.label;
  enabled = l.enabled;
}

unfoldable pub update_rules : Limit → List Limit → List Limit
update_rules l [] = []
update_rules l (m ∷ ms) = (if m.id is l.id then changed l m else m) ∷ update_rules l ms

unfoldable pub update_limit : RateLimits → Limit → Option String → RateLimits × Found
unfolding update_rules find_rule
update_limit t l none =
    let rs = update_rules l t.rules in (record t { rules = rs }, find_rule rs l.id)
update_limit t l (some e) = (t, failed e)

-- `DeleteLimit`, with the cascade to its counters; whether a row went.
unfoldable pub delete_limit : RateLimits → String → RateLimits × Bool
delete_limit t id = (
  record {
    rules = select (λ (l : Limit). not (l.id is id)) t.rules;
    counters = select (λ (r : Row). not (r.0.limit_id is id)) t.counters;
  },
  any (λ (l : Limit). l.id is id) t.rules,
)
