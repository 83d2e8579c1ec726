-- ===== src/Router/LimitHandlers.antt =====
-- The handlers of an operator's rate limits (internal/router/limits.go). A body is none where it does
-- not decode; an integer that does not fit in 32 bits does not.
pub mod Checks
pub mod Managed
use Prim.Native.String.{◌++◌ as join}
use tg_control_api_server.Prelude.{
  ℕ, String, Bool, true, false, not, ◌&&◌, Option, none, some, List, [], ◌∷◌, map, ◌is◌,
  if◌then◌else◌, contains, ◌⊎◌, inl, inr, ℤ, pos, negsuc, leb,
}
use tg_control_api_server.Store.Limits.{Limit, Time}
use tg_control_api_server.Store.Counters.{max_counter, calls, CounterKey}
use tg_control_api_server.Quota.Rules.{Applied, applicable}
use tg_control_api_server.Store.RateLimits.{
  RateLimits, Registry, Found, row, no_row, no_target, failed, create_limit, get_limit, list_limits,
  update_limit, delete_limit,
}
use tg_control_api_server.Quota.Methods.{valid_pattern}
use tg_control_api_server.Quota.Window.{window, pers}
use tg_control_api_server.Router.Limits.{is_uuid, valid_target}

-- A rule as a request gives it: its maximum may be negative, and is kept apart.
pub record Draft : Type 0 where
  pub limit : Limit
  pub maximum : ℤ

-- `ruleView`.
pub record RuleView : Type 0 where
  pub limit : Limit
  pub used : ℕ
  pub window_end : Time

pub data Answer : Type 0 where
  shown : RuleView → Answer
  listed : List RuleView → Answer
  deleted : Answer
  refused : ℕ → String → Answer

-- A field of a patch: not there, not of its type, or a value.
pub data Patch (A : Type 0) : Type 0 where
  kept : Patch A
  unreadable : String → Patch A
  given : A → Patch A

-- A patch: the names of its fields, and what those that may change hold.
pub record Changes : Type 0 where
  pub names : List String
  pub methods : Patch (List String)
  pub maximum : Patch ℤ
  pub per : Patch String
  pub label : Patch (Option String)
  pub enabled : Patch Bool

-- The errors of a handler's statements, none where one succeeds, and of reading a counter.
pub record Failures : Type 0 where
  pub read : Option String
  pub write : Option String
  pub count : Bool

abbrev pub is_positive : ℤ → Bool
is_positive (pos n) = leb 1 n
is_positive (negsuc n) = false

-- The first method that is none.
pub bad_method : List String → Option String
bad_method [] = none
bad_method (m ∷ ms) = let rest = bad_method ms in if valid_pattern m then rest else some m

abbrev pub method_complaint : Option String → String → String
method_complaint none rest = rest
method_complaint (some m) rest =
    join (join "bad method " m) ": use \"*\", a method group (\"@send\") or a td_api method name"

abbrev pub is_nil : List String → Bool
is_nil [] = true
is_nil (m ∷ ms) = false

-- `validLimit`: the complaint, or "".
pub valid_limit : Draft → String
unfolding bad_method
valid_limit d =
    if is_nil d.limit.methods
    then "methods must list at least one of \"*\", a method group (\"@send\") or a method (\"sendMessage\")"
    else method_complaint (bad_method d.limit.methods) (
        if not (is_positive d.maximum)
        then "max must be positive"
        else if not (contains pers d.limit.per)
        then "per must be minute, hour, day, week"
        else "")

abbrev pub amount : ℤ → ℕ
amount (pos n) = n
amount (negsuc n) = 0

abbrev pub settled : Draft → Limit
settled d = record d.limit { max_calls = amount d.maximum }

-- `limitView`.
unfoldable pub limit_view : RateLimits → Failures → Time → Limit → RuleView
limit_view t f now l =
    let w = window l.per now in
    record {
      limit = l;
      used = if f.count then 0 else max_counter t.counters l.id w.0;
      window_end = w.1;
    }

abbrev pub with_view : Failures → Time → RateLimits × Found → RateLimits × Answer
with_view f now (t, row l) = (t, shown (limit_view t f now l))
with_view f now (t, no_row) = (t, refused 502 "no rows in result set")
with_view f now (t, no_target) = (t, refused 400 "the limit's session or token does not exist")
with_view f now (t, failed e) = (t, refused 502 e)

-- `createLimit`, with the id and the time of a new row.
unfoldable pub create_rule :
    Registry → RateLimits → String → Time → Option Draft → Failures → RateLimits × Answer
unfolding valid_target valid_limit create_limit
create_rule g t id now none f = (t, refused 400 "invalid JSON body")
create_rule g t id now (some d) f =
    if not (valid_target d.limit is "")
    then (t, refused 400 (valid_target d.limit))
    else if not (valid_limit d is "")
    then (t, refused 400 (valid_limit d))
    else with_view f now (create_limit g t id now (settled d) f.write)

-- `limitByPath`.
pub limit_by_path : Registry → RateLimits → String → Failures → Found
limit_by_path g t id f = if is_uuid id then get_limit g t id f.read else no_row

abbrev pub on_rule : RateLimits → Found → (Limit → RateLimits × Answer) → RateLimits × Answer
on_rule t (row l) k = k l
on_rule t no_row k = (t, refused 404 "limit not found")
on_rule t no_target k = (t, refused 404 "limit not found")
on_rule t (failed e) k = (t, refused 502 e)

-- `getLimit`.
unfoldable pub get_rule : Registry → RateLimits → String → Time → Failures → RateLimits × Answer
unfolding limit_by_path
get_rule g t id now f = on_rule t (limit_by_path g t id f) (λ l. (t, shown (limit_view t f now l)))

-- `listLimits`.
unfoldable pub list_rules : RateLimits → Time → Failures → RateLimits × Answer
list_rules t now f = elim f.read [
  | none ↦ (t, listed (map (limit_view t f now) (list_limits t)))
  | some e ↦ (t, refused 502 e)
]

-- The first of the fields that may not change.
abbrev pub fixed_fields : List String
fixed_fields = "id" ∷ "level" ∷ "kind" ∷ "session_id" ∷ "token_id" ∷ []

pub fixed_named : List String → List String → Option String
fixed_named names [] = none
fixed_named names (k ∷ ks) =
    let rest = fixed_named names ks in if contains names k then some k else rest

abbrev patched : {A : Type 0} → Patch A → A → A
patched kept x = x
patched (unreadable e) x = x
patched (given y) x = y

abbrev complaint : {A : Type 0} → Patch A → Option String → Option String
complaint (unreadable e) rest = some e
complaint kept rest = rest
complaint (given y) rest = rest

-- The patch on a rule. Go takes the fields in no fixed order; which complaint is told is the only
-- difference that it makes.
abbrev pub unread : Changes → Option String
unread c =
    complaint c.methods
      (complaint c.maximum (complaint c.per (complaint c.label (complaint c.enabled none))))

abbrev pub patch : Changes → Limit → Draft
patch c l = record {
  limit = record l {
    methods = patched c.methods l.methods;
    per = patched c.per l.per;
    label = patched c.label l.label;
    enabled = patched c.enabled l.enabled;
  };
  maximum = patched c.maximum (pos l.max_calls);
}

abbrev pub written : RateLimits → Time → Failures → Draft → RateLimits × Answer
written t now f d =
    if not (valid_limit d is "")
    then (t, refused 400 (valid_limit d))
    else with_view f now (update_limit t (settled d) f.write)

abbrev pub readable :
    RateLimits → Time → Failures → Changes → Limit → Option String → RateLimits × Answer
readable t now f c l (some e) = (t, refused 400 e)
readable t now f c l none = written t now f (patch c l)

abbrev pub changeable :
    RateLimits → Time → Failures → Changes → Limit → Option String → RateLimits × Answer
changeable t now f c l (some k) = (t, refused 400 (join k " cannot change: create another limit"))
changeable t now f c l none = readable t now f c l (unread c)

abbrev pub decoded : RateLimits → Time → Failures → Option Changes → Limit → RateLimits × Answer
decoded t now f none l = (t, refused 400 "invalid JSON body")
decoded t now f (some c) l = changeable t now f c l (fixed_named c.names fixed_fields)

-- `updateLimit`.
unfoldable pub update_rule :
    Registry → RateLimits → String → Time → Option Changes → Failures → RateLimits × Answer
unfolding limit_by_path valid_limit fixed_named
update_rule g t id now body f = on_rule t (limit_by_path g t id f) (decoded t now f body)

abbrev pub removed : RateLimits → Option String → Limit → RateLimits × Answer
removed t none l = ((delete_limit t l.id).0, deleted)
removed t (some e) l = (t, refused 502 e)

-- `deleteLimit`.
unfoldable pub delete_rule : Registry → RateLimits → String → Failures → RateLimits × Answer
unfolding limit_by_path
delete_rule g t id f = on_rule t (limit_by_path g t id f) (removed t f.write)

-- `sessionRules`, where `refuses` is the failure of reading the counters.
pub record SessionRule : Type 0 where
  pub limit : Limit
  pub used : ℕ
  pub window_end : Time
  pub replaced_by : Option String

abbrev named_or_none : String → Option String
named_or_none s = if s is "" then none else some s

abbrev session_rule : RateLimits → String → Time → Applied → SessionRule
session_rule t session_id now a =
    let w = window a.limit.per now in
    record {
      limit = a.limit;
      used =
          calls t.counters
            (record { limit_id = a.limit.id; bucket = session_id; window_start = w.0 });
      window_end = w.1;
      replaced_by = named_or_none a.replaced_by;
    }

unfoldable pub session_rules :
    RateLimits
    → List Limit
    → String
    → String
    → String
    → Time
    → Option String
    → List SessionRule ⊎ String
session_rules t rules session_id kind token_id now none =
    inl (map (session_rule t session_id now) (applicable rules session_id kind token_id))
session_rules t rules session_id kind token_id now (some e) = inr e
