-- ===== src/Store/Cooldowns.antt =====
-- What the registry keeps of a session's account: table cooldown and the account columns of table
-- session (internal/store/store.go, "account limits"). One session's rows are modelled.
pub mod Merge
use tg_control_api_server.Prelude.{
  ◌/◌, ◌*◌, ℕ, String, Bool, true, false, not, ◌||◌, Option, none, some, List, [], ◌∷◌, ltb, ◌==◌,
  ◌is◌, if◌then◌else◌, Map, get, put, remove, text_eq, select, length, any, map,
}
use tg_control_api_server.Store.Limits.{Time}

abbrev pub spam_limit_scope : String
spam_limit_scope = "spam_limit"

pub record Cooldown : Type 0 where
  pub scope : String
  pub until : Time
  pub reason : String

pub record Account : Type 0 where
  pub is_premium : Option Bool
  pub frozen_at : Option Time
  pub deletion_at : Option Time
  pub appeal_link : Option String
  pub cooldowns : Map String Cooldown

-- `Limits`, what `SessionLimits` reads.
pub record AccountLimits : Type 0 where
  pub is_premium : Option Bool
  pub frozen : Bool
  pub frozen_since : Option Time
  pub deletion_date : Option Time
  pub appeal_link : String
  pub spam_limited : Bool
  pub cooldowns : List Cooldown

abbrev pub is_some {ℓ} : {A : Type ℓ} → Option A → Bool
is_some none = false
is_some (some a) = true

abbrev text_or_empty : Option String → String
text_or_empty none = ""
text_or_empty (some s) = s

abbrev running : Time → Map String Cooldown → List Cooldown
running now m = select (λ (c : Cooldown). ltb now c.until) (map (λ (r : String × Cooldown). r.1) m)

insert_by_end : Cooldown → List Cooldown → List Cooldown
insert_by_end c [] = c ∷ []
insert_by_end c (d ∷ ds) = if ltb d.until c.until then d ∷ insert_by_end c ds else c ∷ d ∷ ds

sort_by_end : List Cooldown → List Cooldown
unfolding insert_by_end
sort_by_end [] = []
sort_by_end (c ∷ cs) = insert_by_end c (sort_by_end cs)

-- `SessionLimits` of a known session.
unfoldable pub session_limits : Account → Time → AccountLimits
unfolding sort_by_end
session_limits a now = record {
  is_premium = a.is_premium;
  frozen = is_some a.frozen_at;
  frozen_since = a.frozen_at;
  deletion_date = a.deletion_at;
  appeal_link = text_or_empty a.appeal_link;
  spam_limited =
      any (λ (c : Cooldown). c.scope is spam_limit_scope) (sort_by_end (running now a.cooldowns));
  cooldowns = sort_by_end (running now a.cooldowns);
}

-- A later end takes the place of an earlier one.
unfoldable pub raise : Map String Cooldown → Cooldown → Map String Cooldown
raise m c = elim (get m c.scope) [
  | none ↦ put m c.scope c
  | some cur ↦ if ltb cur.until c.until then put m c.scope c else m
]

-- A timestamptz keeps microseconds: the nanoseconds below are cut off when the time is sent.
abbrev pub micros : Time → Time
micros t = t / 1000 * 1000

abbrev pub in_micros : Cooldown → Cooldown
in_micros c = record c { until = micros c.until }

-- `SetCooldown`: INSERT … ON CONFLICT … WHERE cooldown.ends_at < excluded.ends_at.
unfoldable pub set_cooldown : Map String Cooldown → Cooldown → Map String Cooldown
unfolding raise
set_cooldown m c = raise m (in_micros c)

-- `DeleteCooldown`, and whether one was recorded.
unfoldable pub delete_cooldown : Map String Cooldown → String → Map String Cooldown × Bool
delete_cooldown m scope = (remove m scope, is_some (get m scope))

-- `PurgeCooldowns` within one session.
unfoldable pub purge_cooldowns : Map String Cooldown → Time → Map String Cooldown × ℕ
purge_cooldowns m before = (
  select (λ (r : String × Cooldown). not (ltb r.1.until before)) m,
  length (select (λ (r : String × Cooldown). ltb r.1.until before) m),
)

abbrev pub or_now : Option Time → Time → Option Time
or_now none now = some now
or_now (some t) now = some t

-- `SetSessionPremium`.
set_session_premium : Account → Bool → Account
set_session_premium a premium = record a { is_premium = some premium }

-- `SetSessionFrozen`.
unfoldable pub set_session_frozen : Account → Bool → Time → Account
set_session_frozen a frozen now =
    if frozen
    then record a { frozen_at = or_now a.frozen_at now }
    else record a { frozen_at = none; deletion_at = none; appeal_link = none }

abbrev null_if_empty : String → Option String
null_if_empty s = if s is "" then none else some s

-- `SetSessionFreeze`: a deletion time of 0 is Go's zero time, not said.
unfoldable pub set_session_freeze : Account → Time → Time → String → Account
set_session_freeze a since deletion appeal = record a {
  frozen_at = some since;
  deletion_at = if deletion == 0 then none else some deletion;
  appeal_link = null_if_empty appeal;
}
