-- ===== src/Session/Limits.antt =====
-- Counting a call against the operator's limits (internal/session/limits.go).
pub mod Enforced
use tg_control_api_server.Prelude.{
  ℕ, ◌+◌, ◌*◌, ◌≡◌, String, Bool, true, false, not, Option, none, some, List, [], ◌∷◌, map, ltb,
  ◌==◌, ◌is◌, if◌then◌else◌, get_elem?,
}
use tg_control_api_server.Store.Limits.{Limit, Time}
use tg_control_api_server.Store.Counters.{
  CounterKey, CounterUse, Table, Faults, Taken, counted, failed, refused, take_counters, give_back,
}
use tg_control_api_server.Quota.Methods.{CallParams, count}
use tg_control_api_server.Quota.Window.{window}
use tg_control_api_server.Quota.Rules.{Applied, applicable}

-- 2 seconds.
abbrev rule_refresh : ℕ
rule_refresh = 2000000000

pub record RuleCache : Type 0 where
  pub rules : List Limit
  pub at : Time

-- `limitRules`: `loaded` is what the registry answers, `none` a failure.
limit_rules : RuleCache → Time → Option (List Limit) → RuleCache
limit_rules c now loaded =
    if ltb now (c.at + rule_refresh)
    then c
    else elim loaded [ none ↦ c | some all ↦ record { rules = all; at = now } ]

-- A call, as the limits see it: its session, the token that makes it ("" the master) and itself.
pub record Caller : Type 0 where
  pub session_id : String
  pub kind : String
  pub token_id : String
  pub method : String
  pub params : CallParams

use_of : Caller → Time → Limit → CounterUse
use_of c now l = record {
  key = record { limit_id = l.id; bucket = c.session_id; window_start = (window l.per now).0 };
  n = count l c.method c.params;
  max_calls = l.max_calls;
}

-- The loop that fills `uses` and `hit`.
unfoldable pub uses_of : Caller → Time → List Applied → List (CounterUse × Limit)
unfolding use_of
uses_of c now [] = []
uses_of c now (a ∷ others) =
    let rest = uses_of c now others in
    if not (a.replaced_by is "")
    then rest
    else if count a.limit c.method c.params == 0
    then rest
    else (use_of c now a.limit, a.limit) ∷ rest

pub data Quota : Type 0 where
  -- goes out and is counted nowhere
  free : Quota
  -- counted; `release` gives these uses back
  taken : List CounterUse → Quota
  -- refused by the rule, until the end of its window
  limited : Limit → Time → Quota

abbrev first_uses : List (CounterUse × Limit) → List CounterUse
first_uses = map (λ (u : CounterUse × Limit). u.0)

abbrev blame : Time → Option (CounterUse × Limit) → Quota
blame now none = free
blame now (some (u, l)) = limited l (window l.per now).1

abbrev answer : Time → List (CounterUse × Limit) → Table × Taken → Table × Quota
answer now us (t, counted) = (t, taken (first_uses us))
answer now us (t, failed) = (t, free)
answer now us (t, refused i) = (t, blame now (get_elem? us i))

abbrev count_uses : Faults → Table → Time → List (CounterUse × Limit) → Table × Quota
count_uses f t now [] = (t, free)
count_uses f t now (u ∷ us) = answer now (u ∷ us) (take_counters f t (first_uses (u ∷ us)))

-- `takeQuota` over the rules that `limitRules` gave. With no rules nothing applies.
unfoldable pub take_quota : Faults → Table → Caller → Time → List Limit → Table × Quota
unfolding uses_of
take_quota f t c now rules =
    count_uses f t now (uses_of c now (applicable rules c.session_id c.kind c.token_id))

-- What `release` does: nothing, or giving the uses back.
unfoldable pub release : (ℕ → Bool) → Table → Quota → Table
release exec t free = t
release exec t (taken us) = (give_back exec 0 t us).0
release exec t (limited l until) = t
