-- ===== src/Examples/Rules.antt =====
-- The operator's limits on concrete rules (internal/quota, internal/session/limits.go).
use tg_control_api_server.Prelude.{
  ◌+◌, ℕ, ◌≤◌, ◌<◌, ◌≡◌, refl, String, true, false, Option, none, some, List, [], ◌∷◌, map,
  if◌then◌else◌, select, ◌is◌, arith,
}
use tg_control_api_server.Store.Limits.{Limit, Time}
use tg_control_api_server.Store.Counters.{CounterKey, calls, read}
use tg_control_api_server.Store.Counters.Bounded.{Within}
use tg_control_api_server.Quota.Methods.{CallParams}
use tg_control_api_server.Quota.Window.{window, span, week, window_partition}
use tg_control_api_server.Quota.Rules.{applicable}
use tg_control_api_server.Quota.Rules.Effective.{
  HaveIds, is_effective, in_force, limit_of, applicable-effective,
}
use tg_control_api_server.Session.Limits.{Caller, take_quota}
use tg_control_api_server.Session.Limits.Enforced.{Blames, Kept, take_quota_refusal}
use tg_control_api_server.Examples.Registry.{all_go}

abbrev rule : String → Option String → Option String → Option String → ℕ → Limit
rule id kind session token n = record {
  id = id;
  level = "session";
  kind = kind;
  session_id = session;
  token_id = token;
  methods = "@send" ∷ [];
  max_calls = n;
  per = "hour";
  label = none;
  enabled = true;
  created_at = 0;
}

-- A default for users, and the session's own rule in its place.
abbrev pub rules : List Limit
rules = rule "default" (some "user") none none 5 ∷ rule "own" none (some "s1") none 2 ∷ []

rules-HaveIds : HaveIds rules
rules-HaveIds = (refl, (refl, tt))

abbrev forwarding : CallParams
forwarding = record {
  only_local = false;
  message_ids = "1" ∷ "2" ∷ "3" ∷ [];
  input_message_contents = [];
  user_ids = [];
  contacts = [];
}

abbrev pub caller : Caller
caller = record {
  session_id = "s1";
  kind = "user";
  token_id = "";
  method = "forwardMessages";
  params = forwarding;
}

-- 2 January of year 1, past noon.
abbrev noon : Time
noon = 1000000000000000

take_quota_refusal_example :
    let r = take_quota all_go [] caller noon rules in Blames rules caller noon r.1 × Kept [] r.1 r.0
take_quota_refusal_example = take_quota_refusal all_go [] caller noon rules rules-HaveIds

abbrev hour_key : CounterKey
hour_key = record { limit_id = "own"; bucket = "s1"; window_start = 997200000000000 }

abbrev cap_of : CounterKey → ℕ
cap_of k = if k.limit_id is "own" then 2 else 5

empty-Within : Within cap_of []
unfolding calls read
empty-Within k = ground arith

applicable-effective_example :
    map limit_of (select in_force (applicable rules "s1" "user" ""))
    ≡ select (is_effective rules "s1" "user" "") rules
applicable-effective_example = applicable-effective rules "s1" "user" "" rules-HaveIds

week_below_noon : week ≤ noon
week_below_noon = omega arith

abbrev evening : Time
evening = 1010000000000000

evening_after : (window "day" noon).0 ≤ evening
unfolding window
evening_after = ground arith

evening_before : evening < (window "day" noon).1
unfolding window
evening_before = ground arith

window_partition_example :
    ((window "day" noon).0 ≤ noon)
    × (noon < (window "day" noon).1)
    × ((window "day" noon).1 ≡ (window "day" noon).0 + span "day")
    × ((t : Time)
        → (window "day" noon).0 ≤ t
        → t < (window "day" noon).1
        → window "day" t ≡ window "day" noon)
window_partition_example = window_partition "day" noon week_below_noon

same_day : window "day" evening ≡ window "day" noon
same_day = (window_partition "day" noon week_below_noon).3 evening evening_after evening_before

abbrev own_rule : Limit
own_rule = rule "own" none (some "s1") none 2
