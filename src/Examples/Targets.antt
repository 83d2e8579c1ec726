-- ===== src/Examples/Targets.antt =====
-- Rules through the handlers (internal/router/limits.go).
use tg_control_api_server.Prelude.{
  ◌≡◌, refl, String, none, some, true, false, [], ◌∷◌, map, All, pos,
}
use tg_control_api_server.Store.Limits.{Limit}
use tg_control_api_server.Store.RateLimits.{RateLimits, Registry, create_limit}
use tg_control_api_server.Quota.Methods.{valid_pattern}
use tg_control_api_server.Router.Limits.{is_uuid}
use tg_control_api_server.Router.LimitHandlers.{
  Draft, Changes, Failures, kept, given, create_rule, update_rule,
}
use tg_control_api_server.Router.LimitHandlers.Checks.{IsManaged}
use tg_control_api_server.Router.LimitHandlers.Managed.{here, next, creates, updates, Reach-Managed}

abbrev session_rule : Limit
session_rule = record {
  id = "";
  level = "session";
  kind = none;
  session_id = some "01234567-89ab-cdef-0123-456789abcdef";
  token_id = none;
  methods = "*" ∷ [];
  max_calls = 10;
  per = "day";
  label = none;
  enabled = true;
  created_at = 0;
}

abbrev plain_registry : Registry
plain_registry = record { canonical = λ s. s; has_session = λ s. true; has_token = λ s. true }

abbrev no_failures : Failures
no_failures = record { read = none; write = none; count = false }

abbrev new_rule : String
new_rule = "89abcdef-0123-4567-89ab-cdef01234567"

abbrev rule_draft : Draft
rule_draft = record { limit = session_rule; maximum = pos 10 }

abbrev bad_patch : Changes
bad_patch = record {
  names = "max" ∷ [];
  methods = kept;
  maximum = given (pos 0);
  per = kept;
  label = kept;
  enabled = kept;
}

abbrev one_rule : RateLimits
one_rule =
    (create_rule plain_registry (record { rules = []; counters = [] }) new_rule 5 (some rule_draft)
      no_failures).0

Reach-Managed_example :
    All IsManaged
      (update_rule plain_registry one_rule new_rule 7 (some bad_patch) no_failures).0.rules
Reach-Managed_example =
    Reach-Managed plain_registry [] (λ s h. h)
      (next (next here (creates new_rule 5 (some rule_draft) no_failures))
        (updates new_rule 7 (some bad_patch) no_failures))

-- The first request makes a rule.
rule_made : map (λ (l : Limit). l.max_calls) one_rule.rules ≡ 10 ∷ []
unfolding create_rule create_limit is_uuid valid_pattern
rule_made = refl
