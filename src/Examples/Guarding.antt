-- ===== src/Examples/Guarding.antt =====
-- The call guard on concrete answers and times (internal/session/guard.go).
use mathlib.Core.List.{Permᴰ}
use tg_control_api_server.Prelude.{
  Bool, ℕ, ◌≡◌, ◌≢◌, ◌⊎◌, refl, true, false, none, some, List, [], ◌∷◌, pos, suc, get, put, text_eq,
}
use tg_control_api_server.Tdjson.{TdError}
use tg_control_api_server.Store.Limits.{Time}
use tg_control_api_server.Store.Cooldowns.{
  micros, Cooldown, Account, spam_limit_scope, session_limits,
}
use tg_control_api_server.Store.Cooldowns.Merge.{ends, set_cooldowns}
use tg_control_api_server.Session.Guard.{Guard, new_guard, set, active, reserve, cool_down}
use tg_control_api_server.Session.Guard.Pace.{granted_starts, Spaced, granted_starts-Spaced}
use tg_control_api_server.Session.Guard.Cooling.{registry_agrees}
use tg_control_api_server.Session.Observe.Frozen.{
  set_all, frozen_writes, arrived, frozen_writes_reordered,
}
use tg_control_api_server.Quota.Rules.{applicable, collect, listed}
use tg_control_api_server.Session.Limits.{take_quota, uses_of}
use tg_control_api_server.Session.Admit.{Call, World, spam_blocked, admit, admitted}
use tg_control_api_server.Session.Admit.Refusals.{SameCalls, admit_refused_free, admit_spam_limited}
use tg_control_api_server.Examples.Registry.{all_go}
use tg_control_api_server.Examples.Rules.{caller}

-- Twelve writes at once: the last is refused.
abbrev at_once : List Time
at_once = 5 ∷ 5 ∷ 5 ∷ 5 ∷ 5 ∷ 5 ∷ 5 ∷ 5 ∷ 5 ∷ 5 ∷ 5 ∷ 5 ∷ []

granted_starts-Spaced_example : Spaced new_guard.next (granted_starts new_guard at_once)
granted_starts-Spaced_example = granted_starts-Spaced new_guard at_once

abbrev busy : Guard
busy = record new_guard { next = 12000000000 }

abbrev short : Cooldown
short = record { scope = "@send"; until = 100; reason = "FLOOD_WAIT_1" }

abbrev long : Cooldown
long = record { scope = "@send"; until = 9000500; reason = "FLOOD_WAIT_9" }

sent_writes : (cool_down new_guard (short ∷ long ∷ [])).1 ≡ short ∷ long ∷ []
unfolding cool_down set get put
sent_writes = refl

registry_agrees_example :
    ends (set_cooldowns [] (long ∷ short ∷ [])) "@send"
    ≡ micros (ends (cool_down new_guard (short ∷ long ∷ [])).0.cool "@send")
unfolding get
registry_agrees_example =
    registry_agrees new_guard (short ∷ long ∷ []) (long ∷ short ∷ []) [] "@send"
      (rw sent_writes (∣ Permᴰ.swap refl refl ∣₁)) refl

abbrev flood : TdError
flood = record { err_code = pos 429; message = "Too Many Requests: retry after 30" }

abbrev account : Account
account = record {
  is_premium = none;
  frozen_at = none;
  deletion_at = none;
  appeal_link = none;
  cooldowns = [];
}

frozen_writes_reordered_example :
    ((fs : List Bool)
      → (session_limits account 3).frozen ≡ new_guard.frozen
      → (session_limits (arrived (λ i. i) 0 account (frozen_writes new_guard fs)) 3).frozen
        ≡ (set_all new_guard fs).frozen)
    × (new_guard.frozen ≡ false
        → (frozen_writes new_guard (true ∷ false ∷ []) ≡ true ∷ false ∷ [])
          × ((session_limits (arrived (λ i. i) 0 account (false ∷ true ∷ [])) 3).frozen ≡ true)
          × ((set_all new_guard (true ∷ false ∷ [])).frozen ≡ false))
frozen_writes_reordered_example = frozen_writes_reordered (λ i. i) new_guard account 3

abbrev call : Call
call = record {
  caller = caller;
  scope = "@send";
  chat_id = pos 77;
  known = some true;
  at_check = 10;
  at_limits = 20;
  at_pace = 30;
  gave_up = false;
  rules = [];
  faults = all_go;
  release_exec = λ _. true;
}

-- A pace queue that is full.
abbrev crowded : World
crowded = record { guard = busy; table = [] }

crowded_refused : (admit call crowded).1 ≢ admitted
unfolding admit take_quota applicable collect listed uses_of active get reserve spam_blocked
crowded_refused e = cc

admit_refused_free_example : SameCalls (admit call crowded).0.table crowded.table
admit_refused_free_example = admit_refused_free call crowded (λ e. cc) refl crowded_refused

abbrev spam_limit : Cooldown
spam_limit = record { scope = spam_limit_scope; until = 1000; reason = "PEER_FLOOD" }

abbrev limited_world : World
limited_world = record {
  guard = record new_guard { cool = (spam_limit_scope, spam_limit) ∷ [] };
  table = [];
}

spam_limited : active limited_world.guard spam_limit_scope 10 ≡ some spam_limit
unfolding active get
spam_limited = refl

let_out : (admit call limited_world).1 ≡ admitted
unfolding admit take_quota applicable collect listed uses_of active get reserve spam_blocked
let_out = refl

admit_spam_limited_example :
    (call.scope ≢ "@invite")
    × (call.scope ≢ "@contacts")
    × ((n : ℕ)
        → call.scope ≡ "@send"
        → call.chat_id ≡ pos (suc n)
        → (pos (suc n) ≡ limited_world.guard.my_id) ⊎ (call.known ≡ some true))
admit_spam_limited_example =
    admit_spam_limited call limited_world {d = spam_limit} refl spam_limited let_out
