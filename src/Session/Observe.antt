-- ===== src/Session/Observe.antt =====
-- What the guard learns from Telegram's answers (internal/session/guard.go).
pub mod Learned
pub mod Frozen
use tg_control_api_server.Prelude.{
  ℕ, zero, suc, ◌+◌, ◌-◌, ◌*◌, ◌^◌, ◌%◌, String, Bool, true, false, not, ◌&&◌, ◌||◌, Option, none,
  some, List, [], ◌∷◌, ◌++◌, ltb, ◌==◌, ◌is◌, if◌then◌else◌, contains,
}
use tg_control_api_server.Tdjson.{TdError, codes, contains_text, retry_after}
use tg_control_api_server.Store.Limits.{Time}
use tg_control_api_server.Store.Cooldowns.{Cooldown, spam_limit_scope}
use tg_control_api_server.Session.Guard.{Guard, paced_groups, cool_down, set_frozen}

abbrev pub second : ℕ
second = 1000000000

-- 24 hours.
abbrev pub spam_limit_cooldown : ℕ
spam_limit_cooldown = 86400000000000

-- `now.Add(time.Duration(secs) * time.Second)`: the product is a signed 64-bit number of nanoseconds.
abbrev add_seconds : Time → ℕ → Time
add_seconds now secs =
    if ltb (secs * second % 18446744073709551616) 9223372036854775808
    then now + secs * second % 18446744073709551616
    else now - (18446744073709551616 - secs * second % 18446744073709551616)

-- How Telegram answered a call.
pub data Answer : Type 0 where
  through other_failure : Answer
  failed_with : TdError → Answer

abbrev flood_wait : String → TdError → Time → Option ℕ → List Cooldown
flood_wait scope e now none = []
flood_wait scope e now (some secs) =
    record { scope = scope; until = add_seconds now secs; reason = e.message } ∷ []

abbrev peer_flood : TdError → Time → Bool → List Cooldown
peer_flood e now false = []
peer_flood e now true =
    record { scope = spam_limit_scope; until = now + spam_limit_cooldown; reason = e.message } ∷ []

pub signals : String → Answer → Time → List Cooldown × Option Bool
signals scope through now = ([], if contains paced_groups scope then some false else none)
signals scope other_failure now = ([], none)
signals scope (failed_with e) now = (
  flood_wait scope e now (retry_after e)
      ++ peer_flood e now (contains_text (codes e.message) (codes "PEER_FLOOD")),
  if contains_text (codes e.message) (codes "FROZEN_") then some true else none,
)

-- What the guard sends to the registry, each write on its own.
pub record Writes : Type 0 where
  pub cooldowns : List Cooldown
  pub frozen : Option Bool

abbrev learn_frozen : Guard → List Cooldown → Option Bool → Guard × Writes
learn_frozen g cs none = (g, record { cooldowns = cs; frozen = none })
learn_frozen g cs (some b) = (
  (set_frozen g b).0,
  record { cooldowns = cs; frozen = if (set_frozen g b).1 then some b else none },
)

pub observe : Guard → String → String → Answer → Time → Guard × Writes
unfolding signals
observe g kind scope answer now =
    if not (kind is "user")
    then (g, record { cooldowns = []; frozen = none })
    else learn_frozen (cool_down g (signals scope answer now).0).0
        (cool_down g (signals scope answer now).0).1 (signals scope answer now).1
