-- ===== src/Session/Admit.antt =====
-- Letting a call out: the account restriction, the operator's limits and the write pace, in this
-- order (internal/session/guard.go, `checkCooldown`, `admit` and `spamBlocked`).
pub mod Refusals
pub mod Lasting
use tg_control_api_server.Prelude.{
  ℕ, ◌+◌, ◌-◌, String, Bool, true, false, not, ◌&&◌, ◌||◌, Option, none, some, List, [], ◌∷◌, ◌==◌,
  ◌is◌, if◌then◌else◌, contains, ℤ, pos, negsuc, int_same,
}
use tg_control_api_server.Store.Limits.{Limit, Time}
use tg_control_api_server.Store.Counters.{Table, Faults}
use tg_control_api_server.Store.Cooldowns.{Cooldown, spam_limit_scope}
use tg_control_api_server.Session.Limits.{Caller, Quota, free, taken, limited, take_quota, release}
use tg_control_api_server.Session.Guard.{Guard, Slot, active, reserve, paced_groups, max_pace_wait}

-- `RefusedError`: a scope's cooldown, a full pace queue, a rule that ran out.
pub data Refusal : Type 0 where
  cooldown : String → Time → String → Refusal
  pace : String → Time → Refusal
  limit : Limit → Time → Refusal

pub data Verdict : Type 0 where
  admitted canceled : Verdict
  refused : Refusal → Verdict

-- What `admit` is given and what it meets on its way.
pub record Call : Type 0 where
  pub caller : Caller
  pub scope : String
  -- `chat_id` as decoded from the parameters, 0 where there is none
  pub chat_id : ℤ
  -- TDLib's `is_mutual_contact` of the addressee; none when `getUser` fails, is unreadable or is not
  -- sent, which `asks_user` tells
  pub known : Option Bool
  -- the times read for the restriction, the limits and the pace
  pub at_check : Time
  pub at_limits : Time
  pub at_pace : Time
  -- whether the caller gave up while the write waited for its slot
  pub gave_up : Bool
  pub rules : List Limit
  pub faults : Faults
  -- which statements of a release succeed
  pub release_exec : ℕ → Bool

-- `checkCooldown`.
abbrev pub cooled : String → Option Cooldown → Option Refusal
cooled scope none = none
cooled scope (some c) = some (cooldown scope c.until c.reason)

unfoldable pub check_cooldown : Guard → String → Time → Option Refusal
check_cooldown g scope now = cooled scope (active g scope now)

-- `numericChatID`, decoded.
abbrev pub numeric_chat_id : ℤ → Option ℤ
numeric_chat_id id = if int_same id (pos 0) then none else some id

abbrev is_positive : ℤ → Bool
is_positive (pos n) = not (n == 0)
is_positive (negsuc n) = false

-- Whether `spamBlocked` asks TDLib for the addressee: a private chat, not the account's own.
abbrev is_other_user : Guard → Option ℤ → Bool
is_other_user g none = false
is_other_user g (some id) = is_positive id && not (int_same id g.my_id)

abbrev is_limited : Option Cooldown → Bool
is_limited none = false
is_limited (some c) = true

abbrev unless_mutual : Option Bool → Bool
unless_mutual none = true
unless_mutual (some m) = not m

abbrev blocked_chat : Guard → Option Bool → Option ℤ → Bool
blocked_chat g known none = false
blocked_chat g known (some id) =
    if not (is_positive id)
    then false
    else if int_same id g.my_id
    then false
    else unless_mutual known

unfoldable pub spam_blocked : Guard → String → ℤ → Option Bool → Bool
spam_blocked g scope chat_id known =
    if (scope is "@invite") || (scope is "@contacts")
    then true
    else if scope is "@send"
    then blocked_chat g known (numeric_chat_id chat_id)
    else false

pub record World : Type 0 where
  pub guard : Guard
  pub table : Table

abbrev pub is_paced : Call → Bool
is_paced c = (c.caller.kind is "user") && contains paced_groups c.scope

-- The pace, once the quota is taken.
abbrev paced : Call → Quota → Guard → Guard × Slot → Table → World × Verdict
paced c q g (g', s) t =
    if not s.granted
    then (
      record { guard = g'; table = release c.release_exec t q },
      refused (pace c.scope (c.at_pace + (s.wait - max_pace_wait))),
    )
    else if s.wait == 0
    then (record { guard = g'; table = t }, admitted)
    else if c.gave_up
    then (record { guard = g'; table = release c.release_exec t q }, canceled)
    else (record { guard = g'; table = t }, admitted)

abbrev limits_then_pace : Call → Guard → Table × Quota → World × Verdict
limits_then_pace c g (t, limited l until) =
    (record { guard = g; table = t }, refused (limit l until))
limits_then_pace c g (t, free) =
    if is_paced c
    then paced c free g (reserve g c.at_pace) t
    else (record { guard = g; table = t }, admitted)
limits_then_pace c g (t, taken us) =
    if is_paced c
    then paced c (taken us) g (reserve g c.at_pace) t
    else (record { guard = g; table = t }, admitted)

abbrev restricted : Call → Guard → Option Refusal
restricted c g =
    if c.caller.kind is "user"
    then elim (active g spam_limit_scope c.at_check) [
      | none ↦ none
      | some d ↦
          if spam_blocked g c.scope c.chat_id c.known
          then some (cooldown spam_limit_scope d.until d.reason)
          else none
    ]
    else none

-- Whether `admit` sends `getUser`.
unfoldable pub asks_user : Call → Guard → Bool
asks_user c g =
    (c.scope is "@send")
    && (c.caller.kind is "user")
    && is_limited (active g spam_limit_scope c.at_check)
    && is_other_user g (numeric_chat_id c.chat_id)

abbrev after_check : Call → World → Option Refusal → World × Verdict
after_check c w (some r) = (w, refused r)
after_check c w none =
    limits_then_pace c w.guard (take_quota c.faults w.table c.caller c.at_limits c.rules)

unfoldable pub admit : Call → World → World × Verdict
admit c w = after_check c w (restricted c w.guard)
