-- ===== src/Session/Guard.antt =====
-- The call guard of one session (internal/session/guard.go): cooldowns, write pace, account flags.
pub mod Pace
pub mod Cooling
use tg_control_api_server.Prelude.{
  ℕ, ◌+◌, ◌-◌, String, Bool, true, false, not, ◌||◌, ◌&&◌, Option, none, some, List, [], ◌∷◌, ltb,
  leb, ◌==◌, ◌is◌, if◌then◌else◌, Map, get, put, remove, text_eq, ℤ, pos, contains,
}
use tg_control_api_server.Store.Limits.{Time}
use tg_control_api_server.Store.Cooldowns.{Cooldown, AccountLimits, spam_limit_scope}

-- A second and ten seconds.
abbrev pub pace_interval : ℕ
pace_interval = 1000000000

abbrev pub max_pace_wait : ℕ
max_pace_wait = 10000000000

abbrev pub paced_groups : List String
paced_groups = "@send" ∷ "@join" ∷ "@invite" ∷ "@create" ∷ "@contacts" ∷ []

pub record Guard : Type 0 where
  pub cool : Map String Cooldown
  -- earliest start of the next paced write
  pub next : Time
  pub premium : Option Bool
  pub frozen : Bool
  pub my_id : ℤ

-- The zero value.
abbrev pub new_guard : Guard
new_guard = record { cool = []; next = 0; premium = none; frozen = false; my_id = pos 0 }

load_cooldowns : Map String Cooldown → List Cooldown → Map String Cooldown
load_cooldowns m [] = m
load_cooldowns m (c ∷ cs) = load_cooldowns (put m c.scope c) cs

load : Guard → AccountLimits → Guard
unfolding load_cooldowns
load g l = record g {
  premium = l.is_premium;
  frozen = l.frozen;
  cool = load_cooldowns [] l.cooldowns;
}

abbrev if_running : Time → Option Cooldown → Option Cooldown
if_running now none = none
if_running now (some c) = if ltb now c.until then some c else none

unfoldable pub active : Guard → String → Time → Option Cooldown
active g scope now = if_running now (get g.cool scope)

-- Whether a cooldown is recorded, and the guard then.
unfoldable pub set : Guard → Cooldown → Guard × Bool
set g c = elim (get g.cool c.scope) [
  | none ↦ (record g { cool = put g.cool c.scope c }, true)
  | some cur ↦
      if not (ltb cur.until c.until)
      then (g, false)
      else (record g { cool = put g.cool c.scope c }, true)
]

pub clear : Guard → String → Guard
clear g scope = record g { cool = remove g.cool scope }

pub record Slot : Type 0 where
  pub wait : ℕ
  pub granted : Bool

abbrev pub later : Time → Time → Time
later next now = if ltb next now then now else next

unfoldable pub reserve : Guard → Time → Guard × Slot
reserve g now =
    let start = later g.next now in
    if ltb max_pace_wait (start - now)
    then (record g { next = start }, record { wait = start - now; granted = false })
    else (record g { next = start + pace_interval }, record { wait = start - now; granted = true })

abbrev is_active : Option Cooldown → Bool
is_active none = false
is_active (some c) = true

-- `flags`: Premium, frozen, spam-limited.
flags : Guard → Time → Option Bool × Bool × Bool
unfolding active
flags g now = (g.premium, g.frozen, is_active (active g spam_limit_scope now))

-- `coolDown` for each cooldown in turn: the guard, and the cooldowns it sends to the registry.
unfoldable pub cool_down : Guard → List Cooldown → Guard × List Cooldown
cool_down g [] = (g, [])
cool_down g (c ∷ cs) =
    let rest = cool_down (set g c).0 cs in if (set g c).1 then (rest.0, c ∷ rest.1) else rest

abbrev pub differs : Bool → Bool → Bool
differs true b = not b
differs false b = b

-- `setFrozen`: the guard, and whether it writes the flag to the registry.
unfoldable pub set_frozen : Guard → Bool → Guard × Bool
set_frozen g frozen = (record g { frozen = frozen }, differs g.frozen frozen)

abbrev changes : Option Bool → Bool → Bool
changes none b = true
changes (some a) b = differs a b

abbrev or_false : Option Bool → Bool
or_false none = false
or_false (some b) = b

-- `notePremium`; no Boolean value means not Premium. The guard, and whether it writes the flag.
note_premium : Guard → Option Bool → Guard × Option Bool
note_premium g v = (
  record g { premium = some (or_false v) },
  if changes g.premium (or_false v) then some (or_false v) else none,
)

-- `noteMyID`.
note_my_id : Guard → Option ℤ → Guard
note_my_id g none = g
note_my_id g (some n) = record g { my_id = n }
