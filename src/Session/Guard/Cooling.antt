-- ===== src/Session/Guard/Cooling.antt =====
-- The live cooldowns and their record in the registry.
use Prim.Native.Nat.{max}
use mathlib.Core.List.{Perm}
use tg_control_api_server.Prelude.{
  ◌≤◌, ◌≡◌, ◌↔◌, ◌∙◌, String, false, none, List, [], ◌∷◌, arith, ◌is◌, if◌then◌else◌, Map,
  get-remove, text_eq, Bool-cases, inl, inr, ap,
}
use tg_control_api_server.Store.Limits.{Time}
use tg_control_api_server.Store.Cooldowns.{Cooldown, raise, micros}
use tg_control_api_server.Store.Cooldowns.Merge.{
  ends, latest, set_cooldowns, ends-set_cooldowns, ends-raise, latest-perm,
}
use tg_control_api_server.Session.Guard.{Guard, set, cool_down, clear, active}

-- `set` raises the end in the live map.
set-raise : (g : Guard) (c : Cooldown) → (set g c).0.cool ≡ raise g.cool c
unfolding set raise
set-raise g c = ground arith

set_unchanged : (g : Guard) (c : Cooldown) → (set g c).1 ≡ false → (set g c).0 ≡ g
unfolding set
set_unchanged g c h = ground arith

ends-cool_down :
    (g : Guard) (cs : List Cooldown) (s : String)
    → ends (cool_down g cs).0.cool s ≡ max (ends g.cool s) (latest (cool_down g cs).1 s)
unfolding cool_down
ends-cool_down g [] s = omega arith
ends-cool_down g (c ∷ cs) s = elim (Bool-cases (set g c).1) [
  | inl e ↦ rw e (
      ground (
        arith,
        ends-cool_down (set g c).0 cs s,
        ends-raise g.cool c s,
        ap (λ m. ends m s) (set-raise g c),
      ))
  | inr e ↦ rw e (
      ground (
        arith,
        ends-cool_down (set g c).0 cs s,
        ap (λ (h : Guard). ends h.cool s) (set_unchanged g c e),
      ))
]

-- The guard sends each cooldown it records to the registry on its own, so the writes may arrive in
-- any order: once all have, the registry holds the end that the guard holds, to the microsecond below
-- that Postgres keeps, on every scope on which the two agreed so before.
pub registry_agrees :
    (g : Guard) (cs writes : List Cooldown) (registry : Map String Cooldown) (s : String)
    → Perm writes (cool_down g cs).1
    → ends registry s ≡ micros (ends g.cool s)
    → ends (set_cooldowns registry writes) s ≡ micros (ends (cool_down g cs).0.cool s)
registry_agrees g cs writes registry s p e = omega (
  arith,
  ends-set_cooldowns registry writes s,
  latest-perm writes (cool_down g cs).1 s p,
  ends-cool_down g cs s,
)

pub active_iff :
    (g : Guard) (s : String) (now : Time) → (active g s now ≡ none) ↔ (ends g.cool s ≤ now)
unfolding active
active_iff g s now = ground arith

ends-set :
    (g : Guard) (c : Cooldown) (s : String)
    → ends (set g c).0.cool s
      ≡ (if c.scope is s then max (ends g.cool s) c.until else ends g.cool s)
ends-set g c s = ap (λ m. ends m s) (set-raise g c) ∙ ends-raise g.cool c s

active-clear :
    (g : Guard) (scope s : String) (now : Time)
    → active (clear g scope) s now ≡ (if scope is s then none else active g s now)
unfolding active clear
active-clear g scope s now = ground (arith, get-remove g.cool scope s)

-- A guard ends each scope at least as late as every cooldown it was given there.
pub ends-cool_down-latest :
    (g : Guard) (cs : List Cooldown) (s : String)
    → ends (cool_down g cs).0.cool s ≡ max (ends g.cool s) (latest cs s)
unfolding cool_down
ends-cool_down-latest g [] s = omega arith
ends-cool_down-latest g (c ∷ cs) s =
    ground (arith, ends-cool_down-latest (set g c).0 cs s, ends-set g c s)

-- Every scope ends at least as late in the second guard.
abbrev pub Longer : Guard → Guard → Type 0
Longer g h = (s : String) → ends g.cool s ≤ ends h.cool s

pub cool_down-Longer : (g : Guard) (cs : List Cooldown) → Longer g (cool_down g cs).0
cool_down-Longer g cs s = omega (arith, ends-cool_down-latest g cs s)

-- A scope cools down exactly while the latest end that was set on it, in whatever order, lies ahead.
-- Setting one never shortens another, and clearing a scope frees it alone.
active-set :
    (g : Guard) (c : Cooldown) (s : String) (now : Time)
    → ((active (set g c).0 s now ≡ none)
        ↔ ((if c.scope is s then max (ends g.cool s) c.until else ends g.cool s) ≤ now))
      × (active (clear g c.scope) s now ≡ (if c.scope is s then none else active g s now))
active-set g c s now =
    (rw (← ends-set g c s) (active_iff (set g c).0 s now), active-clear g c.scope s now)
