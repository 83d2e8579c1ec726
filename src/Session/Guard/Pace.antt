-- ===== src/Session/Guard/Pace.antt =====
-- The write pace: what a sequence of reservations is granted.
use tg_control_api_server.Prelude.{
  ◌+◌, ◌-◌, ◌≤◌, ◌<◌, ◌≡◌, ◌↔◌, true, false, List, [], ◌∷◌, arith, if◌then◌else◌, Bool-cases, inl,
  inr,
}
use tg_control_api_server.Store.Limits.{Time}
use tg_control_api_server.Session.Guard.{Guard, pace_interval, max_pace_wait, reserve}

-- The starts that a sequence of reservations, each at its own time, is granted.
pub granted_starts : Guard → List Time → List Time
granted_starts g [] = []
granted_starts g (now ∷ others) =
    let rest = granted_starts (reserve g now).0 others in
    if (reserve g now).1.granted then (now + (reserve g now).1.wait) ∷ rest else rest

-- Each start is at or past the bound, and the next ones at least an interval later.
abbrev pub Spaced : Time → List Time → Type 0
Spaced bound [] = Unit
Spaced bound (s ∷ ss) = (bound ≤ s) × Spaced (s + pace_interval) ss

Spaced-mono : (a b : Time) (ss : List Time) → a ≤ b → Spaced b ss → Spaced a ss
Spaced-mono a b [] h s = tt
Spaced-mono a b (x ∷ ss) h s = (omega arith, s.1)

reserve-granted :
    (g : Guard) (now : Time)
    → (reserve g now).1.granted ≡ true
    → ((reserve g now).0.next ≡ now + (reserve g now).1.wait + pace_interval)
      × (g.next ≤ now + (reserve g now).1.wait)
unfolding reserve
reserve-granted g now h = ground arith

reserve-refused :
    (g : Guard) (now : Time)
    → (reserve g now).1.granted ≡ false
    → ((reserve g now).0.next ≡ g.next) × (now + max_pace_wait < g.next)
unfolding reserve
reserve-refused g now h = ground arith

-- The paced writes of a session start at least a second apart, whatever the times at which they ask.
pub granted_starts-Spaced : (g : Guard) (nows : List Time) → Spaced g.next (granted_starts g nows)
unfolding granted_starts
granted_starts-Spaced g [] = tt
granted_starts-Spaced g (now ∷ others) = elim (Bool-cases (reserve g now).1.granted) [
  | inl e ↦ rw e (
    (reserve-granted g now e).1,
    rw (reserve-granted g now e).0 at (granted_starts-Spaced (reserve g now).0 others),
  )
  | inr e ↦ rw e (
      Spaced-mono g.next (reserve g now).0.next _ (omega (arith, reserve-refused g now e))
        (granted_starts-Spaced (reserve g now).0 others))
]

-- A write is never held longer than ten seconds, and a refused one books nothing. Asking again at
-- `t`, with no other write between, is granted exactly from the time that the refusal names on.
reserve_refusal :
    (g : Guard) (now t : Time)
    → ((reserve g now).1.granted ≡ true → (reserve g now).1.wait ≤ max_pace_wait)
      × ((reserve g now).1.granted ≡ false
          → now ≤ t
          → ((reserve g now).0.next ≡ g.next)
            × (((reserve (reserve g now).0 t).1.granted ≡ true)
                ↔ (now + ((reserve g now).1.wait - max_pace_wait) ≤ t)))
unfolding reserve
reserve_refusal g now t = ground arith
