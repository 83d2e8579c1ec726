-- ===== src/Session/Deliver/Retry.antt =====
-- The life of a row under retries.
use Prim.Native.Nat.{min}
use native.Mathlib.Nat.{pow-suc}
use tg_control_api_server.Prelude.{
  ℕ, zero, suc, ◌-◌, ◌*◌, ◌^◌, ◌≤◌, ◌<◌, ◌≡◌, Bool, true, false, List, [], ◌∷◌, arith,
  if◌then◌else◌,
}
use tg_control_api_server.Store.Limits.{Time}
use tg_control_api_server.Store.Deliveries.{Status, pending, failed, Delivery, Health}
use tg_control_api_server.Session.Deliver.{backoff, backoff_base, backoff_cap, Posted, deliver_one}

pow_pos : (a : ℕ) → 1 ≤ 2 ^ a
pow_pos zero = omega arith
pow_pos (suc a) = omega (arith, pow_pos a, pow-suc 2 a)

-- A failed row waits between five seconds and five minutes, and twice as long each time until the
-- five minutes are reached.
backoff_bounds :
    (a : ℕ)
    → (backoff_base ≤ backoff a)
      × (backoff a ≤ backoff_cap)
      × (backoff (suc a) ≡ min backoff_cap (2 * backoff a))
unfolding backoff
backoff_bounds a = omega (arith, pow_pos a, pow-suc 2 a)

-- Attempts one after another, each made only while the row is pending.
abbrev is_pending : Status → Bool
is_pending pending = true
is_pending _ = false

-- What the receiver answers, whether the registry is written, and when.
abbrev pub Try : Type 0
Try = Posted × Bool × Time

pub attempts_made : Delivery → Health → List Try → Delivery
attempts_made d h [] = d
attempts_made d h ((p, written, now) ∷ others) =
    let r = deliver_one d h p written now in
    let later = attempts_made r.0 r.1 others in if is_pending d.status then later else d

-- How often the row is posted, and how often the registry does not learn of it.
pub posts : Delivery → Health → List Try → ℕ
posts d h [] = 0
posts d h ((p, written, now) ∷ others) =
    let r = deliver_one d h p written now in
    let later = posts r.0 r.1 others in if is_pending d.status then suc later else 0

pub unwritten : Delivery → Health → List Try → ℕ
unwritten d h [] = 0
unwritten d h ((p, written, now) ∷ others) =
    let r = deliver_one d h p written now in
    let later = unwritten r.0 r.1 others in
    if is_pending d.status then (if written then later else suc later) else 0

pub record IsLive (d : Delivery) : Type 0 where
  pub pending_below : d.status ≡ pending → d.attempts < 10
  pub failed_at : d.status ≡ failed → d.attempts ≡ 10
  pub at_most : d.attempts ≤ 10

-- The posts that a row has left before its tenth.
left : Delivery → ℕ
left d = if is_pending d.status then 10 - d.attempts else 0
