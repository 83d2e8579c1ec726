-- ===== src/Api/Waits.antt =====
-- The wait that a refused call is told.
use tg_control_api_server.Prelude.{ℕ, ◌+◌, ◌-◌, ◌*◌, ◌/◌, max, ◌≤◌, ◌<◌, ◌≡◌, refl, some, arith}
use tg_control_api_server.Store.Limits.{Time}
use tg_control_api_server.Session.Observe.{second}
use tg_control_api_server.Session.Admit.{Refusal}
use tg_control_api_server.Api.{rate_limited, until_of, wait_seconds, write_refused}

covers : (u n : ℕ) → u ≤ n + max ((u - n + 999999999) / 1000000000) 1 * 1000000000
covers u n = omega arith

no_longer :
    (u n : ℕ)
    → 2 ≤ max ((u - n + 999999999) / 1000000000) 1
    → n + (max ((u - n + 999999999) / 1000000000) 1 - 1) * 1000000000 < u
no_longer u n h = omega arith

-- A refused call is answered 429 with the same wait in the header and in the body: at least a second,
-- long enough that after it the time named by the refusal has come, and, from two seconds on, no
-- second longer than that.
pub write_refused_wait :
    (r : Refusal) (now : Time)
    → (secs : ℕ) × ((write_refused r now).status ≡ 429)
      × ((write_refused r now).retry_header ≡ some secs)
      × ((write_refused r now).body ≡ rate_limited r secs)
      × (1 ≤ secs)
      × (until_of r ≤ now + secs * second)
      × (2 ≤ secs → now + (secs - 1) * second < until_of r)
unfolding write_refused wait_seconds
write_refused_wait r now = (
  max (wait_seconds r now) 1,
  refl,
  refl,
  refl,
  omega arith,
  covers (until_of r) now,
  no_longer (until_of r) now,
)
