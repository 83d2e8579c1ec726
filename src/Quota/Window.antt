-- ===== src/Quota/Window.antt =====
-- The fixed windows that rules count in (internal/quota/quota.go).
use tg_control_api_server.Prelude.{
  ℕ, ◌+◌, ◌-◌, ◌*◌, ◌/◌, ◌%◌, ◌≤◌, ◌<◌, ◌≡◌, String, List, [], ◌∷◌, arith, ◌is◌, if◌then◌else◌,
}
use tg_control_api_server.Store.Limits.{Time}

abbrev minute : ℕ
minute = 60000000000

abbrev pub hour : ℕ
hour = 3600000000000

abbrev pub day : ℕ
day = 86400000000000

abbrev pub week : ℕ
week = 604800000000000

-- The offset of `moscow` from UTC.
abbrev moscow : ℕ
moscow = 10800000000000

abbrev pub pers : List String
pers = "minute" ∷ "hour" ∷ "day" ∷ "week" ∷ []

-- Days since Go's zero day, a Monday, by the clock in Moscow.
moscow_day : Time → ℕ
moscow_day now = (now + moscow) / day

-- `Weekday`, Sunday being 0.
weekday : Time → ℕ
unfolding moscow_day
weekday now = (moscow_day now + 1) % 7

-- Midnight in Moscow, as an instant.
midnight : Time → Time
unfolding moscow_day
midnight now = moscow_day now * day - moscow

unfoldable pub window : String → Time → Time × Time
unfolding midnight weekday
window per now =
    if per is "minute"
    then (now / minute * minute, now / minute * minute + minute)
    else if per is "hour"
    then (now / hour * hour, now / hour * hour + hour)
    else if per is "week"
    then (
      midnight now - (weekday now + 6) % 7 * day,
      midnight now - (weekday now + 6) % 7 * day + 7 * day,
    )
    else (midnight now, midnight now + day)

-- The length of a window.
abbrev pub span : String → ℕ
span per =
    if per is "minute"
    then minute
    else if per is "hour"
    then hour
    else if per is "week"
    then week
    else day

window-Contains :
    (per : String) (now : Time)
    → week ≤ now
    → ((window per now).0 ≤ now)
      × (now < (window per now).1)
      × ((window per now).1 ≡ (window per now).0 + span per)
unfolding window
window-Contains per now h = ground arith

same_window :
    (per : String) (now t : Time)
    → week ≤ now
    → (window per now).0 ≤ t
    → t < (window per now).1
    → window per t ≡ window per now
unfolding window
same_window per now t h a b = ground arith

-- The windows of one length partition time, from the second week of year 1 on: the window of an
-- instant holds the instant, is as long as its name says (any name but "minute", "hour" and "week" is
-- a day), and is the window of every instant in it.
pub window_partition :
    (per : String) (now : Time)
    → week ≤ now
    → ((window per now).0 ≤ now)
      × (now < (window per now).1)
      × ((window per now).1 ≡ (window per now).0 + span per)
      × ((t : Time)
          → (window per now).0 ≤ t
          → t < (window per now).1
          → window per t ≡ window per now)
window_partition per now h =
    let c = window-Contains per now h in (c.0, c.1, c.2, (λ t a b. same_window per now t h a b))
