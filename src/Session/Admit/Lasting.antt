-- ===== src/Session/Admit/Lasting.antt =====
-- The cooldowns of the guard under `admit` (internal/session/guard.go).
use tg_control_api_server.Prelude.{Option, none, some, arith, by_test}
use tg_control_api_server.Store.Limits.{Time}
use tg_control_api_server.Store.Counters.{Table}
use tg_control_api_server.Session.Limits.{Quota, free, taken, limited, take_quota}
use tg_control_api_server.Session.Guard.{Guard, Slot, reserve}
use tg_control_api_server.Session.Guard.Cooling.{Longer}
use tg_control_api_server.Session.Admit.{
  Call, World, Verdict, Refusal, restricted, after_check, is_paced, paced, limits_then_pace, admit,
}

reserve-Longer : (g : Guard) (now : Time) → Longer g (reserve g now).0
unfolding reserve
reserve-Longer g now s = ground arith

paced-Longer :
    (c : Call) (q : Quota) (g : Guard) (r : Guard × Slot) (t : Table)
    → Longer g r.0
    → Longer g (paced c q g r t).0.guard
paced-Longer c q g (g', slot) t h s = ground (arith, h s)

limits_then_pace-Longer :
    (c : Call) (g : Guard) (r : Table × Quota) → Longer g (limits_then_pace c g r).0.guard
limits_then_pace-Longer c g (t, limited l until) = λ s. omega arith
limits_then_pace-Longer c g (t, free) =
    by_test (λ (r : World × Verdict). Longer g r.0.guard) (is_paced c) _ _
      (λ e. paced-Longer c free g (reserve g c.at_pace) t (reserve-Longer g c.at_pace))
      (λ e s. omega arith)
limits_then_pace-Longer c g (t, taken us) =
    by_test (λ (r : World × Verdict). Longer g r.0.guard) (is_paced c) _ _
      (λ e. paced-Longer c (taken us) g (reserve g c.at_pace) t (reserve-Longer g c.at_pace))
      (λ e s. omega arith)

after_check-Longer :
    (c : Call) (w : World) (o : Option Refusal) → Longer w.guard (after_check c w o).0.guard
after_check-Longer c w (some r) = λ s. omega arith
after_check-Longer c w none =
    limits_then_pace-Longer c w.guard (take_quota c.faults w.table c.caller c.at_limits c.rules)

pub admit-Longer : (c : Call) (w : World) → Longer w.guard (admit c w).0.guard
unfolding admit
admit-Longer c w = after_check-Longer c w (restricted c w.guard)
