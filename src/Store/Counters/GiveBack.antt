-- ===== src/Store/Counters/GiveBack.antt =====
-- Giving back what a call counted.
use tg_control_api_server.Prelude.{
  ℕ, suc, ◌-◌, ◌≡◌, inl, inr, true, List, [], ◌∷◌, arith, if◌then◌else◌, Option-cases,
}
use tg_control_api_server.Store.Counters.{
  CounterKey, CounterUse, key_eq, Table, read, calls, Faults, counted, take_counters, give_one,
  give_back,
}
use tg_control_api_server.Store.Counters.Rows.{read-put, key_eq_iff}
use tg_control_api_server.Store.Counters.Take.{used, take_counters_atomic}

pub calls-give_one :
    (t : Table) (u : CounterUse) (k : CounterKey)
    → calls (give_one t u) k ≡ calls t k - (if key_eq u.key k then u.n else 0)
unfolding give_one calls
calls-give_one t u k = elim (Option-cases (read t u.key)) [
  | inl e ↦ ground (arith, key_eq_iff u.key k)
  | inr (c, e) ↦ ground (arith, read-put t u.key k (c - u.n), key_eq_iff u.key k)
]

pub calls-give_back :
    (t : Table) (us : List CounterUse) (i : ℕ) (k : CounterKey)
    → calls (give_back (λ _. true) i t us).0 k ≡ calls t k - used us k
unfolding give_back
calls-give_back t [] i k = omega arith
calls-give_back t (u ∷ us) i k =
    ground (arith, calls-give_back (give_one t u) us (suc i) k, calls-give_one t u k)

-- A call that was counted and then given back, with every statement succeeding and nothing between
-- them, leaves each window with the calls it held before.
give_back-take_counters :
    (f : Faults) (t : Table) (us : List CounterUse) (k : CounterKey)
    → (take_counters f t us).1 ≡ counted
    → calls (give_back (λ _. true) 0 (take_counters f t us).0 us).0 k ≡ calls t k
give_back-take_counters f t us k e = elim (take_counters_atomic f t us) [
  | inl (_, added) ↦ omega (arith, calls-give_back (take_counters f t us).0 us 0 k, added k)
  | inr (inl (not_counted, _)) ↦ absurd (not_counted e)
  | inr (inr (is_failed, _, _)) ↦ cc
]
