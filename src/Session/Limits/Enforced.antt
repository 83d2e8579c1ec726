-- ===== src/Session/Limits/Enforced.antt =====
-- What `takeQuota` enforces.
use tg_control_api_server.Prelude.{
  ℕ, zero, suc, ◌<◌, ◌≡◌, sym, ◌≢◌, refl, inl, inr, String, Bool, true, Option, none, some, List,
  [], ◌∷◌, map, ◌==◌, get_elem?, All, All-select, select, arith, Bool-cases, All-select_of_All, ap,
}
use mathlib.Core.Path.{subst}
use tg_control_api_server.Store.Limits.{Limit, Time}
use tg_control_api_server.Store.Counters.{
  lost, CounterKey, CounterUse, Table, Faults, Taken, counted, failed, refused, take_counters,
  calls,
}
use tg_control_api_server.Store.Counters.Take.{Outcome, take_counters_atomic}
use tg_control_api_server.Store.Counters.GiveBack.{calls-give_back}
use tg_control_api_server.Store.Counters.Bounded.{Within, Conforms, take_counters-Within}
use tg_control_api_server.Quota.Methods.{count}
use tg_control_api_server.Quota.Window.{window}
use tg_control_api_server.Quota.Rules.{Applied, applicable}
use tg_control_api_server.Quota.Rules.Effective.{
  HaveIds, is_effective, in_force, limit_of, applicable-effective,
}
use tg_control_api_server.Session.Limits.{
  Caller, uses_of, Quota, limited, first_uses, blame, answer, count_uses, take_quota, release,
}

-- A use counts against a rule that holds for the caller, and counts something.
abbrev pub Holds : List Limit → Caller → Limit → Type 0
Holds rules c l =
    (is_effective rules c.session_id c.kind c.token_id l ≡ true) × (0 < count l c.method c.params)

module _ (P : Limit → Type 0) (c : Caller) (now : Time) where
  uses_of-All :
      (applied : List Applied)
      → All P (map limit_of (select in_force applied))
      → All
          (λ (u : CounterUse × Limit). P u.1 × (0 < count u.1 c.method c.params))
          (uses_of c now applied)
  unfolding uses_of
  uses_of-All [] h = tt
  uses_of-All (a ∷ others) h = elim (Bool-cases (in_force a)) [
    | inl e ↦ elim (Bool-cases (count a.limit c.method c.params == 0)) [
      | inl z ↦ rw (e, z) (uses_of-All others (rw e at h).1)
      | inr z ↦ rw (e, z) (((rw e at h).0, ground arith), uses_of-All others (rw e at h).1)
    ]
    | inr e ↦ rw e (uses_of-All others (rw e at h))
  ]

uses_of-Holds :
    (rules : List Limit) (c : Caller) (now : Time)
    → HaveIds rules
    → All
        (λ (u : CounterUse × Limit). Holds rules c u.1)
        (uses_of c now (applicable rules c.session_id c.kind c.token_id))
uses_of-Holds rules c now h =
    uses_of-All (λ l. is_effective rules c.session_id c.kind c.token_id l ≡ true) c now
      (applicable rules c.session_id c.kind c.token_id)
      (subst (All λ l. is_effective rules c.session_id c.kind c.token_id l ≡ true)
        (sym (applicable-effective rules c.session_id c.kind c.token_id h)) (All-select _ rules))

-- A refusal names a rule that holds for the caller, and the end of its window.
abbrev pub Blames : List Limit → Caller → Time → Quota → Type 0
Blames rules c now (limited l until) = Holds rules c l × (until ≡ (window l.per now).1)
Blames rules c now _ = Unit

blame-Blames :
    (rules : List Limit) (c : Caller) (now : Time) (us : List (CounterUse × Limit)) (i : ℕ)
    → All (λ (u : CounterUse × Limit). Holds rules c u.1) us
    → Blames rules c now (blame now (get_elem? us i))
blame-Blames rules c now [] i h = tt
blame-Blames rules c now (u ∷ us) zero h = (h.0, refl)
blame-Blames rules c now (u ∷ us) (suc i) h = blame-Blames rules c now us i h.1

answer-Blames :
    (rules : List Limit) (c : Caller) (now : Time) (us : List (CounterUse × Limit))
    (r : Table × Taken)
    → All (λ (u : CounterUse × Limit). Holds rules c u.1) us
    → Blames rules c now (answer now us r).1
answer-Blames rules c now us (t, counted) h = tt
answer-Blames rules c now us (t, failed) h = tt
answer-Blames rules c now us (t, refused i) h = blame-Blames rules c now us i h

count_uses-Blames :
    (rules : List Limit) (c : Caller) (now : Time) (f : Faults) (t : Table)
    (us : List (CounterUse × Limit))
    → All (λ (u : CounterUse × Limit). Holds rules c u.1) us
    → Blames rules c now (count_uses f t now us).1
count_uses-Blames rules c now f t [] h = tt
count_uses-Blames rules c now f t (u ∷ us) h = answer-Blames rules c now (u ∷ us) _ h

abbrev pub Kept : Table → Quota → Table → Type 0
Kept t (limited l until) t' = t' ≡ t
Kept t _ t' = Unit

blame-Kept :
    (now : Time) (t t' : Table) (o : Option (CounterUse × Limit)) → t' ≡ t → Kept t (blame now o) t'
blame-Kept now t t' none e = tt
blame-Kept now t t' (some u) e = e

answer-Kept :
    (f : Faults) (now : Time) (t : Table) (us : List (CounterUse × Limit)) (r : Table × Taken)
    → Outcome t (first_uses us) f.commit r
    → Kept t (answer now us r).1 (answer now us r).0
answer-Kept f now t us (t', counted) o = tt
answer-Kept f now t us (t', failed) o = tt
answer-Kept f now t us (t', refused i) (inl (e, _)) = absurd (cc)
answer-Kept f now t us (t', refused i) (inr (inl (_, e))) = blame-Kept now t t' (get_elem? us i) e
answer-Kept f now t us (t', refused i) (inr (inr (e, _, _))) = absurd (cc)

count_uses-Kept :
    (f : Faults) (t : Table) (now : Time) (us : List (CounterUse × Limit))
    → Kept t (count_uses f t now us).1 (count_uses f t now us).0
count_uses-Kept f t now [] = tt
count_uses-Kept f t now (u ∷ us) =
    answer-Kept f now t (u ∷ us) _ (take_counters_atomic f t (first_uses (u ∷ us)))

-- A call that the limits refuse is refused by a rule that holds for its session and caller and
-- that the call counts against, until the end of that rule's window, and it counts nowhere. The
-- rules have ids.
pub take_quota_refusal :
    (f : Faults) (t : Table) (c : Caller) (now : Time) (rules : List Limit)
    → HaveIds rules
    → let r = take_quota f t c now rules in Blames rules c now r.1 × Kept t r.1 r.0
unfolding take_quota
take_quota_refusal f t c now rules h =
    (count_uses-Blames rules c now f t _ (uses_of-Holds rules c now h), count_uses-Kept f t now _)

blame-release :
    (exec : ℕ → Bool) (now : Time) (t : Table) (o : Option (CounterUse × Limit))
    → release exec t (blame now o) ≡ t
unfolding release
blame-release exec now t none = refl
blame-release exec now t (some u) = refl

answer-release :
    (f : Faults) (now : Time) (t : Table) (us : List (CounterUse × Limit)) (r : Table × Taken)
    (k : CounterKey)
    → f.commit ≢ lost
    → Outcome t (first_uses us) f.commit r
    → calls (release (λ _. true) (answer now us r).0 (answer now us r).1) k ≡ calls t k
unfolding release
answer-release f now t us (t', counted) k n (inl (_, added)) =
    omega (arith, calls-give_back t' (first_uses us) 0 k, added k)
answer-release f now t us (t', counted) k n (inr (inl (e, _))) = absurd (e refl)
answer-release f now t us (t', counted) k n (inr (inr (e, _, _))) = absurd (cc)
answer-release f now t us (t', failed) k n (inl (e, _)) = absurd (cc)
answer-release f now t us (t', failed) k n (inr (inl (_, e))) = ap (λ x. calls x k) e
answer-release f now t us (t', failed) k n (inr (inr (_, l, _))) = absurd (n l)
answer-release f now t us (t', refused i) k n (inl (e, _)) = absurd (cc)
answer-release f now t us (t', refused i) k n (inr (inl (_, e))) =
    rw (blame-release (λ _. true) now t' (get_elem? us i)) (ap (λ x. calls x k) e)
answer-release f now t us (t', refused i) k n (inr (inr (e, _, _))) = absurd (cc)

count_uses-release :
    (f : Faults) (t : Table) (now : Time) (us : List (CounterUse × Limit)) (k : CounterKey)
    → f.commit ≢ lost
    → calls (release (λ _. true) (count_uses f t now us).0 (count_uses f t now us).1) k ≡ calls t k
unfolding release
count_uses-release f t now [] k n = refl
count_uses-release f t now (u ∷ us) k n =
    answer-release f now t (u ∷ us) _ k n (take_counters_atomic f t (first_uses (u ∷ us)))

-- Releasing a call's quota, with every statement of the release succeeding, leaves each window
-- with the calls it held before, however `takeQuota` ended, unless the answer of its commit was
-- lost.
pub release-take_quota :
    (f : Faults) (t : Table) (c : Caller) (now : Time) (rules : List Limit) (k : CounterKey)
    → f.commit ≢ lost
    → let r = take_quota f t c now rules in calls (release (λ _. true) r.0 r.1) k ≡ calls t k
unfolding take_quota
release-take_quota f t c now rules k n = count_uses-release f t now _ k n

-- `cap` gives each window of a rule its maximum.
abbrev Caps : (CounterKey → ℕ) → Limit → Type 0
Caps cap l =
    (bucket : String) (start : Time)
    → cap (record { limit_id = l.id; bucket = bucket; window_start = start }) ≡ l.max_calls

uses_of-Conforms :
    (cap : CounterKey → ℕ) (c : Caller) (now : Time) (applied : List Applied)
    → All (Caps cap) (map limit_of (select in_force applied))
    → Conforms cap (first_uses (uses_of c now applied))
unfolding uses_of
uses_of-Conforms cap c now [] h = tt
uses_of-Conforms cap c now (a ∷ others) h = elim (Bool-cases (in_force a)) [
  | inl e ↦ elim (Bool-cases (count a.limit c.method c.params == 0)) [
    | inl z ↦ rw (e, z) (uses_of-Conforms cap c now others (rw e at h).1)
    | inr z ↦ rw (e, z) (sym ((rw e at h).0 _ _), uses_of-Conforms cap c now others (rw e at h).1)
  ]
  | inr e ↦ rw e (uses_of-Conforms cap c now others (rw e at h))
]

answer_table :
    (now : Time) (us : List (CounterUse × Limit)) (r : Table × Taken) → (answer now us r).0 ≡ r.0
answer_table now us (t, counted) = refl
answer_table now us (t, failed) = refl
answer_table now us (t, refused i) = refl

count_uses-Within :
    (cap : CounterKey → ℕ) (f : Faults) (t : Table) (now : Time) (us : List (CounterUse × Limit))
    → Conforms cap (first_uses us)
    → Within cap t
    → Within cap (count_uses f t now us).0
count_uses-Within cap f t now [] c w = w
count_uses-Within cap f t now (u ∷ us) c w =
    rw (answer_table now (u ∷ us) (take_counters f t (first_uses (u ∷ us))))
      (take_counters-Within cap f t (first_uses (u ∷ us)) c w)

-- Counting a call keeps every window within its rule's maximum. The rules have ids.
take_quota-Within :
    (cap : CounterKey → ℕ) (f : Faults) (t : Table) (c : Caller) (now : Time) (rules : List Limit)
    → HaveIds rules
    → All (Caps cap) rules
    → Within cap t
    → Within cap (take_quota f t c now rules).0
unfolding take_quota
take_quota-Within cap f t c now rules h caps w =
    count_uses-Within cap f t now _
      (uses_of-Conforms cap c now (applicable rules c.session_id c.kind c.token_id) (
        subst (All (Caps cap)) (sym (applicable-effective rules c.session_id c.kind c.token_id h))
          (All-select_of_All (Caps cap) _ rules caps)))
      w
