-- ===== src/Store/Counters/Take.antt =====
-- `TakeCounters` counts every use or none, and refuses exactly the first use that does not fit.
use tg_control_api_server.Prelude.{
  ℕ, suc, ◌+◌, ◌≤◌, ◌<◌, ◌≡◌, ◌≢◌, refl, ◌⊎◌, inl, inr, Bool, true, Option, none, some, List, [],
  ◌∷◌, arith, if◌then◌else◌, Bool-cases, Option-cases, leb,
}
use tg_control_api_server.Store.Counters.{
  CounterKey, CounterUse, key_eq, Table, put, calls, take_one, Attempt, went, stopped, broke,
  Commit, committed, aborted, lost, Faults, Taken, counted, failed, refused, finish, take_loop,
  take_counters,
}
use tg_control_api_server.Store.Counters.Rows.{calls-put, key_eq_iff}

-- What the uses count in a window.
abbrev pub used : List CounterUse → CounterKey → ℕ
used [] k = 0
used (u ∷ us) k = (if key_eq u.key k then u.n else 0) + used us k

-- One use is counted exactly when the window still holds it.
take_one_lem :
    (t : Table) (u : CounterUse)
    → take_one t u ≡ (
        if leb (calls t u.key + u.n) u.max_calls
        then some (put t u.key (calls t u.key + u.n))
        else none)
unfolding take_one calls
take_one_lem t u = ground arith

pub take_one_fits :
    (t : Table) (u : CounterUse) (k : CounterKey) {t' : Table}
    → take_one t u ≡ some t'
    → (calls t' k ≡ calls t k + (if key_eq u.key k then u.n else 0))
      × (calls t u.key + u.n ≤ u.max_calls)
take_one_fits t u k e =
    ground (arith, take_one_lem t u, calls-put t u.key k (calls t u.key + u.n), key_eq_iff u.key k)

take_one_full :
    (t : Table) (u : CounterUse) → take_one t u ≡ none → u.max_calls < calls t u.key + u.n
take_one_full t u e = ground (arith, take_one_lem t u)

take_loop_went :
    (exec : ℕ → Bool) (i : ℕ) (t : Table) (us : List CounterUse) (k : CounterKey) {t' : Table}
    → take_loop exec i t us ≡ went t'
    → calls t' k ≡ calls t k + used us k
unfolding take_loop
take_loop_went exec i t [] k e = ground arith
take_loop_went exec i t (u ∷ us) k {t'} e = elim (Option-cases (take_one t u)) [
  | inl none_fits ↦ ground arith
  | inr (t₁, fits) ↦
      ground (arith, take_one_fits t u k fits, take_loop_went exec (suc i) t₁ us k {t' = t'})
]

-- The uses one after another against counts alone: the first that goes past its window's maximum.
abbrev pub first_full : (CounterKey → ℕ) → ℕ → List CounterUse → Option ℕ
first_full seen i [] = none
first_full seen i (u ∷ us) =
    let rest = first_full (λ k. seen k + (if key_eq u.key k then u.n else 0)) (suc i) us in
    if leb (seen u.key + u.n) u.max_calls then rest else some i

abbrev pub verdict : Option ℕ → Taken
verdict none = counted
verdict (some i) = refused i

abbrev of_attempt : Attempt → Taken
of_attempt (went t) = counted
of_attempt (stopped i) = refused i
of_attempt broke = failed

take_loop-first_full :
    (exec : ℕ → Bool)
    → ((i : ℕ) → exec i ≡ true)
    → (seen : CounterKey → ℕ) (i : ℕ) (t : Table) (us : List CounterUse)
    → ((k : CounterKey) → seen k ≡ calls t k)
    → of_attempt (take_loop exec i t us) ≡ verdict (first_full seen i us)
unfolding take_loop
take_loop-first_full exec ok seen i t [] same = refl
take_loop-first_full exec ok seen i t (u ∷ us) same = elim (Option-cases (take_one t u)) [
  | inl none_fits ↦ ground (arith, ok i, same u.key, take_one_full t u none_fits)
  | inr (t₁, fits) ↦
      let after : (k : CounterKey) → seen k + (if key_eq u.key k then u.n else 0) ≡ calls t₁ k =
        λ k. ground (arith, same k, take_one_fits t u k fits) in
      ground (
        arith,
        ok i,
        same u.key,
        take_one_fits t u u.key fits,
        take_loop-first_full exec ok (λ k. seen k + (if key_eq u.key k then u.n else 0)) (suc i) t₁
            us after,
      )
]

-- Where every statement succeeds, `TakeCounters` answers with the index of the first use that goes
-- past its window's maximum on top of what the table and the uses before it count, and counts
-- the call exactly when there is none.
pub take_counters-first_full :
    (t : Table) (us : List CounterUse)
    → (take_counters (record { begin = true; exec = λ _. true; commit = committed }) t us).1
      ≡ verdict (first_full (calls t) 0 us)
unfolding take_counters
take_counters-first_full t us =
    ground (arith, take_loop-first_full (λ _. true) (λ _. refl) (calls t) 0 t us (λ k. refl))

-- How a call may end, with what the table then holds.
abbrev pub Outcome : Table → List CounterUse → Commit → Table × Taken → Type 0
Outcome t us c r =
    ((r.1 ≡ counted) × ((k : CounterKey) → calls r.0 k ≡ calls t k + used us k))
    ⊎ (((r.1 ≢ counted) × (r.0 ≡ t))
        ⊎ ((r.1 ≡ failed) × (c ≡ lost) × ((k : CounterKey) → calls r.0 k ≡ calls t k + used us k)))

finish-Outcome :
    (t : Table) (us : List CounterUse) (c : Commit) (a : Attempt)
    → ((t' : Table) → a ≡ went t' → (k : CounterKey) → calls t' k ≡ calls t k + used us k)
    → Outcome t us c (finish c t a)
finish-Outcome t us committed (went t') h = inl (refl, h t' refl)
finish-Outcome t us aborted (went t') h = inr (inl (λ e. cc, refl))
finish-Outcome t us lost (went t') h = inr (inr (refl, refl, h t' refl))
finish-Outcome t us committed (stopped i) h = inr (inl (λ e. cc, refl))
finish-Outcome t us aborted (stopped i) h = inr (inl (λ e. cc, refl))
finish-Outcome t us lost (stopped i) h = inr (inl (λ e. cc, refl))
finish-Outcome t us committed broke h = inr (inl (λ e. cc, refl))
finish-Outcome t us aborted broke h = inr (inl (λ e. cc, refl))
finish-Outcome t us lost broke h = inr (inl (λ e. cc, refl))

-- Whatever fails: a call that is answered as counted has added what it uses to every window; any
-- other answer leaves the table as it was, but for the failure that loses the answer of a commit,
-- after which the call is counted in full.
pub take_counters_atomic :
    (f : Faults) (t : Table) (us : List CounterUse) → Outcome t us f.commit (take_counters f t us)
unfolding take_counters
take_counters_atomic f t us = elim (Bool-cases f.begin) [
  | inl e ↦ rw e (
      finish-Outcome t us f.commit (take_loop f.exec 0 t us)
        (λ t' e k. take_loop_went f.exec 0 t us k e))
  | inr e ↦ rw e (inr (inl (λ e. cc, refl)))
]
