-- ===== src/Store/Counters/Bounded.antt =====
-- No history of calls, refunds and purges takes a window past its rule's maximum.
use tg_control_api_server.Prelude.{
  ℕ, suc, ◌≤◌, ◌≡◌, refl, inl, inr, Bool, none, List, [], ◌∷◌, arith, if◌then◌else◌, ltb,
  Option-cases, Bool-cases,
}
use tg_control_api_server.Store.Limits.{Time}
use tg_control_api_server.Store.Counters.{
  CounterKey, CounterUse, Table, read, calls, Faults, take_counters, take_one, take_loop, give_one,
  give_back, purge_counters, Attempt, went, stopped, broke, Commit, committed, aborted, lost,
  finish,
}
use tg_control_api_server.Store.Counters.Rows.{key_eq_iff}
use tg_control_api_server.Store.Counters.Take.{take_one_fits}
use tg_control_api_server.Store.Counters.GiveBack.{calls-give_one}

-- A purge drops exactly the windows that started before its time.
read-purge_counters :
    (t : Table) (before : Time) (k : CounterKey)
    → read (purge_counters t before).0 k ≡ (if ltb k.window_start before then none else read t k)
unfolding read purge_counters
read-purge_counters [] before k = ground arith
read-purge_counters ((j, c) ∷ t) before k =
    ground (arith, read-purge_counters t before k, key_eq_iff j k)

-- `cap` is the maximum of each window's rule.
abbrev pub Within : (CounterKey → ℕ) → Table → Type 0
Within cap t = (k : CounterKey) → calls t k ≤ cap k

-- Each use carries its rule's maximum, as `takeQuota` fills it in.
abbrev pub Conforms : (CounterKey → ℕ) → List CounterUse → Type 0
Conforms cap [] = Unit
Conforms cap (u ∷ us) = (u.max_calls ≡ cap u.key) × Conforms cap us

module _ (cap : CounterKey → ℕ) where
  take_loop-Within :
      (exec : ℕ → Bool) (i : ℕ) (t : Table) (us : List CounterUse) {t' : Table}
      → Conforms cap us
      → Within cap t
      → take_loop exec i t us ≡ went t'
      → Within cap t'
  unfolding take_loop
  take_loop-Within exec i t [] c w e = λ k. ground (arith, w k)
  take_loop-Within exec i t (u ∷ us) {t'} c w e = elim (Option-cases (take_one t u)) [
    | inl none_fits ↦ absurd (ground arith)
    | inr (t₁, fits) ↦
        take_loop-Within exec (suc i) t₁ us {t' = t'} c.1
          (λ k. ground (arith, w k, take_one_fits t u k fits, key_eq_iff u.key k)) (ground arith)
  ]

  finish-Within :
      (c : Commit) (t : Table) (a : Attempt)
      → Within cap t
      → ((t' : Table) → a ≡ went t' → Within cap t')
      → Within cap (finish c t a).0
  finish-Within committed t (went t') w h = h t' refl
  finish-Within aborted t (went t') w h = w
  finish-Within lost t (went t') w h = h t' refl
  finish-Within committed t (stopped i) w h = w
  finish-Within aborted t (stopped i) w h = w
  finish-Within lost t (stopped i) w h = w
  finish-Within committed t broke w h = w
  finish-Within aborted t broke w h = w
  finish-Within lost t broke w h = w

  pub take_counters-Within :
      (f : Faults) (t : Table) (us : List CounterUse)
      → Conforms cap us
      → Within cap t
      → Within cap (take_counters f t us).0
  unfolding take_counters
  take_counters-Within f t us c w = elim (Bool-cases f.begin) [
    | inl e ↦ rw e (
        finish-Within f.commit t (take_loop f.exec 0 t us) w
          (λ t' e. take_loop-Within f.exec 0 t us {t' = t'} c w e))
    | inr e ↦ rw e w
  ]

  give_back-Within :
      (exec : ℕ → Bool) (i : ℕ) (t : Table) (us : List CounterUse)
      → Within cap t
      → Within cap (give_back exec i t us).0
  unfolding give_back
  give_back-Within exec i t [] w = w
  give_back-Within exec i t (u ∷ us) w = elim (Bool-cases (exec i)) [
    | inl e ↦ rw e (
        give_back-Within exec (suc i) (give_one t u) us
          (λ k. omega (arith, w k, calls-give_one t u k)))
    | inr e ↦ rw e w
  ]

  purge_counters-Within :
      (t : Table) (before : Time) → Within cap t → Within cap (purge_counters t before).0
  unfolding calls
  purge_counters-Within t before w k = ground (arith, w k, read-purge_counters t before k)

-- What the workers of the fleet do to the table, in any order.
pub data Step (cap : CounterKey → ℕ) : Table → Table → Type 0 where
  take :
      (f : Faults) (t : Table) (us : List CounterUse)
      → Conforms cap us
      → Step cap t (take_counters f t us).0
  give : (exec : ℕ → Bool) (t : Table) (us : List CounterUse) → Step cap t (give_back exec 0 t us).0
  purge : (t : Table) (before : Time) → Step cap t (purge_counters t before).0

pub data Reach (cap : CounterKey → ℕ) (s : Table) : Table → Type 0 where
  here : Reach cap s s
  next : {t u : Table} → Reach cap s t → Step cap t u → Reach cap s u

Step-Within : {cap : CounterKey → ℕ} {t u : Table} → Step cap t u → Within cap t → Within cap u
Step-Within {cap} (take f t us c) w = take_counters-Within cap f t us c w
Step-Within {cap} (give exec t us) w = give_back-Within cap exec 0 t us w
Step-Within {cap} (purge t before) w = purge_counters-Within cap t before w

-- From an empty table, whatever calls are counted or refused, given back or purged, in any order and
-- with any failures, no window counts more than its rule's maximum, while the maxima stay.
pub Reach-Within : {cap : CounterKey → ℕ} {t : Table} → Reach cap [] t → Within cap t
unfolding calls read
Reach-Within here = λ k. omega arith
Reach-Within (next r st) = Step-Within st (Reach-Within r)
