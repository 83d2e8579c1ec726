-- ===== src/Store/Counters.antt =====
-- The counters of the operator's limits, table rate_counter (internal/store/limits.go). A statement
-- that fails is told by the schedule `Faults`. Sums of calls stay far below 2 ^ 31, the range of the
-- columns, since a call's lists come in a body of bounded size.
pub mod Rows
pub mod Take
pub mod GiveBack
pub mod Bounded
use tg_control_api_server.Prelude.{
  ℕ, zero, suc, ◌+◌, ◌-◌, String, Bool, true, false, ◌&&◌, not, Option, none, some, List, [], ◌∷◌,
  leb, ltb, ◌==◌, ◌is◌, if◌then◌else◌, select, length, map, max,
}
use tg_control_api_server.Store.Limits.{Time}

pub record CounterKey : Type 0 where
  pub limit_id : String
  pub bucket : String
  pub window_start : Time

abbrev pub key_eq : CounterKey → CounterKey → Bool
key_eq a b =
    (a.limit_id is b.limit_id) && (a.bucket is b.bucket) && (a.window_start == b.window_start)

pub record CounterUse : Type 0 where
  pub key : CounterKey
  pub n : ℕ
  pub max_calls : ℕ

-- A row of rate_counter; the primary key is the whole `CounterKey`.
abbrev pub Row : Type 0
Row = CounterKey × ℕ

abbrev pub Table : Type 0
Table = List Row

unfoldable pub read : Table → CounterKey → Option ℕ
read [] k = none
read ((j, c) ∷ t) k = if key_eq j k then some c else read t k

-- INSERT of an absent row, UPDATE of a present one.
unfoldable pub put : Table → CounterKey → ℕ → Table
put [] k v = (k, v) ∷ []
put ((j, c) ∷ t) k v = if key_eq j k then (j, v) ∷ t else (j, c) ∷ put t k v

-- What one INSERT … ON CONFLICT … DO UPDATE of `TakeCounters` does; `none` is no row affected.
unfoldable pub take_one : Table → CounterUse → Option Table
take_one t u =
    if leb u.n u.max_calls
    then elim (read t u.key) [
      | none ↦ some (put t u.key u.n)
      | some c ↦ if leb (c + u.n) u.max_calls then some (put t u.key (c + u.n)) else none
    ]
    else none

pub data Commit : Type 0 where
  -- done; refused and rolled back; done, but the answer was lost
  committed aborted lost : Commit

-- Which statements of a transaction succeed, by their number, and how it ends.
pub record Faults : Type 0 where
  pub begin : Bool
  pub exec : ℕ → Bool
  pub commit : Commit

pub data Taken : Type 0 where
  counted failed : Taken
  refused : ℕ → Taken

pub data Attempt : Type 0 where
  went : Table → Attempt
  stopped : ℕ → Attempt
  broke : Attempt

abbrev went_on : Option Table → (Table → Attempt) → ℕ → Attempt
went_on none k i = stopped i
went_on (some t) k i = k t

-- The loop of `TakeCounters` inside its transaction, from the i-th use on.
unfoldable pub take_loop : (ℕ → Bool) → ℕ → Table → List CounterUse → Attempt
unfolding take_one
take_loop exec i t [] = went t
take_loop exec i t (u ∷ us) = elim (exec i) [
  | true ↦ went_on (take_one t u) (λ t'. take_loop exec (suc i) t' us) i
  | false ↦ broke
]

abbrev finish : Commit → Table → Attempt → Table × Taken
finish committed t (went t') = (t', counted)
finish aborted t (went t') = (t, failed)
finish lost t (went t') = (t', failed)
finish c t (stopped i) = (t, refused i)
finish c t broke = (t, failed)

unfoldable pub take_counters : Faults → Table → List CounterUse → Table × Taken
unfolding take_loop
take_counters f t uses =
    if f.begin then finish f.commit t (take_loop f.exec 0 t uses) else (t, failed)

-- One UPDATE of `GiveBackCounters`.
pub give_one : Table → CounterUse → Table
give_one t u = elim (read t u.key) [ none ↦ t | some c ↦ put t u.key (c - u.n) ]

-- `GiveBackCounters`; it stops at the first statement that fails, and then answers `false`.
pub give_back : (ℕ → Bool) → ℕ → Table → List CounterUse → Table × Bool
unfolding give_one
give_back exec i t [] = (t, true)
give_back exec i t (u ∷ us) =
    let rest = give_back exec (suc i) (give_one t u) us in if exec i then rest else (t, false)

-- The calls counted in a window, 0 when there is no row.
unfoldable pub calls : Table → CounterKey → ℕ
unfolding read
calls t k = elim (read t k) [ none ↦ 0 | some c ↦ c ]

-- `Counters`.
counters : Table → List CounterKey → List (CounterKey × ℕ)
unfolding calls
counters t ks = map (λ k. (k, calls t k)) ks

-- `MaxCounter`.
pub max_counter : Table → String → Time → ℕ
max_counter [] limit_id start = 0
max_counter ((k, c) ∷ t) limit_id start =
    let rest = max_counter t limit_id start in
    if (k.limit_id is limit_id) && (k.window_start == start) then max c rest else rest

-- `PurgeCounters`: the table left, and the number of rows dropped.
pub purge_counters : Table → Time → Table × ℕ
purge_counters t before = (
  select (λ (r : Row). not (ltb r.0.window_start before)) t,
  length (select (λ (r : Row). ltb r.0.window_start before) t),
)
