-- ===== src/Store/Counters/Rows.antt =====
-- Reading the table after a row is written.
use tg_control_api_server.Prelude.{
  ℕ, ◌≡◌, refl, ◌↔◌, true, some, [], ◌∷◌, arith, is_iff, if◌then◌else◌,
}
use tg_control_api_server.Store.Counters.{CounterKey, key_eq, Table, read, put, calls}

pub key_eq_iff : (a b : CounterKey) → (key_eq a b ≡ true) ↔ (a ≡ b)
key_eq_iff a b = ground (arith, is_iff a.limit_id b.limit_id, is_iff a.bucket b.bucket)

key_eq_refl : (a : CounterKey) → key_eq a a ≡ true
key_eq_refl a = (key_eq_iff a a).1 refl

pub read-put :
    (t : Table) (k j : CounterKey) (v : ℕ)
    → read (put t k v) j ≡ (if key_eq k j then some v else read t j)
unfolding read put
read-put [] k j v = refl
read-put ((i, c) ∷ t) k j v =
    ground (arith, read-put t k j v, key_eq_iff i k, key_eq_iff i j, key_eq_iff k j)

pub calls-put :
    (t : Table) (k j : CounterKey) (v : ℕ)
    → calls (put t k v) j ≡ (if key_eq k j then v else calls t j)
unfolding calls
calls-put t k j v = ground (arith, read-put t k j v)
