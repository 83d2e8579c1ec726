-- ===== src/Session/Reconcile/Handover.antt =====
-- What shedding gives away.
use tg_control_api_server.Prelude.{
  ℕ, suc, ◌+◌, ◌≤◌, ◌<◌, ◌≡◌, refl, ◌∙◌, String, Bool, true, false, Option, none, some, List, [],
  ◌∷◌, ◌is◌, is_iff, if◌then◌else◌, contains, Map, text_eq, get, remove, get-remove, length, All,
  subst, arith, Bool-cases, inl, inr,
}
use tg_control_api_server.Store.Limits.{Time}
use tg_control_api_server.Store.Workers.{Sessions, release_session}
use tg_control_api_server.Session.Live.{Live}
use tg_control_api_server.Session.Reconcile.{
  Manager, ready_of, keys_of, to_shed, close_client, shed_ids, shed,
}
use tg_control_api_server.Session.Reconcile.Fencing.{is_usable}

picked :
    (n k : ℕ) (m : Map String Live) (ids : List String)
    → All (λ id. is_usable (get m id) ≡ true) (to_shed n k m ids)
unfolding to_shed
picked n k m [] = tt
picked n k m (id ∷ ids) = ground (arith, picked n k m ids, picked n (suc k) m ids)

few :
    (n k : ℕ) (m : Map String Live) (ids : List String) → k < n → length (to_shed n k m ids) + k ≤ n
unfolding to_shed
few n k m [] h = omega arith
few n k m (id ∷ ids) h = ground (arith, few n k m ids h, few n (suc k) m ids)

not_picked :
    (m : Map String Live) (ids : List String) (k : String)
    → All (λ id. is_usable (get m id) ≡ true) ids
    → is_usable (get m k) ≡ false
    → contains ids k ≡ false
not_picked m [] k a h = refl
not_picked m (id ∷ ids) k a h = elim (Bool-cases (id is k)) [
  | inl e ↦
      absurd (ground (arith, subst (λ j. is_usable (get m j) ≡ true) ((is_iff id k).0 e) a.0, h))
  | inr e ↦ rw e (not_picked m ids k a.1 h)
]

get-shed_ids :
    (ok : String → Bool) (m : Manager) (rows : Sessions) (ids : List String) (now : Time)
    (k : String)
    → get (shed_ids ok m rows ids now).0.live k ≡ (if contains ids k then none else get m.live k)
unfolding shed_ids
get-shed_ids ok m rows [] now k = refl
get-shed_ids ok m rows (id ∷ ids) now k = ground (
  arith,
  get-shed_ids ok
      (record m {
        closed = close_client (ready_of (get m.live id)) m.closed;
        live = remove m.live id;
      })
      (if ok id then release_session rows id now else rows) ids now k,
  get-remove m.live id k,
)

close_client_le : (o : Option ℕ) (cs : List ℕ) → length (close_client o cs) ≤ 1 + length cs
close_client_le none cs = omega arith
close_client_le (some cl) cs = omega arith

closed-shed_ids :
    (ok : String → Bool) (m : Manager) (rows : Sessions) (ids : List String) (now : Time)
    → length (shed_ids ok m rows ids now).0.closed ≤ length ids + length m.closed
unfolding shed_ids
closed-shed_ids ok m rows [] now = omega arith
closed-shed_ids ok m rows (id ∷ ids) now = omega (
  arith,
  closed-shed_ids ok
      (record m {
        closed = close_client (ready_of (get m.live id)) m.closed;
        live = remove m.live id;
      })
      (if ok id then release_session rows id now else rows) ids now,
  close_client_le (ready_of (get m.live id)) m.closed,
)

-- Shedding up to `n` sessions, at least one, lets go of at most `n`, each of which has a usable client,
-- and of no other: the rest of the live sessions stay as they were, a login that still waits for its
-- operator among them. It closes at most `n` clients.
pub shed_lem :
    (ok : String → Bool) (m : Manager) (rows : Sessions) (n : ℕ) (now : Time)
    → 1 ≤ n
    → let out = shed ok m rows n now in
      (ids : List String) × (length ids ≤ n)
      × All (λ id. is_usable (get m.live id) ≡ true) ids
      × ((k : String) → get out.0.live k ≡ (if contains ids k then none else get m.live k))
      × ((k : String) → is_usable (get m.live k) ≡ false → get out.0.live k ≡ get m.live k)
      × (length out.0.closed ≤ n + length m.closed)
unfolding shed
shed_lem ok m rows n now h =
    let ids = to_shed n 0 m.live (keys_of m.live) in
    let p = picked n 0 m.live (keys_of m.live) in
    (
      ids,
      omega (arith, few n 0 m.live (keys_of m.live) h),
      p,
      (λ k. get-shed_ids ok m rows ids now k),
      (λ k u. get-shed_ids ok m rows ids now k ∙ rw (not_picked m.live ids k p u) refl),
      omega (arith, closed-shed_ids ok m rows ids now, few n 0 m.live (keys_of m.live) h),
    )
