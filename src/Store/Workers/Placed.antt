-- ===== src/Store/Workers/Placed.antt =====
-- Where a new session is placed.
use tg_control_api_server.Prelude.{
  ℕ, ◌≤◌, ◌≡◌, ◌⊎◌, inl, inr, refl, subst, String, Bool, true, false, ◌&&◌, ◌||◌, [], ◌∷◌, ltb,
  ◌==◌, select, All, All-select, arith, Bool-cases,
}
use tg_control_api_server.Store.Limits.{Time}
use tg_control_api_server.Store.Workers.{
  WorkerRow, Sessions, Workers, is_alive, hosted, is_lighter, lightest, addr_of_lightest,
  pick_worker,
}

-- No worker alive hosts fewer sessions.
abbrev NoLighter : Sessions → WorkerRow → WorkerRow → Type 0
NoLighter ss a b = hosted ss a.worker ≤ hosted ss b.worker

at_most_trans : {x a b : ℕ} → x ≤ a → a ≤ b → x ≤ b
at_most_trans p q = omega arith

fewer_first : (m n : ℕ) (b : Bool) → (ltb m n || ((m == n) && b)) ≡ true → m ≤ n
fewer_first m n b h = ground arith

fewer_last : (m n : ℕ) (b : Bool) → (ltb m n || ((m == n) && b)) ≡ false → n ≤ m
fewer_last m n b h = ground arith

abbrev Least : Sessions → WorkerRow → WorkerRow → Workers → Type 0
Least ss w a bs = NoLighter ss w a × All (NoLighter ss w) bs

Least-next :
    (bs : Workers) (ss : Sessions) (w a b : WorkerRow)
    → hosted ss a.worker ≤ hosted ss b.worker
    → Least ss w a bs
    → Least ss w a (b ∷ bs)
Least-next bs ss w a b le h = (h.0, (at_most_trans h.0 le, h.1))

Least-last :
    (bs : Workers) (ss : Sessions) (w a b : WorkerRow)
    → hosted ss b.worker ≤ hosted ss a.worker
    → Least ss w b bs
    → Least ss w a (b ∷ bs)
Least-last bs ss w a b le h = (at_most_trans h.0 le, h)

next_is :
    (bs : Workers) (ss : Sessions) (a b : WorkerRow)
    → is_lighter ss a b ≡ true
    → lightest ss a bs ≡ lightest ss a (b ∷ bs)
next_is bs ss a b e = rw e refl

last_is :
    (bs : Workers) (ss : Sessions) (a b : WorkerRow)
    → is_lighter ss a b ≡ false
    → lightest ss b bs ≡ lightest ss a (b ∷ bs)
last_is bs ss a b e = rw e refl

Least-choice :
    (bs : Workers) (ss : Sessions) (w a b : WorkerRow) (c : Bool)
    → is_lighter ss a b ≡ c
    → (c ≡ true → Least ss w a bs)
    → (c ≡ false → Least ss w b bs)
    → Least ss w a (b ∷ bs)
Least-choice bs ss w a b true e ha hb =
    Least-next bs ss w a b (fewer_first (hosted ss a.worker) (hosted ss b.worker) _ e) (ha refl)
Least-choice bs ss w a b false e ha hb =
    Least-last bs ss w a b (fewer_last (hosted ss a.worker) (hosted ss b.worker) _ e) (hb refl)

lightest-Least : (bs : Workers) (ss : Sessions) (a : WorkerRow) → Least ss (lightest ss a bs) a bs
lightest-Least [] ss a = (ground arith, tt)
lightest-Least (b ∷ bs) ss a =
    Least-choice bs ss (lightest ss a (b ∷ bs)) a b (is_lighter ss a b) refl
      (λ e. subst (λ w. Least ss w a bs) (next_is bs ss a b e) (lightest-Least bs ss a))
      (λ e. subst (λ w. Least ss w b bs) (last_is bs ss a b e) (lightest-Least bs ss b))

All-lightest :
    (P : WorkerRow → Type 0) (bs : Workers) (ss : Sessions) (a : WorkerRow)
    → P a
    → All P bs
    → P (lightest ss a bs)
All-lightest P [] ss a p q = p
All-lightest P (b ∷ bs) ss a p q = elim (Bool-cases (is_lighter ss a b)) [
  | inl e ↦ rw e (All-lightest P bs ss a p q.1)
  | inr e ↦ rw e (All-lightest P bs ss b q.0 q.1)
]

-- An address that is picked is that of an alive worker that no alive worker undercuts.
abbrev Picked : Workers → Sessions → Time → String → Type 0
Picked ws ss cutoff addr =
    ((select (is_alive cutoff) ws ≡ []) × (addr ≡ ""))
    ⊎ ((w : WorkerRow) × (addr ≡ w.addr)
        × (is_alive cutoff w ≡ true)
        × All (NoLighter ss w) (select (is_alive cutoff) ws))

Picked-lightest :
    (ws : Workers) (ss : Sessions) (cutoff : Time) (alive : Workers)
    → select (is_alive cutoff) ws ≡ alive
    → All (λ w. is_alive cutoff w ≡ true) alive
    → ((alive ≡ []) × (addr_of_lightest ss alive ≡ ""))
      ⊎ ((w : WorkerRow) × (addr_of_lightest ss alive ≡ w.addr)
          × (is_alive cutoff w ≡ true)
          × All (NoLighter ss w) alive)
Picked-lightest ws ss cutoff [] e a = inl (refl, refl)
Picked-lightest ws ss cutoff (b ∷ bs) e a = inr (
  lightest ss b bs,
  refl,
  All-lightest (λ w. is_alive cutoff w ≡ true) bs ss b a.0 a.1,
  lightest-Least bs ss b,
)

-- A new session is placed on a worker that is alive and hosts no more authorized sessions than any
-- other alive one; the answer "" is given when no worker is alive.
pick_worker_lem :
    (ws : Workers) (ss : Sessions) (cutoff : Time) → Picked ws ss cutoff (pick_worker ws ss cutoff)
unfolding pick_worker
pick_worker_lem ws ss cutoff =
    Picked-lightest ws ss cutoff (select (is_alive cutoff) ws) refl
      (All-select (is_alive cutoff) ws)
