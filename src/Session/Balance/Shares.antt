-- ===== src/Session/Balance/Shares.antt =====
-- No pass overshoots the fair share.
use native.Mathlib.Nat.{div-add-mod, mod-lt}
use tg_control_api_server.Prelude.{
  ◌*◌, ℕ, ◌+◌, ◌-◌, ◌≤◌, ◌<◌, ◌≡◌, ◌⊎◌, inl, inr, arith, Bool-cases, ltb, leb, ◌&&◌, false,
}
use tg_control_api_server.Session.Balance.{
  Plan, stay, shed, claim, claim_batch, shed_per_tick, share_of, balance, at_most, plan_for,
  claim_up_to,
}

-- A plan that goes towards the share and not past it, and within what the worker can hold.
abbrev pub Fair : ℕ → ℕ → ℕ → ℕ → Plan → Type 0
Fair mine share held capacity stay = (mine ≡ share) ⊎ ((mine < share) × (capacity ≤ held))
Fair mine share held capacity (shed n) = (0 < n) × (n ≤ shed_per_tick) × (share + n ≤ mine)
Fair mine share held capacity (claim n) =
    (0 < n) × (n ≤ claim_batch) × (mine + n ≤ share) × (held + n ≤ capacity)

not_zero : (n : ℕ) → 0 < n → leb n 0 ≡ false
not_zero n p = ground arith

Fair-claim_up_to :
    (mine share held capacity limit : ℕ)
    → 0 < limit
    → limit ≤ claim_batch
    → mine + limit ≤ share
    → held + limit ≤ capacity
    → Fair mine share held capacity (claim_up_to limit)
Fair-claim_up_to mine share held capacity limit p a b c = rw (not_zero limit p) (p, a, b, c)

-- The least of the three bounds on a claim.
limits :
    (a b : ℕ)
    → 0 < a
    → 0 < b
    → (0 < at_most (at_most a claim_batch) b)
      × (at_most (at_most a claim_batch) b ≤ claim_batch)
      × (at_most (at_most a claim_batch) b ≤ a)
      × (at_most (at_most a claim_batch) b ≤ b)
limits a b p q = ground arith

shed_limits :
    (a : ℕ)
    → 0 < a
    → (0 < at_most a shed_per_tick)
      × (at_most a shed_per_tick ≤ shed_per_tick)
      × (at_most a shed_per_tick ≤ a)
shed_limits a p = ground arith

Fair-claim :
    (mine share held capacity n : ℕ)
    → mine < share
    → held < capacity
    → (0 < n) × (n ≤ claim_batch) × (n ≤ share - mine) × (n ≤ capacity - held)
    → Fair mine share held capacity (claim_up_to n)
Fair-claim mine share held capacity n p q h =
    Fair-claim_up_to mine share held capacity n h.0 h.1 (omega (arith, h.2)) (omega (arith, h.3))

Fair-plan_for :
    (share mine held capacity : ℕ)
    → Fair mine share held capacity (plan_for share mine held capacity)
Fair-plan_for share mine held capacity = elim (Bool-cases (ltb share mine)) [
  | inl e ↦ rw e (ground (arith, shed_limits (mine - share)))
  | inr e ↦ elim (Bool-cases (ltb mine share && ltb held capacity)) [
    | inl c ↦
        rw (e, c)
          (Fair-claim mine share held capacity _ (ground arith) (ground arith)
            (limits (share - mine) (capacity - held) (ground arith) (ground arith)))
    | inr c ↦ rw (e, c) (ground arith)
  ]
]

-- A worker above the fair share sheds one or two sessions and stays at least at its share; one below
-- it claims between one and eight, up to its share and its capacity; it does neither only at its
-- share, or below it when it is full.
pub balance-Fair :
    (mine total live held capacity : ℕ)
    → Fair mine (share_of total live) held capacity (balance mine total live held capacity)
unfolding balance
balance-Fair mine total live held capacity = Fair-plan_for (share_of total live) mine held capacity

at_least : (live : ℕ) → 0 < live → ltb live 1 ≡ false
at_least live p = ground arith

-- For one worker alive or more, their fair shares together cover every session, and exceed the
-- number of sessions by less than the number of workers.
share_of_lem :
    (total live : ℕ)
    → 0 < live
    → (total ≤ live * share_of total live) × (live * share_of total live < total + live)
unfolding share_of
share_of_lem total live p =
    rw (at_least live p)
      (omega (arith, div-add-mod (total + live - 1) live, mod-lt (total + live - 1) {m = live} p))
