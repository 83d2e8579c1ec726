-- ===== src/Session/Balance.antt =====
-- Sharing the sessions of the fleet: the last part of `reconcile` (internal/session/manager.go).
pub mod Shares
use tg_control_api_server.Prelude.{ℕ, ◌+◌, ◌-◌, ◌/◌, ltb, leb, if◌then◌else◌, ◌&&◌}

abbrev pub claim_batch : ℕ
claim_batch = 8

abbrev pub shed_per_tick : ℕ
shed_per_tick = 2

-- What a pass of the reconciler goes on to do.
pub data Plan : Type 0 where
  stay : Plan
  shed claim : ℕ → Plan

abbrev at_least_one : ℕ → ℕ
at_least_one live = if ltb live 1 then 1 else live

-- ceil(total / live).
pub share_of : ℕ → ℕ → ℕ
share_of total live = (total + at_least_one live - 1) / at_least_one live

abbrev pub at_most : ℕ → ℕ → ℕ
at_most n cap = if ltb cap n then cap else n

abbrev pub claim_up_to : ℕ → Plan
claim_up_to limit = if leb limit 0 then stay else claim limit

-- The switch of `reconcile`, for a share.
abbrev pub plan_for : ℕ → ℕ → ℕ → ℕ → Plan
plan_for share mine held capacity =
    if ltb share mine
    then shed (at_most (mine - share) shed_per_tick)
    else if ltb mine share && ltb held capacity
    then claim_up_to (at_most (at_most (share - mine) claim_batch) (capacity - held))
    else stay

-- What `WorkerLoad` answers, the number of sessions held and the capacity decide the plan.
pub balance : ℕ → ℕ → ℕ → ℕ → ℕ → Plan
unfolding share_of
balance mine total live held capacity = plan_for (share_of total live) mine held capacity
