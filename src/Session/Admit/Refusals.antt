-- ===== src/Session/Admit/Refusals.antt =====
-- What a refused call leaves behind.
use tg_control_api_server.Prelude.{
  ℕ, ◌≡◌, ◌≢◌, refl, true, false, Option, none, some, arith, Bool-cases, inl, inr, ◌⊎◌, pos, suc,
  int_same_iff, is_iff, ◌is◌,
}
use tg_control_api_server.Store.Counters.{CounterKey, calls, lost, Table}
use tg_control_api_server.Store.Cooldowns.{Cooldown, spam_limit_scope}
use tg_control_api_server.Session.Limits.{take_quota, release, Quota, free, taken, limited}
use tg_control_api_server.Session.Limits.Enforced.{release-take_quota}
use tg_control_api_server.Session.Guard.{Guard, active, reserve, Slot}
use tg_control_api_server.Session.Admit.{
  Call, World, admitted, admit, spam_blocked, restricted, limits_then_pace, is_paced, paced,
  Refusal, after_check,
}

-- The counts agree on every window.
abbrev pub SameCalls : Table → Table → Type 0
SameCalls s t = (k : CounterKey) → calls s k ≡ calls t k

paced-SameCalls :
    (c : Call) (q : Quota) (g : Guard) (r : Guard × Slot) (t s : Table)
    → SameCalls (release c.release_exec t q) s
    → (paced c q g r t).1 ≢ admitted
    → SameCalls (paced c q g r t).0.table s
paced-SameCalls c q g (g', slot) t s h n = ground arith

limits_then_pace-SameCalls :
    (c : Call) (g : Guard) (r : Table × Quota) (s : Table)
    → SameCalls (release c.release_exec r.0 r.1) s
    → (limits_then_pace c g r).1 ≢ admitted
    → SameCalls (limits_then_pace c g r).0.table s
unfolding release
limits_then_pace-SameCalls c g (t, limited l until) s h n = h
limits_then_pace-SameCalls c g (t, free) s h n = elim (Bool-cases (is_paced c)) [
  | inl e ↦ rw e (paced-SameCalls c free g (reserve g c.at_pace) t s h (rw e at n))
  | inr e ↦ absurd ((rw e at n) refl)
]
limits_then_pace-SameCalls c g (t, taken us) s h n = elim (Bool-cases (is_paced c)) [
  | inl e ↦ rw e (paced-SameCalls c (taken us) g (reserve g c.at_pace) t s h (rw e at n))
  | inr e ↦ absurd ((rw e at n) refl)
]

after_check-SameCalls :
    (c : Call) (w : World) (o : Option Refusal)
    → c.faults.commit ≢ lost
    → c.release_exec ≡ (λ _. true)
    → (after_check c w o).1 ≢ admitted
    → SameCalls (after_check c w o).0.table w.table
after_check-SameCalls c w (some r) kept ok n = λ k. refl
after_check-SameCalls c w none kept ok n =
    limits_then_pace-SameCalls c w.guard (take_quota c.faults w.table c.caller c.at_limits c.rules)
      w.table (rw ok (λ k. release-take_quota c.faults w.table c.caller c.at_limits c.rules k kept))
      n

after_check_admitted :
    (c : Call) (w : World) (o : Option Refusal) → (after_check c w o).1 ≡ admitted → o ≡ none
after_check_admitted c w (some r) h = absurd (cc)
after_check_admitted c w none h = refl

-- A call that is refused, or that the caller gives up while it waits for its slot, spends no quota:
-- every window counts what it counted before, if the statements of the release succeed and the
-- answer of the commit was not lost.
pub admit_refused_free :
    (c : Call) (w : World)
    → c.faults.commit ≢ lost
    → c.release_exec ≡ (λ _. true)
    → (admit c w).1 ≢ admitted
    → SameCalls (admit c w).0.table w.table
unfolding admit
admit_refused_free c w kept ok n = after_check-SameCalls c w (restricted c w.guard) kept ok n

not_blocked :
    (c : Call) (g : Guard) {d : Cooldown}
    → (c.caller.kind is "user") ≡ true
    → active g spam_limit_scope c.at_check ≡ some d
    → restricted c g ≡ none
    → spam_blocked g c.scope c.chat_id c.known ≡ false
not_blocked c g u a h = ground arith

allowed :
    (c : Call) (g : Guard)
    → spam_blocked g c.scope c.chat_id c.known ≡ false
    → (c.scope ≢ "@invite")
      × (c.scope ≢ "@contacts")
      × ((n : ℕ)
          → c.scope ≡ "@send"
          → c.chat_id ≡ pos (suc n)
          → (pos (suc n) ≡ g.my_id) ⊎ (c.known ≡ some true))
unfolding spam_blocked
allowed c g h = (
  (λ e. ground (arith, is_iff c.scope "@invite")),
  (λ e. ground (arith, is_iff c.scope "@contacts")),
  (λ n e i. ground (
    arith,
    int_same_iff (pos (suc n)) g.my_id,
    is_iff c.scope "@send",
    is_iff c.scope "@invite",
    is_iff c.scope "@contacts",
    is_iff "@send" "@invite",
    is_iff "@send" "@contacts",
  )),
)

-- While a user account is spam-limited, none of its invitations and imports is let out, and a message
-- to a private chat only if that is its own or a mutual contact's.
pub admit_spam_limited :
    (c : Call) (w : World) {d : Cooldown}
    → (c.caller.kind is "user") ≡ true
    → active w.guard spam_limit_scope c.at_check ≡ some d
    → (admit c w).1 ≡ admitted
    → (c.scope ≢ "@invite")
      × (c.scope ≢ "@contacts")
      × ((n : ℕ)
          → c.scope ≡ "@send"
          → c.chat_id ≡ pos (suc n)
          → (pos (suc n) ≡ w.guard.my_id) ⊎ (c.known ≡ some true))
unfolding admit
admit_spam_limited c w u a h =
    allowed c w.guard
      (not_blocked c w.guard u a (after_check_admitted c w (restricted c w.guard) h))
