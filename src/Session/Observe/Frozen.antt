-- ===== src/Session/Observe/Frozen.antt =====
-- The frozen flag of the guard and its record in the registry (internal/session/guard.go,
-- `setFrozen`; internal/store/store.go, `SetSessionFrozen`).
use tg_control_api_server.Prelude.{
  ℕ, suc, ◌≡◌, refl, sym, ◌∙◌, Bool, true, false, Option, none, some, List, [], ◌∷◌, by_test,
  if◌then◌else◌,
}
use tg_control_api_server.Store.Limits.{Time}
use tg_control_api_server.Store.Cooldowns.{
  Account, is_some, or_now, set_session_frozen, session_limits,
}
use tg_control_api_server.Session.Guard.{Guard, differs, set_frozen}

-- The guard after each change in turn, and the writes that these send to the registry.
pub set_all : Guard → List Bool → Guard
set_all g [] = g
set_all g (f ∷ fs) = set_all (set_frozen g f).0 fs

pub frozen_writes : Guard → List Bool → List Bool
frozen_writes g [] = []
frozen_writes g (f ∷ fs) =
    let later = frozen_writes (set_frozen g f).0 fs in
    if (set_frozen g f).1 then f ∷ later else later

-- The registry once the writes have arrived, in this order, the `i`th at the time `clock i`.
pub arrived : (ℕ → Time) → ℕ → Account → List Bool → Account
arrived clock i a [] = a
arrived clock i a (f ∷ fs) = arrived clock (suc i) (set_session_frozen a f (clock i)) fs

same : (a b : Bool) → differs a b ≡ false → a ≡ b
same true true h = refl
same true false h = h
same false true h = sym h
same false false h = refl

written :
    (a : Account) (f : Bool) (at now : Time)
    → (session_limits (set_session_frozen a f at) now).frozen ≡ f
unfolding session_limits set_session_frozen
written a true at now = recorded a.frozen_at
  where
    recorded : (o : Option Time) → is_some (or_now o at) ≡ true
    recorded none = refl
    recorded (some t) = refl
written a false at now = refl

in_order :
    (clock : ℕ → Time) (i : ℕ) (g : Guard) (a : Account) (fs : List Bool) (now : Time)
    → (session_limits a now).frozen ≡ g.frozen
    → (session_limits (arrived clock i a (frozen_writes g fs)) now).frozen ≡ (set_all g fs).frozen
unfolding set_all frozen_writes arrived set_frozen
in_order clock i g a [] now h = h
in_order clock i g a (f ∷ fs) now h =
    let rest = frozen_writes (set_frozen g f).0 fs in
    by_test
      (λ ws.
        (session_limits (arrived clock i a ws) now).frozen ≡ (set_all (set_frozen g f).0 fs).frozen)
      (differs g.frozen f) (f ∷ rest) rest
      (λ e.
        in_order clock (suc i) (set_frozen g f).0 (set_session_frozen a f (clock i)) fs now
          (written a f (clock i) now))
      (λ e. in_order clock i (set_frozen g f).0 a fs now (h ∙ same g.frozen f e))

-- `setFrozen` sends every change to the registry, on its own. When the writes arrive in the order of
-- the changes, the registry holds the flag that the guard holds, if the two agreed before. They may
-- arrive in another order: of a freeze and its lifting, where the guard was not frozen, the freeze
-- written last stays in the registry while the guard has it lifted.
pub frozen_writes_reordered :
    (clock : ℕ → Time) (g : Guard) (a : Account) (now : Time)
    → ((fs : List Bool)
        → (session_limits a now).frozen ≡ g.frozen
        → (session_limits (arrived clock 0 a (frozen_writes g fs)) now).frozen
          ≡ (set_all g fs).frozen)
      × (g.frozen ≡ false
          → (frozen_writes g (true ∷ false ∷ []) ≡ true ∷ false ∷ [])
            × ((session_limits (arrived clock 0 a (false ∷ true ∷ [])) now).frozen ≡ true)
            × ((set_all g (true ∷ false ∷ [])).frozen ≡ false))
unfolding set_all frozen_writes arrived set_frozen
frozen_writes_reordered clock g a now = (
  (λ fs h. in_order clock 0 g a fs now h),
  (λ h. (rw h refl, written (set_session_frozen a false (clock 0)) true (clock 1) now, refl)),
)
