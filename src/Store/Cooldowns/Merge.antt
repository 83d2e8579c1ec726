-- ===== src/Store/Cooldowns/Merge.antt =====
-- The end of a cooldown under writes that arrive in any order.
use Prim.Native.Nat.{max}
use native.Mathlib.Nat.{ℕ_set}
use mathlib.Core.Logic.{∥∥₁_elim}
use mathlib.Core.List.{Perm, Permᴰ}
use tg_control_api_server.Prelude.{
  ◌≡◌, refl, ◌∙◌, String, Option, none, some, List, [], ◌∷◌, arith, ◌is◌, is_iff, if◌then◌else◌,
  Map, get, get-put, text_eq, Option-cases, inl, inr,
}
use tg_control_api_server.Store.Limits.{Time}
use tg_control_api_server.Store.Cooldowns.{Cooldown, raise, micros, in_micros, set_cooldown}

abbrev end_of : Option Cooldown → Time
end_of none = 0
end_of (some c) = c.until

-- When the cooldown on a scope ends; 0, long past, when there is none.
abbrev pub ends : Map String Cooldown → String → Time
ends m scope = end_of (get m scope)

pub ends-raise :
    (m : Map String Cooldown) (c : Cooldown) (s : String)
    → ends (raise m c) s ≡ (if c.scope is s then max (ends m s) c.until else ends m s)
unfolding raise
ends-raise m c s = elim (Option-cases (get m c.scope)) [
  | inl e ↦ ground (arith, get-put m c.scope s c, is_iff c.scope s)
  | inr (cur, e) ↦ ground (arith, get-put m c.scope s c, is_iff c.scope s)
]

ends-set_cooldown :
    (m : Map String Cooldown) (c : Cooldown) (s : String)
    → ends (set_cooldown m c) s
      ≡ (if c.scope is s then max (ends m s) (micros c.until) else ends m s)
unfolding set_cooldown
ends-set_cooldown m c s = ends-raise m (in_micros c) s

-- `SetCooldown` for each cooldown in turn.
pub set_cooldowns : Map String Cooldown → List Cooldown → Map String Cooldown
set_cooldowns m [] = m
set_cooldowns m (c ∷ cs) = set_cooldowns (set_cooldown m c) cs

-- The latest end among the cooldowns on a scope.
abbrev pub latest : List Cooldown → String → Time
latest [] s = 0
latest (c ∷ cs) s = let rest = latest cs s in if c.scope is s then max c.until rest else rest

pub ends-set_cooldowns :
    (m : Map String Cooldown) (cs : List Cooldown) (s : String)
    → ends (set_cooldowns m cs) s ≡ max (ends m s) (micros (latest cs s))
unfolding set_cooldowns
ends-set_cooldowns m [] s = omega arith
ends-set_cooldowns m (c ∷ cs) s =
    ground (arith, ends-set_cooldowns (set_cooldown m c) cs s, ends-set_cooldown m c s)

latest-permᴰ : (cs ds : List Cooldown) (s : String) → Permᴰ cs ds → latest cs s ≡ latest ds s
latest-permᴰ cs ds s Permᴰ.nil = refl
latest-permᴰ cs ds s (Permᴰ.cons {a = a} {b = b} {l₁ = l₁} {l₂ = l₂} e p) =
    rw e (rw (latest-permᴰ l₁ l₂ s p))
latest-permᴰ cs ds s (Permᴰ.swap {a = a} {b = b} {a' = a'} {b' = b'} e f) = rw (e, f) (ground arith)
latest-permᴰ cs ds s (Permᴰ.trans {l₂ = es} p q) = latest-permᴰ cs es s p ∙ latest-permᴰ es ds s q

pub latest-perm : (cs ds : List Cooldown) (s : String) → Perm cs ds → latest cs s ≡ latest ds s
latest-perm cs ds s p = ∥∥₁_elim p (ℕ_set _ _) (latest-permᴰ cs ds s)
