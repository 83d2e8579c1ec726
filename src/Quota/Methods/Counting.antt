-- ===== src/Quota/Methods/Counting.antt =====
-- What the patterns of a rule cover, and how much a call counts.
use text.Mathlib.Text.{starts_with}
use tg_control_api_server.Prelude.{
  ◌≤◌, ◌<◌, ◌≡◌, ◌↔◌, ◌⊎◌, inl, inr, String, Bool, true, false, ◌&&◌, ◌||◌, List, [], ◌∷◌, arith,
  ◌is◌, refl, any, is_iff, contains, Bool-cases,
}
use tg_control_api_server.Store.Limits.{Limit}
use tg_control_api_server.Quota.Methods.{
  groups, map_read, map_has, scope, valid_pattern, matches, CallParams, carried, covers, count,
}

all_start : List (String × String) → Bool
all_start [] = true
all_start ((k, v) ∷ m) = starts_with v "@" && all_start m

groups_start : all_start groups ≡ true
unfolding all_start groups
groups_start = refl

read_start :
    (m : List (String × String)) (k : String)
    → all_start m ≡ true
    → map_has m k ≡ true
    → starts_with (map_read m k) "@" ≡ true
unfolding map_has map_read all_start
read_start [] k a h = absurd (cc)
read_start ((j, v) ∷ m) k a h = ground (arith, read_start m k)

read_missing : (m : List (String × String)) (k : String) → map_has m k ≡ false → map_read m k ≡ ""
unfolding map_has map_read
read_missing [] k h = refl
read_missing ((j, v) ∷ m) k h = ground (arith, read_missing m k)

empty_start : (p : String) → p ≡ "" → starts_with p "@" ≡ false
empty_start p e = rw e

-- A pattern covers a method exactly when it is "*", the method, or the scope under which the
-- method cools down.
matches-scope : (p m : String) → matches p m ≡ ((p is "*") || (p is m) || (p is scope m))
unfolding matches scope
matches-scope p m = elim (Bool-cases (map_has groups m)) [
  | inl e ↦ ground (
    arith,
    read_start groups m groups_start e,
    is_iff p (map_read groups m),
    is_iff (map_read groups m) p,
  )
  | inr e ↦ ground (arith, read_missing groups m e, is_iff (map_read groups m) p, empty_start p)
]

-- A call counts nothing against a rule exactly when the rule does not cover its method or the call
-- stays local; against a rule with "*" it counts at most one, and against any other that it
-- counts against, at least what the call carries.
count_bounds :
    (l : Limit) (m : String) (p : CallParams)
    → ((count l m p ≡ 0) ↔ ((covers l m ≡ false) ⊎ (p.only_local ≡ true)))
      × (contains l.methods "*" ≡ true → count l m p ≤ 1)
      × (contains l.methods "*" ≡ false → 0 < count l m p → carried m p ≤ count l m p)
unfolding count
count_bounds l m p = ground arith

-- Every name a method can cool down under may stand in a rule: a valid method's scope is a valid pattern.
has_group :
    (m : List (String × String)) (k : String)
    → map_has m k ≡ true
    → any (λ (g : String × String). g.1 is map_read m k) m ≡ true
unfolding map_has map_read
has_group [] k h = absurd (cc)
has_group ((j, v) ∷ m) k h = ground (arith, has_group m k, is_iff v v)

scope-valid_pattern : (m : String) → valid_pattern m ≡ true → valid_pattern (scope m) ≡ true
unfolding valid_pattern scope
scope-valid_pattern m h = ground (arith, has_group groups m)
