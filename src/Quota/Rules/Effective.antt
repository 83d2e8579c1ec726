-- ===== src/Quota/Rules/Effective.antt =====
-- Which rules count: `Applicable` against its specification.
use tg_control_api_server.Prelude.{
  ℕ, ◌≡◌, String, Bool, true, false, ◌&&◌, ◌||◌, not, List, [], ◌∷◌, arith, ◌is◌, if◌then◌else◌,
  refl, map, any, select, is_iff, ltb, Option, none, some,
}
use tg_control_api_server.Store.Limits.{Limit}
use tg_control_api_server.Quota.Methods.{map_read}
use tg_control_api_server.Quota.Rules.{
  Applied, Shadows, signature, is_own, is_mine, is_default, note, collect, listed, applicable,
}

-- Every rule has an id, as the registry gives it.
abbrev pub HaveIds : List Limit → Type 0
HaveIds [] = Unit
HaveIds (l ∷ ls) = ((l.id is "") ≡ false) × HaveIds ls

levels_differ : (s : String) → (s is "session") ≡ true → (s is "token") ≡ false
levels_differ s h = ground (arith, is_iff s "session", is_iff s "token", is_iff "session" "token")

own-mine : (sid tok : String) (l : Limit) → is_own sid l ≡ true → is_mine tok l ≡ false
unfolding is_own is_mine
own-mine sid tok l h = ground (arith, levels_differ l.level)

default-mine : (kind tok : String) (l : Limit) → is_default kind l ≡ true → is_mine tok l ≡ false
unfolding is_default is_mine
default-mine sid tok l h = ground (arith, levels_differ l.level)

default-own : (kind sid : String) (l : Limit) → is_default kind l ≡ true → is_own sid l ≡ false
unfolding is_default is_own
default-own kind sid l h = ground arith

module _ (sid tok sig : String) where
  abbrev own_rule : Limit → Bool
  own_rule r = r.enabled && is_own sid r && (signature r is sig)

  abbrev mine_rule : Limit → Bool
  mine_rule r = r.enabled && is_mine tok r && (signature r is sig)

  own_read :
      (sh : Shadows) (ls : List Limit)
      → HaveIds ls
      → (map_read (collect sid tok sh ls).own sig is "")
        ≡ (not (any own_rule ls) && (map_read sh.own sig is ""))
  unfolding collect note map_read
  own_read sh [] h = ground arith
  own_read sh (l ∷ ls) h = ground (arith, own_read (note sid tok sh l) ls h.1)

  mine_read :
      (sh : Shadows) (ls : List Limit)
      → HaveIds ls
      → (map_read (collect sid tok sh ls).mine sig is "")
        ≡ (not (any mine_rule ls) && (map_read sh.mine sig is ""))
  unfolding collect note map_read
  mine_read sh [] h = ground arith
  mine_read sh (l ∷ ls) h = ground (arith, mine_read (note sid tok sh l) ls h.1, own-mine sid tok l)

abbrev no_shadows : Shadows
no_shadows = record { own = []; mine = [] }

-- The specification. A rule bears on the session for the caller, with a rank: a default 0, the
-- session's own rule 1, the caller's token rule 2.
abbrev rank : String → String → String → Limit → Option ℕ
rank sid kind tok l =
    if is_mine tok l
    then some 2
    else if is_own sid l
    then some 1
    else if is_default kind l
    then some 0
    else none

abbrev outranks : Option ℕ → Option ℕ → Bool
outranks (some m) (some n) = ltb n m
outranks _ _ = false

abbrev bears : Option ℕ → Bool
bears none = false
bears (some n) = true

-- An enabled rule that bears, and that no enabled rule of its signature outranks.
abbrev pub is_effective : List Limit → String → String → String → Limit → Bool
is_effective rules sid kind tok l =
    l.enabled
    && bears (rank sid kind tok l)
    && not (
        any
          (λ (r : Limit).
            r.enabled
            && (signature r is signature l)
            && outranks (rank sid kind tok r) (rank sid kind tok l))
          rules)

abbrev pub in_force : Applied → Bool
in_force a = a.replaced_by is ""

abbrev pub limit_of : Applied → Limit
limit_of a = a.limit

module _ (sid kind tok sig : String) where
  abbrev stronger : ℕ → Limit → Bool
  stronger k r = r.enabled && (signature r is sig) && outranks (rank sid kind tok r) (some k)

  none_above_token : (ls : List Limit) → any (stronger 2) ls ≡ false
  none_above_token [] = refl
  none_above_token (l ∷ ls) = ground (arith, none_above_token ls)

  above_own : (ls : List Limit) → any (stronger 1) ls ≡ any (mine_rule sid tok sig) ls
  above_own [] = refl
  above_own (l ∷ ls) = ground (arith, above_own ls)

  above_default :
      (ls : List Limit)
      → any (stronger 0) ls ≡ (any (own_rule sid tok sig) ls || any (mine_rule sid tok sig) ls)
  above_default [] = refl
  above_default (l ∷ ls) = ground (arith, above_default ls, own-mine sid tok l)

module _ (rules : List Limit) (sid kind tok : String) (sh : Shadows)
    (own : (sig : String) → (map_read sh.own sig is "") ≡ not (any (own_rule sid tok sig) rules))
    (mine : (sig : String)
      → (map_read sh.mine sig is "") ≡ not (any (mine_rule sid tok sig) rules)) where
  listed-effective :
      (ls : List Limit)
      → map limit_of (select in_force (listed sid kind tok sh ls))
        ≡ select (is_effective rules sid kind tok) ls
  unfolding listed
  listed-effective [] = refl
  listed-effective (l ∷ ls) = ground (
    arith,
    listed-effective ls,
    own (signature l),
    mine (signature l),
    own-mine sid tok l,
    default-mine kind tok l,
    default-own kind sid l,
    none_above_token sid kind tok (signature l) rules,
    above_own sid kind tok (signature l) rules,
    above_default sid kind tok (signature l) rules,
  )

-- The rules that `Applicable` lists without a replacement are, in order, exactly the rules that are
-- enabled, bear on the session for the caller, and that no enabled rule of the same signature
-- outranks, where the caller's token rule comes before the session's own, and that before the
-- default of the kind. The rules have ids.
pub applicable-effective :
    (rules : List Limit) (sid kind tok : String)
    → HaveIds rules
    → map limit_of (select in_force (applicable rules sid kind tok))
      ≡ select (is_effective rules sid kind tok) rules
unfolding applicable map_read
applicable-effective rules sid kind tok h =
    listed-effective rules sid kind tok (collect sid tok no_shadows rules)
      (λ sig. ground (arith, own_read sid tok sig no_shadows rules h))
      (λ sig. ground (arith, mine_read sid tok sig no_shadows rules h)) rules
