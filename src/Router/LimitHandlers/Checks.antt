-- ===== src/Router/LimitHandlers/Checks.antt =====
-- What a rule that passes `validLimit` counts, how many, and in which window.
use Prim.Native.String
use tg_control_api_server.Prelude.{
  ◌≤◌, ◌≡◌, refl, sym, ◌∙◌, String, Bool, true, false, not, Option, none, some, List, [], ◌∷◌, All,
  is_iff, ◌is◌, if◌then◌else◌, contains, ℤ, pos, negsuc, ap, arith, Bool-cases, inl, inr,
}
use tg_control_api_server.Store.Limits.{Limit}
use tg_control_api_server.Quota.Methods.{valid_pattern}
use tg_control_api_server.Quota.Window.{pers}
use tg_control_api_server.Router.Limits.Targets.{one_target}
use tg_control_api_server.Router.LimitHandlers.{
  Draft, is_nil, is_positive, bad_method, method_complaint, valid_limit, settled, amount,
}

abbrev pub IsValidMethod : String → Type 0
IsValidMethod m = valid_pattern m ≡ true

-- What a rule counts, how many, and in which window.
abbrev pub IsSound : Limit → Type 0
IsSound l =
    (is_nil l.methods ≡ false)
    × All IsValidMethod l.methods
    × (1 ≤ l.max_calls)
    × (contains pers l.per ≡ true)

abbrev pub IsManaged : Limit → Type 0
IsManaged l = (one_target l ≡ true) × IsSound l

no_bad : (ms : List String) → bad_method ms ≡ none → All IsValidMethod ms
unfolding bad_method
no_bad [] h = tt
no_bad (m ∷ ms) h = elim (Bool-cases (valid_pattern m)) [
  | inl e ↦ (e, no_bad ms (ground (arith, h, e)))
  | inr e ↦ absurd (ground (arith, h, e))
]

has_character : String → Bool
has_character String.[] = false
has_character (String.◌∷◌ c s) = true

has_character-join :
    (s t : String) → has_character s ≡ true → has_character (String.◌++◌ s t) ≡ true
unfolding has_character
has_character-join String.[] t h = absurd (ground (arith, h))
has_character-join (String.◌∷◌ c s) t h = ap has_character (λ i. String.append.cons c s t i)

complains : (m s : String) → (method_complaint (some m) s is "") ≡ true → true ≡ false
unfolding has_character
complains m s h =
    sym (has_character-join _ _ (has_character-join "bad method " m refl))
    ∙ ap has_character ((is_iff (method_complaint (some m) s) "").0 h)

pub shown_valid : (b : Bool) → not b ≡ false → b ≡ true
shown_valid true h = refl
shown_valid false h = sym h

positive : (n : ℤ) → is_positive n ≡ true → 1 ≤ amount n
positive (pos n) h = ground arith
positive (negsuc n) h = absurd (ground arith)

complaint_lem :
    (o : Option String) (rest : String)
    → (method_complaint o rest is "") ≡ true
    → (o ≡ none) × ((rest is "") ≡ true)
complaint_lem none rest h = (refl, h)
complaint_lem (some m) rest h = absurd (ground (arith, complains m rest h))

tail_lem :
    (p c : Bool)
    → ((if not p
          then "max must be positive"
          else if not c
          then "per must be minute, hour, day, week"
          else "")
        is "")
      ≡ true
    → (p ≡ true) × (c ≡ true)
tail_lem true true h = (refl, refl)
tail_lem true false h = absurd (ground (arith, h))
tail_lem false c h = absurd (ground (arith, h))

methods_lem :
    (b : Bool) (listing rest : String)
    → (listing is "") ≡ false
    → ((if b then listing else rest) is "") ≡ true
    → (b ≡ false) × ((rest is "") ≡ true)
methods_lem true listing rest n h = absurd (ground (arith, n, h))
methods_lem false listing rest n h = (refl, h)

pub valid_limit_lem : (d : Draft) → (valid_limit d is "") ≡ true → IsSound (settled d)
unfolding valid_limit
valid_limit_lem d h =
    let l = methods_lem (is_nil d.limit.methods) _ _ refl h in
    let k = complaint_lem (bad_method d.limit.methods) _ l.1 in
    let m = tail_lem (is_positive d.maximum) (contains pers d.limit.per) k.1 in
    (l.0, no_bad d.limit.methods k.0, positive d.maximum m.0, m.1)
