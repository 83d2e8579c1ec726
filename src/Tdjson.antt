-- ===== src/Tdjson.antt =====
-- TDLib's errors (internal/tdjson/raw.go). Texts are walked by their code points.
use Prim.Native.Char.{code}
use tg_control_api_server.Prelude.{
  ℕ, zero, suc, ◌+◌, ◌-◌, ◌*◌, ◌^◌, String, Bool, true, false, not, ◌&&◌, ◌||◌, Option, none, some,
  List, [], ◌∷◌, leb, ltb, ◌==◌, if◌then◌else◌, ℤ, pos, negsuc, int_same, any,
}

abbrev pub Text : Type 0
Text = List ℕ

abbrev pub codes : String → Text
codes String.[] = []
codes (String.◌∷◌ c s) = code c ∷ codes s

pub record TdError : Type 0 where
  pub err_code : ℤ
  pub message : String

-- What follows a prefix.
unfoldable pub after_prefix : Text → Text → Option Text
after_prefix [] s = some s
after_prefix (p ∷ ps) [] = none
after_prefix (p ∷ ps) (c ∷ s) = let rest = after_prefix ps s in if p == c then rest else none

abbrev or_this {ℓ} : {A : Type ℓ} → Option A → Option A → Option A
or_this (some a) b = some a
or_this none b = b

-- What follows the last occurrence of a marker, as `s[strings.LastIndex(s, m)+len(m):]`.
unfoldable pub after_last : Text → Text → Option Text
unfolding after_prefix
after_last m [] = after_prefix m []
after_last m (c ∷ s) = or_this (after_last m s) (after_prefix m (c ∷ s))

-- `strings.Contains`.
unfoldable pub contains_text : Text → Text → Bool
unfolding after_last
contains_text s m = elim (after_last m s) [ none ↦ false | some rest ↦ true ]

-- `unicode.IsSpace`.
unfoldable pub is_space : ℕ → Bool
is_space c =
    any (λ s. c == s)
      (9 ∷ 10 ∷ 11 ∷ 12 ∷ 13 ∷ 32 ∷ 0x85 ∷ 0xa0 ∷ 0x1680 ∷ 0x2028 ∷ 0x2029 ∷ 0x202f ∷ 0x205f
        ∷ 0x3000 ∷ [])
    || (leb 0x2000 c && leb c 0x200a)

trim_left : Text → Text
unfolding is_space
trim_left [] = []
trim_left (c ∷ s) = let rest = trim_left s in if is_space c then rest else c ∷ s

trim_right : Text → Text
unfolding is_space
trim_right [] = []
trim_right (c ∷ s) = elim (trim_right s) [
  | [] ↦ if is_space c then [] else c ∷ []
  | d ∷ r ↦ c ∷ d ∷ r
]

-- `strings.TrimSpace`.
unfoldable pub trim_space : Text → Text
unfolding trim_left trim_right
trim_space s = trim_right (trim_left s)

is_digit : ℕ → Bool
is_digit c = leb b'0' c && leb c b'9'

pub digits_value : ℕ → Text → Option ℕ
unfolding is_digit
digits_value acc [] = some acc
digits_value acc (c ∷ s) =
    let rest = digits_value (acc * 10 + (c - b'0')) s in if is_digit c then rest else none

abbrev below : ℕ → Option ℕ → Option ℕ
below n none = none
below n (some v) = if ltb v n then some v else none

unsigned : ℕ → Text → Option ℕ
unfolding digits_value
unsigned limit [] = none
unsigned limit (c ∷ s) = below limit (digits_value 0 (c ∷ s))

abbrev negated : Option ℕ → Option ℤ
negated none = none
negated (some zero) = some (pos 0)
negated (some (suc n)) = some (negsuc n)

abbrev positive : Option ℕ → Option ℤ
positive none = none
positive (some n) = some (pos n)

-- `strconv.Atoi` on 64 bits.
unfoldable pub atoi : Text → Option ℤ
unfolding unsigned
atoi [] = none
atoi (c ∷ s) =
    if c == b'-'
    then negated (unsigned (2 ^ 63 + 1) s)
    else if c == b'+'
    then positive (unsigned (2 ^ 63) s)
    else positive (unsigned (2 ^ 63) (c ∷ s))

abbrev retry_marker : Text
retry_marker = codes "retry after "

abbrev natural : Option ℤ → Option ℕ
natural (some (pos n)) = some n
natural _ = none

abbrev then_parse : Option Text → Option ℕ
then_parse none = none
then_parse (some rest) = natural (atoi (trim_space rest))

abbrev is_flood : ℤ → Bool
is_flood c = int_same c (pos 429) || int_same c (pos 420)

-- `Error.RetryAfter`.
unfoldable pub retry_after : TdError → Option ℕ
retry_after e =
    if not (is_flood e.err_code)
    then none
    else then_parse (after_last retry_marker (codes e.message))
