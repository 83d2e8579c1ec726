-- ===== src/Session/Json.antt =====
-- JSON documents as encoding/json reads them: into `any` (internal/session/uploads.go,
-- `collectLocalFilePaths`) and into a structure with an integer or a raw field
-- (internal/session/manager.go, `stringChatID` and `numericChatID`).
pub mod Lookups
use tg_control_api_server.Prelude.{
  ℕ, ◌+◌, ◌^◌, String, Bool, true, false, ◌&&◌, ◌||◌, Option, none, some, [], ◌∷◌, leb, ltb, ◌==◌,
  ◌is◌, if◌then◌else◌, ℤ, pos, negsuc,
}
use tg_control_api_server.Tdjson.{Text, codes}

-- An object keeps its keys in the order of the document, a repeated one included.
mutual
  pub data Value : Type 0 where
    null : Value
    boolean : Bool → Value
    number : ℤ → Value
    -- a literal with a fraction or an exponent
    decimal : String → Value
    string : String → Value
    array : Items → Value
    object : Fields → Value

  pub data Items : Type 0 where
    nil : Items
    cons : Value → Items → Items

  pub data Fields : Type 0 where
    end : Fields
    field : String → Value → Fields → Fields

-- `json.RawMessage`: nothing, bytes that are no JSON, or a document.
pub data Raw : Type 0 where
  empty malformed : Raw
  document : Value → Raw

-- A map keeps the last value of a repeated key.
unfoldable pub has_key : Fields → String → Bool
has_key end k = false
has_key (field j v fs) k = (j is k) || has_key fs k

abbrev pub later : Option Value → Option Value → Option Value
later (some v) first = some v
later none first = first

unfoldable pub lookup : Fields → String → Option Value
lookup end k = none
lookup (field j v fs) k = later (lookup fs k) (if j is k then some v else none)

-- `obj[k] = v` on the decoded map.
pub without : Fields → String → Fields
without end k = end
without (field j v fs) k = let rest = without fs k in if j is k then rest else field j v rest

pub with_field : Fields → String → Value → Fields
unfolding without
with_field end k v = field k v end
with_field (field j w fs) k v =
    let rest = with_field fs k v in if j is k then rest else field j w rest

-- A structure takes a field's name in any case; a character outside ASCII folds to an ASCII letter
-- only for the long s and the Kelvin sign.
abbrev fold : ℕ → ℕ
fold c =
    if leb b'A' c && leb c b'Z'
    then c + 32
    else if c == 0x17f
    then b's'
    else if c == 0x212a
    then b'k'
    else c

unfoldable pub fold_same : Text → Text → Bool
fold_same [] [] = true
fold_same (c ∷ s) (d ∷ t) = (fold c == fold d) && fold_same s t
fold_same [] (d ∷ t) = false
fold_same (c ∷ s) [] = false

abbrev names_field : String → String → Bool
names_field k name = fold_same (codes k) (codes name)

-- The last value of a `json.RawMessage` field.
unfoldable pub raw_field : Fields → String → Option Value
raw_field end name = none
raw_field (field j v fs) name =
    later (raw_field fs name) (if names_field j name then some v else none)

abbrev fits_int64 : ℤ → Bool
fits_int64 (pos n) = ltb n (2 ^ 63)
fits_int64 (negsuc n) = ltb n (2 ^ 63)

-- What an `int64` field holds after one value; `none` is a type error, and a null changes nothing.
abbrev store_int64 : Value → ℤ → Option ℤ
store_int64 (number n) old = if fits_int64 n then some n else none
store_int64 null old = some old
store_int64 _ old = none

abbrev on_int64 : (ℤ → Option ℤ) → Option ℤ → Option ℤ
on_int64 f none = none
on_int64 f (some n) = f n

-- An `int64` field, 0 where the document has none.
unfoldable pub int64_field : Fields → String → ℤ → Option ℤ
int64_field end name old = some old
int64_field (field j v fs) name old =
    on_int64 (λ n. int64_field fs name n)
      (if names_field j name then store_int64 v old else some old)
