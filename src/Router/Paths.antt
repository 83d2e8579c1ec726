-- ===== src/Router/Paths.antt =====
-- Texts of a request: the parts of a path, prefixes (internal/router).
use Prim.Native.Char.{code, Char}
use tg_control_api_server.Prelude.{
  String, Bool, true, false, ◌||◌, Option, none, some, List, [], ◌∷◌, ◌==◌, ◌is◌, if◌then◌else◌,
}

abbrev is_slash : Char → Bool
is_slash c = code c == b'/'

abbrev trim_left : String → String
trim_left String.[] = String.[]
trim_left (String.◌∷◌ c s) = let rest = trim_left s in if is_slash c then rest else String.◌∷◌ c s

abbrev keep_unless_slash : Char → String → String
keep_unless_slash c String.[] = if is_slash c then String.[] else String.◌∷◌ c String.[]
keep_unless_slash c (String.◌∷◌ d s) = String.◌∷◌ c (String.◌∷◌ d s)

abbrev trim_right : String → String
trim_right String.[] = String.[]
trim_right (String.◌∷◌ c s) = keep_unless_slash c (trim_right s)

abbrev add_char : Char → List String → List String
add_char c [] = String.◌∷◌ c String.[] ∷ []
add_char c (p ∷ ps) = String.◌∷◌ c p ∷ ps

-- `strings.Split(s, "/")`.
abbrev split_slash : String → List String
split_slash String.[] = "" ∷ []
split_slash (String.◌∷◌ c s) =
    let rest = split_slash s in if is_slash c then "" ∷ rest else add_char c rest

-- `strings.Split(strings.Trim(path, "/"), "/")`.
unfoldable pub segments : String → List String
segments path = split_slash (trim_right (trim_left path))

-- `strings.CutPrefix`.
pub cut_prefix : String → String → Option String
cut_prefix String.[] s = some s
cut_prefix (String.◌∷◌ p ps) String.[] = none
cut_prefix (String.◌∷◌ p ps) (String.◌∷◌ c s) =
    let rest = cut_prefix ps s in if code p == code c then rest else none

abbrev is_some : Option String → Bool
is_some none = false
is_some (some s) = true

-- `isFilesPath` (internal/router/files.go).
unfoldable pub is_files_path : String → Bool
unfolding cut_prefix
is_files_path p = (p is "/v1/files") || is_some (cut_prefix "/v1/files/" p)
