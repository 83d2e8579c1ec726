-- ===== src/Upload/Inside.antt =====
-- Paths inside the uploads volume (internal/upload/store.go, `Within`), with what it uses of
-- path/filepath on Unix: a path is its components, resolved without looking at the disk.
pub mod Components
pub mod Contained
use tg_control_api_server.Prelude.{
  ℕ, Bool, true, false, not, ◌&&◌, Option, none, some, List, [], ◌∷◌, ◌++◌, ◌==◌, if◌then◌else◌,
}
use tg_control_api_server.Tdjson.{Text, after_prefix}

abbrev pub text_same : Text → Text → Bool
text_same [] [] = true
text_same (c ∷ s) (d ∷ t) = (c == d) && text_same s t
text_same [] (d ∷ t) = false
text_same (c ∷ s) [] = false

abbrev pub onto_first : ℕ → List Text → List Text
onto_first c [] = (c ∷ []) ∷ []
onto_first c (s ∷ ss) = (c ∷ s) ∷ ss

-- The texts between the slashes.
pub split_slash : Text → List Text
split_slash [] = [] ∷ []
split_slash (c ∷ s) = let rest = split_slash s in if c == b'/' then [] ∷ rest else onto_first c rest

abbrev pub dot : Text
dot = b'.' ∷ []

abbrev pub dotdot : Text
dotdot = b'.' ∷ b'.' ∷ []

abbrev pub is_rooted : Text → Bool
is_rooted [] = false
is_rooted (c ∷ s) = c == b'/'

-- `..` takes the last component back; at the root it is dropped, and it stays at the head of a
-- relative path. The components are kept last first.
abbrev pub step_back : Bool → List Text → List Text
step_back rooted [] = if rooted then [] else dotdot ∷ []
step_back rooted (d ∷ ds) = if text_same d dotdot then dotdot ∷ d ∷ ds else ds

abbrev pub enter : Bool → List Text → Text → List Text
enter rooted ds s =
    if text_same s []
    then ds
    else if text_same s dot
    then ds
    else if text_same s dotdot
    then step_back rooted ds
    else s ∷ ds

pub resolve : Bool → List Text → List Text → List Text
resolve rooted ds [] = ds
resolve rooted ds (s ∷ ss) = resolve rooted (enter rooted ds s) ss

-- The components, first to last.
pub turn : List Text → List Text → List Text
turn [] done = done
turn (d ∷ ds) done = turn ds (d ∷ done)

unfoldable pub parts : Text → List Text
unfolding resolve split_slash turn
parts p = turn (resolve (is_rooted p) [] (split_slash p)) []

-- Each component after a slash.
unfoldable pub slashed : List Text → Text
slashed [] = []
slashed (d ∷ ds) = b'/' ∷ (d ++ slashed ds)

abbrev pub render : Bool → List Text → Text
render true [] = b'/' ∷ []
render true (d ∷ ds) = slashed (d ∷ ds)
render false [] = dot
render false (d ∷ ds) = d ++ slashed ds

-- `filepath.Clean`.
unfoldable pub clean : Text → Text
clean p = render (is_rooted p) (parts p)

-- `strings.HasPrefix`.
abbrev pub is_there : Option Text → Bool
is_there none = false
is_there (some rest) = true

unfoldable pub within : Text → Text → Bool
within p root =
    not (text_same (clean p) (clean root))
    && is_there (after_prefix (clean root ++ (b'/' ∷ [])) (clean p))

-- Up to and with the last slash.
pub up_to_slash : Text → Text
up_to_slash [] = []
up_to_slash (c ∷ s) = elim (up_to_slash s) [
  | [] ↦ if c == b'/' then c ∷ [] else []
  | d ∷ r ↦ c ∷ d ∷ r
]

-- `filepath.Dir`.
unfoldable pub dir : Text → Text
unfolding up_to_slash
dir p = clean (up_to_slash p)
