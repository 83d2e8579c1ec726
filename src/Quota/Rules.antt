-- ===== src/Quota/Rules.antt =====
-- The rules bearing on a session, and which takes the place of which (internal/quota/quota.go).
pub mod Effective
use Prim.Native.Nat.{Ordering}
use Prim.Native.String.{compare}
use Prim.Native.String
use tg_control_api_server.Prelude.{
  String, Bool, true, false, ◌&&◌, ◌||◌, not, Option, none, some, List, [], ◌∷◌, ◌is◌,
  if◌then◌else◌, points_to,
}
use tg_control_api_server.Store.Limits.{Limit}
use tg_control_api_server.Quota.Methods.{map_read}

infixr 65 ◌+++◌
abbrev ◌+++◌ : String → String → String
s +++ t = String.◌++◌ s t

text_leb : String → String → Bool
text_leb s t = elim (compare s t) [ Ordering.gt ↦ false | _ ↦ true ]

insert_sorted : String → List String → List String
unfolding text_leb
insert_sorted x [] = x ∷ []
insert_sorted x (y ∷ ys) = if text_leb x y then x ∷ y ∷ ys else y ∷ insert_sorted x ys

sort : List String → List String
unfolding insert_sorted
sort [] = []
sort (x ∷ xs) = insert_sorted x (sort xs)

join : List String → String
join [] = ""
join (x ∷ []) = x
join (x ∷ y ∷ ys) = x +++ "," +++ join (y ∷ ys)

-- What tells rules that cover the same calls in the same window.
unfoldable pub signature : Limit → String
unfolding sort join
signature l = l.per +++ "|" +++ join (sort l.methods)

pub record Applied : Type 0 where
  pub limit : Limit
  pub replaced_by : String

-- The maps `own` and `mine`, from signatures to rule ids, newest first.
pub record Shadows : Type 0 where
  pub own : List (String × String)
  pub mine : List (String × String)

abbrev is_nil : Option String → Bool
is_nil none = true
is_nil (some s) = false

-- The rule of the session itself.
pub is_own : String → Limit → Bool
is_own session_id l = (l.level is "session") && points_to l.session_id session_id

-- The rule of the caller's token.
pub is_mine : String → Limit → Bool
is_mine token_id l = (l.level is "token") && not (token_id is "") && points_to l.token_id token_id

-- The default of the session's kind.
pub is_default : String → Limit → Bool
is_default kind l = (l.level is "session") && is_nil l.session_id && points_to l.kind kind

note : String → String → Shadows → Limit → Shadows
note session_id token_id sh l =
    if not l.enabled
    then sh
    else if is_own session_id l
    then record sh { own = (signature l, l.id) ∷ sh.own }
    else if is_mine token_id l
    then record sh { mine = (signature l, l.id) ∷ sh.mine }
    else sh

-- The first loop of `Applicable`.
unfoldable pub collect : String → String → Shadows → List Limit → Shadows
unfolding note
collect session_id token_id sh [] = sh
collect session_id token_id sh (l ∷ ls) =
    collect session_id token_id (note session_id token_id sh l) ls

abbrev or_else : String → String → String
or_else s t = if s is "" then t else s

-- The second loop of `Applicable`.
unfoldable pub listed : String → String → String → Shadows → List Limit → List Applied
listed session_id kind token_id sh [] = []
listed session_id kind token_id sh (l ∷ ls) =
    let rest = listed session_id kind token_id sh ls in
    if not l.enabled
    then rest
    else if is_default kind l
    then record {
      limit = l;
      replaced_by = or_else (map_read sh.own (signature l)) (map_read sh.mine (signature l));
    }
      ∷ rest
    else if is_own session_id l
    then record { limit = l; replaced_by = map_read sh.mine (signature l) } ∷ rest
    else if is_mine token_id l
    then record { limit = l; replaced_by = "" } ∷ rest
    else rest

unfoldable pub applicable : List Limit → String → String → String → List Applied
unfolding collect listed
applicable rules session_id kind token_id =
    listed session_id kind token_id
      (collect session_id token_id (record { own = []; mine = [] }) rules) rules
