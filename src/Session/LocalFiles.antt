-- ===== src/Session/LocalFiles.antt =====
-- The local files a call reads (internal/session/uploads.go, `guardLocalPaths`). Go walks an object in
-- no fixed order; the order of the document stands for it.
pub mod Confined
use tg_control_api_server.Prelude.{
  String, Bool, true, false, ◌||◌, Option, none, some, List, [], ◌∷◌, ◌++◌, ◌is◌, if◌then◌else◌,
  any,
}
use tg_control_api_server.Tdjson.{Text, codes}
use tg_control_api_server.Upload.Inside.{within, dir, text_same}
use tg_control_api_server.Session.Json.{
  Value, null, boolean, number, decimal, string, array, object, Items, nil, cons, Fields, end,
  field, Raw, empty, malformed, document, has_key, lookup,
}

abbrev is_local_file : Option Value → Bool
is_local_file (some (string s)) = s is "inputFileLocal"
is_local_file _ = false

abbrev text_value : Option Value → List String
text_value (some (string s)) = s ∷ []
text_value _ = []

abbrev pub own_path : Fields → List String
own_path fs = if is_local_file (lookup fs "@type") then text_value (lookup fs "path") else []

-- `collectLocalFilePaths`, from its walk on.
unfoldable mutual
  pub paths_in : Value → List String
  paths_in null = []
  paths_in (boolean b) = []
  paths_in (number n) = []
  paths_in (decimal d) = []
  paths_in (string s) = []
  paths_in (array xs) = paths_in_items xs
  paths_in (object fs) = own_path fs ++ paths_in_fields fs

  pub paths_in_items : Items → List String
  paths_in_items nil = []
  paths_in_items (cons x xs) = paths_in x ++ paths_in_items xs

  pub paths_in_fields : Fields → List String
  paths_in_fields end = []
  paths_in_fields (field k v fs) =
      let below = paths_in v in
      let rest = paths_in_fields fs in if has_key fs k then rest else below ++ rest

unfoldable pub collect_local_file_paths : Raw → List String
unfolding paths_in
collect_local_file_paths empty = []
collect_local_file_paths malformed = []
collect_local_file_paths (document v) = paths_in v

abbrev pub has_text : List Text → Text → Bool
has_text ts t = any (λ s. text_same s t) ts

abbrev pub with_dir : List Text → Text → List Text
with_dir dirs d = if has_text dirs d then dirs else dirs ++ (d ∷ [])

-- The distinct directories; `none` is `ErrLocalPathDenied`.
pub guard_loop : Text → List Text → List String → Option (List Text)
guard_loop root dirs [] = some dirs
guard_loop root dirs (p ∷ ps) =
    let rest = guard_loop root (with_dir dirs (dir (codes p))) ps in
    if within (codes p) root then rest else none

unfoldable pub guard_local_paths : Text → Raw → Option (List Text)
unfolding guard_loop
guard_local_paths root params = guard_loop root [] (collect_local_file_paths params)
