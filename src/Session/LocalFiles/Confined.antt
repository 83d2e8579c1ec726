-- ===== src/Session/LocalFiles/Confined.antt =====
-- A call reads nothing outside the uploads volume.
use tg_control_api_server.Prelude.{
  ◌≡◌, refl, sym, String, Bool, true, false, none, some, List, [], ◌∷◌, ◌++◌, ◌is◌, arith, subst,
  if◌then◌else◌, contains, any-append, is_refl, is_iff, Option-cases, Bool-cases, inl, inr,
}
use tg_control_api_server.Tdjson.{Text, codes}
use tg_control_api_server.Upload.Inside.{within, dir, text_same}
use tg_control_api_server.Session.Json.{
  Value, string, array, object, Items, cons, Fields, end, field, document, has_key, lookup,
}
use tg_control_api_server.Session.LocalFiles.{
  own_path, paths_in, paths_in_items, paths_in_fields, collect_local_file_paths, has_text,
  guard_loop, guard_local_paths, with_dir,
}

pub data IsItem (v : Value) : Items → Type 0 where
  first : {xs : Items} → IsItem v (cons v xs)
  after : {x : Value} {xs : Items} → IsItem v xs → IsItem v (cons x xs)

-- Somewhere in the document an inputFileLocal names the path.
pub data Reads (p : String) : Value → Type 0 where
  here :
      {fs : Fields}
      → lookup fs "@type" ≡ some (string "inputFileLocal")
      → lookup fs "path" ≡ some (string p)
      → Reads p (object fs)
  in_field :
      {fs : Fields} (k : String) {v : Value}
      → lookup fs k ≡ some v
      → Reads p v
      → Reads p (object fs)
  in_item : {xs : Items} {v : Value} → IsItem v xs → Reads p v → Reads p (array xs)

no_later : (fs : Fields) (k : String) → lookup fs k ≡ none → has_key fs k ≡ false
unfolding lookup has_key
no_later end k h = refl
no_later (field j v fs) k h = elim (Option-cases (lookup fs k)) [
  | inl e ↦ ground (arith, no_later fs k e, h, e)
  | inr r ↦ absurd (ground (arith, h, r.1))
]

contains_right :
    (p : String) (xs ys : List String) → contains ys p ≡ true → contains (xs ++ ys) p ≡ true
contains_right p xs ys h = ground (arith, any-append (λ x. x is p) xs ys)

contains_left :
    (p : String) (xs ys : List String) → contains xs p ≡ true → contains (xs ++ ys) p ≡ true
contains_left p xs ys h = ground (arith, any-append (λ x. x is p) xs ys)

kept :
    (p : String) (w : Value) (fs : Fields) (b : Bool)
    → contains (paths_in_fields fs) p ≡ true
    → contains (if b then paths_in_fields fs else paths_in w ++ paths_in_fields fs) p ≡ true
kept p w fs true h = h
kept p w fs false h = contains_right p (paths_in w) (paths_in_fields fs) h

alone :
    (p : String) (w v : Value) (fs : Fields) (b : Bool)
    → b ≡ false
    → w ≡ v
    → contains (paths_in v) p ≡ true
    → contains (if b then paths_in_fields fs else paths_in w ++ paths_in_fields fs) p ≡ true
alone p w v fs b n e h = rw n (contains_left p (paths_in w) (paths_in_fields fs) (rw e h))

contains-field :
    (p : String) (fs : Fields) (k : String) (v : Value)
    → lookup fs k ≡ some v
    → contains (paths_in v) p ≡ true
    → contains (paths_in_fields fs) p ≡ true
unfolding lookup paths_in
contains-field p end k v l h = absurd (cc)
contains-field p (field j w fs) k v l h = elim (Option-cases (lookup fs k)) [
  | inr r ↦ kept p w fs (has_key fs j) (contains-field p fs k v (ground (arith, l, r.1)) h)
  | inl e ↦ elim (Bool-cases (j is k)) [
    | inl s ↦
        alone p w v fs (has_key fs j)
          (subst (λ i. has_key fs i ≡ false) (sym ((is_iff j k).0 s)) (no_later fs k e))
          (ground (arith, l, e, s)) h
    | inr n ↦ absurd (ground (arith, l, e, n))
  ]
]

with_dir_has :
    (dirs : List Text) (d e : Text) → has_text dirs e ≡ true → has_text (with_dir dirs d) e ≡ true
with_dir_has dirs d e h = ground (arith, any-append (λ s. text_same s e) dirs (d ∷ []))

text_same_refl : (t : Text) → text_same t t ≡ true
text_same_refl [] = refl
text_same_refl (c ∷ t) = ground (arith, text_same_refl t)

with_dir_new : (dirs : List Text) (d : Text) → has_text (with_dir dirs d) d ≡ true
with_dir_new dirs d =
    ground (arith, any-append (λ s. text_same s d) dirs (d ∷ []), text_same_refl d)

guard_loop_keeps :
    (root : Text) (dirs : List Text) (ps : List String) {out : List Text} (d : Text)
    → guard_loop root dirs ps ≡ some out
    → has_text dirs d ≡ true
    → has_text out d ≡ true
unfolding guard_loop
guard_loop_keeps root dirs [] d g h = ground arith
guard_loop_keeps root dirs (p ∷ ps) {out = out} d g h =
    guard_loop_keeps root (with_dir dirs (dir (codes p))) ps d (ground arith)
      (with_dir_has dirs (dir (codes p)) d h)

guard_loop_lem :
    (root : Text) (dirs : List Text) (ps : List String) {out : List Text} (p : String)
    → guard_loop root dirs ps ≡ some out
    → contains ps p ≡ true
    → (within (codes p) root ≡ true) × (has_text out (dir (codes p)) ≡ true)
unfolding guard_loop
guard_loop_lem root dirs [] p g h = absurd (cc)
guard_loop_lem root dirs (q ∷ ps) {out = out} p g h = elim (Bool-cases (q is p)) [
  | inl e ↦
      subst (λ q. (within (codes q) root ≡ true) × (has_text out (dir (codes q)) ≡ true))
        ((is_iff q p).0 e)
        (
          ground arith,
          guard_loop_keeps root (with_dir dirs (dir (codes q))) ps (dir (codes q)) (ground arith)
              (with_dir_new dirs (dir (codes q))),
        )
  | inr e ↦ guard_loop_lem root (with_dir dirs (dir (codes q))) ps p (ground arith) (ground arith)
]

items_contain :
    (p : String) {v : Value} {xs : Items}
    → IsItem v xs
    → contains (paths_in v) p ≡ true
    → contains (paths_in_items xs) p ≡ true
unfolding paths_in
items_contain p {v = v} (first {xs = xs}) h = contains_left p (paths_in v) (paths_in_items xs) h
items_contain p (after {x = x} {xs = xs} i) h =
    contains_right p (paths_in x) (paths_in_items xs) (items_contain p i h)

Reads-contains : {p : String} {v : Value} → Reads p v → contains (paths_in v) p ≡ true
unfolding paths_in
Reads-contains {p = p} (here {fs = fs} t q) = ground (arith, is_refl p)
Reads-contains {p = p} (in_field {fs = fs} k {v = v} l r) =
    contains_right p (own_path fs) (paths_in_fields fs)
      (contains-field p fs k v l (Reads-contains r))
Reads-contains {p = p} (in_item {xs = xs} i r) = items_contain p i (Reads-contains r)

-- Whatever local file a call names, at any depth of its parameters, the call is refused unless the
-- path resolves inside the uploads volume; the path's directory is among those kept for the cleanup.
pub guard_local_paths-Reads :
    (root : Text) (v : Value) {dirs : List Text} {p : String}
    → guard_local_paths root (document v) ≡ some dirs
    → Reads p v
    → (within (codes p) root ≡ true) × (has_text dirs (dir (codes p)) ≡ true)
unfolding guard_local_paths collect_local_file_paths
guard_local_paths-Reads root v {p = p} g r =
    guard_loop_lem root [] (paths_in v) p g (Reads-contains r)
