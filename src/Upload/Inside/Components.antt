-- ===== src/Upload/Inside/Components.antt =====
-- What the components of a path look like.
use tg_control_api_server.Prelude.{
  ◌≡◌, ◌≢◌, refl, ℕ, Bool, true, false, List, [], ◌∷◌, ◌==◌, arith, any, All, Bool-cases, inl, inr,
  if◌then◌else◌,
}
use tg_control_api_server.Tdjson.{Text}
use tg_control_api_server.Upload.Inside.{
  text_same, split_slash, dotdot, is_rooted, resolve, turn, step_back, onto_first, dot, parts,
  enter,
}

-- A component: some characters, none of them a slash.
abbrev pub NoSlash : Text → Type 0
NoSlash t = any (λ c. c == b'/') t ≡ false

abbrev pub IsName : Text → Type 0
IsName t = (t ≢ []) × NoSlash t × (t ≢ dotdot)

text_same_iff : (s t : Text) → text_same s t ≡ true → s ≡ t
text_same_iff [] [] h = refl
text_same_iff (c ∷ s) (d ∷ t) h = ground (arith, text_same_iff s t)
text_same_iff [] (d ∷ t) h = absurd (cc)
text_same_iff (c ∷ s) [] h = absurd (cc)

text_same_refl : (t : Text) → text_same t t ≡ true
text_same_refl [] = refl
text_same_refl (c ∷ t) = ground (arith, text_same_refl t)

first-NoSlash :
    (c : ℕ) (ss : List Text)
    → All NoSlash ss
    → All NoSlash (if c == b'/' then [] ∷ ss else onto_first c ss)
first-NoSlash c [] a = ground arith
first-NoSlash c (s ∷ ss) a = ground arith

split_slash-NoSlash : (s : Text) → All NoSlash (split_slash s)
unfolding split_slash
split_slash-NoSlash [] = (refl, tt)
split_slash-NoSlash (c ∷ s) = first-NoSlash c (split_slash s) (split_slash-NoSlash s)

-- A component may be `..` only at the head of a relative path.
abbrev pub IsPart : Text → Type 0
IsPart t = (t ≢ []) × NoSlash t

abbrev pub Held : Bool → Text → Type 0
Held true t = IsName t
Held false t = IsPart t

not_same : (s t : Text) → text_same s t ≡ false → s ≢ t
not_same s t h e = ground (arith, text_same_refl s)

step_back-Held : (b : Bool) (ds : List Text) → All (Held b) ds → All (Held b) (step_back b ds)
step_back-Held true [] a = tt
step_back-Held false [] a = (((λ e. cc), refl), tt)
step_back-Held true (d ∷ ds) a = elim (Bool-cases (text_same d dotdot)) [
  | inl e ↦ absurd (a.0.2 (text_same_iff d dotdot e))
  | inr e ↦ rw e a.1
]
step_back-Held false (d ∷ ds) a = elim (Bool-cases (text_same d dotdot)) [
  | inl e ↦ rw e (((λ e. cc), refl), a)
  | inr e ↦ rw e a.1
]

held : (b : Bool) (s : Text) → s ≢ [] → NoSlash s → s ≢ dotdot → Held b s
held true s e n d = (e, n, d)
held false s e n d = (e, n)

enter-Held :
    (b : Bool) (ds : List Text) (s : Text)
    → NoSlash s
    → All (Held b) ds
    → All (Held b) (enter b ds s)
enter-Held b ds s n a = elim (Bool-cases (text_same s [])) [
  | inl e ↦ rw e a
  | inr e ↦ elim (Bool-cases (text_same s dot)) [
    | inl f ↦ rw e (rw f a)
    | inr f ↦ elim (Bool-cases (text_same s dotdot)) [
      | inl g ↦ rw e (rw f (rw g (step_back-Held b ds a)))
      | inr g ↦ rw e (rw f (rw g (held b s (not_same s [] e) n (not_same s dotdot g), a)))
    ]
  ]
]

resolve-Held :
    (b : Bool) (ds ss : List Text)
    → All NoSlash ss
    → All (Held b) ds
    → All (Held b) (resolve b ds ss)
unfolding resolve
resolve-Held b ds [] n a = a
resolve-Held b ds (s ∷ ss) n a = resolve-Held b (enter b ds s) ss n.1 (enter-Held b ds s n.0 a)

turn-All : (P : Text → Type 0) (ds done : List Text) → All P ds → All P done → All P (turn ds done)
unfolding turn
turn-All P [] done a b = b
turn-All P (d ∷ ds) done a b = turn-All P ds (d ∷ done) a.1 (a.0, b)

pub parts-Held : (p : Text) → All (Held (is_rooted p)) (parts p)
unfolding parts
parts-Held p =
    turn-All (Held (is_rooted p)) (resolve (is_rooted p) [] (split_slash p)) []
      (resolve-Held (is_rooted p) [] (split_slash p) (split_slash-NoSlash p) tt) tt
