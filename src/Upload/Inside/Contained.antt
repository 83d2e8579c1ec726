-- ===== src/Upload/Inside/Contained.antt =====
-- What lies inside the volume: a path whose components go on from the volume's, with no way back.
use tg_control_api_server.Prelude.{
  ◌≡◌, ◌≢◌, refl, ap, subst, Bool, true, false, List, [], ◌∷◌, ◌++◌, ◌==◌, arith, All,
}
use tg_control_api_server.Tdjson.{Text, after_prefix}
use tg_control_api_server.Upload.Inside.{is_rooted, parts, slashed, render, clean, within, is_there}
use tg_control_api_server.Upload.Inside.Components.{NoSlash, IsName, IsPart, Held, parts-Held}

abbrev at_slash : Text → Bool
at_slash [] = false
at_slash (c ∷ s) = c == b'/'

abbrev at_slash_or_end : Text → Bool
at_slash_or_end [] = true
at_slash_or_end (c ∷ s) = c == b'/'

same_head :
    (d e x y : Text)
    → NoSlash d
    → NoSlash e
    → at_slash x ≡ true
    → at_slash_or_end y ≡ true
    → is_there (after_prefix (d ++ x) (e ++ y)) ≡ true
    → (d ≡ e) × (is_there (after_prefix x y) ≡ true)
unfolding after_prefix
same_head [] [] x y nd ne hx hy h = (refl, h)
same_head [] (e ∷ es) [] y nd ne hx hy h = absurd (cc)
same_head [] (e ∷ es) (c ∷ x) y nd ne hx hy h = ground arith
same_head (d ∷ ds) [] x [] nd ne hx hy h = ground arith
same_head (d ∷ ds) [] x (c ∷ y) nd ne hx hy h = ground arith
same_head (d ∷ ds) (e ∷ es) x y nd ne hx hy h = ground (arith, same_head ds es x y)

append_assoc : (a b c : Text) → (a ++ b) ++ c ≡ a ++ (b ++ c)
append_assoc [] b c = refl
append_assoc (x ∷ a) b c = ap (λ t. x ∷ t) (append_assoc a b c)

slashed-at_slash : (ds : List Text) → at_slash (slashed ds ++ (b'/' ∷ [])) ≡ true
unfolding slashed
slashed-at_slash [] = refl
slashed-at_slash (d ∷ ds) = refl

slashed-at_slash_or_end : (ds : List Text) → at_slash_or_end (slashed ds) ≡ true
unfolding slashed
slashed-at_slash_or_end [] = refl
slashed-at_slash_or_end (d ∷ ds) = refl

-- A volume's components, then at least one more.
abbrev pub GoesOn : List Text → List Text → Type 0
GoesOn ds es = (rest : List Text) × (es ≡ ds ++ rest) × (rest ≢ [])

longer : {d e : Text} (ds es : List Text) → d ≡ e → GoesOn ds es → GoesOn (d ∷ ds) (e ∷ es)
longer ds es p (rest, q, n) = (rest, cc, n)

slashed-GoesOn :
    (ds es : List Text)
    → All IsName ds
    → All IsName es
    → is_there (after_prefix (slashed ds ++ (b'/' ∷ [])) (slashed es)) ≡ true
    → GoesOn ds es
unfolding slashed after_prefix
slashed-GoesOn [] [] a b h = absurd (cc)
slashed-GoesOn [] (e ∷ es) a b h = (e ∷ es, refl, (λ q. cc))
slashed-GoesOn (d ∷ ds) [] a b h = absurd (cc)
slashed-GoesOn (d ∷ ds) (e ∷ es) a b h =
    let r =
      same_head d e (slashed ds ++ (b'/' ∷ [])) (slashed es) a.0.1 b.0.1 (slashed-at_slash ds)
        (slashed-at_slash_or_end es)
        (subst (λ t. is_there (after_prefix t (e ++ slashed es)) ≡ true)
          (append_assoc d (slashed ds) (b'/' ∷ [])) h) in
    longer ds es r.0 (slashed-GoesOn ds es a.1 b.1 r.1)

rooted-GoesOn :
    (ds es : List Text)
    → All IsName ds
    → All IsName es
    → is_there (after_prefix (render true ds ++ (b'/' ∷ [])) (render true es)) ≡ true
    → GoesOn ds es
unfolding slashed after_prefix
rooted-GoesOn [] [] a b h = absurd (cc)
rooted-GoesOn [] (e ∷ es) a b h = (e ∷ es, refl, (λ q. cc))
rooted-GoesOn ([] ∷ ds) [] a b h = absurd (a.0.0 refl)
rooted-GoesOn ((c ∷ d) ∷ ds) [] a b h = absurd (cc)
rooted-GoesOn (d ∷ ds) (e ∷ es) a b h = slashed-GoesOn (d ∷ ds) (e ∷ es) a b h

not_relative :
    (ds es : List Text)
    → All IsPart es
    → is_there (after_prefix (render true ds ++ (b'/' ∷ [])) (render false es)) ≡ false
unfolding slashed after_prefix
not_relative [] [] a = refl
not_relative (d ∷ ds) [] a = refl
not_relative [] ([] ∷ es) a = absurd (a.0.0 refl)
not_relative (d ∷ ds) ([] ∷ es) a = absurd (a.0.0 refl)
not_relative [] ((c ∷ e) ∷ es) a = ground (arith, a.0.1)
not_relative (d ∷ ds) ((c ∷ e) ∷ es) a = ground (arith, a.0.1)

same_side :
    (b : Bool) (ds es : List Text)
    → All IsName ds
    → All (Held b) es
    → is_there (after_prefix (render true ds ++ (b'/' ∷ [])) (render b es)) ≡ true
    → (b ≡ true) × GoesOn ds es × All IsName es
same_side true ds es a b h = (refl, rooted-GoesOn ds es a b h, b)
same_side false ds es a b h = absurd (ground (arith, not_relative ds es b))

-- When the volume is an absolute path, a path within it is absolute, and its components are the
-- volume's followed by at least one more, each a name without a slash and none of them `..`: nothing
-- that the path says leads out of the volume again.
pub within-GoesOn :
    (p root : Text)
    → is_rooted root ≡ true
    → within p root ≡ true
    → (is_rooted p ≡ true) × GoesOn (parts root) (parts p) × All IsName (parts p)
unfolding within clean
within-GoesOn p root r h =
    same_side (is_rooted p) (parts root) (parts p)
      (subst (λ b. All (Held b) (parts root)) r (parts-Held root)) (parts-Held p)
      (subst
        (λ b.
          is_there
            (after_prefix (render b (parts root) ++ (b'/' ∷ [])) (render (is_rooted p) (parts p)))
          ≡ true)
        r (ground arith))
