-- ===== src/Store/Workers/Rows.antt =====
-- The ids of sessions, which are their table's key.
use tg_control_api_server.Prelude.{
  ℕ, zero, suc, ◌+◌, ap, sym, ◌≤◌, ◌≡◌, inl, inr, refl, subst, String, Bool, true, false, ◌||◌,
  Option, List, [], ◌∷◌, ◌is◌, is_iff, select, contains, length, map, All, All-zip, arith,
  Bool-cases,
}
use tg_control_api_server.Store.Limits.{Time}
use tg_control_api_server.Store.Workers.{
  SessionRow, Sessions, owned_by, insert_by_age, by_age, at_most, ids_of,
}

pub has_id-at_most :
    (xs : Sessions) (n : ℕ) (x : String)
    → contains (ids_of (at_most n xs)) x ≡ true
    → contains (ids_of xs) x ≡ true
has_id-at_most xs zero x h = absurd (cc)
has_id-at_most [] (suc n) x h = h
has_id-at_most (r ∷ rs) (suc n) x h = ground (arith, has_id-at_most rs n x)

has_id-insert :
    (xs : Sessions) (r : SessionRow) (x : String)
    → contains (ids_of (insert_by_age r xs)) x ≡ ((r.session_id is x) || contains (ids_of xs) x)
has_id-insert [] r x = refl
has_id-insert (s ∷ ss) r x = ground (arith, has_id-insert ss r x)

pub has_id-by_age :
    (xs : Sessions) (x : String) → contains (ids_of (by_age xs)) x ≡ contains (ids_of xs) x
has_id-by_age [] x = refl
has_id-by_age (r ∷ rs) x = ground (arith, has_id-by_age rs x, has_id-insert (by_age rs) r x)

has_id-select :
    (xs : Sessions) (p : SessionRow → Bool) (x : String)
    → contains (ids_of (select p xs)) x ≡ true
    → contains (ids_of xs) x ≡ true
has_id-select [] p x h = h
has_id-select (r ∷ rs) p x h = ground (arith, has_id-select rs p x)

-- The primary key: no two rows of one id.
abbrev pub Distinct : Sessions → Type 0
Distinct [] = Unit
Distinct (r ∷ rs) = (contains (ids_of rs) r.session_id ≡ false) × Distinct rs

other_ids :
    (xs : Sessions) (x : String)
    → contains (ids_of xs) x ≡ false
    → All (λ (s : SessionRow). (x is s.session_id) ≡ false) xs
other_ids [] x h = tt
other_ids (s ∷ ss) x h =
    ground (arith, other_ids ss x, is_iff s.session_id x, is_iff x s.session_id)

abbrev pub FoundOnly : (SessionRow → Bool) → Sessions → SessionRow → Type 0
FoundOnly p xs s = contains (ids_of (select p xs)) s.session_id ≡ true → p s ≡ true

found_later :
    (p : SessionRow → Bool) (r : SessionRow) (rs : Sessions) (s : SessionRow)
    → (r.session_id is s.session_id) ≡ false
    → FoundOnly p rs s
    → FoundOnly p (r ∷ rs) s
found_later p r rs s n f h = ground (arith, f)

pub selected_only : (p : SessionRow → Bool) (xs : Sessions) → Distinct xs → All (FoundOnly p xs) xs
selected_only p [] d = tt
selected_only p (r ∷ rs) d = (
  λ h. ground (arith, has_id-select rs p r.session_id),
  All-zip _ _ _ rs (λ s. found_later p r rs s) (other_ids rs r.session_id d.0)
      (selected_only p rs d.1),
)

pub ids_of-owned :
    (xs : Sessions) (w : Option String) (now : Time) → ids_of (map (owned_by w now) xs) ≡ ids_of xs
ids_of-owned [] w now = refl
ids_of-owned (x ∷ xs) w now = ap (λ ids. x.session_id ∷ ids) (ids_of-owned xs w now)

pub length-ids_of : (xs : Sessions) → length (ids_of xs) ≡ length xs
length-ids_of [] = refl
length-ids_of (x ∷ xs) = ap suc (length-ids_of xs)

unfoldable pub rows_named : List String → Sessions → ℕ
rows_named ids ss = length (select (λ (r : SessionRow). contains ids r.session_id) ss)

none_named :
    (x : String) (ss : Sessions)
    → contains (ids_of ss) x ≡ false
    → length (select (λ (r : SessionRow). x is r.session_id) ss) ≡ 0
none_named x [] h = refl
none_named x (r ∷ rs) h =
    ground (arith, none_named x rs, is_iff r.session_id x, is_iff x r.session_id)

one_named :
    (x : String) (ss : Sessions)
    → Distinct ss
    → length (select (λ (r : SessionRow). x is r.session_id) ss) ≤ 1
one_named x [] d = omega arith
one_named x (r ∷ rs) d = elim (Bool-cases (x is r.session_id)) [
  | inl e ↦ ground (
    arith,
    e,
    none_named x rs
        (subst (λ k. contains (ids_of rs) k ≡ false) (sym ((is_iff x r.session_id).0 e)) d.0),
  )
  | inr e ↦ ground (arith, e, one_named x rs d.1)
]

either_named :
    (x : String) (ids : List String) (ss : Sessions)
    → rows_named (x ∷ ids) ss
      ≤ length (select (λ (r : SessionRow). x is r.session_id) ss) + rows_named ids ss
unfolding rows_named
either_named x ids [] = omega arith
either_named x ids (r ∷ rs) = ground (arith, either_named x ids rs)

pub few_named : (ids : List String) (ss : Sessions) → Distinct ss → rows_named ids ss ≤ length ids
unfolding rows_named
few_named [] ss d = none_of ss
  where
    none_of : (ss : Sessions) → rows_named [] ss ≤ 0
    none_of [] = omega arith
    none_of (r ∷ rs) = none_of rs
few_named (x ∷ ids) ss d =
    omega (arith, either_named x ids ss, one_named x ss d, few_named ids ss d)
