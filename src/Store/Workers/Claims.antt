-- ===== src/Store/Workers/Claims.antt =====
-- What a claim takes.
use tg_control_api_server.Prelude.{
  ℕ, zero, suc, ap, sym, ◌∙◌, ◌≤◌, ◌≡◌, ◌⊎◌, inl, inr, refl, String, Bool, true, false, not, ◌&&◌,
  Option, some, List, [], ◌∷◌, select, contains, length, map, All, All-map, Pairs, arith,
  Bool-cases,
}
use tg_control_api_server.Store.Limits.{Time}
use tg_control_api_server.Store.Workers.{
  SessionRow, Sessions, Workers, owned_by, set_owner_where, is_orphan, by_age, at_most, ids_of,
  claimed, claim_orphans,
}
use tg_control_api_server.Store.Workers.Rows.{
  has_id-at_most, has_id-by_age, Distinct, FoundOnly, selected_only, ids_of-owned, length-ids_of,
  rows_named, few_named,
}

-- A row that a claim leaves, or takes.
abbrev pub Claimed :
    (SessionRow → Bool) → List String → String → Time → SessionRow → SessionRow → Type 0
Claimed q ids w now r r' =
    ((contains ids r.session_id ≡ false) × (r' ≡ r))
    ⊎ ((contains ids r.session_id ≡ true) × (q r ≡ true) × (r' ≡ owned_by (some w) now r))

Pairs-set_owner_where :
    (p q : SessionRow → Bool) (w : Option String) (now : Time) (ss : Sessions)
    → All (λ r. p r ≡ true → q r ≡ true) ss
    → Pairs
        (λ r r'.
          ((p r ≡ false) × (r' ≡ r)) ⊎ ((p r ≡ true) × (q r ≡ true) × (r' ≡ owned_by w now r)))
        ss
        (set_owner_where p w now ss)
Pairs-set_owner_where p q w now [] a = tt
Pairs-set_owner_where p q w now (r ∷ rs) a = elim (Bool-cases (p r)) [
  | inl e ↦ rw e (inr (refl, a.0 e, refl), Pairs-set_owner_where p q w now rs a.1)
  | inr e ↦ rw e (inl (refl, refl), Pairs-set_owner_where p q w now rs a.1)
]

abbrev pub may_claim : Workers → Time → List String → SessionRow → Bool
may_claim ws cutoff locked r = is_orphan ws cutoff r && not (contains locked r.session_id)

claimed_only :
    (ws : Workers) (ss : Sessions) (locked : List String) (cutoff : Time) (n : ℕ) (s : SessionRow)
    → FoundOnly (may_claim ws cutoff locked) ss s
    → contains (ids_of (claimed ws ss locked cutoff n)) s.session_id ≡ true
    → may_claim ws cutoff locked s ≡ true
unfolding claimed
claimed_only ws ss locked cutoff n s f h = f (
    sym (has_id-by_age (select (may_claim ws cutoff locked) ss) s.session_id)
    ∙ has_id-at_most (by_age (select (may_claim ws cutoff locked) ss)) n s.session_id h)

length-at_most : (xs : Sessions) (n : ℕ) → length (at_most n xs) ≤ n
length-at_most xs zero = ground arith
length-at_most [] (suc n) = ground arith
length-at_most (x ∷ xs) (suc n) = ground (arith, length-at_most xs n)

length-owned :
    (xs : Sessions) (w : Option String) (now : Time) → length (map (owned_by w now) xs) ≡ length xs
length-owned [] w now = refl
length-owned (x ∷ xs) w now = ap suc (length-owned xs w now)

-- Of the sessions, whose ids are distinct, a claim changes exactly those that it returns: each of
-- them was authorized, could be opened, had no owner alive and was not locked by a concurrent claim,
-- and is given to the claiming worker. No more of them are returned than it was allowed, and no more
-- rows of the table are changed.
pub claim_orphans_lem :
    (ws : Workers) (ss : Sessions) (locked : List String) (w : String) (cutoff : Time) (limit : ℕ)
    (now : Time)
    → Distinct ss
    → let out = claim_orphans ws ss locked w cutoff limit now in
      Pairs (Claimed (may_claim ws cutoff locked) (ids_of out.1) w now) ss out.0
      × (length out.1 ≤ limit)
      × (length (select (λ (r : SessionRow). contains (ids_of out.1) r.session_id) ss) ≤ limit)
unfolding claim_orphans claimed rows_named
claim_orphans_lem ws ss locked w cutoff limit now d =
    rw (ids_of-owned (claimed ws ss locked cutoff limit) (some w) now) (
      Pairs-set_owner_where _ (may_claim ws cutoff locked) (some w) now ss (
          All-map _ _ ss (λ s. claimed_only ws ss locked cutoff limit s)
            (selected_only (may_claim ws cutoff locked) ss d)),
      ground (
        arith,
        length-owned (claimed ws ss locked cutoff limit) (some w) now,
        length-at_most (by_age (select (may_claim ws cutoff locked) ss)) limit,
      ),
      omega (
        arith,
        few_named (ids_of (claimed ws ss locked cutoff limit)) ss d,
        length-ids_of (claimed ws ss locked cutoff limit),
        length-at_most (by_age (select (may_claim ws cutoff locked) ss)) limit,
      ),
    )
