-- ===== src/Session/Reconcile/Fencing.antt =====
-- What fencing keeps.
use tg_control_api_server.Prelude.{
  ◌≡◌, refl, sym, ◌∙◌, subst, String, Bool, true, false, not, ◌&&◌, ◌||◌, ap, Option, none, some,
  List, [], ◌∷◌, ◌is◌, is_iff, if◌then◌else◌, contains, Map, text_eq, get, get-remove, arith,
  Bool-cases, inl, inr, ℕ,
}
use tg_control_api_server.Store.Limits.{Time}
use tg_control_api_server.Store.Workers.{Sessions}
use tg_control_api_server.Session.Live.{Live}
use tg_control_api_server.Session.Reconcile.{Manager, is_ready, ready_of, fence_one, fence}

abbrev pub is_usable : Option Live → Bool
is_usable o = is_ready (ready_of o)

fenced : Bool → Option Live → Option Live
fenced b o = if b && not (is_usable o) then none else o

get-fence_one :
    (ok : String → Bool) (m : Manager) (rows : Sessions) (id k : String) (now : Time) (o : Option ℕ)
    → get (fence_one ok m rows id now o).0.live k
      ≡ (if (id is k) && not (is_ready o) then none else get m.live k)
get-fence_one ok m rows id k now none = ground (arith, get-remove m.live id k)
get-fence_one ok m rows id k now (some cl) = ground arith

again : (a b : Bool) (o : Option Live) → fenced a (fenced b o) ≡ fenced (b || a) o
unfolding fenced
again a true o = elim (Bool-cases (is_usable o)) [
  | inl e ↦ ground (arith, e)
  | inr e ↦ ground (arith, e)
]
again a false o = refl

same_key :
    (id k : String) (m : Map String Live)
    → (if (id is k) && not (is_usable (get m id)) then none else get m k)
      ≡ fenced (id is k) (get m k)
unfolding fenced
same_key id k m = elim (Bool-cases (id is k)) [
  | inl e ↦
      subst
        (λ j.
          (if (id is k) && not (is_usable (get m j)) then none else get m k)
          ≡ (if (id is k) && not (is_usable (get m k)) then none else get m k))
        (sym ((is_iff id k).0 e)) refl
  | inr e ↦ ground (arith, e)
]

-- After fencing, of the sessions that the registry gives to a live peer this worker holds those with
-- a usable client, and no other; every session that is not given away is held as before.
get-fence :
    (ok : String → Bool) (m : Manager) (rows : Sessions) (ids : List String) (now : Time)
    (k : String)
    → get (fence ok m rows ids now).0.live k
      ≡ (if contains ids k && not (is_usable (get m.live k)) then none else get m.live k)
unfolding fence fenced
get-fence ok m rows [] now k = refl
get-fence ok m rows (id ∷ ids) now k =
    let r = fence_one ok m rows id now (ready_of (get m.live id)) in
    get-fence ok r.0 r.1 ids now k
    ∙ ap (fenced (contains ids k))
        (get-fence_one ok m rows id k now (ready_of (get m.live id)) ∙ same_key id k m.live)
    ∙ again (contains ids k) (id is k) (get m.live k)
