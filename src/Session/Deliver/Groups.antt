-- ===== src/Session/Deliver/Groups.antt =====
-- Splitting a claimed batch per subscription.
use mathlib.Core.List.{append_assoc, append-nil}
use tg_control_api_server.Prelude.{
  ◌≡◌, refl, sym, ◌∙◌, ap, String, Bool, true, false, not, ◌&&◌, ◌||◌, Option, none, some, List, [],
  ◌∷◌, ◌++◌, select, any, any-append, contains, ◌is◌, is_iff, if◌then◌else◌, arith, get, get-put,
  text_eq, Option-cases, Bool-cases, inl, inr,
}
use tg_control_api_server.Store.Deliveries.{Delivery}
use tg_control_api_server.Session.Deliver.{
  Groups, rows_of, add_row, add_name, group_loop, group_by_subscription,
}

abbrev is_for : String → Delivery → Bool
is_for s d = d.subscription_id is s

rows_of-add_row :
    (s : String) (g : Groups) (d : Delivery)
    → rows_of (get (add_row g d) s) ≡ rows_of (get g s) ++ (if is_for s d then d ∷ [] else [])
rows_of-add_row s g d = elim (Bool-cases (is_for s d)) [
  | inl e ↦
      rw (get-put g d.subscription_id s (rows_of (get g d.subscription_id) ++ (d ∷ [])), e)
        (ap (λ k. rows_of (get g k) ++ (d ∷ [])) ((is_iff d.subscription_id s).0 e))
  | inr e ↦
      rw (get-put g d.subscription_id s (rows_of (get g d.subscription_id) ++ (d ∷ [])), e)
        (sym (append-nil _))
]

group_loop-rows :
    (s : String) (ds : List Delivery) (g : Groups) (order : List String)
    → rows_of (get (group_loop g order ds).0 s) ≡ rows_of (get g s) ++ select (is_for s) ds
unfolding group_loop
group_loop-rows s [] g order = sym (append-nil _)
group_loop-rows s (d ∷ ds) g order =
    group_loop-rows s ds (add_row g d) (add_name g order d)
    ∙ ap (λ r. r ++ select (is_for s) ds) (rows_of-add_row s g d)
    ∙ append_assoc (rows_of (get g s)) _ (select (is_for s) ds)
    ∙ ap (λ r. rows_of (get g s) ++ r) (ground arith)

-- No text stands twice.
abbrev distinct : List String → Bool
distinct [] = true
distinct (x ∷ xs) = not (contains xs x) && distinct xs

distinct-append :
    (xs : List String) (s : String)
    → distinct xs ≡ true
    → contains xs s ≡ false
    → distinct (xs ++ (s ∷ [])) ≡ true
distinct-append [] s h n = refl
distinct-append (x ∷ xs) s h n =
    ground
      (arith, distinct-append xs s, any-append (λ y. y is x) xs (s ∷ []), is_iff x s, is_iff s x)

abbrev present : Option (List Delivery) → Bool
present none = false
present (some ds) = true

Tracks : Groups → List String → Type 0
Tracks g order = (s : String) → contains order s ≡ present (get g s)

add-Tracks :
    (g : Groups) (order : List String) (d : Delivery)
    → Tracks g order
    → Tracks (add_row g d) (add_name g order d)
unfolding Tracks
add-Tracks g order d same s = elim (Option-cases (get g d.subscription_id)) [
  | inl e ↦ ground (
    arith,
    same s,
    any-append (λ y. y is s) order (d.subscription_id ∷ []),
    get-put g d.subscription_id s (d ∷ []),
  )
  | inr (ds, e) ↦
      ground
        (arith, same s, get-put g d.subscription_id s (ds ++ (d ∷ [])), is_iff d.subscription_id s)
]

add-contains :
    (g : Groups) (order : List String) (d : Delivery) (s : String)
    → Tracks g order
    → contains (add_name g order d) s ≡ (contains order s || is_for s d)
unfolding Tracks
add-contains g order d s same = elim (Option-cases (get g d.subscription_id)) [
  | inl e ↦ ground (arith, any-append (λ y. y is s) order (d.subscription_id ∷ []))
  | inr (ds, e) ↦ ground (arith, same s, is_iff d.subscription_id s)
]

add-distinct :
    (g : Groups) (order : List String) (d : Delivery)
    → Tracks g order
    → distinct order ≡ true
    → distinct (add_name g order d) ≡ true
unfolding Tracks
add-distinct g order d same h = elim (Option-cases (get g d.subscription_id)) [
  | inl e ↦ ground (arith, distinct-append order d.subscription_id h, same d.subscription_id)
  | inr (ds, e) ↦ ground arith
]

group_loop-order :
    (ds : List Delivery) (g : Groups) (order : List String)
    → Tracks g order
    → distinct order ≡ true
    → (distinct (group_loop g order ds).1 ≡ true)
      × ((s : String)
          → contains (group_loop g order ds).1 s ≡ (contains order s || any (is_for s) ds))
unfolding group_loop
group_loop-order [] g order same h = (h, λ s. ground arith)
group_loop-order (d ∷ ds) g order same h =
    let (once, all) =
      group_loop-order ds (add_row g d) (add_name g order d) (add-Tracks g order d same)
        (add-distinct g order d same h) in
    (once, λ s. ground (arith, all s, add-contains g order d s same))

-- A claimed batch is split so that each subscription gets exactly its own rows in the order of the
-- claim, and the subscriptions are listed once each, exactly those that have a row.
group_by_subscription_lem :
    (batch : List Delivery)
    → let r = group_by_subscription batch in
      ((s : String) → rows_of (get r.0 s) ≡ select (is_for s) batch)
      × (distinct r.1 ≡ true)
      × ((s : String) → contains r.1 s ≡ any (is_for s) batch)
unfolding group_by_subscription Tracks get
group_by_subscription_lem batch =
    let (once, all) = group_loop-order batch [] [] (λ s. refl) refl in
    ((λ s. group_loop-rows s batch [] []), once, all)
