-- ===== src/Store/Subscriptions/Owned.antt =====
-- A token handles its own subscriptions alone.
use tg_control_api_server.Prelude.{
  ◌≡◌, refl, String, Bool, true, false, not, ◌&&◌, List, [], ◌∷◌, ◌is◌, leb, select, All,
  All-select, All-map, by_test, Bool-cases, inl, inr, arith,
}
use tg_control_api_server.Store.Deliveries.{Delivery}
use tg_control_api_server.Store.Subscriptions.{
  SubRow, Queue, Subscription, sees, shown, deletes, counted_all, insert_row, by_creation,
  list_subscriptions, delete_subscription,
}

module _ (P : SubRow → Type 0) where
  All-insert_row : (s : SubRow) (ss : List SubRow) → P s → All P ss → All P (insert_row s ss)
  unfolding insert_row
  All-insert_row s [] p a = (p, tt)
  All-insert_row s (t ∷ ts) p a =
      by_test (All P) (leb s.created_at t.created_at) _ _ (λ h. (p, a))
        (λ h. (a.0, All-insert_row s ts p a.1))

  All-by_creation : (ss : List SubRow) → All P ss → All P (by_creation ss)
  unfolding by_creation
  All-by_creation [] a = tt
  All-by_creation (s ∷ ss) a = All-insert_row s (by_creation ss) a.0 (All-by_creation ss a.1)

  All-counted :
      (ds : List Delivery) (ss : List SubRow)
      → All P ss
      → All (λ (x : Subscription). P x.row) (counted_all ds ss)
  All-counted ds [] a = tt
  All-counted ds (s ∷ ss) a = (a.0, All-counted ds ss a.1)

shown-sees :
    (session_id token_id sub_id : String) (s : SubRow)
    → shown session_id token_id sub_id s ≡ true
    → (s.session_id is session_id) && sees token_id s ≡ true
shown-sees session_id token_id sub_id s h = ground (arith, h)

kept_unseen :
    (session_id token_id sub_id : String) (s : SubRow)
    → sees token_id s ≡ false
    → deletes session_id token_id sub_id s ≡ false
kept_unseen session_id token_id sub_id s h = ground (arith, h)

-- Selecting what one test rejects commutes with dropping what implies that test.
select_rejects :
    (p q : SubRow → Bool) (xs : List SubRow)
    → ((s : SubRow) → p s ≡ false → q s ≡ false)
    → select (λ s. not (p s)) (select (λ s. not (q s)) xs) ≡ select (λ s. not (p s)) xs
select_rejects p q [] f = refl
select_rejects p q (x ∷ xs) f = elim (Bool-cases (p x)) [
  | inl e ↦ ground (arith, select_rejects p q xs f)
  | inr e ↦ ground (arith, f x e, select_rejects p q xs f)
]

-- Through its own name a token is shown only the session's subscriptions that it sees, and whatever
-- it removes, the subscriptions that it does not see, those of other tokens and of the master, are
-- left as they were. The master token, the empty name, sees them all.
pub subscriptions_owned :
    (q : Queue) (session_id token_id sub_id : String)
    → All
        (λ (x : Subscription). ((x.row.session_id is session_id) && sees token_id x.row) ≡ true)
        (list_subscriptions q session_id token_id sub_id)
      × (select
            (λ s. not (sees token_id s))
            (delete_subscription q session_id token_id sub_id).0.subs
          ≡ select (λ s. not (sees token_id s)) q.subs)
unfolding list_subscriptions delete_subscription
subscriptions_owned q session_id token_id sub_id = (
  All-counted _ q.deliveries (by_creation (select (shown session_id token_id sub_id) q.subs)) (
      All-by_creation _ (select (shown session_id token_id sub_id) q.subs) (
        All-map (λ s. shown session_id token_id sub_id s ≡ true) _
          (select (shown session_id token_id sub_id) q.subs) (shown-sees session_id token_id sub_id)
          (All-select (shown session_id token_id sub_id) q.subs))),
  select_rejects (sees token_id) (deletes session_id token_id sub_id) q.subs
      (kept_unseen session_id token_id sub_id),
)
