-- ===== src/Store/Subscriptions/Served.antt =====
-- Which deliveries a worker is handed.
use tg_control_api_server.Prelude.{
  ℕ, zero, suc, ◌-◌, ◌≤◌, ◌≡◌, refl, subst, String, Bool, true, false, not, ◌&&◌, Option, none,
  some, List, [], ◌∷◌, ltb, leb, leb→le, ◌is◌, is_iff, points_to, contains, select, length, All,
  All-select, All-map, Bool-cases, inl, inr, by_test, arith,
}
use tg_control_api_server.Store.Limits.{Time}
use tg_control_api_server.Store.Deliveries.{Status, pending, delivered, failed, Delivery}
use tg_control_api_server.Store.Tokens.{Scopes}
use tg_control_api_server.Store.Workers.{SessionRow, Sessions, at_most}
use tg_control_api_server.Store.Subscriptions.{
  SubRow, Queue, find_sub, find_session, owner_covers, served_by, is_due, insert_due, by_due,
  precedes, of_sub, ranked, claim_deliveries, is_pending,
}

module _ (P : Delivery → Type 0) where
  All-at_most : (n : ℕ) (ds : List Delivery) → All P ds → All P (at_most n ds)
  All-at_most zero ds a = tt
  All-at_most (suc n) [] a = tt
  All-at_most (suc n) (d ∷ ds) a = (a.0, All-at_most n ds a.1)

  All-insert_due : (d : Delivery) (ds : List Delivery) → P d → All P ds → All P (insert_due d ds)
  unfolding insert_due
  All-insert_due d [] p a = (p, tt)
  All-insert_due d (e ∷ es) p a =
      by_test (All P) (precedes d e) _ _ (λ h. (p, a)) (λ h. (a.0, All-insert_due d es p a.1))

  All-by_due : (ds : List Delivery) → All P ds → All P (by_due ds)
  unfolding by_due
  All-by_due [] a = tt
  All-by_due (d ∷ ds) a = All-insert_due d (by_due ds) a.0 (All-by_due ds a.1)

  All-ranked : (n : ℕ) (before ds : List Delivery) → All P ds → All P (ranked n before ds)
  unfolding ranked
  All-ranked n before [] a = tt
  All-ranked n before (d ∷ ds) a =
      by_test (All P) (ltb (of_sub d.subscription_id before) n) _ _
        (λ h. (a.0, All-ranked n (d ∷ before) ds a.1)) (λ h. All-ranked n (d ∷ before) ds a.1)

module _ (id : String) (n : ℕ) (before : List Delivery) (d : Delivery) (ds : List Delivery) where
  counted_in :
      (d.subscription_id is id) ≡ true
      → ltb (of_sub id before) n ≡ true
      → of_sub id (ranked n (d ∷ before) ds) ≤ n - of_sub id (d ∷ before)
      → of_sub id (d ∷ ranked n (d ∷ before) ds) ≤ n - of_sub id before
  counted_in e h k = ground (arith, e, h, k)

  left_out :
      (d.subscription_id is id) ≡ true
      → of_sub id (ranked n (d ∷ before) ds) ≤ n - of_sub id (d ∷ before)
      → of_sub id (ranked n (d ∷ before) ds) ≤ n - of_sub id before
  left_out e k = ground (arith, e, k)

  other :
      (d.subscription_id is id) ≡ false
      → of_sub id (ranked n (d ∷ before) ds) ≤ n - of_sub id (d ∷ before)
      → of_sub id (d ∷ ranked n (d ∷ before) ds) ≤ n - of_sub id before
  other e k = ground (arith, e, k)

  other_out :
      (d.subscription_id is id) ≡ false
      → of_sub id (ranked n (d ∷ before) ds) ≤ n - of_sub id (d ∷ before)
      → of_sub id (ranked n (d ∷ before) ds) ≤ n - of_sub id before
  other_out e k = ground (arith, e, k)

of_sub-ranked :
    (id : String) (n : ℕ) (before ds : List Delivery)
    → of_sub id (ranked n before ds) ≤ n - of_sub id before
unfolding ranked
of_sub-ranked id n before [] = omega arith
of_sub-ranked id n before (d ∷ ds) = elim (Bool-cases (d.subscription_id is id)) [
  | inl e ↦
      by_test (λ xs. of_sub id xs ≤ n - of_sub id before) (ltb (of_sub d.subscription_id before) n)
        (d ∷ ranked n (d ∷ before) ds) (ranked n (d ∷ before) ds)
        (λ h.
          counted_in id n before d ds e
            (subst (λ i. ltb (of_sub i before) n ≡ true) ((is_iff d.subscription_id id).0 e) h)
            (of_sub-ranked id n (d ∷ before) ds))
        (λ h. left_out id n before d ds e (of_sub-ranked id n (d ∷ before) ds))
  | inr e ↦
      by_test (λ xs. of_sub id xs ≤ n - of_sub id before) (ltb (of_sub d.subscription_id before) n)
        (d ∷ ranked n (d ∷ before) ds) (ranked n (d ∷ before) ds)
        (λ h. other id n before d ds e (of_sub-ranked id n (d ∷ before) ds))
        (λ h. other_out id n before d ds e (of_sub-ranked id n (d ∷ before) ds))
]

of_sub-at_most :
    (id : String) (n : ℕ) (ds : List Delivery) → of_sub id (at_most n ds) ≤ of_sub id ds
of_sub-at_most id zero ds = omega arith
of_sub-at_most id (suc n) [] = omega arith
of_sub-at_most id (suc n) (d ∷ ds) = ground (arith, of_sub-at_most id n ds)

length-at_most : (n : ℕ) (ds : List Delivery) → length (at_most n ds) ≤ n
length-at_most zero ds = omega arith
length-at_most (suc n) [] = omega arith
length-at_most (suc n) (d ∷ ds) = omega (arith, length-at_most n ds)

-- The delivery is pending and due, its subscription has nothing in flight, and its session is hosted
-- here and still within the reach of the subscription's owner.
abbrev Hosted : Scopes → String → Option SubRow → Option SessionRow → Type 0
Hosted db worker (some sub) (some ss) =
    (ss.worker_id ≡ some worker) × (owner_covers db sub.token_id ss ≡ true)
Hosted db worker _ _ = ⊥

pub record IsServed (q : Queue) (db : Scopes) (sessions : Sessions) (worker : String)
    (busy : List String) (now : Time) (d : Delivery) : Type 0 where
  pub is_waiting : d.status ≡ pending
  pub due : d.next_try_at ≤ now
  pub idle : contains busy d.subscription_id ≡ false
  pub hosted :
      Hosted db worker (find_sub q.subs d.subscription_id) (find_session sessions d.session_id)

points_to-some : (o : Option String) (s : String) → points_to o s ≡ true → o ≡ some s
points_to-some none s h = absurd (cc)
points_to-some (some t) s h = ground (arith, is_iff t s)

served_by-Hosted :
    (db : Scopes) (worker : String) (o : Option SubRow) (r : Option SessionRow)
    → served_by db worker o r ≡ true
    → Hosted db worker o r
served_by-Hosted db worker none r h = absurd (cc)
served_by-Hosted db worker (some sub) none h = absurd (cc)
served_by-Hosted db worker (some sub) (some ss) h =
    (points_to-some ss.worker_id worker (ground (arith, h)), ground (arith, h))

all_hold :
    (a b c d : Bool)
    → (a && b && not c && d) ≡ true
    → (a ≡ true) × (b ≡ true) × (c ≡ false) × (d ≡ true)
all_hold a b c d h = ground (arith, h)

pending_iff : (s : Status) → is_pending s ≡ true → s ≡ pending
pending_iff pending h = refl
pending_iff delivered h = absurd (cc)
pending_iff failed h = absurd (cc)

is_due-IsServed :
    (q : Queue) (db : Scopes) (sessions : Sessions) (worker : String) (busy : List String)
    (now : Time) (d : Delivery)
    → is_due db sessions q.subs worker busy now d ≡ true
    → IsServed q db sessions worker busy now d
unfolding is_due
is_due-IsServed q db sessions worker busy now d h =
    let k =
      all_hold (is_pending d.status) (leb d.next_try_at now) (contains busy d.subscription_id)
        (served_by db worker (find_sub q.subs d.subscription_id)
          (find_session sessions d.session_id))
        h in
    record {
      is_waiting = pending_iff d.status k.0;
      due = leb→le d.next_try_at now k.1;
      idle = k.2;
      hosted =
          served_by-Hosted db worker (find_sub q.subs d.subscription_id)
            (find_session sessions d.session_id) k.3;
    }

-- A worker is handed only pending deliveries that are due, of sessions that it hosts, whose
-- subscription has none in flight and whose owner's token is enabled and still covers the session; at
-- most `per_sub` of each subscription, and at most `limit` in all.
pub claim_deliveries_lem :
    (q : Queue) (db : Scopes) (sessions : Sessions) (worker : String) (busy : List String)
    (per_sub limit : ℕ) (now : Time)
    → let out = claim_deliveries q db sessions worker busy per_sub limit now in
      All (IsServed q db sessions worker busy now) out
      × ((id : String) → of_sub id out ≤ per_sub)
      × (length out ≤ limit)
unfolding claim_deliveries
claim_deliveries_lem q db sessions worker busy per_sub limit now =
    let P = IsServed q db sessions worker busy now in
    let due = select (is_due db sessions q.subs worker busy now) q.deliveries in
    let rows = ranked per_sub [] (by_due due) in
    (
      All-at_most P limit rows (
          All-ranked P per_sub [] (by_due due) (
            All-by_due P due (
              All-map (λ d. is_due db sessions q.subs worker busy now d ≡ true) P due
                (is_due-IsServed q db sessions worker busy now)
                (All-select (is_due db sessions q.subs worker busy now) q.deliveries)))),
      (λ id. omega (arith, of_sub-at_most id limit rows, of_sub-ranked id per_sub [] (by_due due))),
      length-at_most limit rows,
    )
