-- ===== src/Store/Subscriptions.antt =====
-- Update subscriptions and the queue of their deliveries: tables update_subscription and
-- webhook_delivery (internal/store/store.go). A new row's id is the database's and is an argument.
pub mod Served
pub mod Owned
use tg_control_api_server.Prelude.{
  ℕ, suc, ◌+◌, String, Bool, true, false, not, ◌&&◌, ◌||◌, Option, none, some, List, [], ◌∷◌, ◌++◌,
  ltb, leb, ◌==◌, ◌is◌, if◌then◌else◌, points_to, any, select, contains, length,
}
use tg_control_api_server.Store.Limits.{Time}
use tg_control_api_server.Store.Deliveries.{Status, pending, delivered, failed, Delivery, Health}
use tg_control_api_server.Store.Tokens.{
  Scopes, Token, SessionApp, null_str, find_token, row_covered,
}
use tg_control_api_server.Store.Workers.{SessionRow, Sessions, at_most}

pub record SubRow : Type 0 where
  pub id : String
  pub session_id : String
  pub token_id : Option String
  pub url : String
  pub secret_enc : String
  pub filters : Option String
  pub created_at : Time
  pub health : Health
  pub dropped : ℕ

pub record Queue : Type 0 where
  pub subs : List SubRow
  pub deliveries : List Delivery

abbrev no_health : Health
no_health = record { last_delivered_at = none; last_error = none; last_error_at = none }

abbrev new_row : String → String → String → String → String → Option String → Time → SubRow
new_row id session_id token_id url secret_enc filters now = record {
  id = id;
  session_id = session_id;
  token_id = null_str token_id;
  url = url;
  secret_enc = secret_enc;
  filters = filters;
  created_at = now;
  health = no_health;
  dropped = 0;
}

-- `CreateSubscription`; "" is the master token.
unfoldable pub create_subscription :
    Queue → String → String → String → String → String → Option String → Time → Queue
create_subscription q id session_id token_id url secret_enc filters now = record q {
  subs = q.subs ++ (new_row id session_id token_id url secret_enc filters now ∷ []);
}

-- What a token sees of a session's subscriptions: its own, or all of them as the master.
abbrev pub sees : String → SubRow → Bool
sees token_id sub = (token_id is "") || points_to sub.token_id token_id

abbrev pub shown : String → String → String → SubRow → Bool
shown session_id token_id sub_id sub =
    (sub.session_id is session_id) && sees token_id sub && ((sub_id is "") || (sub.id is sub_id))

abbrev is_pending : Status → Bool
is_pending pending = true
is_pending _ = false

abbrev is_failed : Status → Bool
is_failed failed = true
is_failed _ = false

pub record Subscription : Type 0 where
  pub row : SubRow
  pub pending_count : ℕ
  pub failed_count : ℕ

abbrev pub counted : List Delivery → SubRow → Subscription
counted ds sub = record {
  row = sub;
  pending_count =
      length (select (λ (d : Delivery). (d.subscription_id is sub.id) && is_pending d.status) ds);
  failed_count =
      length (select (λ (d : Delivery). (d.subscription_id is sub.id) && is_failed d.status) ds);
}

abbrev pub counted_all : List Delivery → List SubRow → List Subscription
counted_all ds [] = []
counted_all ds (s ∷ ss) = counted ds s ∷ counted_all ds ss

-- `ORDER BY created_at`.
insert_row : SubRow → List SubRow → List SubRow
insert_row s [] = s ∷ []
insert_row s (t ∷ ts) =
    let rest = insert_row s ts in if leb s.created_at t.created_at then s ∷ t ∷ ts else t ∷ rest

pub by_creation : List SubRow → List SubRow
unfolding insert_row
by_creation [] = []
by_creation (s ∷ ss) = insert_row s (by_creation ss)

-- `ListSubscriptions`.
pub list_subscriptions : Queue → String → String → String → List Subscription
unfolding by_creation
list_subscriptions q session_id token_id sub_id =
    counted_all q.deliveries (by_creation (select (shown session_id token_id sub_id) q.subs))

-- `DeleteSubscription`, with the cascade to its deliveries; whether one was removed.
abbrev pub deletes : String → String → String → SubRow → Bool
deletes session_id token_id sub_id sub =
    (sub.session_id is session_id) && (sub.id is sub_id) && sees token_id sub

abbrev has_sub : List SubRow → String → Bool
has_sub subs id = any (λ (s : SubRow). s.id is id) subs

pub delete_subscription : Queue → String → String → String → Queue × Bool
delete_subscription q session_id token_id sub_id =
    let gone = select (deletes session_id token_id sub_id) q.subs in
    (
      record {
        subs = select (λ s. not (deletes session_id token_id sub_id s)) q.subs;
        deliveries = select (λ (d : Delivery). not (has_sub gone d.subscription_id)) q.deliveries;
      },
      any (deletes session_id token_id sub_id) q.subs,
    )

-- `SubscriptionFilters`: id, session and raw filter.
pub record SubscriptionFilter : Type 0 where
  pub id : String
  pub session_id : String
  pub filters : Option String

abbrev filters_of : List SubRow → List SubscriptionFilter
filters_of [] = []
filters_of (s ∷ ss) =
    record { id = s.id; session_id = s.session_id; filters = s.filters } ∷ filters_of ss

subscription_filters : Queue → List String → List SubscriptionFilter
unfolding by_creation
subscription_filters q sessions =
    filters_of (by_creation (select (λ (s : SubRow). contains sessions s.session_id) q.subs))

-- `AddDropped`.
abbrev charged : String → ℕ → List SubRow → List SubRow
charged session_id n [] = []
charged session_id n (s ∷ ss) =
    (if s.session_id is session_id then record s { dropped = s.dropped + n } else s)
    ∷ charged session_id n ss

add_dropped : Queue → String → ℕ → Queue
add_dropped q session_id n = record q { subs = charged session_id n q.subs }

-- `EnqueueDeliveries`: one row for each listed subscription of the session that is still there.
abbrev queued : String → String → Time → SubRow → String → Delivery
queued session_id payload now sub id = record {
  id = id;
  session_id = session_id;
  subscription_id = sub.id;
  payload = payload;
  attempts = 0;
  status = pending;
  next_try_at = now;
  created_at = now;
}

pub enqueue_loop :
    (ℕ → String) → ℕ → String → List String → String → Time → List SubRow → List Delivery
enqueue_loop fresh i session_id sub_ids payload now [] = []
enqueue_loop fresh i session_id sub_ids payload now (s ∷ ss) =
    let rest = enqueue_loop fresh (suc i) session_id sub_ids payload now ss in
    if contains sub_ids s.id && (s.session_id is session_id)
    then queued session_id payload now s (fresh i) ∷ rest
    else rest

unfoldable pub enqueue_deliveries :
    (ℕ → String) → Queue → String → List String → String → Time → Queue
unfolding enqueue_loop
enqueue_deliveries fresh q session_id sub_ids payload now = record q {
  deliveries = q.deliveries ++ enqueue_loop fresh 0 session_id sub_ids payload now q.subs;
}

-- The rows that a delivery is joined with.
unfoldable pub find_sub : List SubRow → String → Option SubRow
find_sub [] id = none
find_sub (s ∷ ss) id = let rest = find_sub ss id in if s.id is id then some s else rest

unfoldable pub find_session : Sessions → String → Option SessionRow
find_session [] id = none
find_session (s ∷ ss) id =
    let rest = find_session ss id in if s.session_id is id then some s else rest

-- The owner's right to a session: the master's, or that of an enabled token which covers it.
abbrev token_covers : Option Token → Scopes → SessionRow → Bool
token_covers none db ss = false
token_covers (some t) db ss =
    row_covered db t (record { session_id = ss.session_id; app_id = ss.app_id })

abbrev pub owner_covers : Scopes → Option String → SessionRow → Bool
owner_covers db none ss = true
owner_covers db (some t) ss = token_covers (find_token db.tokens t) db ss

abbrev pub served_by : Scopes → String → Option SubRow → Option SessionRow → Bool
served_by db worker none ss = false
served_by db worker (some sub) none = false
served_by db worker (some sub) (some ss) =
    points_to ss.worker_id worker && owner_covers db sub.token_id ss

pub is_due : Scopes → Sessions → List SubRow → String → List String → Time → Delivery → Bool
unfolding find_sub find_session
is_due db sessions subs worker busy now d =
    is_pending d.status
    && leb d.next_try_at now
    && not (contains busy d.subscription_id)
    && served_by db worker (find_sub subs d.subscription_id) (find_session sessions d.session_id)

-- `ORDER BY next_try_at, created_at`.
abbrev pub precedes : Delivery → Delivery → Bool
precedes a b =
    ltb a.next_try_at b.next_try_at
    || ((a.next_try_at == b.next_try_at) && leb a.created_at b.created_at)

pub insert_due : Delivery → List Delivery → List Delivery
insert_due d [] = d ∷ []
insert_due d (e ∷ es) = let rest = insert_due d es in if precedes d e then d ∷ e ∷ es else e ∷ rest

unfoldable pub by_due : List Delivery → List Delivery
unfolding insert_due
by_due [] = []
by_due (d ∷ ds) = insert_due d (by_due ds)

-- The rows whose rank within their subscription is at most `per_sub`; `before` are those ranked.
abbrev pub of_sub : String → List Delivery → ℕ
of_sub id ds = length (select (λ (d : Delivery). d.subscription_id is id) ds)

unfoldable pub ranked : ℕ → List Delivery → List Delivery → List Delivery
ranked per_sub before [] = []
ranked per_sub before (d ∷ ds) =
    let rest = ranked per_sub (d ∷ before) ds in
    if ltb (of_sub d.subscription_id before) per_sub then d ∷ rest else rest

-- `ClaimDeliveries`.
unfoldable pub claim_deliveries :
    Queue → Scopes → Sessions → String → List String → ℕ → ℕ → Time → List Delivery
unfolding is_due by_due ranked
claim_deliveries q db sessions worker busy per_sub limit now =
    at_most limit
      (ranked per_sub [] (by_due (select (is_due db sessions q.subs worker busy now) q.deliveries)))
