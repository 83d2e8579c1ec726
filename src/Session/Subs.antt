-- ===== src/Session/Subs.antt =====
-- Which subscriptions an update goes to (internal/session/subs.go).
pub mod Routing
use tg_control_api_server.Prelude.{
  ℕ, ◌+◌, String, Bool, true, false, not, ◌&&◌, ◌||◌, Option, none, some, List, [], ◌∷◌, ◌++◌, ◌is◌,
  if◌then◌else◌, contains, any, ℤ, pos, int_same, Map, get, text_eq,
}

pub record FilterSpec : Type 0 where
  pub types : List String
  pub chats : List ℤ

-- A stored filter as `json.Unmarshal` reads it; an absent one is the zero value.
pub data Filter : Type 0 where
  readable : FilterSpec → Filter
  unreadable : Filter

pub record SubscriptionFilter : Type 0 where
  pub id : String
  pub session_id : String
  pub filter : Filter

-- `none` is no restriction.
pub record Subscription : Type 0 where
  pub id : String
  pub types : Option (List String)
  pub chats : Option (List ℤ)

pub record SubSnapshot : Type 0 where
  pub subs : List Subscription
  pub any_type : Bool
  pub types : List String

abbrev pub has_chat_id : List ℤ → ℤ → Bool
has_chat_id cs c = any (λ d. int_same d c) cs

abbrev restrict {ℓ} : {A : Type ℓ} → List A → Option (List A)
restrict [] = none
restrict (x ∷ xs) = some (x ∷ xs)

abbrev pub is_empty {ℓ} : {A : Type ℓ} → List A → Bool
is_empty [] = true
is_empty (x ∷ xs) = false

-- One turn of the loop of `newSnapshot`.
abbrev add_spec : SubSnapshot → String → Filter → SubSnapshot
add_spec snap id unreadable = snap
add_spec snap id (readable spec) = record {
  subs =
      snap.subs
      ++ (record { id = id; types = restrict spec.types; chats = restrict spec.chats } ∷ []);
  any_type = is_empty spec.types || snap.any_type;
  types = spec.types ++ snap.types;
}

pub add_filters : SubSnapshot → List SubscriptionFilter → SubSnapshot
add_filters snap [] = snap
add_filters snap (f ∷ fs) = add_filters (add_spec snap f.id f.filter) fs

abbrev pub empty_snapshot : SubSnapshot
empty_snapshot = record { subs = []; any_type = false; types = [] }

abbrev pub unless_empty : SubSnapshot → Option SubSnapshot
unless_empty snap = if is_empty snap.subs then none else some snap

pub new_snapshot : List SubscriptionFilter → Option SubSnapshot
unfolding add_filters
new_snapshot fs = unless_empty (add_filters empty_snapshot fs)

pub wants : Option SubSnapshot → String → Bool
wants none ctor = false
wants (some s) ctor = s.any_type || contains s.types ctor

-- What `updateChat` decodes of an update: its own chat_id, and its message's.
pub record Payload : Type 0 where
  pub is_readable : Bool
  pub chat_id : Option ℤ
  pub message_chat_id : Option ℤ

abbrev or_its {ℓ} : {A : Type ℓ} → Option A → Option A → Option A
or_its (some a) b = some a
or_its none b = b

unfoldable pub update_chat : Payload → Option ℤ
update_chat u = if u.is_readable then or_its u.chat_id u.message_chat_id else none

-- The loop variables `chat`, `hasChat` and `looked` of `route`: `none` is not looked yet.
abbrev pub Looked : Type 0
Looked = Option (Option ℤ)

abbrev takes_type : Option (List String) → String → Bool
takes_type none ctor = true
takes_type (some ts) ctor = contains ts ctor

abbrev in_chats : List ℤ → Option ℤ → Bool
in_chats cs none = false
in_chats cs (some c) = has_chat_id cs c

abbrev look : Looked → Payload → Option ℤ
look none u = update_chat u
look (some found) u = found

-- The chat test of one subscription, and what has been looked up after it.
abbrev chat_test : Option (List ℤ) → Looked → Payload → Bool × Looked
chat_test none looked u = (true, looked)
chat_test (some cs) looked u = (in_chats cs (look looked u), some (look looked u))

pub route_loop : List Subscription → String → Payload → Looked → List String
route_loop [] ctor u looked = []
route_loop (s ∷ ss) ctor u looked =
    let skipped = route_loop ss ctor u looked in
    let rest = route_loop ss ctor u (chat_test s.chats looked u).1 in
    if not (takes_type s.types ctor)
    then skipped
    else if (chat_test s.chats looked u).0
    then s.id ∷ rest
    else rest

pub route : SubSnapshot → String → Payload → List String
unfolding route_loop
route s ctor u = route_loop s.subs ctor u none

abbrev route_if_wanted : Option SubSnapshot → String → Payload → List String
route_if_wanted none ctor u = []
route_if_wanted (some s) ctor u = if wants (some s) ctor then route s ctor u else []

-- An update's way: the receiver's check (`updateHandler`), then the outbox writer's routing.
pub routed : Option SubSnapshot → String → Payload → List String
unfolding wants route
routed snap ctor u = route_if_wanted snap ctor u
