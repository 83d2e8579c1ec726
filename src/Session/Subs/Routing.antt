-- ===== src/Session/Subs/Routing.antt =====
-- Routing by a snapshot against the filters themselves.
use mathlib.Core.List.{append-nil, append_assoc, map-append}
use tg_control_api_server.Prelude.{
  ◌≡◌, refl, sym, ◌∙◌, ap, String, Bool, false, ◌&&◌, ◌||◌, Option, none, some, List, [], ◌∷◌, ◌++◌,
  map, select, ◌is◌, if◌then◌else◌, contains, any-append, select-append, arith, ℤ, Bool-cases, inl,
  inr,
}
use tg_control_api_server.Session.Subs.{
  Filter, readable, unreadable, SubscriptionFilter, Subscription, SubSnapshot, has_chat_id,
  is_empty, add_filters, add_spec, empty_snapshot, unless_empty, new_snapshot, Payload, update_chat,
  Looked, takes_type, chat_test, route_loop, routed,
}

-- The specification: a filter takes an update if its type is listed or none is, and its chat is
-- listed or none is. An unreadable filter takes nothing.
abbrev listed_chat : List ℤ → Option ℤ → Bool
listed_chat cs none = is_empty cs
listed_chat cs (some c) = is_empty cs || has_chat_id cs c

abbrev pub takes : Filter → String → Option ℤ → Bool
takes unreadable ctor chat = false
takes (readable spec) ctor chat =
    (is_empty spec.types || contains spec.types ctor) && listed_chat spec.chats chat

abbrev pub filter_takes : String → Payload → SubscriptionFilter → Bool
filter_takes ctor u f = takes f.filter ctor (update_chat u)

abbrev pub filter_id : SubscriptionFilter → String
filter_id f = f.id

-- A subscription takes an update.
abbrev sub_takes : String → Option ℤ → Subscription → Bool
sub_takes ctor chat s =
    takes_type s.types ctor
    && (chat_test s.chats (some chat)
        (record { is_readable = false; chat_id = none; message_chat_id = none })).0

abbrev sub_id : Subscription → String
sub_id s = s.id

abbrev Current : Payload → Looked → Type 0
Current u none = Unit
Current u (some found) = found ≡ update_chat u

route_loop-select :
    (ss : List Subscription) (ctor : String) (u : Payload) (looked : Looked)
    → Current u looked
    → route_loop ss ctor u looked ≡ map sub_id (select (sub_takes ctor (update_chat u)) ss)
unfolding route_loop
route_loop-select [] ctor u looked c = refl
route_loop-select (s ∷ ss) ctor u looked c = ground (
  arith,
  route_loop-select ss ctor u looked c,
  route_loop-select ss ctor u (some (update_chat u)) refl,
)

module _ (ctor : String) (chat : Option ℤ) where
  abbrev ids_of : List Subscription → List String
  ids_of ss = map sub_id (select (sub_takes ctor chat) ss)

  abbrev wanted : List SubscriptionFilter → List String
  wanted fs = map filter_id (select (λ (f : SubscriptionFilter). takes f.filter ctor chat) fs)

  ids_of-append : (ss ts : List Subscription) → ids_of (ss ++ ts) ≡ ids_of ss ++ ids_of ts
  ids_of-append ss ts = rw (select-append (sub_takes ctor chat) ss ts) (map-append sub_id _ _)

  ids_of-add_spec :
      (snap : SubSnapshot) (id : String) (f : Filter)
      → ids_of (add_spec snap id f).subs
        ≡ ids_of snap.subs ++ (if takes f ctor chat then id ∷ [] else [])
  ids_of-add_spec snap id unreadable = sym (append-nil _)
  ids_of-add_spec snap id (readable spec) =
      ids_of-append snap.subs _ ∙ ap (λ r. ids_of snap.subs ++ r) (ground arith)

  ids_of-add_filters :
      (snap : SubSnapshot) (fs : List SubscriptionFilter)
      → ids_of (add_filters snap fs).subs ≡ ids_of snap.subs ++ wanted fs
  unfolding add_filters
  ids_of-add_filters snap [] = sym (append-nil _)
  ids_of-add_filters snap (f ∷ fs) =
      ids_of-add_filters (add_spec snap f.id f.filter) fs
      ∙ ap (λ r. r ++ wanted fs) (ids_of-add_spec snap f.id f.filter)
      ∙ append_assoc (ids_of snap.subs) _ (wanted fs)
      ∙ ap (λ r. ids_of snap.subs ++ r) (ground arith)

  -- What `wants` tests.
  abbrev wanting : SubSnapshot → Bool
  wanting s = s.any_type || contains s.types ctor

  wanting-add_spec :
      (snap : SubSnapshot) (id : String) (f : Filter)
      → wanting (add_spec snap id f) ≡ false
      → (wanting snap ≡ false) × (takes f ctor chat ≡ false)
  wanting-add_spec snap id unreadable h = (h, refl)
  wanting-add_spec snap id (readable spec) h =
      ground (arith, any-append (λ x. x is ctor) spec.types snap.types)

  unwanted :
      (snap : SubSnapshot) (fs : List SubscriptionFilter)
      → wanting (add_filters snap fs) ≡ false
      → (wanting snap ≡ false) × (wanted fs ≡ [])
  unfolding add_filters
  unwanted snap [] h = (h, refl)
  unwanted snap (f ∷ fs) h =
      let (mid, rest) = unwanted (add_spec snap f.id f.filter) fs h in
      let (start, not_taken) = wanting-add_spec snap f.id f.filter mid in (start, rw not_taken rest)

routed-unless_empty :
    (snap : SubSnapshot) (ctor : String) (u : Payload)
    → routed (unless_empty snap) ctor u
      ≡ (if wanting ctor (update_chat u) snap then ids_of ctor (update_chat u) snap.subs else [])
unfolding routed
routed-unless_empty snap ctor u = ground (arith, route_loop-select snap.subs ctor u none tt)

-- An update goes to exactly the subscriptions whose readable filter takes it, each once and in the
-- order of the registry: the receiver's cheap check drops no update that is wanted, the chat is
-- the update's own however late it is looked up, and an unreadable filter takes nothing.
pub routed-takes :
    (fs : List SubscriptionFilter) (ctor : String) (u : Payload)
    → routed (new_snapshot fs) ctor u ≡ map filter_id (select (filter_takes ctor u) fs)
unfolding new_snapshot
routed-takes fs ctor u =
    elim (Bool-cases (wanting ctor (update_chat u) (add_filters empty_snapshot fs))) [
      | inl e ↦
          routed-unless_empty (add_filters empty_snapshot fs) ctor u
          ∙ rw e (ids_of-add_filters ctor (update_chat u) empty_snapshot fs)
      | inr e ↦
          routed-unless_empty (add_filters empty_snapshot fs) ctor u
          ∙ rw e (sym (unwanted ctor (update_chat u) empty_snapshot fs e).1)
    ]
