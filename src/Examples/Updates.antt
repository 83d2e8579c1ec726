-- ===== src/Examples/Updates.antt =====
-- Updates on their way to receivers (internal/session/subs.go, deliver.go).
use tg_control_api_server.Prelude.{
  false, ◌≡◌, String, true, none, some, List, [], ◌∷◌, map, select, text_eq, pos,
}
use tg_control_api_server.Store.Deliveries.{pending, Delivery, Health}
use tg_control_api_server.Session.Subs.{
  SubscriptionFilter, readable, unreadable, Payload, new_snapshot, routed,
}
use tg_control_api_server.Session.Subs.Routing.{filter_id, filter_takes, routed-takes}
use tg_control_api_server.Session.Deliver.{accepted, rejected}
use tg_control_api_server.Session.Deliver.Retry.{Try}

abbrev filters : List SubscriptionFilter
filters =
    record {
      id = "messages";
      session_id = "s1";
      filter = readable (record { types = "updateNewMessage" ∷ []; chats = pos 7 ∷ [] });
    }
    ∷ record { id = "broken"; session_id = "s1"; filter = unreadable }
    ∷ []

abbrev new_message : Payload
new_message = record { is_readable = true; chat_id = none; message_chat_id = some (pos 7) }

routed-takes_example :
    routed (new_snapshot filters) "updateNewMessage" new_message
    ≡ map filter_id (select (filter_takes "updateNewMessage" new_message) filters)
routed-takes_example = routed-takes filters "updateNewMessage" new_message

abbrev row : String → Delivery
row sub = record {
  id = "d1";
  session_id = "s1";
  subscription_id = sub;
  payload = "{}";
  attempts = 9;
  status = pending;
  next_try_at = 0;
  created_at = 0;
}

abbrev unseen : Health
unseen = record { last_delivered_at = none; last_error = none; last_error_at = none }

abbrev tries : List Try
tries =
    (rejected "receiver answered 500", true, 10) ∷ (accepted, false, 20) ∷ (accepted, true, 30) ∷ []

abbrev batch : List Delivery
batch = row "sub1" ∷ row "sub2" ∷ row "sub1" ∷ []
