-- ===== src/Store/Sends/Resolved.antt =====
-- What a read of the registry answers after registrations and outcomes in any order.
use tg_control_api_server.Prelude.{
  ◌≡◌, refl, Option, none, some, List, [], ◌∷◌, ◌is◌, if◌then◌else◌, pos, int_same_iff, is_iff, get,
  get-put, arith,
}
use tg_control_api_server.Store.Limits.{Time}
use tg_control_api_server.Store.Sends.{
  SendKey, send_same, send_same_iff, send_eq, SendRow, SendTable, register_send, Outcome, row_of,
  created, pending_at, insert_pending, record_send_outcome, SentMessage, message_of, get_send,
}

-- What the workers write, in the order in which it lands.
pub data Write : Type 0 where
  register : SendKey → Time → Write
  resolve : SendKey → Outcome → Time → Write

write : SendTable → Write → SendTable
unfolding register_send record_send_outcome
write t (register k now) = register_send t k now
write t (resolve k o now) = record_send_outcome t k o now

pub writes : SendTable → List Write → SendTable
unfolding write
writes t [] = t
writes t (w ∷ ws) = writes (write t w) ws

-- What is known of a send.
pub data Known : Type 0 where
  unknown registered : Known
  ended : Outcome → Known

abbrev learn : SendKey → Known → Write → Known
learn k unknown (register j now) = if send_same j k then registered else unknown
learn k registered (register j now) = registered
learn k (ended o) (register j now) = ended o
learn k known (resolve j o now) = if send_same j k then ended o else known

abbrev pub known_after : SendKey → Known → List Write → Known
known_after k known [] = known
known_after k known (w ∷ ws) = known_after k (learn k known w) ws

abbrev pub told : Known → Option SentMessage
told unknown = none
told registered = some (record { status = "pending"; final_id = pos 0; error = "" })
told (ended o) = some (record {
  status = if o.td_err is "" then "sent" else "failed";
  final_id = if o.td_err is "" then o.final_id else pos 0;
  error = o.td_err;
})

told-row_of : (o : Outcome) (now : Time) → message_of (some (row_of o now)) ≡ told (ended o)
told-row_of o now = ground (arith, int_same_iff o.final_id (pos 0), is_iff o.td_err "")

pub get_send-record :
    (t : SendTable) (j k : SendKey) (o : Outcome) (now : Time)
    → get_send (record_send_outcome t j o now) k
      ≡ (if send_same j k then told (ended o) else get_send t k)
unfolding record_send_outcome get_send
get_send-record t j k o now =
    rw (get-put t j k (row_of o (created (get t j) now)))
      (ground (arith, told-row_of o (created (get t j) now)))

abbrev or_pending : Option SentMessage → Option SentMessage
or_pending none = told registered
or_pending (some m) = some m

get_send-insert_pending :
    (t : SendTable) (j k : SendKey) (now : Time) (old : Option SendRow)
    → get t j ≡ old
    → message_of (get (insert_pending t j now old) k)
      ≡ (if send_same j k then or_pending (message_of (get t k)) else message_of (get t k))
get_send-insert_pending t j k now none e =
    rw (get-put t j k (pending_at now)) (ground (arith, send_same_iff j k))
get_send-insert_pending t j k now (some row) e = ground (arith, send_same_iff j k)

get_send-register :
    (t : SendTable) (j k : SendKey) (now : Time)
    → get_send (register_send t j now) k
      ≡ (if send_same j k then or_pending (get_send t k) else get_send t k)
unfolding register_send get_send
get_send-register t j k now = get_send-insert_pending t j k now (get t j) refl

get_send-write :
    (t : SendTable) (k : SendKey) (known : Known) (w : Write)
    → get_send t k ≡ told known
    → get_send (write t w) k ≡ told (learn k known w)
unfolding write
get_send-write t k unknown (register j now) h = ground (arith, get_send-register t j k now)
get_send-write t k registered (register j now) h = ground (arith, get_send-register t j k now)
get_send-write t k (ended o) (register j now) h = ground (arith, get_send-register t j k now)
get_send-write t k known (resolve j o now) h = ground (arith, get_send-record t j k o now)

get_send-known_after :
    (t : SendTable) (k : SendKey) (known : Known) (ws : List Write)
    → get_send t k ≡ told known
    → get_send (writes t ws) k ≡ told (known_after k known ws)
unfolding writes
get_send-known_after t k known [] h = h
get_send-known_after t k known (w ∷ ws) h =
    get_send-known_after (write t w) k (learn k known w) ws (get_send-write t k known w h)

-- From an empty registry, and whatever registrations and outcomes land in it in whatever order, a
-- read of a send answers with the last outcome recorded for it, whether that came before or after
-- its registration; with "pending" when it was only registered, and "not found" when neither was.
pub get_send-writes :
    (k : SendKey) (ws : List Write) → get_send (writes [] ws) k ≡ told (known_after k unknown ws)
unfolding get_send get
get_send-writes k ws = get_send-known_after [] k unknown ws refl
