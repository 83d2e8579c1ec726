-- ===== src/Store/Sends.antt =====
-- The send registry, table sent_message (internal/store/store.go).
pub mod Resolved
use tg_control_api_server.Prelude.{
  ℕ, ◌≡◌, ◌↔◌, String, Bool, true, false, not, ◌&&◌, ◌||◌, Option, none, some, List, [], ◌∷◌, ltb,
  ◌==◌, ◌is◌, is_iff, if◌then◌else◌, ℤ, pos, int_same, int_same_iff, Eq, Map, get, put, select,
  length, arith,
}
use tg_control_api_server.Store.Limits.{Time}

-- The table's primary key.
pub record SendKey : Type 0 where
  pub session_id : String
  pub chat_id : ℤ
  pub temp_id : ℤ

abbrev pub send_same : SendKey → SendKey → Bool
send_same a b =
    (a.session_id is b.session_id) && int_same a.chat_id b.chat_id && int_same a.temp_id b.temp_id

pub send_same_iff : (a b : SendKey) → (send_same a b ≡ true) ↔ (a ≡ b)
send_same_iff a b = ground (
  arith,
  is_iff a.session_id b.session_id,
  int_same_iff a.chat_id b.chat_id,
  int_same_iff a.temp_id b.temp_id,
)

instance abbrev pub send_eq : Eq SendKey
send_eq = record { same = send_same; same_iff = send_same_iff }

pub record SendRow : Type 0 where
  pub status : String
  pub final_id : Option ℤ
  pub error : Option String
  pub created_at : Time

abbrev pub SendTable : Type 0
SendTable = Map SendKey SendRow

-- `RegisterSend`: ON CONFLICT DO NOTHING.
abbrev pub pending_at : Time → SendRow
pending_at now = record { status = "pending"; final_id = none; error = none; created_at = now }

abbrev pub insert_pending : SendTable → SendKey → Time → Option SendRow → SendTable
insert_pending t k now none = put t k (pending_at now)
insert_pending t k now (some row) = t

pub register_send : SendTable → SendKey → Time → SendTable
register_send t k now = insert_pending t k now (get t k)

-- The outcome of a send: TDLib's error, "" for none, and the server id.
pub record Outcome : Type 0 where
  pub final_id : ℤ
  pub td_err : String

abbrev is_failure : Outcome → Bool
is_failure o = not (o.td_err is "")

-- The row that `RecordSendOutcome` writes; an update keeps when the row was created.
abbrev pub row_of : Outcome → Time → SendRow
row_of o since = record {
  status = if is_failure o then "failed" else "sent";
  final_id = if is_failure o || int_same o.final_id (pos 0) then none else some o.final_id;
  error = if is_failure o then some o.td_err else none;
  created_at = since;
}

-- When the row was created, `now` for a row that is not there yet.
abbrev pub created : Option SendRow → Time → Time
created none now = now
created (some row) now = row.created_at

pub record_send_outcome : SendTable → SendKey → Outcome → Time → SendTable
record_send_outcome t k o now = put t k (row_of o (created (get t k) now))

pub record SentMessage : Type 0 where
  pub status : String
  pub final_id : ℤ
  pub error : String

abbrev id_or_zero : Option ℤ → ℤ
id_or_zero none = pos 0
id_or_zero (some n) = n

abbrev error_or_empty : Option String → String
error_or_empty none = ""
error_or_empty (some e) = e

abbrev pub message_of : Option SendRow → Option SentMessage
message_of none = none
message_of (some row) = some (record {
  status = row.status;
  final_id = id_or_zero row.final_id;
  error = error_or_empty row.error;
})

-- `GetSend`; `none` is not found.
pub get_send : SendTable → SendKey → Option SentMessage
get_send t k = message_of (get t k)

-- `PurgeSends`: the rows left, and how many were dropped.
purge_sends : SendTable → Time → SendTable × ℕ
purge_sends t before = (
  select (λ (r : SendKey × SendRow). not (ltb r.1.created_at before)) t,
  length (select (λ (r : SendKey × SendRow). ltb r.1.created_at before) t),
)
