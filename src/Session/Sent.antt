-- ===== src/Session/Sent.antt =====
-- What a worker does with the messages of a send: the uploads it removes once TDLib has confirmed
-- (internal/session/uploads.go) and the outcomes it hands to the registry (internal/session/sends.go).
-- A result and an update are taken as encoding/json decoded them.
pub mod Cleanup
pub mod Resolution
use tg_control_api_server.Prelude.{
  ℕ, suc, ◌+◌, String, Bool, true, false, not, ◌&&◌, ◌||◌, Option, none, some, List, [], ◌∷◌, ◌++◌,
  ltb, ◌is◌, if◌then◌else◌, length, ℤ, pos, int_same, Map, get, put, remove, int_eq,
}
use tg_control_api_server.Tdjson.{TdError, Text}
use tg_control_api_server.Store.Limits.{Time}
use tg_control_api_server.Store.Sends.{
  SendKey, SendTable, Outcome, register_send, record_send_outcome,
}

-- `sendResultMessage`, but for its `messages`; the two states are their types.
pub record Message : Type 0 where
  pub type : String
  pub id : ℤ
  pub chat_id : ℤ
  pub sending_state : Option String
  pub scheduling_state : Option String

pub record SendResult : Type 0 where
  pub own : Message
  pub messages : List Message

pub record SentRef : Type 0 where
  pub chat_id : ℤ
  pub id : ℤ
  pub pending : Bool

abbrev is_sending : Option String → Bool
is_sending none = false
is_sending (some s) = s is "messageSendingStatePending"

abbrev is_unset : Option String → Bool
is_unset none = true
is_unset (some s) = false

pub ref : Message → SentRef
ref m = record {
  chat_id = m.chat_id;
  id = m.id;
  pending = is_sending m.sending_state && is_unset m.scheduling_state;
}

abbrev is_set : ℤ → Bool
is_set n = not (int_same n (pos 0))

pub refs_of : List Message → List SentRef
unfolding ref
refs_of [] = []
refs_of (m ∷ ms) = let rest = refs_of ms in if is_set m.id then ref m ∷ rest else rest

-- `extractSentRefs`; `none` is a result that does not decode.
pub extract_sent_refs : Option SendResult → List SentRef
unfolding refs_of ref
extract_sent_refs none = []
extract_sent_refs (some r) =
    if (r.own.type is "message") && is_set r.own.id then ref r.own ∷ [] else refs_of r.messages

-- The manager's map from a temporary message id to the upload directories to remove.
abbrev pub Pending : Type 0
Pending = Map ℤ (List Text)

pub track_loop : Pending → List SentRef → List Text → Pending
track_loop p [] dirs = p
track_loop p (r ∷ rs) dirs = track_loop (put p r.id dirs) rs dirs

pub track_upload : Pending → Option SendResult → List Text → Pending
unfolding track_loop extract_sent_refs
track_upload p res dirs = track_loop p (extract_sent_refs res) dirs

abbrev pub dirs_of : Option (List Text) → List Text
dirs_of none = []
dirs_of (some dirs) = dirs

-- `finishUpload`: the map, and the directories it removes from the disk.
pub finish_upload : Pending → ℤ → Pending × List Text
finish_upload p old_message_id =
    if int_same old_message_id (pos 0)
    then (p, [])
    else (remove p old_message_id, dirs_of (get p old_message_id))

-- `registerSends`, each insert succeeding or not.
pub register_loop : (ℕ → Bool) → ℕ → SendTable → String → List SentRef → Time → SendTable
register_loop ok i t session_id [] now = t
register_loop ok i t session_id (r ∷ rs) now =
    register_loop ok (suc i)
      (if r.pending && ok i
        then register_send t
            (record { session_id = session_id; chat_id = r.chat_id; temp_id = r.id }) now
        else t)
      session_id rs now

unfoldable pub register_sends :
    (ℕ → Bool) → SendTable → String → Option SendResult → Time → SendTable
unfolding register_loop extract_sent_refs
register_sends ok t session_id res now = register_loop ok 0 t session_id (extract_sent_refs res) now

-- `updateMessageSendSucceeded` or `updateMessageSendFailed`.
pub record SendUpdate : Type 0 where
  pub old_message_id : ℤ
  pub message_id : ℤ
  pub message_chat_id : ℤ
  pub error : Option TdError

pub record SendOutcome : Type 0 where
  pub key : SendKey
  pub outcome : Outcome

abbrev pub send_queue : ℕ
send_queue = 256

-- The td_api error as JSON is `render`'s.
abbrev rendered : (TdError → String) → Option TdError → String
rendered render none = ""
rendered render (some e) = render e

abbrev pub outcome_of : (TdError → String) → String → SendUpdate → SendOutcome
outcome_of render session_id u = record {
  key = record { session_id = session_id; chat_id = u.message_chat_id; temp_id = u.old_message_id };
  outcome = record { final_id = u.message_id; td_err = rendered render u.error };
}

-- `noteSendOutcome`: the queue to the writer, which drops what it has no room for.
pub note_send_outcome :
    (TdError → String) → List SendOutcome → String → SendUpdate → List SendOutcome
note_send_outcome render queue session_id u =
    if int_same u.old_message_id (pos 0) || int_same u.message_chat_id (pos 0)
    then queue
    else if ltb (length queue) send_queue
    then queue ++ (outcome_of render session_id u ∷ [])
    else queue

-- `runSendWriter` on what is queued: whether each write succeeds, and when.
pub run_send_writer : (ℕ → Bool) → (ℕ → Time) → ℕ → SendTable → List SendOutcome → SendTable
run_send_writer ok clock i t [] = t
run_send_writer ok clock i t (o ∷ os) =
    run_send_writer ok clock (suc i)
      (if ok i then record_send_outcome t o.key o.outcome (clock i) else t) os
