-- ===== src/Session/Sent/Resolution.antt =====
-- How the registry learns what became of a send.
use tg_control_api_server.Prelude.{
  ℕ, suc, ◌+◌, ◌<◌, ◌≡◌, ◌≢◌, refl, subst, String, Bool, true, false, List, [], ◌∷◌, ◌++◌, ℤ, pos,
  int_same, int_same_iff, arith, length, lt→ltb, same_refl, if◌then◌else◌,
}
use tg_control_api_server.Tdjson.{TdError}
use tg_control_api_server.Store.Limits.{Time}
use tg_control_api_server.Store.Sends.{
  SendKey, SendTable, Outcome, send_eq, record_send_outcome, get_send,
}
use tg_control_api_server.Store.Sends.Resolved.{told, ended, get_send-record}
use tg_control_api_server.Session.Sent.{
  SendUpdate, SendOutcome, outcome_of, note_send_outcome, run_send_writer, send_queue,
}

plus_zero : (i : ℕ) → i + 0 ≡ i
plus_zero i = omega arith

zero_plus : (i : ℕ) → i ≡ 0 + i
zero_plus i = omega arith

plus_suc : (i n : ℕ) → i + suc n ≡ suc i + n
plus_suc i n = omega arith

not_zero : (n : ℤ) → n ≢ pos 0 → int_same n (pos 0) ≡ false
not_zero n h = ground (arith, int_same_iff n (pos 0))

noted :
    (render : TdError → String) (queue : List SendOutcome) (session_id : String) (u : SendUpdate)
    → u.old_message_id ≢ pos 0
    → u.message_chat_id ≢ pos 0
    → length queue < send_queue
    → note_send_outcome render queue session_id u ≡ queue ++ (outcome_of render session_id u ∷ [])
unfolding note_send_outcome
noted render queue session_id u n c room =
    rw (not_zero u.old_message_id n)
      (rw (not_zero u.message_chat_id c) (rw (lt→ltb (length queue) send_queue room) refl))

answered :
    (t : SendTable) (k : SendKey) (o : Outcome) (now : Time)
    → get_send (record_send_outcome t k o now) k ≡ told (ended o)
answered t k o now = rw (get_send-record t k k o now) (rw (same_refl k) refl)

module _ (ok : ℕ → Bool) (clock : ℕ → Time) where
  run_append :
      (i : ℕ) (t : SendTable) (os : List SendOutcome) (o : SendOutcome)
      → run_send_writer ok clock i t (os ++ (o ∷ [])) ≡ (
          if ok (i + length os)
          then record_send_outcome
              (run_send_writer ok clock i t os)
              o.key
              o.outcome
              (clock (i + length os))
          else run_send_writer ok clock i t os)
  unfolding run_send_writer
  run_append i t [] o = rw (plus_zero i) refl
  run_append i t (p ∷ os) o = rw (plus_suc i (length os)) (
      run_append (suc i) (if ok i then record_send_outcome t p.key p.outcome (clock i) else t) os o)

  -- A confirmation that names its message and finds room in the queue is what the registry answers
  -- for that message once the writer has drained the queue, if its own write succeeds: whatever was
  -- queued before it, and whether or not the send had been registered.
  pub get_send-note_send_outcome :
      (render : TdError → String) (t : SendTable) (queue : List SendOutcome) (session_id : String)
      (u : SendUpdate)
      → u.old_message_id ≢ pos 0
      → u.message_chat_id ≢ pos 0
      → length queue < send_queue
      → ok (length queue) ≡ true
      → let o = outcome_of render session_id u in
        get_send (run_send_writer ok clock 0 t (note_send_outcome render queue session_id u)) o.key
        ≡ told (ended o.outcome)
  get_send-note_send_outcome render t queue session_id u n c room w =
      let o = outcome_of render session_id u in
      rw (noted render queue session_id u n c room) (
        rw (run_append 0 t queue o) (
          rw (subst (λ n. ok n ≡ true) (zero_plus (length queue)) w) (
            answered (run_send_writer ok clock 0 t queue) o.key o.outcome
              (clock (0 + length queue)))))
