-- ===== src/Session/Login/Attempts.antt =====
-- What becomes of the values that an operator submits, and of an aborted login.
use tg_control_api_server.Prelude.{
  ℕ, suc, ◌≡◌, refl, by_test, not, is_iff, String, Bool, true, false, Option, none, some, ◌∷◌, ◌is◌,
  arith,
}
use tg_control_api_server.Session.Live.{
  Live, set_status, begin_login, arm_attempt, report_attempt, set_code_info,
}
use tg_control_api_server.Session.Login.{
  Login, Field, code, password, between, awaiting, channel, submit, take_value, answered, await,
  status_of, push, channel_filled, handle, AuthState, wait_code, wait_password,
}

-- Blocked on the operator, nothing submitted yet.
abbrev pub Waits : Login → Field → Type 0
Waits l f = (l.phase ≡ awaiting f) × (l.live.status ≡ status_of f) × (channel l f ≡ none)

push-none :
    (l : Login) (f : Field) (v : String) (o : Option String)
    → o ≡ none
    → push l f v o ≡ (channel_filled l f v, true)
push-none l f v none e = refl
push-none l f v (some w) e = absurd (cc)

abbrev pub armed : Login → Login
armed l = record l { live = arm_attempt l.live l.attempts; attempts = suc l.attempts }

pub submit_accepted :
    (l : Login) (f : Field) (v : String)
    → l.live.status ≡ status_of f
    → channel l f ≡ none
    → submit l f v ≡ (channel_filled (armed l) f v, true)
unfolding submit
submit_accepted l f v s c =
    by_test (λ (r : Login × Bool). r ≡ (channel_filled (armed l) f v, true))
      (not (l.live.status is status_of f)) _ _
      (λ e. absurd (ground (arith, is_iff l.live.status (status_of f), e, s)))
      (λ e. push-none (armed l) f v (channel l f) c)

pub set_status-status : (s : Live) (st : String) → (set_status s st).status ≡ st
unfolding set_status
set_status-status s st =
    by_test (λ (t : Live). t.status ≡ st) (s.status is st) _ _ (λ e. (is_iff s.status st).0 e)
      (λ e. refl)

-- The state in which TDLib waits for the field.
abbrev pub waiting_state : Field → Option String → AuthState
waiting_state code info = wait_code info
waiting_state password info = wait_password

-- A value that the operator submits while the login waits for it, and that Telegram refuses.
abbrev pub after_refusal : Login → Field → String → String → Login
after_refusal l f v e = answered (take_value (submit l f v).0 f v) (some e)

Waits-again :
    (l : Login) (cl : ℕ) (f : Field) (i a b : Option String)
    → l.handler.rehydrate ≡ false
    → channel l f ≡ none
    → Waits (handle l cl (waiting_state f i) a b) f
unfolding handle await set_code_info begin_login
Waits-again l cl code i a b r c =
    by_test (λ (m : Login). Waits m code) l.handler.rehydrate _ _ (λ e. absurd (cc))
      (λ e. (refl, set_status-status (begin_login (set_code_info l.live i) cl) "awaiting_code", c))
Waits-again l cl password i a b r c =
    by_test (λ (m : Login). Waits m password) l.handler.rehydrate _ _ (λ e. absurd (cc))
      (λ e. (refl, set_status-status (begin_login l.live cl) "awaiting_password", c))

takes_submit : (l : Login) (f : Field) (v : String) → Waits l f → (submit l f v).1 ≡ true
takes_submit l f v w = rw (submit_accepted l f v w.1 w.2) refl

abbrev refusal : Login → Field → String → String → Login
refusal l f v e = answered (take_value (channel_filled (armed l) f v) f v) (some e)

-- A refused code or password does not end the login: its submitter is told Telegram's refusal, the
-- authorizer goes back to following TDLib's states, the status stays and names the refusal, and once
-- TDLib asks for the field again a new value is taken.
pub refused_retry :
    (l : Login) (cl : ℕ) (f : Field) (v e v' : String) (i a b : Option String)
    → Waits l f
    → l.handler.rehydrate ≡ false
    → let m = after_refusal l f v e in
      let n = handle m cl (waiting_state f i) a b in
      ((submit l f v).1 ≡ true)
      × (m.verdicts ≡ record { channel = l.attempts; error = some e } ∷ l.verdicts)
      × (m.phase ≡ between)
      × (m.live.status ≡ status_of f)
      × (m.live.last_err ≡ e)
      × Waits n f
      × ((submit n f v').1 ≡ true)
unfolding answered take_value report_attempt arm_attempt
refused_retry l cl code v e v' i a b w r =
    let n = Waits-again (refusal l code v e) cl code i a b r refl in
    rw (submit_accepted l code v w.1 w.2) (
      refl,
      refl,
      refl,
      w.1,
      refl,
      n,
      takes_submit (handle (refusal l code v e) cl (wait_code i) a b) code v' n,
    )
refused_retry l cl password v e v' i a b w r =
    let n = Waits-again (refusal l password v e) cl password i a b r refl in
    rw (submit_accepted l password v w.1 w.2) (
      refl,
      refl,
      refl,
      w.1,
      refl,
      n,
      takes_submit (handle (refusal l password v e) cl wait_password a b) password v' n,
    )
