-- ===== src/Session/Login.antt =====
-- A login in flight: the authorizer that drives TDLib (internal/session/authorizer.go), what the
-- operator sends it (internal/session/manager.go, `submit` and `ResendCode`), and the goroutine of
-- `CreateUser` around it. TDLib decides which state comes next and how it answers; the steps are the
-- orders in which the goroutines may interleave.
pub mod Requests
pub mod Codes
pub mod Usable
pub mod Attempts
pub mod Overlap
pub mod Stages
pub mod Aborting
use tg_control_api_server.Prelude.{
  ℕ, suc, ◌+◌, String, Bool, true, false, not, ◌&&◌, ◌||◌, ◌≡◌, Option, none, some, List, [], ◌∷◌,
  ◌++◌, ◌is◌, if◌then◌else◌,
}
use tg_control_api_server.Session.Live.{
  Live, Verdict, set_status, set_client, begin_login, fail_login, arm_attempt, report_attempt,
  set_last_err, set_code_info, abort_login, new_live_session,
}

pub data Request : Type 0 where
  set_parameters add_proxy send_phone resend : Request
  check_bot_token check_code check_password : String → Request

pub data AuthState : Type 0 where
  wait_parameters wait_phone wait_password ready closing closed unsupported : AuthState
  wait_code : Option String → AuthState

pub data Field : Type 0 where
  code password : Field

pub record AuthHandler : Type 0 where
  pub has_proxy : Bool
  pub bot_token : String
  pub phone_sent : Bool
  pub rehydrate : Bool

-- Where the login is: the authorizer between two states, blocked on the operator, checking a value,
-- done with an error, at Ready, or the goroutine at its end.
pub data Phase : Type 0 where
  between passed over : Phase
  awaiting checking : Field → Phase
  broken : String → Phase

pub record Login : Type 0 where
  pub handler : AuthHandler
  pub live : Live
  pub phase : Phase
  pub code_ch : Option String
  pub password_ch : Option String
  -- what was sent to Telegram, and the verdicts, the last one first
  pub requests : List Request
  pub verdicts : List Verdict
  pub attempts : ℕ

abbrev rehydrate_expired : String
rehydrate_expired = "session not authorized in binlog (needs re-login)"

abbrev pub login_canceled : String
login_canceled = "login canceled"

abbrev pub login_restart : String
login_restart = "login attempt expired; start a new login"

abbrev pub not_supported : String
not_supported = "not supported state"

-- `fatal`, after a request was sent.
unfoldable pub fatal : Login → Option String → Login
fatal l none = l
fatal l (some e) = record l { live = set_last_err l.live e; phase = broken e }

abbrev pub sends : Login → Request → Login
sends l r = record l { requests = r ∷ l.requests }

-- The head of `await`, up to the select.
abbrev pub status_of : Field → String
status_of code = "awaiting_code"
status_of password = "awaiting_password"

pub await : Login → ℕ → Field → Login
unfolding set_status begin_login
await l cl f = record l {
  live = set_status (begin_login l.live cl) (status_of f);
  phase = awaiting f;
}

abbrev pub then_proxy : Login → Option String → Option String → Login
then_proxy l (some e) proxy_answer = fatal (sends l set_parameters) (some e)
then_proxy l none proxy_answer =
    if l.handler.has_proxy
    then fatal (sends (sends l set_parameters) add_proxy) proxy_answer
    else sends l set_parameters

abbrev pub wait_phone_number : Login → ℕ → Option String → Login
wait_phone_number l cl answer =
    if l.handler.rehydrate
    then record l { phase = broken rehydrate_expired }
    else if not (l.handler.bot_token is "")
    then fatal (sends l (check_bot_token l.handler.bot_token)) answer
    else if l.handler.phone_sent
    then fatal l (some login_restart)
    else fatal
        (sends
          (record l {
            handler = record l.handler { phone_sent = true };
            live = begin_login l.live cl;
          })
          send_phone)
        answer

-- `Handle`: the client, the state, and the answers to its first and second request.
unfoldable pub handle : Login → ℕ → AuthState → Option String → Option String → Login
unfolding fatal await set_code_info set_last_err begin_login
handle l cl wait_parameters answer second = then_proxy l answer second
handle l cl wait_phone answer second = wait_phone_number l cl answer
handle l cl (wait_code info) answer second =
    if l.handler.rehydrate
    then record l { phase = broken rehydrate_expired }
    else await (record l { live = set_code_info l.live info }) cl code
handle l cl wait_password answer second =
    if l.handler.rehydrate
    then record l { phase = broken rehydrate_expired }
    else await l cl password
handle l cl ready answer second = record l { phase = passed }
handle l cl closing answer second = l
handle l cl closed answer second = l
handle l cl unsupported answer second = fatal l (some not_supported)

-- The rest of `await`, once the operator's value is there: the check, and its verdict.
abbrev check : Field → String → Request
check code v = check_code v
check password v = check_password v

abbrev channel_emptied : Login → Field → Login
channel_emptied l code = record l { code_ch = none }
channel_emptied l password = record l { password_ch = none }

pub take_value : Login → Field → String → Login
take_value l f v = record (sends (channel_emptied l f) (check f v)) { phase = checking f }

pub answered : Login → Option String → Login
unfolding report_attempt
answered l answer = record l {
  phase = between;
  live = (report_attempt l.live answer).0;
  verdicts = (report_attempt l.live answer).1 ++ l.verdicts;
}

abbrev pub channel : Login → Field → Option String
channel l code = l.code_ch
channel l password = l.password_ch

abbrev pub channel_filled : Login → Field → String → Login
channel_filled l code v = record l { code_ch = some v }
channel_filled l password v = record l { password_ch = some v }

-- `submit`, up to the wait for its verdict; whether the value was taken.
abbrev pub push : Login → Field → String → Option String → Login × Bool
push l f v none = (channel_filled l f v, true)
push l f v (some w) = (l, false)

pub submit : Login → Field → String → Login × Bool
unfolding arm_attempt
submit l f v =
    if not (l.live.status is status_of f)
    then (l, false)
    else push (record l { live = arm_attempt l.live l.attempts; attempts = suc l.attempts }) f v
        (channel l f)

-- `ResendCode`.
abbrev pub has_client : Option ℕ → Bool
has_client none = false
has_client (some cl) = true

abbrev note_refusal : Live → Option String → Live
note_refusal s none = s
note_refusal s (some e) = set_last_err s e

pub resend_code : Login → Option String → Login
unfolding set_last_err
resend_code l answer =
    if not (l.live.status is "awaiting_code")
    then l
    else if not (has_client l.live.client)
    then l
    else record (sends l resend) { live = note_refusal l.live answer }

-- The goroutine of `CreateUser`: NewClient has failed, or has handed the client over; and its end.
pub give_up : Login → String → Login
unfolding fail_login
give_up l e = record l { live = fail_login l.live e; phase = over }

unfoldable pub hand_over : Login → ℕ → Login
unfolding set_client
hand_over l cl = record l { live = set_client l.live cl; phase = over }

abbrev pub closed_now : Option Bool → Option Bool
closed_now none = none
closed_now (some done) = some true

pub unwind : Login → Login
unwind l = record l { live = record l.live { login_done = closed_now l.live.login_done } }

-- `abortLogin` by a delete or a shutdown.
pub aborted : Login → Login
unfolding abort_login
aborted l = record l { live = (abort_login l.live).0 }

-- One step of one of the goroutines. A restored session ends `broken` where it stands: its entry is
-- dropped by `rehydrateOne`.
pub data Step : Login → Login → Type 0 where
  told :
      (l : Login) (cl : ℕ) (s : AuthState) (a b : Option String)
      → l.phase ≡ between
      → Step l (handle l cl s a b)
  takes :
      (l : Login) (f : Field) (v : String)
      → l.phase ≡ awaiting f
      → channel l f ≡ some v
      → Step l (take_value l f v)
  answers :
      (l : Login) (f : Field) (a : Option String) → l.phase ≡ checking f → Step l (answered l a)
  cancels :
      (l : Login) (f : Field)
      → l.phase ≡ awaiting f
      → l.live.canceled ≡ true
      → Step l (record l { phase = broken login_canceled })
  hands : (l : Login) (cl : ℕ) → l.phase ≡ passed → Step l (hand_over l cl)
  fails :
      (l : Login) (e : String)
      → l.phase ≡ broken e
      → l.handler.rehydrate ≡ false
      → Step l (give_up l e)
  unwinds : (l : Login) → l.phase ≡ over → Step l (unwind l)
  submits : (l : Login) (f : Field) (v : String) → Step l (submit l f v).0
  resends : (l : Login) (a : Option String) → Step l (resend_code l a)
  aborts : (l : Login) → Step l (aborted l)

pub data Reach (s : Login) : Login → Type 0 where
  here : Reach s s
  next : {t u : Login} → Reach s t → Step t u → Reach s u

-- A login as `CreateUser`, `CreateBot` and `rehydrateOne` start it.
abbrev pub begin : AuthHandler → String → Bool → Login
begin h kind interactive = record {
  handler = h;
  live = new_live_session kind interactive;
  phase = between;
  code_ch = none;
  password_ch = none;
  requests = [];
  verdicts = [];
  attempts = 0;
}
