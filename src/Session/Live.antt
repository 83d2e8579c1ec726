-- ===== src/Session/Live.antt =====
-- The live state of one account (internal/session/manager.go, `liveSession` and its methods). A TDLib
-- client and an attempt's channel are numbers; an error is its text.
use tg_control_api_server.Prelude.{
  ℕ, String, Bool, true, false, not, ◌||◌, Option, none, some, List, [], ◌∷◌, ◌is◌, if◌then◌else◌,
}

pub record Live : Type 0 where
  pub kind : String
  pub status : String
  pub client : Option ℕ
  pub err : Option String
  pub logging_in : Bool
  pub code_info : Option String
  pub last_err : String
  -- the channel of the attempt being checked
  pub attempt : Option ℕ
  pub canceled : Bool
  -- none for a session that is not an interactive login; otherwise whether the login has unwound
  pub login_done : Option Bool
  -- the statuses sent to the registry, the last one first
  pub mirrored : List String

-- `newLiveSession`.
unfoldable pub new_live_session : String → Bool → Live
new_live_session kind interactive = record {
  kind = kind;
  status = "connecting";
  client = none;
  err = none;
  logging_in = false;
  code_info = none;
  last_err = "";
  attempt = none;
  canceled = false;
  login_done = if interactive then some false else none;
  mirrored = [];
}

-- `setStatus`: a change is sent to the registry.
unfoldable pub set_status : Live → String → Live
set_status s st = if s.status is st then s else record s { status = st; mirrored = st ∷ s.mirrored }

unfoldable pub set_client : Live → ℕ → Live
unfolding set_status
set_client s cl = set_status (record s { client = some cl; logging_in = false }) "authorized"

unfoldable pub ready_client : Live → Option ℕ
ready_client s = if s.logging_in || not (s.status is "authorized") then none else s.client

unfoldable pub begin_login : Live → ℕ → Live
begin_login s cl = record s { client = some cl; logging_in = true }

unfoldable pub fail_login : Live → String → Live
unfolding set_status
fail_login s e =
    let t = record s { err = some e; client = none; logging_in = false; last_err = e } in
    if s.status is "authorized" then t else set_status t "error"

-- `armAttempt`, with a fresh channel.
unfoldable pub arm_attempt : Live → ℕ → Live
arm_attempt s ch = record s { attempt = some ch; last_err = "" }

abbrev text_or : String → Option String → String
text_or old none = old
text_or old (some e) = e

-- A verdict: the channel that receives it, and the error, none for an accepted value.
pub record Verdict : Type 0 where
  pub channel : ℕ
  pub error : Option String

abbrev pub sent_on : Option ℕ → Option String → List Verdict
sent_on none e = []
sent_on (some ch) e = record { channel = ch; error = e } ∷ []

-- `reportAttempt`: the session, and the verdict it sends.
unfoldable pub report_attempt : Live → Option String → Live × List Verdict
report_attempt s e =
    (record s { attempt = none; last_err = text_or s.last_err e }, sent_on s.attempt e)

unfoldable pub set_last_err : Live → String → Live
set_last_err s e = record s { last_err = e }

-- The information as JSON, none for nil.
abbrev or_else : Option String → Option String → Option String
or_else none old = old
or_else (some i) old = some i

unfoldable pub set_code_info : Live → Option String → Live
set_code_info s info = record s { code_info = or_else info s.code_info }

abbrev pub in_flight : Option Bool → Bool
in_flight none = false
in_flight (some done) = not done

-- `abortLogin`: whether a login was in flight.
unfoldable pub abort_login : Live → Live × Bool
abort_login s =
    if s.canceled
    then (s, false)
    else if in_flight s.login_done
    then (record s { canceled = true }, true)
    else (s, false)

-- What `state` reports of the login.
pub record SessionState : Type 0 where
  pub status : String
  pub code_info : Option String
  pub last_error : String

unfoldable pub state : Live → SessionState
state s =
    if s.status is "awaiting_code"
    then record { status = s.status; code_info = s.code_info; last_error = s.last_err }
    else if s.status is "authorized"
    then record { status = s.status; code_info = none; last_error = "" }
    else record { status = s.status; code_info = none; last_error = s.last_err }
