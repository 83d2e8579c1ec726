-- ===== src/Examples/Logins.antt =====
-- A login on concrete answers of Telegram (internal/session/authorizer.go, internal/session/manager.go).
use tg_control_api_server.Prelude.{ℕ, ◌+◌, suc, ◌≤◌, ◌≡◌, refl, true, false, none, some, ◌∷◌, ◌is◌}
use tg_control_api_server.Session.Live.{new_live_session, ready_client, abort_login, in_flight}
use tg_control_api_server.Session.Login.{
  between, wait_parameters, wait_phone, wait_code, ready, code, over, AuthHandler, Login, handle,
  fatal, submit, take_value, answered, channel, status_of, hand_over, aborted, told, hands, resends,
  resend_code, Reach, here, next, begin,
}
use tg_control_api_server.Session.Login.Requests.{phone_count}
use tg_control_api_server.Session.Login.Codes.{resend_count, resends_in, one_code_request}
use tg_control_api_server.Session.Login.Usable.{ready_client-over}
use tg_control_api_server.Session.Login.Attempts.{
  Waits, waiting_state, after_refusal, refused_retry,
}
use tg_control_api_server.Session.Login.Overlap.{overlapping, overlapping_submits}
use tg_control_api_server.Session.Login.Stages.{Run, stage}
use tg_control_api_server.Session.Login.Aborting.{abort_ends}

abbrev operator : AuthHandler
operator = record { has_proxy = true; bot_token = ""; phone_sent = false; rehydrate = false }

abbrev restorer : AuthHandler
restorer = record { has_proxy = true; bot_token = ""; phone_sent = false; rehydrate = true }

abbrev started : Login
started = begin operator "user" true

-- The code is requested, and the login waits for it.
abbrev asked : Login
asked = handle (handle started 1 wait_parameters none none) 1 wait_phone none none

abbrev waiting : Login
waiting = handle asked 1 (wait_code (some "sms")) none none

to_asked : Reach started asked
unfolding handle fatal
to_asked =
    next (next here (told started 1 wait_parameters none none refl))
      (told (handle started 1 wait_parameters none none) 1 wait_phone none none refl)

to_waiting : Reach started waiting
unfolding handle fatal
to_waiting = next to_asked (told asked 1 (wait_code (some "sms")) none none refl)

abbrev resent : Login
resent = resend_code waiting none

to_resent : Reach started resent
to_resent = next to_waiting (resends waiting none)

one_code_request_example :
    (phone_count resent.requests ≤ 1) × (resend_count resent.requests ≤ resends_in to_resent)
one_code_request_example = one_code_request operator "user" true to_resent

abbrev restoring : Login
restoring = handle (begin restorer "user" false) 1 wait_parameters none none

to_restoring : Reach (begin restorer "user" false) restoring
to_restoring = next here (told (begin restorer "user" false) 1 wait_parameters none none refl)

abbrev online : Login
online = hand_over (handle restoring 1 ready none none) 1

to_online : Reach (begin restorer "user" false) online
unfolding handle fatal
to_online =
    next (next to_restoring (told restoring 1 ready none none refl))
      (hands (handle restoring 1 ready none none) 1 refl)

usable : ready_client online.live ≡ some 1
unfolding ready_client hand_over handle fatal new_live_session
usable = refl

ready_client-over_example : online.phase ≡ over
ready_client-over_example = ready_client-over restorer "user" false to_online usable

waits : Waits waiting code
unfolding handle fatal new_live_session
waits = (refl, refl, refl)

not_restored : waiting.handler.rehydrate ≡ false
unfolding handle fatal
not_restored = refl

refused_retry_example :
    let m = after_refusal waiting code "12345" "PHONE_CODE_INVALID" in
    let n = handle m 1 (waiting_state code none) none none in
    ((submit waiting code "12345").1 ≡ true)
    × (m.verdicts
        ≡ record { channel = waiting.attempts; error = some "PHONE_CODE_INVALID" }
          ∷ waiting.verdicts)
    × (m.phase ≡ between)
    × (m.live.status ≡ status_of code)
    × (m.live.last_err ≡ "PHONE_CODE_INVALID")
    × Waits n code
    × ((submit n code "54321").1 ≡ true)
refused_retry_example =
    refused_retry waiting 1 code "12345" "PHONE_CODE_INVALID" "54321" none none none waits
      not_restored

overlapping_submits_example :
    let m = answered (overlapping waiting code "12345" "54321") (some "PHONE_CODE_INVALID") in
    let n =
      answered (take_value (handle m 1 (waiting_state code none) none none) code "54321") none in
    ((submit (take_value (submit waiting code "12345").0 code "12345") code "54321").1 ≡ true)
    × (m.verdicts
        ≡ record { channel = suc waiting.attempts; error = some "PHONE_CODE_INVALID" }
          ∷ waiting.verdicts)
    × (channel (handle m 1 (waiting_state code none) none none) code ≡ some "54321")
    × (n.verdicts ≡ m.verdicts)
overlapping_submits_example =
    overlapping_submits waiting 1 code "12345" "54321" none none none (some "PHONE_CODE_INVALID")
      none waits not_restored

unfinished :
    (waiting.live.canceled ≡ false)
    × (waiting.live.login_done ≡ some false)
    × ((waiting.live.status is "authorized") ≡ false)
unfolding handle fatal new_live_session
unfinished = (refl, refl, refl)

abort_ends_example :
    ((n : ℕ) (m : Login) → Run n (aborted waiting) m → m ≡ stage waiting n)
    × ((n : ℕ) → Run n (aborted waiting) (stage waiting n))
    × ((n : ℕ) → stage waiting (3 + n) ≡ stage waiting 3)
    × ((n : ℕ) → (stage waiting n).requests ≡ waiting.requests)
    × ((stage waiting 3).live.status ≡ "error")
    × ((stage waiting 3).live.client ≡ none)
    × (in_flight (stage waiting 3).live.login_done ≡ false)
    × ((abort_login waiting.live).1 ≡ true)
    × ((abort_login (aborted waiting).live).1 ≡ false)
abort_ends_example =
    abort_ends waiting code waits.0 waits.2 unfinished.0 unfinished.1 unfinished.2 not_restored
