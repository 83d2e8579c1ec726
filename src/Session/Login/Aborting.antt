-- ===== src/Session/Login/Aborting.antt =====
-- What becomes of an aborted login.
use tg_control_api_server.Prelude.{
  ℕ, zero, suc, ◌+◌, ◌≡◌, refl, ap, sym, subst, by_test, String, Bool, true, false, Option, none,
  some, ◌is◌, arith,
}
use tg_control_api_server.Session.Live.{Live, set_status, fail_login, abort_login, in_flight}
use tg_control_api_server.Session.Login.{
  Login, Field, awaiting, aborted, closed_now, give_up, unwind, login_canceled, channel,
}
use tg_control_api_server.Session.Login.Attempts.{set_status-status}
use tg_control_api_server.Session.Login.Stages.{Run, stage, abort_login_first, Run-stage, stage-Run}

set_status-client : (s : Live) (st : String) → (set_status s st).client ≡ s.client
unfolding set_status
set_status-client s st =
    by_test (λ (t : Live). t.client ≡ s.client) (s.status is st) _ _ (λ e. refl) (λ e. refl)

set_status-login_done : (s : Live) (st : String) → (set_status s st).login_done ≡ s.login_done
unfolding set_status
set_status-login_done s st =
    by_test (λ (t : Live). t.login_done ≡ s.login_done) (s.status is st) _ _ (λ e. refl) (λ e. refl)

abbrev failed : Live → String → Live
failed s e = record s { err = some e; client = none; logging_in = false; last_err = e }

abbrev Failed : Live → Live → Type 0
Failed s t = (t.status ≡ "error") × (t.client ≡ none) × (t.login_done ≡ s.login_done)

fail_login-Failed :
    (s : Live) (e : String) → (s.status is "authorized") ≡ false → Failed s (fail_login s e)
unfolding fail_login
fail_login-Failed s e u =
    by_test (Failed s) (s.status is "authorized") _ _ (λ x. absurd (cc))
      (λ x. (
        set_status-status (failed s e) "error",
        set_status-client (failed s e) "error",
        set_status-login_done (failed s e) "error",
      ))

second_abort : (s : Live) → s.canceled ≡ true → (abort_login s).1 ≡ false
unfolding abort_login
second_abort s c =
    by_test (λ (r : Live × Bool). r.1 ≡ false) s.canceled _ _ (λ e. refl) (λ e. absurd (cc))

unwound : (o : Option Bool) → in_flight (closed_now o) ≡ false
unwound none = refl
unwound (some b) = refl

stage-requests : (l : Login) (n : ℕ) → (stage l n).requests ≡ l.requests
unfolding stage aborted give_up unwind
stage-requests l zero = refl
stage-requests l (suc zero) = refl
stage-requests l (suc (suc zero)) = refl
stage-requests l (suc (suc (suc n))) = refl

three_more : (n : ℕ) → 3 + n ≡ suc (suc (suc n))
three_more n = omega arith

settled : (l : Login) (n : ℕ) → stage l (3 + n) ≡ stage l 3
unfolding stage
settled l n = ap (λ k. stage l k) (three_more n)

-- Abort a login that waits for the operator, with no value there to be read. If the operator submits
-- and resends nothing from then on, every run of the login's goroutines is the same: within three
-- steps the authorizer leaves its wait, the goroutine gives the client up and ends, and nothing more
-- is sent to Telegram. The session is left in error without a client, its login over. A second abort
-- finds nothing to do.
pub abort_ends :
    (l : Login) (f : Field)
    → l.phase ≡ awaiting f
    → channel l f ≡ none
    → l.live.canceled ≡ false
    → l.live.login_done ≡ some false
    → (l.live.status is "authorized") ≡ false
    → l.handler.rehydrate ≡ false
    → ((n : ℕ) (m : Login) → Run n (aborted l) m → m ≡ stage l n)
      × ((n : ℕ) → Run n (aborted l) (stage l n))
      × ((n : ℕ) → stage l (3 + n) ≡ stage l 3)
      × ((n : ℕ) → (stage l n).requests ≡ l.requests)
      × ((stage l 3).live.status ≡ "error")
      × ((stage l 3).live.client ≡ none)
      × (in_flight (stage l 3).live.login_done ≡ false)
      × ((abort_login l.live).1 ≡ true)
      × ((abort_login (aborted l).live).1 ≡ false)
unfolding stage aborted give_up unwind
abort_ends l f p q c d u r =
    let e = abort_login_first l.live c d in
    let s = (abort_login l.live).0 in
    let k =
      fail_login-Failed s login_canceled
        (subst (λ (r : Live × Bool). (r.0.status is "authorized") ≡ false) (sym e) u) in
    (
      (λ n m run. Run-stage l f p q c d r n (aborted l) m run refl),
      (λ n. stage-Run l f p q c d r n),
      (λ n. settled l n),
      (λ n. stage-requests l n),
      k.0,
      k.1,
      unwound (fail_login s login_canceled).login_done,
      ap (λ (r : Live × Bool). r.1) e,
      second_abort s (ap (λ (r : Live × Bool). r.0.canceled) e),
    )
