-- ===== src/Session/Login/Usable.antt =====
-- When the account of a login may be used.
use tg_control_api_server.Prelude.{
  ℕ, suc, ◌≡◌, ◌≢◌, refl, by_test, String, Bool, false, not, Option, none, some, ◌is◌, arith, inl,
  inr, ◌⊎◌,
}
use tg_control_api_server.Session.Live.{
  Live, new_live_session, set_status, ready_client, begin_login, arm_attempt, report_attempt,
  set_last_err, set_code_info,
}
use tg_control_api_server.Session.Login.{
  set_parameters, add_proxy, check_bot_token, AuthState, wait_parameters, wait_phone, wait_password,
  ready, closing, closed, unsupported, wait_code, Field, code, password, AuthHandler, over, Login,
  fatal, await, handle, take_value, answered, submit, resend_code, give_up, hand_over, unwind,
  aborted, sends, login_restart, not_supported, push, channel, has_client, status_of, Step, told,
  takes, answers, cancels, hands, fails, unwinds, submits, resends, aborts, Reach, here, next,
  begin,
}
use tg_control_api_server.Session.Login.Requests.{asked, abort_login-status}

-- Not authorized before the client is handed over.
abbrev Unauthorized : Login → Type 0
Unauthorized l = (l.live.status is "authorized") ≡ false

abbrev Settled : Login → Type 0
Settled l = Unauthorized l ⊎ (l.phase ≡ over)

unsettled : (l : Login) → Settled l → l.phase ≢ over → Unauthorized l
unsettled l (inl u) n = u
unsettled l (inr e) n = absurd (n e)

fatal-Unauthorized : (l : Login) (a : Option String) → Unauthorized l → Unauthorized (fatal l a)
unfolding fatal set_last_err
fatal-Unauthorized l none h = h
fatal-Unauthorized l (some e) h = h

set_status-Unauthorized :
    (s : Live) (st : String)
    → (st is "authorized") ≡ false
    → (s.status is "authorized") ≡ false
    → ((set_status s st).status is "authorized") ≡ false
unfolding set_status
set_status-Unauthorized s st n h =
    by_test (λ (t : Live). (t.status is "authorized") ≡ false) (s.status is st) _ _ (λ e. h)
      (λ e. n)

await-Unauthorized : (l : Login) (cl : ℕ) (f : Field) → Unauthorized l → Unauthorized (await l cl f)
unfolding await begin_login
await-Unauthorized l cl code h =
    set_status-Unauthorized (begin_login l.live cl) "awaiting_code" refl h
await-Unauthorized l cl password h =
    set_status-Unauthorized (begin_login l.live cl) "awaiting_password" refl h

handle-Unauthorized :
    (l : Login) (cl : ℕ) (s : AuthState) (a b : Option String)
    → Unauthorized l
    → Unauthorized (handle l cl s a b)
unfolding handle begin_login set_code_info
handle-Unauthorized l cl wait_parameters (some e) b h =
    fatal-Unauthorized (sends l set_parameters) (some e) h
handle-Unauthorized l cl wait_parameters none b h =
    by_test Unauthorized l.handler.has_proxy _ _
      (λ e. fatal-Unauthorized (sends (sends l set_parameters) add_proxy) b h) (λ e. h)
handle-Unauthorized l cl wait_phone a b h =
    by_test Unauthorized l.handler.rehydrate _ _ (λ e. h)
      (λ e.
        by_test Unauthorized (not (l.handler.bot_token is "")) _ _
          (λ f. fatal-Unauthorized (sends l (check_bot_token l.handler.bot_token)) a h)
          (λ f.
            by_test Unauthorized l.handler.phone_sent _ _
              (λ g. fatal-Unauthorized l (some login_restart) h)
              (λ g. fatal-Unauthorized (asked l cl) a h)))
handle-Unauthorized l cl (wait_code i) a b h =
    by_test Unauthorized l.handler.rehydrate _ _ (λ e. h)
      (λ e. await-Unauthorized (record l { live = set_code_info l.live i }) cl code h)
handle-Unauthorized l cl wait_password a b h =
    by_test Unauthorized l.handler.rehydrate _ _ (λ e. h) (λ e. await-Unauthorized l cl password h)
handle-Unauthorized l cl ready a b h = h
handle-Unauthorized l cl closing a b h = h
handle-Unauthorized l cl closed a b h = h
handle-Unauthorized l cl unsupported a b h = fatal-Unauthorized l (some not_supported) h

push-Settled :
    (l : Login) (f : Field) (v : String) (o : Option String)
    → Settled l
    → Settled
        (push
          (record l { live = arm_attempt l.live l.attempts; attempts = suc l.attempts })
          f
          v
          o).0
unfolding arm_attempt
push-Settled l code v none h = h
push-Settled l password v none h = h
push-Settled l f v (some w) h = h

Step-Settled : {l m : Login} → Step l m → Settled l → Settled m
unfolding take_value answered submit resend_code give_up hand_over unwind aborted report_attempt
    set_last_err
Step-Settled (told l cl s a b p) h = inl (handle-Unauthorized l cl s a b (unsettled l h (λ q. cc)))
Step-Settled (takes l code v p c) h = inl (unsettled l h (λ q. cc))
Step-Settled (takes l password v p c) h = inl (unsettled l h (λ q. cc))
Step-Settled (answers l f a p) h = inl (unsettled l h (λ q. cc))
Step-Settled (cancels l f p c) h = inl (unsettled l h (λ q. cc))
Step-Settled (hands l cl p) h = inr refl
Step-Settled (fails l e p r) h = inr refl
Step-Settled (unwinds l p) h = inr p
Step-Settled (submits l f v) h =
    by_test (λ (r : Login × Bool). Settled r.0) (not (l.live.status is status_of f)) _ _ (λ e. h)
      (λ e. push-Settled l f v (channel l f) h)
Step-Settled (resends l none) h =
    by_test Settled (not (l.live.status is "awaiting_code")) _ _ (λ e. h)
      (λ e. by_test Settled (not (has_client l.live.client)) _ _ (λ f. h) (λ f. h))
Step-Settled (resends l (some x)) h =
    by_test Settled (not (l.live.status is "awaiting_code")) _ _ (λ e. h)
      (λ e. by_test Settled (not (has_client l.live.client)) _ _ (λ f. h) (λ f. h))
Step-Settled (aborts l) (inl u) = inl (rw (abort_login-status l.live) u)
Step-Settled (aborts l) (inr e) = inr e

Reach-Settled :
    (h : AuthHandler) (k : String) (i : Bool) {l : Login} → Reach (begin h k i) l → Settled l
unfolding new_live_session
Reach-Settled h k i here = inl refl
Reach-Settled h k i (next r s) = Step-Settled s (Reach-Settled h k i r)

-- An account is usable, for calls, for downloads and for a handover, only once its login is over: as
-- long as the authorizer drives TDLib, `readyClient` gives no client.
pub ready_client-over :
    (h : AuthHandler) (k : String) (i : Bool) {l : Login} {cl : ℕ}
    → Reach (begin h k i) l
    → ready_client l.live ≡ some cl
    → l.phase ≡ over
unfolding ready_client
ready_client-over h k i {l = l} {cl = cl} r e = elim (Reach-Settled h k i r) [
  | inr p ↦ p
  | inl u ↦ absurd (ground (arith, u, e))
]
