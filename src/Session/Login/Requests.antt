-- ===== src/Session/Login/Requests.antt =====
-- What a login asks of Telegram, whatever the order of its steps.
use tg_control_api_server.Prelude.{
  ℕ, suc, ◌≤◌, ◌≡◌, refl, by_test, String, Bool, true, false, not, Option, none, some, List, [],
  ◌∷◌, ◌is◌, if◌then◌else◌, arith, Bool-cases, inl, inr, All,
}
use tg_control_api_server.Session.Live.{Live, begin_login, arm_attempt, abort_login, in_flight}
use tg_control_api_server.Session.Login.{
  Request, set_parameters, add_proxy, send_phone, check_bot_token, wait_parameters, wait_phone,
  wait_password, ready, closing, closed, unsupported, wait_code, Field, code, password, AuthHandler,
  Phase, awaiting, checking, Login, fatal, await, handle, take_value, answered, submit, resend_code,
  give_up, hand_over, unwind, aborted, sends, then_proxy, wait_phone_number, login_restart, push,
  channel, status_of, Step, told, takes, answers, cancels, hands, fails, unwinds, submits, resends,
  aborts, Reach, here, next, begin,
}

abbrev pub phone_count : List Request → ℕ
phone_count [] = 0
phone_count (send_phone ∷ rs) = suc (phone_count rs)
phone_count (_ ∷ rs) = phone_count rs

-- The code was requested at most once, and `phone_sent` tells whether.
abbrev Once : Login → Type 0
Once l = phone_count l.requests ≤ (if l.handler.phone_sent then 1 else 0)

fatal-Once : (l : Login) (a : Option String) → Once l → Once (fatal l a)
unfolding fatal
fatal-Once l none h = h
fatal-Once l (some e) h = h

proxy-Once : (l : Login) (a b : Option String) → Once l → Once (then_proxy l a b)
unfolding fatal
proxy-Once l (some e) b h = h
proxy-Once l none b h =
    by_test Once l.handler.has_proxy (fatal (sends (sends l set_parameters) add_proxy) b)
      (sends l set_parameters) (λ e. fatal-Once (sends (sends l set_parameters) add_proxy) b h)
      (λ e. h)

abbrev pub asked : Login → ℕ → Login
asked l cl =
    sends
      (record l { handler = record l.handler { phone_sent = true }; live = begin_login l.live cl })
      send_phone

phone-Once : (l : Login) (cl : ℕ) (a : Option String) → Once l → Once (wait_phone_number l cl a)
phone-Once l cl a h =
    by_test Once l.handler.rehydrate _ _ (λ e. h)
      (λ e.
        by_test Once (not (l.handler.bot_token is "")) _ _
          (λ f. fatal-Once (sends l (check_bot_token l.handler.bot_token)) a h)
          (λ f.
            by_test Once l.handler.phone_sent _ _ (λ g. fatal-Once l (some login_restart) h)
              (λ g. fatal-Once (asked l cl) a (ground (arith, g, h)))))

submit-Once :
    (l : Login) (f : Field) (v : String) (o : Option String)
    → Once l
    → Once
        (push
          (record l { live = arm_attempt l.live l.attempts; attempts = suc l.attempts })
          f
          v
          o).0
submit-Once l code v none h = h
submit-Once l password v none h = h
submit-Once l f v (some w) h = h

Step-Once : {l m : Login} → Step l m → Once l → Once m
unfolding handle fatal await take_value answered submit resend_code give_up hand_over unwind aborted
Step-Once (told l cl wait_parameters a b p) h = proxy-Once l a b h
Step-Once (told l cl wait_phone a b p) h = phone-Once l cl a h
Step-Once (told l cl (wait_code i) a b p) h = ground arith
Step-Once (told l cl wait_password a b p) h = ground arith
Step-Once (told l cl ready a b p) h = h
Step-Once (told l cl closing a b p) h = h
Step-Once (told l cl closed a b p) h = h
Step-Once (told l cl unsupported a b p) h = h
Step-Once (takes l code v p c) h = h
Step-Once (takes l password v p c) h = h
Step-Once (answers l f a p) h = h
Step-Once (cancels l f p c) h = h
Step-Once (hands l cl p) h = h
Step-Once (fails l e p r) h = h
Step-Once (unwinds l p) h = h
Step-Once (submits l f v) h = elim (Bool-cases (l.live.status is status_of f)) [
  | inl e ↦ rw e (submit-Once l f v (channel l f) h)
  | inr e ↦ rw e h
]
Step-Once (resends l a) h = ground arith
Step-Once (aborts l) h = h

Reach-Once : (h : AuthHandler) (k : String) (i : Bool) {l : Login} → Reach (begin h k i) l → Once l
Reach-Once h k i here = ground arith
Reach-Once h k i (next r s) = Step-Once s (Reach-Once h k i r)

phone_count_le : (l : Login) → Once l → phone_count l.requests ≤ 1
phone_count_le l h = ground arith

pub phone_count_once :
    (h : AuthHandler) (k : String) (i : Bool) {l : Login}
    → Reach (begin h k i) l
    → phone_count l.requests ≤ 1
phone_count_once h k i {l = l} r = phone_count_le l (Reach-Once h k i r)

-- A restored session asks for nothing.
abbrev pub IsQuiet : Request → Type 0
IsQuiet set_parameters = Unit
IsQuiet add_proxy = Unit
IsQuiet _ = ⊥

abbrev Unasked : Phase → Type 0
Unasked (awaiting f) = ⊥
Unasked (checking f) = ⊥
Unasked _ = Unit

abbrev Silent : Login → Type 0
Silent l =
    (l.handler.rehydrate ≡ true)
    × All IsQuiet l.requests
    × Unasked l.phase
    × ((l.live.status is "awaiting_code") ≡ false)

pub abort_login-status : (s : Live) → (abort_login s).0.status ≡ s.status
unfolding abort_login
abort_login-status s =
    by_test (λ (r : Live × Bool). r.0.status ≡ s.status) s.canceled _ _ (λ e. refl)
      (λ e.
        by_test (λ (r : Live × Bool). r.0.status ≡ s.status) (in_flight s.login_done) _ _
          (λ f. refl) (λ f. refl))
