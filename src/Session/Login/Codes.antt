-- ===== src/Session/Login/Codes.antt =====
-- How a login comes by its codes (internal/session/authorizer.go, internal/session/manager.go).
use tg_control_api_server.Prelude.{
  ℕ, suc, ◌≤◌, by_test, String, Bool, not, Option, none, some, List, [], ◌∷◌, ◌is◌, arith,
  Bool-cases, inl, inr,
}
use tg_control_api_server.Session.Live.{arm_attempt}
use tg_control_api_server.Session.Login.{
  Request, resend, set_parameters, add_proxy, check_bot_token, wait_parameters, wait_phone,
  wait_password, ready, closing, closed, unsupported, wait_code, Field, code, password, AuthHandler,
  Login, fatal, await, handle, take_value, answered, submit, resend_code, give_up, hand_over,
  unwind, aborted, sends, then_proxy, wait_phone_number, login_restart, push, channel, status_of,
  Step, told, takes, answers, cancels, hands, fails, unwinds, submits, resends, aborts, Reach, here,
  next, begin,
}
use tg_control_api_server.Session.Login.Requests.{phone_count, asked, phone_count_once}

abbrev pub resend_count : List Request → ℕ
resend_count [] = 0
resend_count (resend ∷ rs) = suc (resend_count rs)
resend_count (_ ∷ rs) = resend_count rs

abbrev asks : {l m : Login} → Step l m → ℕ → ℕ
asks (resends l a) n = suc n
asks _ n = n

-- How often the operator has asked for the code again in a run.
abbrev pub resends_in : {s l : Login} → Reach s l → ℕ
resends_in here = 0
resends_in (next r st) = asks st (resends_in r)

abbrev Resent : Login → ℕ → Type 0
Resent l n = resend_count l.requests ≤ n

fatal-Resent : (l : Login) (a : Option String) (n : ℕ) → Resent l n → Resent (fatal l a) n
unfolding fatal
fatal-Resent l none n h = h
fatal-Resent l (some e) n h = h

proxy-Resent : (l : Login) (a b : Option String) (n : ℕ) → Resent l n → Resent (then_proxy l a b) n
unfolding fatal
proxy-Resent l (some e) b n h = h
proxy-Resent l none b n h =
    by_test (λ m. Resent m n) l.handler.has_proxy
      (fatal (sends (sends l set_parameters) add_proxy) b) (sends l set_parameters)
      (λ e. fatal-Resent (sends (sends l set_parameters) add_proxy) b n h) (λ e. h)

phone-Resent :
    (l : Login) (cl : ℕ) (a : Option String) (n : ℕ)
    → Resent l n
    → Resent (wait_phone_number l cl a) n
phone-Resent l cl a n h =
    by_test (λ m. Resent m n) l.handler.rehydrate _ _ (λ e. h)
      (λ e.
        by_test (λ m. Resent m n) (not (l.handler.bot_token is "")) _ _
          (λ f. fatal-Resent (sends l (check_bot_token l.handler.bot_token)) a n h)
          (λ f.
            by_test (λ m. Resent m n) l.handler.phone_sent _ _
              (λ g. fatal-Resent l (some login_restart) n h)
              (λ g. fatal-Resent (asked l cl) a n h)))

submit-Resent :
    (l : Login) (f : Field) (v : String) (o : Option String) (n : ℕ)
    → Resent l n
    → Resent
        (push
          (record l { live = arm_attempt l.live l.attempts; attempts = suc l.attempts })
          f
          v
          o).0
        n
submit-Resent l code v none n h = h
submit-Resent l password v none n h = h
submit-Resent l f v (some w) n h = h

Step-Resent : {l m : Login} (n : ℕ) (st : Step l m) → Resent l n → Resent m (asks st n)
unfolding handle fatal await take_value answered submit resend_code give_up hand_over unwind aborted
Step-Resent n (told l cl wait_parameters a b p) h = proxy-Resent l a b n h
Step-Resent n (told l cl wait_phone a b p) h = phone-Resent l cl a n h
Step-Resent n (told l cl (wait_code i) a b p) h = ground arith
Step-Resent n (told l cl wait_password a b p) h = ground arith
Step-Resent n (told l cl ready a b p) h = h
Step-Resent n (told l cl closing a b p) h = h
Step-Resent n (told l cl closed a b p) h = h
Step-Resent n (told l cl unsupported a b p) h = h
Step-Resent n (takes l code v p c) h = h
Step-Resent n (takes l password v p c) h = h
Step-Resent n (answers l f a p) h = h
Step-Resent n (cancels l f p c) h = h
Step-Resent n (hands l cl p) h = h
Step-Resent n (fails l e p r) h = h
Step-Resent n (unwinds l p) h = h
Step-Resent n (submits l f v) h = elim (Bool-cases (l.live.status is status_of f)) [
  | inl e ↦ rw e (submit-Resent l f v (channel l f) n h)
  | inr e ↦ rw e h
]
Step-Resent n (resends l a) h = ground arith
Step-Resent n (aborts l) h = h

Reach-Resent :
    (h : AuthHandler) (k : String) (i : Bool) {l : Login} (r : Reach (begin h k i) l)
    → Resent l (resends_in r)
Reach-Resent h k i here = ground arith
Reach-Resent h k i (next r s) = Step-Resent (resends_in r) s (Reach-Resent h k i r)

-- A login sends its phone number, on which Telegram sends a code, at most once, however often TDLib
-- falls back to it, and whatever the operator submits, resends or aborts meanwhile; and it asks for
-- the code to be sent again at most as often as the operator did.
pub one_code_request :
    (h : AuthHandler) (k : String) (i : Bool) {l : Login} (r : Reach (begin h k i) l)
    → (phone_count l.requests ≤ 1) × (resend_count l.requests ≤ resends_in r)
one_code_request h k i r = (phone_count_once h k i r, Reach-Resent h k i r)
