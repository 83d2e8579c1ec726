-- ===== src/Session/Login/Overlap.antt =====
-- Two values submitted at once.
use tg_control_api_server.Prelude.{
  ℕ, suc, ◌≡◌, refl, ap, sym, subst, ◌∙◌, by_test, String, Bool, true, false, Option, none, some,
  List, ◌∷◌, ◌++◌, ◌is◌,
}
use tg_control_api_server.Session.Live.{
  Live, Verdict, set_status, begin_login, arm_attempt, report_attempt, set_code_info, sent_on,
}
use tg_control_api_server.Session.Login.{
  Login, Field, code, password, channel, submit, take_value, answered, await, channel_filled,
  handle, wait_code, wait_password,
}
use tg_control_api_server.Session.Login.Attempts.{Waits, armed, submit_accepted, waiting_state}

set_status-attempt : (s : Live) (st : String) → (set_status s st).attempt ≡ s.attempt
unfolding set_status
set_status-attempt s st =
    by_test (λ (t : Live). t.attempt ≡ s.attempt) (s.status is st) _ _ (λ e. refl) (λ e. refl)

-- Waiting again leaves the channels, the verdicts and the attempt as they are.
asks_again :
    (l : Login) (cl : ℕ) (f : Field) (i a b : Option String)
    → l.handler.rehydrate ≡ false
    → let m = handle l cl (waiting_state f i) a b in
      (channel m f ≡ channel l f) × (m.live.attempt ≡ l.live.attempt) × (m.verdicts ≡ l.verdicts)
unfolding handle await set_code_info begin_login
asks_again l cl code i a b r =
    by_test
      (λ (m : Login).
        (channel m code ≡ channel l code)
        × (m.live.attempt ≡ l.live.attempt)
        × (m.verdicts ≡ l.verdicts))
      l.handler.rehydrate _ _ (λ e. absurd (cc))
      (λ e.
        (refl, set_status-attempt (begin_login (set_code_info l.live i) cl) "awaiting_code", refl))
asks_again l cl password i a b r =
    by_test
      (λ (m : Login).
        (channel m password ≡ channel l password)
        × (m.live.attempt ≡ l.live.attempt)
        × (m.verdicts ≡ l.verdicts))
      l.handler.rehydrate _ _ (λ e. absurd (cc))
      (λ e. (refl, set_status-attempt (begin_login l.live cl) "awaiting_password", refl))

nothing_sent :
    (y : Option String) (ch : Option ℕ) (us vs : List Verdict)
    → ch ≡ none
    → vs ≡ us
    → sent_on ch y ++ vs ≡ us
nothing_sent y none us vs c e = e
nothing_sent y (some n) us vs c e = absurd (cc)

told_nobody :
    (u : Login) (cl : ℕ) (f : Field) (v : String) (i a b y : Option String)
    → u.handler.rehydrate ≡ false
    → u.live.attempt ≡ none
    → (answered (take_value (handle u cl (waiting_state f i) a b) f v) y).verdicts ≡ u.verdicts
unfolding answered take_value report_attempt
told_nobody u cl code v i a b y r n =
    let m = handle u cl (wait_code i) a b in
    let k = asks_again u cl code i a b r in
    nothing_sent y m.live.attempt u.verdicts m.verdicts (k.1 ∙ n) k.2
told_nobody u cl password v i a b y r n =
    let m = handle u cl wait_password a b in
    let k = asks_again u cl password i a b r in
    nothing_sent y m.live.attempt u.verdicts m.verdicts (k.1 ∙ n) k.2

-- Two values submitted for one field, the second while Telegram still checks the first.
abbrev pub overlapping : Login → Field → String → String → Login
overlapping l f v v' = (submit (take_value (submit l f v).0 f v) f v').0

abbrev both : Login → Field → String → String → Login
both l f v v' = channel_filled (armed (take_value (channel_filled (armed l) f v) f v)) f v'

overlapping_accepted :
    (l : Login) (f : Field) (v v' : String)
    → Waits l f
    → submit (take_value (submit l f v).0 f v) f v' ≡ (both l f v v', true)
unfolding take_value arm_attempt
overlapping_accepted l code v v' w =
    ap (λ (r : Login × Bool). submit (take_value r.0 code v) code v')
      (submit_accepted l code v w.1 w.2)
    ∙ submit_accepted (take_value (channel_filled (armed l) code v) code v) code v' w.1 refl
overlapping_accepted l password v v' w =
    ap (λ (r : Login × Bool). submit (take_value r.0 password v) password v')
      (submit_accepted l password v w.1 w.2)
    ∙ submit_accepted (take_value (channel_filled (armed l) password v) password v) password v' w.1
        refl

abbrev Stolen :
    Login
    → ℕ
    → Field
    → String
    → Option String
    → Option String
    → Option String
    → Option String
    → Option String
    → Login
    → Type 0
Stolen l cl f v' i a b x y o =
    let m = answered o x in
    let n = answered (take_value (handle m cl (waiting_state f i) a b) f v') y in
    (m.verdicts ≡ record { channel = suc l.attempts; error = x } ∷ l.verdicts)
    × (channel (handle m cl (waiting_state f i) a b) f ≡ some v')
    × (n.verdicts ≡ m.verdicts)

stolen :
    (l : Login) (cl : ℕ) (f : Field) (v v' : String) (i a b x y : Option String)
    → l.handler.rehydrate ≡ false
    → Stolen l cl f v' i a b x y (both l f v v')
unfolding answered take_value report_attempt arm_attempt
stolen l cl code v v' i a b x y r =
    let u = answered (both l code v v') x in
    (refl, (asks_again u cl code i a b r).0, told_nobody u cl code v' i a b y r refl)
stolen l cl password v v' i a b x y r =
    let u = answered (both l password v v') x in
    (refl, (asks_again u cl password i a b r).0, told_nobody u cl password v' i a b y r refl)

-- The verdict on the first value goes to the submitter of the second, and the first submitter is
-- never told: the verdict on the second value goes to nobody.
pub overlapping_submits :
    (l : Login) (cl : ℕ) (f : Field) (v v' : String) (i a b x y : Option String)
    → Waits l f
    → l.handler.rehydrate ≡ false
    → let m = answered (overlapping l f v v') x in
      let n = answered (take_value (handle m cl (waiting_state f i) a b) f v') y in
      ((submit (take_value (submit l f v).0 f v) f v').1 ≡ true)
      × (m.verdicts ≡ record { channel = suc l.attempts; error = x } ∷ l.verdicts)
      × (channel (handle m cl (waiting_state f i) a b) f ≡ some v')
      × (n.verdicts ≡ m.verdicts)
overlapping_submits l cl code v v' i a b x y w r =
    let o = overlapping_accepted l code v v' w in
    let s =
      subst (λ m. Stolen l cl code v' i a b x y m) (sym (ap (λ (r : Login × Bool). r.0) o))
        (stolen l cl code v v' i a b x y r) in
    (ap (λ (r : Login × Bool). r.1) o, s.0, s.1, s.2)
overlapping_submits l cl password v v' i a b x y w r =
    let o = overlapping_accepted l password v v' w in
    let s =
      subst (λ m. Stolen l cl password v' i a b x y m) (sym (ap (λ (r : Login × Bool). r.0) o))
        (stolen l cl password v v' i a b x y r) in
    (ap (λ (r : Login × Bool). r.1) o, s.0, s.1, s.2)
