-- ===== src/Session/Login/Stages.antt =====
-- The steps that are left to an aborted login.
use tg_control_api_server.Prelude.{
  ℕ, zero, suc, ◌≡◌, refl, ◌∙◌, ap, subst, by_test, String, Bool, true, false, Option, none, some,
  arith,
}
use tg_control_api_server.Session.Live.{Live, abort_login, in_flight}
use tg_control_api_server.Session.Login.{
  Login, Field, code, password, awaiting, broken, over, aborted, closed_now, give_up, unwind,
  login_canceled, channel, Step, told, takes, answers, cancels, hands, fails, unwinds, submits,
  resends, aborts,
}

pub abort_login_first :
    (s : Live)
    → s.canceled ≡ false
    → s.login_done ≡ some false
    → abort_login s ≡ (record s { canceled = true }, true)
unfolding abort_login
abort_login_first s c d =
    by_test (λ (r : Live × Bool). r ≡ (record s { canceled = true }, true)) s.canceled _ _
      (λ e. absurd (cc))
      (λ e.
        by_test (λ (r : Live × Bool). r ≡ (record s { canceled = true }, true))
          (in_flight s.login_done) _ _ (λ f. refl) (λ f. absurd (ground (arith, d, f))))

closed_twice : (o : Option Bool) → closed_now (closed_now o) ≡ closed_now o
closed_twice none = refl
closed_twice (some b) = refl

unwind_twice : (l : Login) → unwind (unwind l) ≡ unwind l
unfolding unwind
unwind_twice l =
    ap (λ o. record l { live = record l.live { login_done = o } }) (closed_twice l.live.login_done)

-- The steps of the login's own goroutines: the operator submits, resends and aborts nothing.
abbrev IsOwn : {l m : Login} → Step l m → Type 0
IsOwn (submits l f v) = ⊥
IsOwn (resends l a) = ⊥
IsOwn (aborts l) = ⊥
IsOwn _ = Unit

-- So many steps of theirs, whichever.
pub data Run : ℕ → Login → Login → Type 0 where
  start : (l : Login) → Run 0 l l
  then_step : (n : ℕ) (l m k : Login) → Run n l m → (s : Step m k) → IsOwn s → Run (suc n) l k

abbrev canceled_at : Login → Login
canceled_at l = record (aborted l) { phase = broken login_canceled }

-- An aborted login step by step: it leaves its wait, fails, and its goroutine ends.
unfoldable pub stage : Login → ℕ → Login
unfolding aborted give_up unwind
stage l zero = aborted l
stage l (suc zero) = canceled_at l
stage l (suc (suc zero)) = give_up (canceled_at l) login_canceled
stage l (suc (suc (suc n))) = unwind (give_up (canceled_at l) login_canceled)

-- From a wait with nothing to read and the login canceled, the one step is out of it.
from_wait :
    (m k : Login) (f : Field) (s : Step m k)
    → IsOwn s
    → m.phase ≡ awaiting f
    → channel m f ≡ none
    → k ≡ record m { phase = broken login_canceled }
from_wait m k f (told _ cl st a b p) o h c = absurd (cc)
from_wait m k f (takes _ g v p c') o h c = absurd (cc)
from_wait m k f (answers _ g a p) o h c = absurd (cc)
from_wait m k f (cancels _ g p c') o h c = refl
from_wait m k f (hands _ cl p) o h c = absurd (cc)
from_wait m k f (fails _ e p r) o h c = absurd (cc)
from_wait m k f (unwinds _ p) o h c = absurd (cc)
from_wait m k f (submits _ g v) o h c = absurd o
from_wait m k f (resends _ a) o h c = absurd o
from_wait m k f (aborts _) o h c = absurd o

from_broken :
    (m k : Login) (e : String) (s : Step m k) → IsOwn s → m.phase ≡ broken e → k ≡ give_up m e
from_broken m k e (told _ cl st a b p) o h = absurd (cc)
from_broken m k e (takes _ g v p c') o h = absurd (cc)
from_broken m k e (answers _ g a p) o h = absurd (cc)
from_broken m k e (cancels _ g p c') o h = absurd (cc)
from_broken m k e (hands _ cl p) o h = absurd (cc)
from_broken m k e (fails _ d p r) o h = ap (λ x. give_up m x) (cc)
from_broken m k e (unwinds _ p) o h = absurd (cc)
from_broken m k e (submits _ g v) o h = absurd o
from_broken m k e (resends _ a) o h = absurd o
from_broken m k e (aborts _) o h = absurd o

from_over : (m k : Login) (s : Step m k) → IsOwn s → m.phase ≡ over → k ≡ unwind m
from_over m k (told _ cl st a b p) o h = absurd (cc)
from_over m k (takes _ g v p c') o h = absurd (cc)
from_over m k (answers _ g a p) o h = absurd (cc)
from_over m k (cancels _ g p c') o h = absurd (cc)
from_over m k (hands _ cl p) o h = absurd (cc)
from_over m k (fails _ d p r) o h = absurd (cc)
from_over m k (unwinds _ p) o h = refl
from_over m k (submits _ g v) o h = absurd o
from_over m k (resends _ a) o h = absurd o
from_over m k (aborts _) o h = absurd o

channel_kept : (l : Login) (f : Field) → channel (aborted l) f ≡ channel l f
unfolding aborted
channel_kept l code = refl
channel_kept l password = refl

module _ (l : Login) (f : Field) (p : l.phase ≡ awaiting f) (q : channel l f ≡ none)
    (c : l.live.canceled ≡ false) (d : l.live.login_done ≡ some false)
    (r : l.handler.rehydrate ≡ false) where
  next_stage : (n : ℕ) (m k : Login) (s : Step m k) → IsOwn s → m ≡ stage l n → k ≡ stage l (suc n)
  unfolding stage aborted give_up unwind
  next_stage zero m k s o e =
      from_wait m k f s o (ap (λ (x : Login). x.phase) e ∙ p)
        (ap (λ x. channel x f) e ∙ channel_kept l f ∙ q)
      ∙ ap (λ (x : Login). record x { phase = broken login_canceled }) e
  next_stage (suc zero) m k s o e =
      from_broken m k login_canceled s o (ap (λ (x : Login). x.phase) e)
      ∙ ap (λ x. give_up x login_canceled) e
  next_stage (suc (suc zero)) m k s o e =
      from_over m k s o (ap (λ (x : Login). x.phase) e) ∙ ap unwind e
  next_stage (suc (suc (suc n))) m k s o e =
      from_over m k s o (ap (λ (x : Login). x.phase) e)
      ∙ ap unwind e
      ∙ unwind_twice (give_up (canceled_at l) login_canceled)

  pub Run-stage : (n : ℕ) (a m : Login) → Run n a m → a ≡ aborted l → m ≡ stage l n
  unfolding stage
  Run-stage zero a m (start _) e = e
  Run-stage (suc n) a m (then_step _ _ k _ run s o) e = next_stage n k m s o (Run-stage n a k run e)

  pub stage-Run : (n : ℕ) → Run n (aborted l) (stage l n)
  unfolding stage
  stage-Run zero = start (aborted l)
  stage-Run (suc zero) =
      then_step 0 _ _ _ (stage-Run zero)
        (cancels (aborted l) f p
          (ap (λ (x : Live × Bool). x.0.canceled) (abort_login_first l.live c d)))
        tt
  stage-Run (suc (suc zero)) =
      then_step 1 _ _ _ (stage-Run (suc zero)) (fails (canceled_at l) login_canceled refl r) tt
  stage-Run (suc (suc (suc zero))) =
      then_step 2 _ _ _ (stage-Run (suc (suc zero)))
        (unwinds (give_up (canceled_at l) login_canceled) refl) tt
  stage-Run (suc (suc (suc (suc n)))) =
      subst (λ x. Run (suc (suc (suc (suc n)))) (aborted l) x)
        (unwind_twice (give_up (canceled_at l) login_canceled))
        (then_step (suc (suc (suc n))) _ _ _ (stage-Run (suc (suc (suc n))))
          (unwinds (unwind (give_up (canceled_at l) login_canceled)) refl) tt)
