-- ===== src/Session/Calls/Held.antt =====
-- What a worker has learned holds the next calls back.
use tg_control_api_server.Prelude.{
  ℕ, ◌+◌, ◌*◌, ◌≤◌, ◌<◌, ◌≡◌, ◌≢◌, refl, subst, String, Option, none, some, List, arith,
}
use tg_control_api_server.Tdjson.{TdError, Text, retry_after}
use tg_control_api_server.Store.Limits.{Time}
use tg_control_api_server.Store.Cooldowns.{Cooldown}
use tg_control_api_server.Quota.Methods.{scope}
use tg_control_api_server.Session.Guard.{Guard, active}
use tg_control_api_server.Session.Guard.Cooling.{active_iff}
use tg_control_api_server.Store.Cooldowns.Merge.{ends}
use tg_control_api_server.Session.Calls.Kept.{Keeps, Keeps-refl, Keeps-trans, call-Keeps}
use tg_control_api_server.Session.Admit.{check_cooldown, cooled}
use tg_control_api_server.Session.Observe.{observe, failed_with, second}
use tg_control_api_server.Session.Observe.Learned.{observe_holds_back}
use tg_control_api_server.Session.Json.{Raw}
use tg_control_api_server.Session.LocalFiles.{guard_local_paths}
use tg_control_api_server.Session.Live.{ready_client}
use tg_control_api_server.Session.Calls.{
  Reply, returned, td_failed, other_error, Env, Session, Worker, Outcome, answered, stopped,
  Progress, goes_on, stops, observed, admits, checks, cooling, then_do, resolve_chat_username,
  request, finish, sent_if, call_admitted, call_guarded, call_with, call,
}

Unmoved : Worker → Worker × Outcome → Type 0
Unmoved w r = r.0 ≡ w

cooled_stops :
    (env : Env) (s : Session) (w : Worker) (method : String) (p : Raw) (dirs : List Text)
    (o : Option Cooldown)
    → o ≢ none
    → (sent_if env s dirs method (
        then_do (cooling (cooled (scope method) o) w p) (λ w1 p1.
          then_do
            (resolve_chat_username env s w1 p1)
            (λ w2 p2. admits env s env.at_call w2 method (scope method) p2)))).0
      ≡ w
cooled_stops env s w method p dirs none n = absurd (n refl)
cooled_stops env s w method p dirs (some c) n = refl

guarded_stops :
    (env : Env) (s : Session) (w : Worker) (method : String) (p : Raw) (o : Option (List Text))
    → active w.world.guard (scope method) env.at_call.at_cooldown ≢ none
    → (call_guarded env s w method p o).0 ≡ w
unfolding call_admitted checks check_cooldown
guarded_stops env s w method p none n = refl
guarded_stops env s w method p (some dirs) n =
    cooled_stops env s w method p dirs (active w.world.guard (scope method) env.at_call.at_cooldown)
      n

with_stops :
    (env : Env) (s : Session) (w : Worker) (method : String) (p : Raw) (o : Option ℕ)
    → active w.world.guard (scope method) env.at_call.at_cooldown ≢ none
    → (call_with env s w method p o).0 ≡ w
with_stops env s w method p none n = refl
with_stops env s w method p (some cl) n =
    guarded_stops env s w method p (guard_local_paths env.root p) n

-- While a cooldown of the method's scope runs, a call changes nothing at all: no request, no count,
-- no slot of the pace, no write.
cooling_stops :
    (env : Env) (o : Option Session) (w : Worker) (method : String) (p : Raw)
    → active w.world.guard (scope method) env.at_call.at_cooldown ≢ none
    → (call env o w method p).0 ≡ w
unfolding call
cooling_stops env none w method p n = refl
cooling_stops env (some s) w method p n = with_stops env s w method p (ready_client s.live) n

-- The guard after an answer of Telegram has observed it.
abbrev Seen : Env → Session → String → Worker → Outcome → Type 0
Seen env s sc u (stopped o) = Unit
Seen env s sc u (answered (returned v)) = Unit
Seen env s sc u (answered (other_error t)) = Unit
Seen env s sc u (answered (td_failed e)) =
    (g : Guard) × (u.world.guard
      ≡ (observe g s.live.kind sc (failed_with e) env.at_call.at_answer).0)

abbrev Observed : Env → Session → String → Worker × Outcome → Type 0
Observed env s sc r = Seen env s sc r.0 r.1

finish-Observed :
    (env : Env) (s : Session) (dirs : List Text) (sc : String) (r : Worker × Reply)
    → Observed env s sc (finish env s dirs sc r)
unfolding observed
finish-Observed env s dirs sc (w, returned v) = tt
finish-Observed env s dirs sc (w, other_error t) = tt
finish-Observed env s dirs sc (w, td_failed e) = (w.world.guard, refl)

sent_if-Observed :
    (env : Env) (s : Session) (dirs : List Text) (method : String) (r : Worker × Progress)
    → Observed env s (scope method) (sent_if env s dirs method r)
sent_if-Observed env s dirs method (w, stops o) = tt
sent_if-Observed env s dirs method (w, goes_on p) =
    finish-Observed env s dirs (scope method) (request env w method p)

call_guarded-Observed :
    (env : Env) (s : Session) (w : Worker) (method : String) (p : Raw) (o : Option (List Text))
    → Observed env s (scope method) (call_guarded env s w method p o)
unfolding call_admitted
call_guarded-Observed env s w method p none = tt
call_guarded-Observed env s w method p (some dirs) = sent_if-Observed env s dirs method (
    then_do (checks env.at_call w (scope method) p) (λ w1 p1.
      then_do (resolve_chat_username env s w1 p1)
        (λ w2 p2. admits env s env.at_call w2 method (scope method) p2)))

call-Observed :
    (env : Env) (s : Session) (w : Worker) (method : String) (p : Raw) (o : Option ℕ)
    → Observed env s (scope method) (call_with env s w method p o)
call-Observed env s w method p none = tt
call-Observed env s w method p (some cl) =
    call_guarded-Observed env s w method p (guard_local_paths env.root p)

Observed-guard :
    (env : Env) (s : Session) (sc : String) (r : Worker × Outcome) {e : TdError}
    → r.1 ≡ answered (td_failed e)
    → Observed env s sc r
    → (g : Guard) × (r.0.world.guard
        ≡ (observe g s.live.kind sc (failed_with e) env.at_call.at_answer).0)
Observed-guard env s sc r h o = subst (Seen env s sc r.0) h o

still_cooling :
    (g u : Guard) (kind sc sc' : String) (e : TdError) (now at : Time) (secs : ℕ)
    → kind ≡ "user"
    → u ≡ (observe g kind sc (failed_with e) now).0
    → retry_after e ≡ some secs
    → secs < 9223372036
    → sc' ≡ sc
    → at < now + secs * second
    → active u sc' at ≢ none
still_cooling g u kind sc sc' e now at secs k i r b same t =
    rw (same, i, k) ((observe_holds_back g sc e now at).0 secs r b t)

-- Calls of any kind, one after another, on the worker of a session.
pub data Later (w : Worker) : Worker → Type 0 where
  at_once : Later w w
  then_call :
      {u : Worker} (env : Env) (o : Option Session) (method : String) (p : Raw)
      → Later w u
      → Later w (call env o u method p).0

Later-Keeps : (w : Worker) {u : Worker} → Later w u → Keeps w u
Later-Keeps w at_once = Keeps-refl w
Later-Keeps w (then_call {u = u} env o method p l) =
    Keeps-trans w u (call env o u method p).0 (Later-Keeps w l) (call-Keeps env o u method p)

runs_on :
    (g h : Guard) (s : String) (at : Time)
    → ends g.cool s ≤ ends h.cool s
    → active g s at ≢ none
    → active h s at ≢ none
runs_on g h s at k n e = n ((active_iff g s at).1 (omega (arith, k, (active_iff h s at).0 e)))

-- Once Telegram has answered a call of a user account with a flood wait, every call of the method's
-- scope is held back until the wait is over, whatever its method and parameters, if nothing but calls,
-- of whatever kind, has come in between. Such a call leaves the worker as it was, and nothing reaches
-- Telegram. The wait is one that a 64-bit duration holds, 292 years.
pub flood_wait_held :
    (env later : Env) (s : Session) (o : Option Session) (w : Worker) {t : Worker}
    (method next : String) (p q : Raw) {e : TdError} (secs : ℕ)
    → s.live.kind ≡ "user"
    → (call env (some s) w method p).1 ≡ answered (td_failed e)
    → retry_after e ≡ some secs
    → secs < 9223372036
    → scope next ≡ scope method
    → later.at_call.at_cooldown < env.at_call.at_answer + secs * second
    → Later (call env (some s) w method p).0 t
    → (call later o t next q).0 ≡ t
unfolding call
flood_wait_held env later s o w {t = t} method next p q {e = e} secs k a r b same before l =
    let u = call_with env s w method p (ready_client s.live) in
    let g =
      Observed-guard env s (scope method) u a
        (call-Observed env s w method p (ready_client s.live)) in
    cooling_stops later o t next q (
      runs_on u.0.world.guard t.world.guard (scope next) later.at_call.at_cooldown
        (Later-Keeps u.0 l (scope next))
        (still_cooling g.0 u.0.world.guard s.live.kind (scope method) (scope next) e
          env.at_call.at_answer later.at_call.at_cooldown secs k g.1 r b same before))
