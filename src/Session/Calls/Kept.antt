-- ===== src/Session/Calls/Kept.antt =====
-- No call shortens a cooldown (internal/session/manager.go, `Call`).
use tg_control_api_server.Prelude.{ℕ, String, Bool, Option, none, some, List, ◌is◌, arith, by_test}
use tg_control_api_server.Tdjson.{Text}
use tg_control_api_server.Store.Limits.{Time}
use tg_control_api_server.Quota.Methods.{scope}
use tg_control_api_server.Session.Guard.Cooling.{Longer}
use tg_control_api_server.Session.Observe.Learned.{observe-Longer}
use tg_control_api_server.Session.Admit.{Refusal, check_cooldown, asks_user}
use tg_control_api_server.Session.Admit.Lasting.{admit-Longer}
use tg_control_api_server.Session.Json.{Raw, Fields, document, object}
use tg_control_api_server.Session.LocalFiles.{guard_local_paths}
use tg_control_api_server.Session.Live.{ready_client}
use tg_control_api_server.Session.Peers.{Load, force_load_chat, string_chat_id, username}
use tg_control_api_server.Session.Calls.{
  Reply, returned, td_failed, other_error, Moment, Env, Session, Worker, Progress, goes_on, stops,
  send_object, object_of, send, answer_of, observed, admission, user_query, mutual_of, asked_user,
  admits, cooling, checks, then_do, username_query, on_search, search_observed, resolve_name,
  resolve_given, resolve_chat_username, retried, loaded, unless_resolved, is_chat_unresolved,
  request, finish, sent_if, call_admitted, call_guarded, call_with, call,
}

-- Every scope cools down at least as long in the second worker.
abbrev pub Keeps : Worker → Worker → Type 0
Keeps w u = Longer w.world.guard u.world.guard

pub Keeps-refl : (w : Worker) → Keeps w w
Keeps-refl w s = omega arith

pub Keeps-trans : (w u t : Worker) → Keeps w u → Keeps u t → Keeps w t
Keeps-trans w u t h k s = omega (arith, h s, k s)

observed-Keeps :
    (w : Worker) (kind sc : String) (r : Reply) (now : Time) → Keeps w (observed w kind sc r now)
unfolding observed
observed-Keeps w kind sc r now = observe-Longer w.world.guard kind sc (answer_of r) now

send-Keeps : (env : Env) (w : Worker) (method : String) (p : Raw) → Keeps w (send env w method p).0
unfolding send
send-Keeps env w method p = sent (object_of p)
  where
    sent : (o : Option Fields) → Keeps w (send_object env w method o).0
    sent none = Keeps-refl w
    sent (some ps) = Keeps-refl w

mutual_of-Keeps :
    (env : Env) (w : Worker) (r : Worker × Reply) → Keeps w r.0 → Keeps w (mutual_of env r).0
mutual_of-Keeps env w (u, returned v) h = h
mutual_of-Keeps env w (u, td_failed e) h = h
mutual_of-Keeps env w (u, other_error t) h = h

asked_user-Keeps :
    (env : Env) (s : Session) (m : Moment) (w : Worker) (method sc : String) (p : Raw)
    → Keeps w (asked_user env s m w method sc p).0
unfolding asked_user
asked_user-Keeps env s m w method sc p =
    let c = admission env s m method sc p none in
    let q = document (object (user_query c.chat_id)) in
    by_test (λ (r : Worker × Option Bool). Keeps w r.0) (asks_user c w.world.guard)
      (mutual_of env (send env w "getUser" q)) (w, none)
      (λ e. mutual_of-Keeps env w (send env w "getUser" q) (send-Keeps env w "getUser" q))
      (λ e. Keeps-refl w)

admits-Keeps :
    (env : Env) (s : Session) (m : Moment) (w : Worker) (method sc : String) (p : Raw)
    → Keeps w (admits env s m w method sc p).0
unfolding admits
admits-Keeps env s m w method sc p =
    let a = asked_user env s m w method sc p in
    λ t. omega (
      arith,
      asked_user-Keeps env s m w method sc p t,
      admit-Longer (admission env s m method sc p a.1) a.0.world t,
    )

checks-Keeps : (m : Moment) (w : Worker) (sc : String) (p : Raw) → Keeps w (checks m w sc p).0
unfolding checks
checks-Keeps m w sc p = cooling_keeps (check_cooldown w.world.guard sc m.at_cooldown)
  where
    cooling_keeps : (o : Option Refusal) → Keeps w (cooling o w p).0
    cooling_keeps none = Keeps-refl w
    cooling_keeps (some r) = Keeps-refl w

then_do-Keeps :
    (w : Worker) (r : Worker × Progress) (f : Worker → Raw → Worker × Progress)
    → Keeps w r.0
    → ((u : Worker) (p : Raw) → Keeps u (f u p).0)
    → Keeps w (then_do r f).0
then_do-Keeps w (u, goes_on p) f h k = Keeps-trans w u (f u p).0 h (k u p)
then_do-Keeps w (u, stops o) f h k = h

on_search-Keeps :
    (w : Worker) (params : Raw) (r : Worker × Reply) → Keeps w r.0 → Keeps w (on_search params r).0
on_search-Keeps w params (u, returned v) h = h
on_search-Keeps w params (u, td_failed e) h = h
on_search-Keeps w params (u, other_error e) h = h

search_observed-Keeps :
    (env : Env) (s : Session) (w : Worker) (r : Worker × Reply)
    → Keeps w r.0
    → Keeps w (search_observed env s r).0
search_observed-Keeps env s w (u, r) h =
    Keeps-trans w u (observed u s.live.kind "@resolve" r env.at_resolve.at_answer) h
      (observed-Keeps u s.live.kind "@resolve" r env.at_resolve.at_answer)

resolve_name-Keeps :
    (env : Env) (s : Session) (w : Worker) (name : String) (params : Raw)
    → Keeps w (resolve_name env s w name params).0
unfolding resolve_name
resolve_name-Keeps env s w name params =
    let q = document (object (username_query name)) in
    then_do-Keeps w (checks env.at_resolve w "@resolve" q) _
      (checks-Keeps env.at_resolve w "@resolve" q)
      (λ w1 _.
        then_do-Keeps w1 (admits env s env.at_resolve w1 "searchPublicChat" "@resolve" q) _
          (admits-Keeps env s env.at_resolve w1 "searchPublicChat" "@resolve" q)
          (λ w2 _.
            on_search-Keeps w2 params (search_observed env s (send env w2 "searchPublicChat" q)) (
              search_observed-Keeps env s w2 (send env w2 "searchPublicChat" q)
                (send-Keeps env w2 "searchPublicChat" q))))

resolve_given-Keeps :
    (env : Env) (s : Session) (w : Worker) (params : Raw) (o : Option String)
    → Keeps w (resolve_given env s w params o).0
resolve_given-Keeps env s w params none = Keeps-refl w
resolve_given-Keeps env s w params (some name) =
    by_test (λ (r : Worker × Progress). Keeps w r.0) (username name is "") _ _ (λ e. Keeps-refl w)
      (λ e. resolve_name-Keeps env s w (username name) params)

retried-Keeps :
    (env : Env) (method : String) (p : Raw) (first : Reply) (w : Worker) (r : Worker × Reply)
    → Keeps w r.0
    → Keeps w (retried env method p first r).0
retried-Keeps env method p first w (u, returned v) h =
    Keeps-trans w u (send env u method p).0 h (send-Keeps env u method p)
retried-Keeps env method p first w (u, td_failed e) h = h
retried-Keeps env method p first w (u, other_error e) h = h

loaded-Keeps :
    (env : Env) (method : String) (p : Raw) (r : Worker × Reply) (o : Option Load)
    → Keeps r.0 (loaded env method p r o).0
loaded-Keeps env method p (w, r) none = Keeps-refl w
loaded-Keeps env method p (w, r) (some l) =
    retried-Keeps env method p r w (send env w l.method (document (object l.params)))
      (send-Keeps env w l.method (document (object l.params)))

unless_resolved-Keeps :
    (env : Env) (method : String) (p : Raw) (w : Worker) (r : Worker × Reply)
    → Keeps w r.0
    → Keeps w (unless_resolved env method p r).0
unless_resolved-Keeps env method p w (u, r) h =
    by_test (λ (o : Worker × Reply). Keeps w o.0) (is_chat_unresolved r) _ _
      (λ e.
        Keeps-trans w u (loaded env method p (u, r) (force_load_chat p)).0 h
          (loaded-Keeps env method p (u, r) (force_load_chat p)))
      (λ e. h)

request-Keeps :
    (env : Env) (w : Worker) (method : String) (p : Raw) → Keeps w (request env w method p).0
unfolding request
request-Keeps env w method p =
    unless_resolved-Keeps env method p w (send env w method p) (send-Keeps env w method p)

finish-Keeps :
    (env : Env) (s : Session) (dirs : List Text) (sc : String) (w : Worker) (r : Worker × Reply)
    → Keeps w r.0
    → Keeps w (finish env s dirs sc r).0
finish-Keeps env s dirs sc w (u, returned v) h =
    Keeps-trans w u (observed u s.live.kind sc (returned v) env.at_call.at_answer) h
      (observed-Keeps u s.live.kind sc (returned v) env.at_call.at_answer)
finish-Keeps env s dirs sc w (u, td_failed e) h =
    Keeps-trans w u (observed u s.live.kind sc (td_failed e) env.at_call.at_answer) h
      (observed-Keeps u s.live.kind sc (td_failed e) env.at_call.at_answer)
finish-Keeps env s dirs sc w (u, other_error e) h =
    Keeps-trans w u (observed u s.live.kind sc (other_error e) env.at_call.at_answer) h
      (observed-Keeps u s.live.kind sc (other_error e) env.at_call.at_answer)

sent_if-Keeps :
    (env : Env) (s : Session) (dirs : List Text) (method : String) (w : Worker)
    (r : Worker × Progress)
    → Keeps w r.0
    → Keeps w (sent_if env s dirs method r).0
sent_if-Keeps env s dirs method w (u, stops o) h = h
sent_if-Keeps env s dirs method w (u, goes_on p) h =
    finish-Keeps env s dirs (scope method) w (request env u method p)
      (Keeps-trans w u (request env u method p).0 h (request-Keeps env u method p))

call_admitted-Keeps :
    (env : Env) (s : Session) (w : Worker) (method : String) (p : Raw) (dirs : List Text)
    → Keeps w (call_admitted env s w method p dirs).0
unfolding call_admitted resolve_chat_username
call_admitted-Keeps env s w method p dirs =
    let sc = scope method in
    sent_if-Keeps env s dirs method w _ (
      then_do-Keeps w (checks env.at_call w sc p) _ (checks-Keeps env.at_call w sc p) (λ w1 p1.
        then_do-Keeps w1 (resolve_given env s w1 p1 (string_chat_id p1)) _
          (resolve_given-Keeps env s w1 p1 (string_chat_id p1))
          (λ w2 p2. admits-Keeps env s env.at_call w2 method sc p2)))

call_guarded-Keeps :
    (env : Env) (s : Session) (w : Worker) (method : String) (p : Raw) (o : Option (List Text))
    → Keeps w (call_guarded env s w method p o).0
call_guarded-Keeps env s w method p none = Keeps-refl w
call_guarded-Keeps env s w method p (some dirs) = call_admitted-Keeps env s w method p dirs

call_with-Keeps :
    (env : Env) (s : Session) (w : Worker) (method : String) (p : Raw) (o : Option ℕ)
    → Keeps w (call_with env s w method p o).0
call_with-Keeps env s w method p none = Keeps-refl w
call_with-Keeps env s w method p (some cl) =
    call_guarded-Keeps env s w method p (guard_local_paths env.root p)

-- Whatever a call does, every scope cools down at least as long after it as before.
pub call-Keeps :
    (env : Env) (o : Option Session) (w : Worker) (method : String) (p : Raw)
    → Keeps w (call env o w method p).0
unfolding call
call-Keeps env none w method p = Keeps-refl w
call-Keeps env (some s) w method p = call_with-Keeps env s w method p (ready_client s.live)
