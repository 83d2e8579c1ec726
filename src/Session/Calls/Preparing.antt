-- ===== src/Session/Calls/Preparing.antt =====
-- What a call sends before its request: the checks, the username and the admission.
use mathlib.Core.List.{append_assoc}
use tg_control_api_server.Prelude.{
  ℕ, ◌+◌, ◌≤◌, ◌≡◌, ◌⊎◌, inl, inr, refl, ap, sym, ◌∙◌, String, Bool, Option, none, some, List, [],
  ◌∷◌, ◌++◌, length, length-append, arith, All, All-append, All-map, by_test, ◌is◌,
}
use tg_control_api_server.Session.Json.{Raw, document, object}
use tg_control_api_server.Session.Admit.{Refusal, check_cooldown, asks_user}
use tg_control_api_server.Session.Peers.{string_chat_id, username}
use tg_control_api_server.Session.Calls.{
  Reply, returned, td_failed, other_error, Request, Moment, Env, Session, Worker, Progress, goes_on,
  stops, send, observed, admits, checks, cooling, then_do, resolve_name, resolve_given,
  resolve_chat_username, on_search, search_observed, username_query, admission, user_query,
  mutual_of, asked_user,
}

-- The requests that a step adds.
abbrev pub Adds : (List Request → Type 0) → Worker → Worker → Type 0
Adds P w u = (rs : List Request) × (u.log ≡ rs ++ w.log) × P rs

abbrev pub IsSearch : Request → Type 0
IsSearch r = r.method ≡ "searchPublicChat"

-- The search of a username, or the question about the addressee.
abbrev pub IsPreparing : Request → Type 0
IsPreparing r = IsSearch r ⊎ (r.method ≡ "getUser")

-- So many requests at most, each of them such.
abbrev pub AtMost : (Request → Type 0) → ℕ → List Request → Type 0
AtMost Q n rs = (length rs ≤ n) × All Q rs

pub Adds-trans :
    (Q : Request → Type 0) (m n : ℕ) (w u t : Worker)
    → Adds (AtMost Q m) w u
    → Adds (AtMost Q n) u t
    → Adds (AtMost Q (n + m)) w t
Adds-trans Q m n w u t (rs, e, h) (qs, f, k) = (
  qs ++ rs,
  f ∙ ap (λ l. qs ++ l) e ∙ sym (append_assoc qs rs w.log),
  (omega (arith, length-append qs rs), All-append Q qs rs k.1 h.1),
)

abbrev OneSearch : List Request → Type 0
OneSearch rs = AtMost IsSearch 1 rs

abbrev pub Prepares : List Request → Type 0
Prepares rs = AtMost IsPreparing 2 rs

abbrev Asks : List Request → Type 0
Asks rs = AtMost IsPreparing 1 rs

same_log : (w u : Worker) → u.log ≡ w.log → Adds OneSearch w u
same_log w u e = ([], e, (omega arith, tt))

one_log : (w u : Worker) (r : Request) → IsSearch r → u.log ≡ r ∷ w.log → Adds OneSearch w u
one_log w u r i e = (r ∷ [], e, (omega arith, (i, tt)))

then_do_keeps :
    (P : Worker → Type 0) (r : Worker × Progress) (f : Worker → Raw → Worker × Progress)
    → P r.0
    → ((p : Raw) → P (f r.0 p).0)
    → P (then_do r f).0
then_do_keeps P (w, goes_on p) f h k = k p
then_do_keeps P (w, stops o) f h k = h

cooling-log : (o : Option Refusal) (w : Worker) (p : Raw) → (cooling o w p).0.log ≡ w.log
cooling-log none w p = refl
cooling-log (some r) w p = refl

checks-log : (m : Moment) (w : Worker) (sc : String) (p : Raw) → (checks m w sc p).0.log ≡ w.log
unfolding checks
checks-log m w sc p = cooling-log (check_cooldown w.world.guard sc m.at_cooldown) w p

-- A search asks for no user.
search_admits-log :
    (env : Env) (s : Session) (m : Moment) (w : Worker) (method : String) (p : Raw)
    → (admits env s m w method "@resolve" p).0.log ≡ w.log
unfolding admits
search_admits-log env s m w method p = refl

mutual_of-log : (env : Env) (r : Worker × Reply) → (mutual_of env r).0.log ≡ r.0.log
mutual_of-log env (w, returned v) = refl
mutual_of-log env (w, td_failed e) = refl
mutual_of-log env (w, other_error t) = refl

asked_user-Asks :
    (env : Env) (s : Session) (m : Moment) (w : Worker) (method sc : String) (p : Raw)
    → Adds Asks w (asked_user env s m w method sc p).0
unfolding asked_user send
asked_user-Asks env s m w method sc p =
    let c = admission env s m method sc p none in
    let q = document (object (user_query c.chat_id)) in
    by_test (λ (r : Worker × Option Bool). Adds Asks w r.0) (asks_user c w.world.guard)
      (mutual_of env (send env w "getUser" q)) (w, none)
      (λ e. (
        record { method = "getUser"; params = user_query c.chat_id } ∷ [],
        mutual_of-log env (send env w "getUser" q),
        (omega arith, (inr refl, tt)),
      ))
      (λ e. ([], refl, (omega arith, tt)))

admits-Asks :
    (env : Env) (s : Session) (m : Moment) (w : Worker) (method sc : String) (p : Raw)
    → Adds Asks w (admits env s m w method sc p).0
unfolding admits
admits-Asks env s m w method sc p = asked_user-Asks env s m w method sc p

on_search-log : (params : Raw) (r : Worker × Reply) → (on_search params r).0.log ≡ r.0.log
on_search-log params (w, returned v) = refl
on_search-log params (w, td_failed e) = refl
on_search-log params (w, other_error e) = refl

-- The query is an object, so it is sent.
search-log :
    (env : Env) (s : Session) (w : Worker) (name : String) (params : Raw)
    → (on_search params (
        search_observed env s
          (send env w "searchPublicChat" (document (object (username_query name)))))).0.log
      ≡ record { method = "searchPublicChat"; params = username_query name } ∷ w.log
unfolding send observed
search-log env s w name params = on_search-log params (
    search_observed env s (send env w "searchPublicChat" (document (object (username_query name)))))

resolve_name-OneSearch :
    (env : Env) (s : Session) (w : Worker) (name : String) (params : Raw)
    → Adds OneSearch w (resolve_name env s w name params).0
unfolding resolve_name
resolve_name-OneSearch env s w name params =
    let q = document (object (username_query name)) in
    let w1 = (checks env.at_resolve w "@resolve" q).0 in
    let w2 = (admits env s env.at_resolve w1 "searchPublicChat" "@resolve" q).0 in
    let e1 = checks-log env.at_resolve w "@resolve" q in
    let e2 = search_admits-log env s env.at_resolve w1 "searchPublicChat" q ∙ e1 in
    then_do_keeps (Adds OneSearch w) (checks env.at_resolve w "@resolve" q) _ (same_log w w1 e1)
      (λ p.
        then_do_keeps (Adds OneSearch w)
          (admits env s env.at_resolve w1 "searchPublicChat" "@resolve" q) _ (same_log w w2 e2)
          (λ p.
            one_log w
              (on_search params (search_observed env s (send env w2 "searchPublicChat" q))).0
              (record { method = "searchPublicChat"; params = username_query name }) refl
              (search-log env s w2 name params
                ∙ ap
                    (λ rs.
                      record { method = "searchPublicChat"; params = username_query name } ∷ rs)
                    e2)))

resolve_given-OneSearch :
    (env : Env) (s : Session) (w : Worker) (params : Raw) (o : Option String)
    → Adds OneSearch w (resolve_given env s w params o).0
resolve_given-OneSearch env s w params none = same_log w w refl
resolve_given-OneSearch env s w params (some name) =
    by_test (λ (r : Worker × Progress). Adds OneSearch w r.0) (username name is "") _ _
      (λ e. same_log w w refl) (λ e. resolve_name-OneSearch env s w (username name) params)

widened : (w u : Worker) → Adds OneSearch w u → Adds Asks w u
widened w u (rs, e, h) = (rs, e, (h.0, All-map IsSearch IsPreparing rs (λ r i. inl i) h.1))

-- Two requests at most: a search, and a question about the addressee.
prepared-Prepares :
    (env : Env) (s : Session) (w : Worker) (method sc : String) (params : Raw)
    → Adds Prepares w
        (then_do
          (resolve_chat_username env s w params)
          (λ w2 p2. admits env s env.at_call w2 method sc p2)).0
unfolding resolve_chat_username
prepared-Prepares env s w method sc params =
    let r = resolve_given env s w params (string_chat_id params) in
    let h = widened w r.0 (resolve_given-OneSearch env s w params (string_chat_id params)) in
    then_do_keeps (Adds Prepares w) r _ (h.0, h.1, (omega (arith, h.2.0), h.2.1))
      (λ p.
        Adds-trans IsPreparing 1 1 w r.0 (admits env s env.at_call r.0 method sc p).0 h
          (admits-Asks env s env.at_call r.0 method sc p))

pub before-Prepares :
    (env : Env) (s : Session) (w : Worker) (method sc : String) (params : Raw)
    → Adds Prepares w
        (then_do (checks env.at_call w sc params) (λ w1 p1.
          then_do
            (resolve_chat_username env s w1 p1)
            (λ w2 p2. admits env s env.at_call w2 method sc p2))).0
before-Prepares env s w method sc params =
    let e = checks-log env.at_call w sc params in
    let w1 = (checks env.at_call w sc params).0 in
    then_do_keeps (Adds Prepares w) (checks env.at_call w sc params) _ ([], e, (omega arith, tt))
      (λ p.
        let h = prepared-Prepares env s w1 method sc p in (h.0, h.1 ∙ ap (λ rs. h.0 ++ rs) e, h.2))
