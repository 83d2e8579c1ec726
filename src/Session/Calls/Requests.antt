-- ===== src/Session/Calls/Requests.antt =====
-- How much a call sends to Telegram, and which methods.
use tg_control_api_server.Prelude.{
  ℕ, ◌≤◌, ◌≡◌, refl, ◌∙◌, String, Option, none, some, List, [], ◌∷◌, ◌++◌, length, All-map, ◌⊎◌,
  inl, inr, true, suc, ℤ, pos, negsuc, leb, arith, All, by_test,
}
use tg_control_api_server.Tdjson.{Text}
use tg_control_api_server.Quota.Methods.{scope}
use tg_control_api_server.Session.Json.{Fields, Raw, document, object}
use tg_control_api_server.Session.LocalFiles.{guard_local_paths}
use tg_control_api_server.Session.Live.{ready_client}
use tg_control_api_server.Session.Peers.{
  Load, load_for, is_helper, numeric_chat_id, secret_base, chan_base, force_load_chat,
}
use tg_control_api_server.Session.Calls.{
  Reply, returned, td_failed, other_error, Request, Env, Session, Worker, Outcome, answered,
  stopped, Progress, goes_on, stops, send_object, object_of, send, observed, admits, checks,
  then_do, resolve_chat_username, request, unless_resolved, loaded, retried, is_chat_unresolved,
  finish, sent_if, call_admitted, call_guarded, call_with, call,
}
use tg_control_api_server.Session.Calls.Preparing.{
  Adds, IsPreparing, AtMost, Adds-trans, Prepares, before-Prepares,
}

-- The caller's method, or one that the gateway adds to address the chat.
abbrev pub IsOwn : String → Request → Type 0
IsOwn method r = (r.method ≡ method) ⊎ (is_helper r.method ≡ true)

send_object-Adds :
    (env : Env) (w : Worker) (own method : String) (p : Option Fields)
    → (method ≡ own) ⊎ (is_helper method ≡ true)
    → Adds (AtMost (IsOwn own) 1) w (send_object env w method p).0
send_object-Adds env w own method none o = ([], refl, (omega arith, tt))
send_object-Adds env w own method (some ps) o =
    (record { method = method; params = ps } ∷ [], refl, (omega arith, (o, tt)))

send-Adds :
    (env : Env) (w : Worker) (own method : String) (p : Raw)
    → (method ≡ own) ⊎ (is_helper method ≡ true)
    → Adds (AtMost (IsOwn own) 1) w (send env w method p).0
unfolding send
send-Adds env w own method p o = send_object-Adds env w own method (object_of p) o

retried-Adds :
    (env : Env) (method : String) (p : Raw) (first : Reply) (r : Worker × Reply)
    → Adds (AtMost (IsOwn method) 1) r.0 (retried env method p first r).0
retried-Adds env method p first (w, returned v) = send-Adds env w method method p (inl refl)
retried-Adds env method p first (w, td_failed e) = ([], refl, (omega arith, tt))
retried-Adds env method p first (w, other_error e) = ([], refl, (omega arith, tt))

abbrev Helps : Option Load → Type 0
Helps none = Unit
Helps (some l) = is_helper l.method ≡ true

load_for-Helps : (o : Option ℤ) → Helps (load_for o)
load_for-Helps none = tt
load_for-Helps (some (pos n)) = refl
load_for-Helps (some (negsuc n)) =
    by_test Helps (leb secret_base (suc n)) _ _ (λ e. tt)
      (λ e. by_test Helps (leb chan_base (suc n)) _ _ (λ f. refl) (λ f. refl))

force_load_chat-Helps : (p : Raw) → Helps (force_load_chat p)
unfolding force_load_chat
force_load_chat-Helps p = load_for-Helps (numeric_chat_id p)

loaded-Adds :
    (env : Env) (method : String) (p : Raw) (r : Worker × Reply) (o : Option Load)
    → Helps o
    → Adds (AtMost (IsOwn method) 2) r.0 (loaded env method p r o).0
loaded-Adds env method p (w, r) none h = ([], refl, (omega arith, tt))
loaded-Adds env method p (w, r) (some l) h =
    let q = document (object l.params) in
    Adds-trans (IsOwn method) 1 1 w (send env w l.method q).0
      (retried env method p r (send env w l.method q)).0 (send-Adds env w method l.method q (inr h))
      (retried-Adds env method p r (send env w l.method q))

unless_resolved-Adds :
    (env : Env) (method : String) (p : Raw) (r : Worker × Reply)
    → Adds (AtMost (IsOwn method) 2) r.0 (unless_resolved env method p r).0
unless_resolved-Adds env method p (w, r) =
    by_test (λ (o : Worker × Reply). Adds (AtMost (IsOwn method) 2) w o.0) (is_chat_unresolved r) _
      _ (λ e. loaded-Adds env method p (w, r) (force_load_chat p) (force_load_chat-Helps p))
      (λ e. ([], refl, (omega arith, tt)))

request-Adds :
    (env : Env) (w : Worker) (method : String) (p : Raw)
    → Adds (AtMost (IsOwn method) 3) w (request env w method p).0
unfolding request
request-Adds env w method p =
    Adds-trans (IsOwn method) 1 2 w (send env w method p).0
      (unless_resolved env method p (send env w method p)).0
      (send-Adds env w method method p (inl refl))
      (unless_resolved-Adds env method p (send env w method p))

finish-log :
    (env : Env) (s : Session) (dirs : List Text) (sc : String) (r : Worker × Reply)
    → (finish env s dirs sc r).0.log ≡ r.0.log
unfolding observed
finish-log env s dirs sc (w, returned v) = refl
finish-log env s dirs sc (w, td_failed e) = refl
finish-log env s dirs sc (w, other_error e) = refl

-- What a call with this outcome may have sent.
abbrev pub IsSent : String → Outcome → List Request → Type 0
IsSent method (answered r) rs = (length rs ≤ 5) × All (IsOwn method) rs
IsSent method (stopped o) rs = (length rs ≤ 2) × All IsPreparing rs

abbrev HasSent : String → Worker → Worker × Outcome → Type 0
HasSent method w r = (rs : List Request) × (r.0.log ≡ rs ++ w.log) × IsSent method r.1 rs

answered-IsSent :
    (env : Env) (s : Session) (dirs : List Text) (method sc : String) (r : Worker × Reply)
    (rs : List Request)
    → (length rs ≤ 5) × All (IsOwn method) rs
    → IsSent method (finish env s dirs sc r).1 rs
answered-IsSent env s dirs method sc (w, r) rs h = h

prepares : (method : String) (r : Request) → IsPreparing r → IsOwn method r
prepares method r (inl i) = inr (rw i refl)
prepares method r (inr i) = inr (rw i refl)

sent_if-HasSent :
    (env : Env) (s : Session) (w : Worker) (dirs : List Text) (method : String)
    (r : Worker × Progress)
    → Adds Prepares w r.0
    → HasSent method w (sent_if env s dirs method r)
sent_if-HasSent env s w dirs method (u, stops o) h = h
sent_if-HasSent env s w dirs method (u, goes_on p) (rs, e, h) =
    let g = request env u method p in
    let k =
      Adds-trans (IsOwn method) 2 3 w u g.0
        (rs, e, (h.0, All-map IsPreparing (IsOwn method) rs (prepares method) h.1))
        (request-Adds env u method p) in
    (
      k.0,
      finish-log env s dirs (scope method) g ∙ k.1,
      answered-IsSent env s dirs method (scope method) g k.0 k.2,
    )

call_guarded-HasSent :
    (env : Env) (s : Session) (w : Worker) (method : String) (p : Raw) (o : Option (List Text))
    → HasSent method w (call_guarded env s w method p o)
unfolding call_admitted
call_guarded-HasSent env s w method p none = ([], refl, (omega arith, tt))
call_guarded-HasSent env s w method p (some dirs) =
    sent_if-HasSent env s w dirs method
      (then_do (checks env.at_call w (scope method) p) (λ w1 p1.
        then_do (resolve_chat_username env s w1 p1)
          (λ w2 p2. admits env s env.at_call w2 method (scope method) p2)))
      (before-Prepares env s w method (scope method) p)

call_with-HasSent :
    (env : Env) (s : Session) (w : Worker) (method : String) (p : Raw) (o : Option ℕ)
    → HasSent method w (call_with env s w method p o)
call_with-HasSent env s w method p none = ([], refl, (omega arith, tt))
call_with-HasSent env s w method p (some cl) =
    call_guarded-HasSent env s w method p (guard_local_paths env.root p)

pub call-HasSent :
    (env : Env) (o : Option Session) (w : Worker) (method : String) (p : Raw)
    → let r = call env o w method p in
      (rs : List Request) × (r.0.log ≡ rs ++ w.log) × IsSent method r.1 rs
unfolding call
call-HasSent env none w method p = ([], refl, (omega arith, tt))
call-HasSent env (some s) w method p = call_with-HasSent env s w method p (ready_client s.live)
