-- ===== src/Api/Statuses.antt =====
-- The status of every answer.
use tg_control_api_server.Prelude.{
  ℕ, ◌≤◌, ◌≡◌, refl, ◌⊎◌, List, [], ◌∷◌, inl, inr, String, Option, none, some, ℤ, pos, negsuc,
  arith, by_test, leb, ◌&&◌, ◌==◌, ◌is◌,
}
use tg_control_api_server.Store.Limits.{Time}
use tg_control_api_server.Session.Calls.{
  Reply, returned, td_failed, other_error, Env, Session, Worker, not_found, path_denied,
  interrupted, not_authorized, refused_call, unresolved, Outcome, stopped, answered, call,
}
use tg_control_api_server.Api.{
  Response, Body, result, CallError, refusal, tdlib, plain, write_err, http_status_for_td,
  write_refused, write_call_err, is_blocked_method, CallBody, replied, stop_error, call_response,
  handle_call,
}

abbrev IsError : ℕ → Type 0
IsError n = (400 ≤ n) × (n ≤ 599)

-- A body that carries a result of Telegram.
abbrev IsResult : Body → Type 0
IsResult (result v) = Unit
IsResult _ = ⊥

-- A result under 200, or an error under a status by which HTTP reports one.
abbrev pub IsAnswer : Response → Type 0
IsAnswer r =
    ((r.status ≡ 200) × IsResult r.body)
    ⊎ ((400 ≤ r.status) × (r.status ≤ 599) × (IsResult r.body → ⊥))

http_status_for_td-IsError : (c : ℤ) → IsError (http_status_for_td c)
unfolding http_status_for_td
http_status_for_td-IsError (negsuc n) = (omega arith, omega arith)
http_status_for_td-IsError (pos n) =
    by_test IsError (n == 0) _ _ (λ e. (omega arith, omega arith))
      (λ e.
        by_test IsError (n == 420) _ _ (λ f. (omega arith, omega arith))
          (λ f.
            by_test IsError (leb 400 n && leb n 599) _ _ (λ g. (ground arith, ground arith))
              (λ g. (omega arith, omega arith))))

write_err-IsAnswer : (n : ℕ) (m : List String) → IsError n → IsAnswer (write_err n m)
write_err-IsAnswer n m h = inr (h.0, h.1, (λ b. b))

write_call_err-IsAnswer : (e : CallError) (now : Time) → IsAnswer (write_call_err e now)
unfolding write_call_err write_refused
write_call_err-IsAnswer (refusal r) now = inr (omega arith, omega arith, (λ b. b))
write_call_err-IsAnswer (tdlib e) now =
    let h = http_status_for_td-IsError e.err_code in inr (h.0, h.1, (λ b. b))
write_call_err-IsAnswer (plain m) now = write_err-IsAnswer 502 m (omega arith, omega arith)

replied-IsAnswer : (r : Reply) (now : Time) → IsAnswer (replied r now)
replied-IsAnswer (returned v) now = inl (refl, tt)
replied-IsAnswer (td_failed e) now = write_call_err-IsAnswer (tdlib e) now
replied-IsAnswer (other_error m) now = write_call_err-IsAnswer (plain (m ∷ [])) now

call_response-IsAnswer : (o : Outcome) (now : Time) → IsAnswer (call_response o now)
call_response-IsAnswer (answered r) now = replied-IsAnswer r now
call_response-IsAnswer (stopped path_denied) now = inr (omega arith, omega arith, (λ b. b))
call_response-IsAnswer (stopped not_found) now = write_call_err-IsAnswer (stop_error not_found) now
call_response-IsAnswer (stopped interrupted) now =
    write_call_err-IsAnswer (stop_error interrupted) now
call_response-IsAnswer (stopped (not_authorized s)) now =
    write_call_err-IsAnswer (stop_error (not_authorized s)) now
call_response-IsAnswer (stopped (refused_call r)) now =
    write_call_err-IsAnswer (stop_error (refused_call r)) now
call_response-IsAnswer (stopped (unresolved r)) now =
    write_call_err-IsAnswer (stop_error (unresolved r)) now

-- Every answer to a call is a result of Telegram under 200, or an error under a status from 400 to
-- 599, whatever the code that Telegram's error bears.
pub handle_call-IsAnswer :
    (env : Env) (s : Option Session) (w : Worker) (b : Option CallBody) (now : Time)
    → IsAnswer (handle_call env s w b now).1
unfolding handle_call
handle_call-IsAnswer env s w none now = inr (omega arith, omega arith, (λ b. b))
handle_call-IsAnswer env s w (some b) now =
    by_test (λ (r : Worker × Response). IsAnswer r.1) (b.method is "") _ _
      (λ e. inr (omega arith, omega arith, (λ b. b)))
      (λ e.
        by_test (λ (r : Worker × Response). IsAnswer r.1) (is_blocked_method b.method) _ _
          (λ f. inr (omega arith, omega arith, (λ b. b)))
          (λ f. call_response-IsAnswer (call env s w b.method b.params).1 now))
