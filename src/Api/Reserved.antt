-- ===== src/Api/Reserved.antt =====
-- The methods that the gateway keeps to itself.
use tg_control_api_server.Prelude.{
  ◌≡◌, ◌≢◌, inl, inr, refl, ◌∙◌, ap, subst, String, true, false, Option, none, some, List, [], ◌∷◌,
  ◌++◌, ◌is◌, is_iff, arith, by_test, All, All-map, Bool-cases, contains,
}
use tg_control_api_server.Store.Limits.{Time}
use tg_control_api_server.Session.Json.{Fields, lookup, string, with_field}
use tg_control_api_server.Session.Json.Lookups.{lookup-with_field, lookup-with_field_other}
use tg_control_api_server.Session.Peers.{is_helper, helper_methods}
use tg_control_api_server.Session.Calls.{
  Request, Env, Session, Worker, Outcome, stopped, answered, call, request_body,
}
use tg_control_api_server.Session.Calls.Preparing.{IsPreparing}
use tg_control_api_server.Session.Calls.Requests.{IsOwn, IsSent, call-HasSent}
use tg_control_api_server.Api.{Response, is_blocked_method, blocked_methods, CallBody, handle_call}

-- One of a list's texts satisfies what each of them does.
contained :
    (P : String → Type 0) (xs : List String) (m : String) → All P xs → contains xs m ≡ true → P m
contained P [] m a h = absurd (cc)
contained P (x ∷ xs) m a h = elim (Bool-cases (x is m)) [
  | inl e ↦ subst P ((is_iff x m).0 e) a.0
  | inr e ↦ contained P xs m a.1 (ground (arith, e, h))
]

helper_open : (m : String) → is_helper m ≡ true → is_blocked_method m ≡ false
unfolding is_blocked_method
helper_open m h =
    contained (λ m. contains blocked_methods m ≡ false) helper_methods m
      (refl, (refl, (refl, (refl, (refl, tt))))) h

abbrev pub IsOpen : Request → Type 0
IsOpen r = is_blocked_method r.method ≡ false

own-IsOpen :
    (method : String) → is_blocked_method method ≡ false → (r : Request) → IsOwn method r → IsOpen r
own-IsOpen method b r (inl e) = rw e b
own-IsOpen method b r (inr h) = helper_open r.method h

preparing-IsOpen : (r : Request) → IsPreparing r → IsOpen r
unfolding is_blocked_method
preparing-IsOpen r (inl i) = rw i refl
preparing-IsOpen r (inr i) = rw i refl

sent-IsOpen :
    (method : String) (o : Outcome) (rs : List Request)
    → is_blocked_method method ≡ false
    → IsSent method o rs
    → All IsOpen rs
sent-IsOpen method (answered r) rs b h = All-map (IsOwn method) IsOpen rs (own-IsOpen method b) h.1
sent-IsOpen method (stopped o) rs b h = All-map IsPreparing IsOpen rs preparing-IsOpen h.1

abbrev Opens : Worker → Worker → Type 0
Opens w u = (rs : List Request) × (u.log ≡ rs ++ w.log) × All IsOpen rs

-- Whatever arrives at the call handler, it sends Telegram no method that the gateway reserves.
pub handle_call-IsOpen :
    (env : Env) (s : Option Session) (w : Worker) (b : Option CallBody) (now : Time)
    → (rs : List Request) × ((handle_call env s w b now).0.log ≡ rs ++ w.log) × All IsOpen rs
unfolding handle_call
handle_call-IsOpen env s w none now = ([], refl, tt)
handle_call-IsOpen env s w (some b) now =
    by_test (λ (r : Worker × Response). Opens w r.0) (b.method is "") _ _ (λ e. ([], refl, tt))
      (λ e.
        by_test (λ (r : Worker × Response). Opens w r.0) (is_blocked_method b.method) _ _
          (λ f. ([], refl, tt))
          (λ f.
            let h = call-HasSent env s w b.method b.params in
            (h.0, h.1, sent-IsOpen b.method (call env s w b.method b.params).1 h.0 f h.2)))

true-false : true ≢ false
true-false h = cc

-- The object that TDLib receives names the requested method, whatever `@type` the caller put among
-- the parameters, and its other fields, the request's tag apart, are the caller's.
request_body_lem :
    (method extra : String) (params : Fields) (k : String)
    → (lookup (request_body method extra params) "@type" ≡ some (string method))
      × (k ≢ "@type" → k ≢ "@extra" → lookup (request_body method extra params) k ≡ lookup params k)
unfolding request_body
request_body_lem method extra params k =
    let b = with_field params "@type" (string method) in
    let typed = lookup-with_field params "@type" "@type" (string method) in
    (
      by_test (λ fs. lookup fs "@type" ≡ some (string method)) (extra is "") _ _ (λ e. typed)
          (λ e.
            lookup-with_field_other b "@extra" "@type" (string extra)
              (λ q. absurd (true-false (ap (λ s. s is "@type") q)))
            ∙ typed),
      (λ n m.
          by_test (λ fs. lookup fs k ≡ lookup params k) (extra is "") _ _
            (λ e. lookup-with_field_other params "@type" k (string method) n)
            (λ e.
              lookup-with_field_other b "@extra" k (string extra) m
              ∙ lookup-with_field_other params "@type" k (string method) n)),
    )
