-- ===== src/Router/Placement.antt =====
-- A session's request goes to the worker that hosts it.
use tg_control_api_server.Prelude.{
  ◌≡◌, String, Bool, true, false, ◌&&◌, Option, some, [], ◌∷◌, ◌is◌, is_iff, points_to, any, arith,
  Bool-cases, inl, inr,
}
use tg_control_api_server.Store.Limits.{Time}
use tg_control_api_server.Store.Workers.{
  Workers, Sessions, SessionRow, WorkerRow, is_alive, live_addr, session_route,
}
use tg_control_api_server.Router.{Routing, forwarded, scoped, with_route, to_owner, path_kind}

-- An alive worker that is the owner, at an address.
abbrev owns_at : Workers → Time → Option String → String → Bool
owns_at ws cutoff o addr =
    any (λ (w : WorkerRow). points_to o w.worker && is_alive cutoff w && (w.addr is addr)) ws

owns_at-live_addr :
    (ws : Workers) (cutoff : Time) (o : Option String) (addr : String)
    → live_addr ws cutoff o ≡ addr
    → (addr is "") ≡ false
    → owns_at ws cutoff o addr ≡ true
owns_at-live_addr [] cutoff o addr h n = ground (arith, is_iff addr "")
owns_at-live_addr (w ∷ ws) cutoff o addr h n =
    ground (arith, owns_at-live_addr ws cutoff o addr, is_iff w.addr addr)

-- A session of this kind and id that an alive worker hosts at this address.
abbrev pub hosted_at : Workers → Time → String → String → String → SessionRow → Bool
hosted_at ws cutoff id kind addr r =
    (r.session_id is id) && (r.kind is kind) && owns_at ws cutoff r.worker_id addr

forwarded_owner :
    (parses : String → Bool) (t u : Option String) (a addr : String)
    → to_owner parses t a ≡ forwarded addr u
    → (a ≡ addr) × (u ≡ t) × ((addr is "") ≡ false)
forwarded_owner parses t u a addr h = ground (arith, is_iff a "", is_iff addr "")

forwarded_kind :
    (parses : String → Bool) (kind want a addr : String) (t u : Option String)
    → with_route (some (kind, a)) want (to_owner parses t) ≡ forwarded addr u
    → ((kind is want) ≡ true) × (a ≡ addr) × (u ≡ t) × ((addr is "") ≡ false)
forwarded_kind parses kind want a addr t u h = ground (arith, forwarded_owner parses t u a addr)

forwarded_route :
    (ss : Sessions) (parses : String → Bool) (ws : Workers) (cutoff : Time) (id want addr : String)
    (t u : Option String)
    → with_route (session_route ws ss id cutoff) want (to_owner parses t) ≡ forwarded addr u
    → (any (hosted_at ws cutoff id want addr) ss ≡ true) × (u ≡ t)
unfolding session_route
forwarded_route [] parses ws cutoff id want addr t u h = absurd (cc)
forwarded_route (r ∷ rs) parses ws cutoff id want addr t u h =
    elim (Bool-cases (r.session_id is id)) [
      | inl e ↦ ground (
        arith,
        e,
        forwarded_kind parses r.kind want (live_addr ws cutoff r.worker_id) addr t u,
        owns_at-live_addr ws cutoff r.worker_id addr,
      )
      | inr e ↦ ground (arith, e, forwarded_route rs parses ws cutoff id want addr t u)
    ]

-- A session's request is forwarded only to the address of an alive worker that the registry has as
-- the owner of a session of the kind in the path and of the id there, as Postgres reads it, and with
-- the token id that the gateway established.
pub scoped-forwards :
    (x : Routing) (ws : Workers) (ss : Sessions) (cutoff : Time) (path id addr : String)
    (t u : Option String)
    → scoped x ws ss cutoff path id t ≡ forwarded addr u
    → (any (hosted_at ws cutoff (x.canonical id) (path_kind path) addr) ss ≡ true) × (u ≡ t)
unfolding scoped
scoped-forwards x ws ss cutoff path id addr t u h = elim (Bool-cases x.route_fails) [
  | inl e ↦ absurd (ground (arith, h, e))
  | inr e ↦
      forwarded_route ss x.parses ws cutoff (x.canonical id) (path_kind path) addr t u (rw e at h)
]
