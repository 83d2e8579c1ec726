-- ===== src/Session/Observe/Learned.antt =====
-- A flood wait or a PEER_FLOOD that Telegram answers with holds the account back.
use tg_control_api_server.Prelude.{
  ◌is◌, Option, none, some, Bool, not, by_test, ℕ, ◌+◌, ◌*◌, ◌<◌, ◌≡◌, ◌≢◌, refl, String, true,
  List, is_refl, arith,
}
use tg_control_api_server.Tdjson.{TdError, codes, contains_text, retry_after}
use tg_control_api_server.Store.Limits.{Time}
use tg_control_api_server.Store.Cooldowns.{Cooldown, spam_limit_scope}
use tg_control_api_server.Store.Cooldowns.Merge.{latest}
use tg_control_api_server.Session.Guard.{Guard, active, cool_down, set_frozen}
use tg_control_api_server.Session.Guard.Cooling.{
  Longer, cool_down-Longer, ends-cool_down-latest, active_iff,
}
use tg_control_api_server.Session.Observe.{
  Answer, Writes, learn_frozen, failed_with, signals, observe, second, spam_limit_cooldown,
}

cools :
    (g : Guard) (cs : List Cooldown) (s : String) (t : Time)
    → t < latest cs s
    → active (cool_down g cs).0 s t ≢ none
cools g cs s t h e =
    omega (arith, (active_iff (cool_down g cs).0 s t).0 e, ends-cool_down-latest g cs s)

active-set_frozen :
    (g : Guard) (b : Bool) (s : String) (t : Time) → active (set_frozen g b).0 s t ≡ active g s t
unfolding active set_frozen
active-set_frozen g b s t = refl

active-observe :
    (g : Guard) (scope s : String) (e : TdError) (now t : Time)
    → active (observe g "user" scope (failed_with e) now).0 s t
      ≡ active (cool_down g (signals scope (failed_with e) now).0).0 s t
unfolding observe
active-observe g scope s e now t =
    ground (arith, active-set_frozen (cool_down g (signals scope (failed_with e) now).0).0 true s t)

flood_end :
    (scope : String) (e : TdError) (now t : Time) (secs : ℕ)
    → retry_after e ≡ some secs
    → secs < 9223372036
    → t < now + secs * second
    → t < latest (signals scope (failed_with e) now).0 scope
unfolding signals
flood_end scope e now t secs f small h = ground (arith, is_refl scope)

peer_end :
    (scope : String) (e : TdError) (now t : Time)
    → contains_text (codes e.message) (codes "PEER_FLOOD") ≡ true
    → t < now + spam_limit_cooldown
    → t < latest (signals scope (failed_with e) now).0 spam_limit_scope
unfolding signals
peer_end scope e now t f h = ground arith

-- After an answer that asks a user account to wait `secs` seconds, the scope of the call stays
-- cooling for those seconds, and after a PEER_FLOOD the account stays spam-limited for 24 hours.
-- The wait is one that a 64-bit duration holds.
pub observe_holds_back :
    (g : Guard) (scope : String) (e : TdError) (now t : Time)
    → ((secs : ℕ)
        → retry_after e ≡ some secs
        → secs < 9223372036
        → t < now + secs * second
        → active (observe g "user" scope (failed_with e) now).0 scope t ≢ none)
      × (contains_text (codes e.message) (codes "PEER_FLOOD") ≡ true
          → t < now + spam_limit_cooldown
          → active (observe g "user" scope (failed_with e) now).0 spam_limit_scope t ≢ none)
observe_holds_back g scope e now t = (
  (λ secs f small h.
      rw (active-observe g scope scope e now t)
        (cools g _ scope t (flood_end scope e now t secs f small h))),
  (λ f h.
      rw (active-observe g scope spam_limit_scope e now t)
        (cools g _ spam_limit_scope t (peer_end scope e now t f h))),
)

learn-Longer :
    (g h : Guard) (cs : List Cooldown) (o : Option Bool)
    → Longer g h
    → Longer g (learn_frozen h cs o).0
unfolding set_frozen
learn-Longer g h cs none k = k
learn-Longer g h cs (some b) k = k

pub observe-Longer :
    (g : Guard) (kind sc : String) (a : Answer) (now : Time) → Longer g (observe g kind sc a now).0
unfolding observe
observe-Longer g kind sc a now =
    by_test (λ (r : Guard × Writes). Longer g r.0) (not (kind is "user")) _ _ (λ e s. omega arith)
      (λ e.
        learn-Longer g (cool_down g (signals sc a now).0).0 (cool_down g (signals sc a now).0).1
          (signals sc a now).1 (cool_down-Longer g (signals sc a now).0))
