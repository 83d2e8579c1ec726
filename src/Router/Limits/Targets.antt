-- ===== src/Router/Limits/Targets.antt =====
-- A rule names one target.
use tg_control_api_server.Prelude.{
  ◌≡◌, ◌∙◌, refl, String, Bool, true, false, not, ◌&&◌, ◌||◌, Option, none, some, ◌is◌, is_iff,
  if◌then◌else◌, arith,
}
use tg_control_api_server.Store.Limits.{Limit}
use tg_control_api_server.Router.Limits.{
  is_id, is_absent, is_kind, want_session, session_level, token_level, valid_target,
}

-- A default is for a kind of session, a rule of a session for its id, a rule of a token for its id.
abbrev pub one_target : Limit → Bool
one_target l =
    ((l.level is "session") && is_kind l.kind && is_absent l.session_id && is_absent l.token_id)
    || ((l.level is "session") && is_absent l.kind && is_id l.session_id && is_absent l.token_id)
    || ((l.level is "token") && is_absent l.kind && is_absent l.session_id && is_id l.token_id)

session_level_lem :
    (t s kk id ka : Bool)
    → ((if not t
          then want_session
          else if s
          then (if not kk then want_session else "")
          else if not id || not ka
          then want_session
          else "")
        is "")
      ≡ (t && ((s && kk) || (not s && id && ka)))
session_level_lem false s kk id ka = refl
session_level_lem true true true id ka = refl
session_level_lem true true false id ka = refl
session_level_lem true false kk true true = refl
session_level_lem true false kk true false = refl
session_level_lem true false kk false ka = refl

token_level_lem :
    (i k s : Bool)
    → ((if not i || not k || not s then "a token limit takes only token_id" else "") is "")
      ≡ (i && k && s)
token_level_lem false k s = refl
token_level_lem true false s = refl
token_level_lem true true false = refl
token_level_lem true true true = refl

by_level :
    (a b : Bool) (x y z : String)
    → ((if a then x else if b then y else z) is "")
      ≡ (if a then x is "" else if b then y is "" else z is "")
by_level true b x y z = refl
by_level false true x y z = refl
by_level false false x y z = refl

one_way :
    (a b t s kk id ka it : Bool)
    → (a && b) ≡ false
    → (s && id) ≡ false
    → (kk && ka) ≡ false
    → (if a then t && ((s && kk) || (not s && id && ka)) else if b then it && ka && s else false)
      ≡ ((a && kk && s && t) || (a && ka && id && t) || (b && ka && s && it))
one_way a b t s kk id ka it p q r = ground arith

absent-id : (s : Option String) → (is_absent s && is_id s) ≡ false
absent-id none = refl
absent-id (some s) = refl

kind-absent : (k : Option String) → (is_kind k && is_absent k) ≡ false
kind-absent none = refl
kind-absent (some k) = ground arith

one_level : (s : String) → ((s is "session") && (s is "token")) ≡ false
one_level s = ground (arith, is_iff s "session", is_iff s "token", is_iff "session" "token")

-- The check of a rule's target passes exactly for the default of a kind, the rule of one session and
-- the rule of one token, each naming its target and no other.
pub valid_target-one_target : (l : Limit) → (valid_target l is "") ≡ one_target l
unfolding valid_target
valid_target-one_target l =
    by_level (l.level is "session") (l.level is "token") (session_level l) (token_level l)
      "level must be session or token"
    ∙ rw
        (
          session_level_lem (is_absent l.token_id) (is_absent l.session_id) (is_kind l.kind)
              (is_id l.session_id) (is_absent l.kind),
          token_level_lem (is_id l.token_id) (is_absent l.kind) (is_absent l.session_id),
        )
        (one_way (l.level is "session") (l.level is "token") (is_absent l.token_id)
          (is_absent l.session_id) (is_kind l.kind) (is_id l.session_id) (is_absent l.kind)
          (is_id l.token_id) (one_level l.level) (absent-id l.session_id) (kind-absent l.kind))
