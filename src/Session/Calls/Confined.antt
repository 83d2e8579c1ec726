-- ===== src/Session/Calls/Confined.antt =====
-- The local files of a call.
use tg_control_api_server.Prelude.{ℕ, ◌≡◌, ◌≢◌, refl, String, true, Option, none, some, List, All}
use tg_control_api_server.Tdjson.{Text, codes}
use tg_control_api_server.Upload.Inside.{parts, is_rooted}
use tg_control_api_server.Upload.Inside.Components.{IsName}
use tg_control_api_server.Upload.Inside.Contained.{GoesOn, within-GoesOn}
use tg_control_api_server.Session.Json.{Value, document}
use tg_control_api_server.Session.LocalFiles.{guard_local_paths}
use tg_control_api_server.Session.LocalFiles.Confined.{Reads, guard_local_paths-Reads}
use tg_control_api_server.Session.Live.{ready_client}
use tg_control_api_server.Session.Calls.{Env, Session, Worker, call_guarded, call_with, call}

-- The path lies in the volume: its components go on from the volume's, none of them `..`.
abbrev pub IsConfined : Text → String → Type 0
IsConfined root p =
    (is_rooted (codes p) ≡ true)
    × GoesOn (parts root) (parts (codes p))
    × All IsName (parts (codes p))

guarded-Confined :
    (env : Env) (s : Session) (w : Worker) (method : String) (v : Value) (o : Option (List Text))
    {p : String}
    → guard_local_paths env.root (document v) ≡ o
    → is_rooted env.root ≡ true
    → Reads p v
    → (call_guarded env s w method (document v) o).0.log ≢ w.log
    → IsConfined env.root p
guarded-Confined env s w method v none g r q n = absurd (n refl)
guarded-Confined env s w method v (some dirs) {p = p} g r q n =
    within-GoesOn (codes p) env.root r (guard_local_paths-Reads env.root v g q).0

with-Confined :
    (env : Env) (s : Session) (w : Worker) (method : String) (v : Value) (o : Option ℕ) {p : String}
    → is_rooted env.root ≡ true
    → Reads p v
    → (call_with env s w method (document v) o).0.log ≢ w.log
    → IsConfined env.root p
with-Confined env s w method v none r q n = absurd (n refl)
with-Confined env s w method v (some cl) r q n =
    guarded-Confined env s w method v (guard_local_paths env.root (document v)) refl r q n

-- A call that names a local file outside the uploads volume, at any depth of its parameters, sends
-- nothing to Telegram: if anything is sent, every file that the parameters name lies in the volume.
-- The volume is an absolute path.
pub call-Confined :
    (env : Env) (s : Option Session) (w : Worker) (method : String) (v : Value) {p : String}
    → is_rooted env.root ≡ true
    → Reads p v
    → (call env s w method (document v)).0.log ≢ w.log
    → IsConfined env.root p
unfolding call
call-Confined env none w method v r q n = absurd (n refl)
call-Confined env (some s) w method v r q n =
    with-Confined env s w method v (ready_client s.live) r q n
