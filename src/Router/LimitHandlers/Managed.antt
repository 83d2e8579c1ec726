-- ===== src/Router/LimitHandlers/Managed.antt =====
-- Every rule that the handlers let into the table is one that the workers can enforce.
use tg_control_api_server.Prelude.{
  ◌≡◌, refl, sym, ◌∙◌, String, Bool, true, not, ◌&&◌, ◌||◌, Option, none, some, List, [], ◌∷◌, All,
  All-append, All-select_of_All, select, ◌is◌, arith, by_test,
}
use tg_control_api_server.Store.Limits.{Limit, Time}
use tg_control_api_server.Store.Counters.{Table}
use tg_control_api_server.Store.RateLimits.{
  RateLimits, Registry, Found, row, no_row, no_target, failed, stored_id, present, create_limit,
  update_limit, delete_limit, stored, changed, update_rules,
}
use tg_control_api_server.Router.Limits.{is_uuid, is_id, is_absent, is_kind, valid_target}
use tg_control_api_server.Router.Limits.Targets.{one_target, valid_target-one_target}
use tg_control_api_server.Router.LimitHandlers.{
  Draft, Changes, Failures, Answer, valid_limit, settled, with_view, on_rule, written, readable,
  changeable, decoded, unread, fixed_named, fixed_fields, limit_by_path, removed, create_rule,
  update_rule, delete_rule, patch,
}
use tg_control_api_server.Router.LimitHandlers.Checks.{
  IsSound, IsManaged, shown_valid, valid_limit_lem,
}

-- Postgres writes a UUID as a UUID.
abbrev pub IsCanonical : (String → String) → Type 0
IsCanonical canonical = (s : String) → is_uuid s ≡ true → is_uuid (canonical s) ≡ true

absent-stored_id :
    (c : String → String) (o : Option String) → is_absent (stored_id c o) ≡ is_absent o
absent-stored_id c none = refl
absent-stored_id c (some s) = refl

id-stored_id :
    (c : String → String)
    → IsCanonical c
    → (o : Option String) → is_id o ≡ true
    → is_id (stored_id c o) ≡ true
id-stored_id c n none h = h
id-stored_id c n (some s) h = n s h

either_target :
    (a kk sa ta ka si b ti sa' ta' si' ti' : Bool)
    → sa' ≡ sa
    → ta' ≡ ta
    → (si ≡ true → si' ≡ true)
    → (ti ≡ true → ti' ≡ true)
    → ((a && kk && sa && ta) || (a && ka && si && ta) || (b && ka && sa && ti)) ≡ true
    → ((a && kk && sa' && ta') || (a && ka && si' && ta') || (b && ka && sa' && ti')) ≡ true
either_target a kk sa ta ka si b ti sa' ta' si' ti' p q f g h = ground (arith, p, q, f, g, h)

target-stored :
    (g : Registry) (id : String) (now : Time) (l : Limit)
    → IsCanonical g.canonical
    → one_target l ≡ true
    → one_target (stored g id now l) ≡ true
target-stored g id now l c h =
    either_target (l.level is "session") (is_kind l.kind) (is_absent l.session_id)
      (is_absent l.token_id) (is_absent l.kind) (is_id l.session_id) (l.level is "token")
      (is_id l.token_id) _ _ _ _ (absent-stored_id g.canonical l.session_id)
      (absent-stored_id g.canonical l.token_id) (id-stored_id g.canonical c l.session_id)
      (id-stored_id g.canonical c l.token_id) h

All-update_rules :
    (l : Limit) (ms : List Limit) → IsSound l → All IsManaged ms → All IsManaged (update_rules l ms)
unfolding update_rules
All-update_rules l [] s h = tt
All-update_rules l (m ∷ ms) s h = (
  by_test IsManaged (m.id is l.id) (changed l m) m (λ e. (h.0.0, s)) (λ e. h.0),
  All-update_rules l ms s h.1,
)

abbrev pub Managed : RateLimits → Type 0
Managed t = All IsManaged t.rules

viewed :
    (f : Failures) (now : Time) (r : RateLimits × Found)
    → Managed r.0
    → Managed (with_view f now r).0
viewed f now (t, row l) h = h
viewed f now (t, no_row) h = h
viewed f now (t, no_target) h = h
viewed f now (t, failed e) h = h

Managed-create_limit :
    (g : Registry) (t : RateLimits) (id : String) (now : Time) (l : Limit) (o : Option String)
    → IsManaged (stored g id now l)
    → Managed t
    → Managed (create_limit g t id now l o).0
unfolding create_limit
Managed-create_limit g t id now l none m h =
    by_test (λ (r : RateLimits × Found). Managed r.0)
      (present g.has_session (stored g id now l).session_id
        && present g.has_token (stored g id now l).token_id)
      _ _ (λ e. All-append IsManaged t.rules (stored g id now l ∷ []) h (m, tt)) (λ e. h)
Managed-create_limit g t id now l (some e) m h = h

Managed-create_rule :
    (g : Registry) (t : RateLimits) (id : String) (now : Time) (b : Option Draft) (f : Failures)
    → IsCanonical g.canonical
    → Managed t
    → Managed (create_rule g t id now b f).0
unfolding create_rule
Managed-create_rule g t id now none f c h = h
Managed-create_rule g t id now (some d) f c h =
    by_test (λ (r : RateLimits × Answer). Managed r.0) (not (valid_target d.limit is "")) _ _
      (λ e. h)
      (λ e.
        by_test (λ (r : RateLimits × Answer). Managed r.0) (not (valid_limit d is "")) _ _ (λ k. h)
          (λ k. viewed f now (create_limit g t id now (settled d) f.write) (
            Managed-create_limit g t id now (settled d) f.write
              (
                target-stored g id now (settled d) c
                    (sym (valid_target-one_target d.limit) ∙ shown_valid _ e),
                valid_limit_lem d (shown_valid _ k),
              )
              h)))

written-Managed :
    (t : RateLimits) (now : Time) (f : Failures) (d : Draft)
    → Managed t
    → Managed (written t now f d).0
unfolding update_limit
written-Managed t now f d h =
    by_test (λ (r : RateLimits × Answer). Managed r.0) (not (valid_limit d is "")) _ _ (λ k. h)
      (λ k.
        viewed f now (update_limit t (settled d) f.write)
          (rewritten f.write (valid_limit_lem d (shown_valid _ k))))
  where
    rewritten : (o : Option String) → IsSound (settled d) → Managed (update_limit t (settled d) o).0
    rewritten none s = All-update_rules (settled d) t.rules s h
    rewritten (some e) s = h

changeable-Managed :
    (t : RateLimits) (now : Time) (f : Failures) (c : Changes) (l : Limit) (o : Option String)
    → Managed t
    → Managed (changeable t now f c l o).0
changeable-Managed t now f c l (some k) h = h
changeable-Managed t now f c l none h =
    elim (unread c) as (λ o. Managed (readable t now f c l o).0) [
      | some e ↦ h
      | none ↦ written-Managed t now f (patch c l) h
    ]

decoded-Managed :
    (t : RateLimits) (now : Time) (f : Failures) (b : Option Changes) (l : Limit)
    → Managed t
    → Managed (decoded t now f b l).0
decoded-Managed t now f none l h = h
decoded-Managed t now f (some c) l h =
    changeable-Managed t now f c l (fixed_named c.names fixed_fields) h

removed-Managed :
    (t : RateLimits) (o : Option String) (l : Limit) → Managed t → Managed (removed t o l).0
unfolding delete_limit
removed-Managed t none l h = All-select_of_All IsManaged (λ m. not (m.id is l.id)) t.rules h
removed-Managed t (some e) l h = h

on_rule-Managed :
    (t : RateLimits) (o : Found) (k : Limit → RateLimits × Answer)
    → Managed t
    → ((l : Limit) → Managed (k l).0)
    → Managed (on_rule t o k).0
on_rule-Managed t (row l) k h n = n l
on_rule-Managed t no_row k h n = h
on_rule-Managed t no_target k h n = h
on_rule-Managed t (failed e) k h n = h

-- What requests, of any bodies, can do to the table; a session's or a token's end takes its rules
-- along.
pub data Step (g : Registry) (t : RateLimits) : RateLimits → Type 0 where
  creates :
      (id : String) (now : Time) (b : Option Draft) (f : Failures)
      → Step g t (create_rule g t id now b f).0
  updates :
      (id : String) (now : Time) (b : Option Changes) (f : Failures)
      → Step g t (update_rule g t id now b f).0
  deletes : (id : String) (f : Failures) → Step g t (delete_rule g t id f).0
  cascades : (p : Limit → Bool) → Step g t (record t { rules = select p t.rules })

pub data Reach (g : Registry) (t : RateLimits) : RateLimits → Type 0 where
  here : Reach g t t
  next : {u v : RateLimits} → Reach g t u → Step g u v → Reach g t v

Step-Managed :
    (g : Registry) {t u : RateLimits} → IsCanonical g.canonical → Step g t u → Managed t → Managed u
unfolding update_rule delete_rule
Step-Managed g {t = t} c (creates id now b f) h = Managed-create_rule g t id now b f c h
Step-Managed g {t = t} c (updates id now b f) h =
    on_rule-Managed t (limit_by_path g t id f) (decoded t now f b) h
      (λ l. decoded-Managed t now f b l h)
Step-Managed g {t = t} c (deletes id f) h =
    on_rule-Managed t (limit_by_path g t id f) (removed t f.write) h
      (λ l. removed-Managed t f.write l h)
Step-Managed g {t = t} c (cascades p) h = All-select_of_All IsManaged p t.rules h

-- Whatever requests arrive, every rule in the table names exactly one target, lists methods that are
-- each "*", a group or a method, allows at least one call, and counts in a window that the workers
-- know, if the table starts out empty and Postgres writes a UUID as a UUID.
pub Reach-Managed :
    (g : Registry) (counters : Table) {t : RateLimits}
    → IsCanonical g.canonical
    → Reach g (record { rules = []; counters = counters }) t
    → All IsManaged t.rules
Reach-Managed g counters c here = tt
Reach-Managed g counters c (next r s) = Step-Managed g c s (Reach-Managed g counters c r)
