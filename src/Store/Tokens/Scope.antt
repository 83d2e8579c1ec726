-- ===== src/Store/Tokens/Scope.antt =====
-- What a token's scope covers, and what the writes of its grants do to it.
use tg_control_api_server.Prelude.{
  ◌≡◌, ◌≢◌, refl, String, Bool, true, false, not, ◌&&◌, ◌||◌, Option, none, some, List, [], ◌∷◌,
  ◌is◌, is_iff, if◌then◌else◌, any, select, contains, any-append, arith,
}
use tg_control_api_server.Store.Tokens.{
  Token, SessionApp, Grants, Scopes, has_grant, add_grant, add_grants, delete_grants, session_ids,
  row_covered, find_token, row_listed, granted_to, token_grants_session, list_sessions_for_token,
  TokenPatch, Answer, done, failed, missing, patched, set_grants, update_token, updated,
  patch_token_grants, committed, with_tokens,
}

abbrev has_row : List SessionApp → String → Bool
has_row rows s = any (λ (r : SessionApp). r.session_id is s) rows

has_row-covered :
    (rows : List SessionApp) (db : Scopes) (t : Token) (s : String)
    → has_row (select (row_covered db t) rows) s ≡ (
        t.enabled
        && ((has_row rows s && (t.all_sessions || has_grant db.token_sessions t.token_id s))
            || any
                (λ (r : SessionApp).
                  (r.session_id is s) && has_grant db.token_apps t.token_id r.app_id)
                rows))
has_row-covered [] db t s = ground arith
has_row-covered (r ∷ rows) db t s =
    ground (arith, has_row-covered rows db t s, is_iff r.session_id s)

has_row-none :
    (rows : List SessionApp) (db : Scopes) (s : String)
    → has_row (select (row_listed db none) rows) s ≡ false
has_row-none [] db s = refl
has_row-none (r ∷ rows) db s = has_row-none rows db s

listed-granted :
    (db : Scopes) (o : Option Token) (s : String)
    → has_row db.sessions s ≡ true
    → has_row (select (row_listed db o) db.sessions) s ≡ granted_to db o s
listed-granted db none s h = has_row-none db.sessions db s
listed-granted db (some t) s h = ground (arith, has_row-covered db.sessions db t s)

-- For a session that exists, by the ids as Postgres has them, the listing of a token's sessions holds it exactly when the token
-- grants the session.
list_sessions_for_token-grants :
    (db : Scopes) (t s : String)
    → db.canonical t ≡ t
    → db.canonical s ≡ s
    → has_row db.sessions s ≡ true
    → has_row (list_sessions_for_token db t) s ≡ token_grants_session db t s
unfolding list_sessions_for_token token_grants_session
list_sessions_for_token-grants db t s c d h =
    rw (c, d) (listed-granted db (find_token db.tokens t) s h)

has_grant-add :
    (g : Grants) (t x u y : String)
    → has_grant (add_grant g t x) u y ≡ (((t is u) && (x is y)) || has_grant g u y)
has_grant-add g t x u y =
    ground
      (arith, any-append (λ r. (r.0 is u) && (r.1 is y)) g ((t, x) ∷ []), is_iff t u, is_iff x y)

has_grant-add_grants :
    (xs known : List String) (g h : Grants) (t u y : String)
    → add_grants xs known g t ≡ some h
    → has_grant h u y ≡ (((t is u) && contains xs y) || has_grant g u y)
unfolding add_grants
has_grant-add_grants [] known g h t u y e = ground arith
has_grant-add_grants (x ∷ xs) known g h t u y e =
    ground (arith, has_grant-add_grants xs known (add_grant g t x) h t u y, has_grant-add g t x u y)

has_grant-delete :
    (g : Grants) (t u y : String)
    → has_grant (delete_grants g t) u y ≡ (not (t is u) && has_grant g u y)
has_grant-delete [] t u y = ground arith
has_grant-delete ((a, b) ∷ g) t u y =
    ground (arith, has_grant-delete g t u y, is_iff a t, is_iff a u, is_iff t u)

-- Whether a token has a grant after the list of another's grants, or its own, was patched.
abbrev patched_grant : Option (List String) → Grants → String → String → String → Bool
patched_grant none g t u y = has_grant g u y
patched_grant (some xs) g t u y = if t is u then contains xs y else has_grant g u y

has_grant-patched :
    (xs : Option (List String)) (known : List String) (g h : Grants) (t u y : String)
    → patched xs known g t ≡ some h
    → has_grant h u y ≡ patched_grant xs g t u y
has_grant-patched none known g h t u y e = ground arith
has_grant-patched (some xs) known g h t u y e =
    ground
      (arith, has_grant-add_grants xs known (delete_grants g t) h t u y, has_grant-delete g t u y)

-- What an update's answer promises of the tables after it.
abbrev pub Kept : Scopes → String → TokenPatch → Scopes × Answer → Type 0
Kept db t p (new, done u) =
    (find_token db.tokens t ≢ none)
    × ((v y : String) → has_grant new.token_apps v y ≡ patched_grant p.app_ids db.token_apps t v y)
    × ((v y : String)
        → has_grant new.token_sessions v y ≡ patched_grant p.session_ids db.token_sessions t v y)
Kept db t p (new, missing) = (new ≡ db) × (find_token db.tokens t ≡ none)
Kept db t p (new, failed) = new ≡ db

Kept-committed :
    (db : Scopes) (ts : List Token) (faulty : Bool) (t : String) (p : TokenPatch)
    (a s : Option Grants)
    → patched p.app_ids db.apps db.token_apps t ≡ a
    → patched p.session_ids (session_ids db.sessions) db.token_sessions t ≡ s
    → find_token db.tokens t ≢ none
    → Kept db t p (committed faulty db (set_grants (with_tokens db ts) a s) t)
Kept-committed db ts true t p a s ea es n = refl
Kept-committed db ts false t p none s ea es n = refl
Kept-committed db ts false t p (some a) none ea es n = refl
Kept-committed db ts false t p (some a) (some s) ea es n = (
  n,
  λ v y. has_grant-patched p.app_ids db.apps db.token_apps a t v y ea,
  λ v y. has_grant-patched p.session_ids (session_ids db.sessions) db.token_sessions s t v y es,
)

Kept-updated :
    (db : Scopes) (faulty : Bool) (t : String) (p : TokenPatch) (o : Option Token)
    → find_token db.tokens t ≡ o
    → Kept db t p (updated db faulty t p o)
unfolding patch_token_grants
Kept-updated db true t p none e = refl
Kept-updated db false t p none e = (refl, e)
Kept-updated db faulty t p (some row) e =
    Kept-committed db _ faulty t p _ _ refl refl (λ n. absurd (cc))

-- An update of a token replaces the grant lists that it provides, leaves the other list and every
-- other token's grants as they were, and changes nothing at all when it fails or when the token is
-- unknown; it answers "missing" only for an unknown token.
update_token_lem :
    (db : Scopes) (faulty : Bool) (t : String) (p : TokenPatch)
    → Kept db t p (update_token db faulty t p)
unfolding update_token
update_token_lem db faulty t p = Kept-updated db faulty t p (find_token db.tokens t) refl
