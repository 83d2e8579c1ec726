-- ===== src/Router/Routes.antt =====
-- The routes of a session that a scoped token may use, as a table.
use tg_control_api_server.Prelude.{
  ℕ, suc, ◌≡◌, refl, String, Bool, true, false, not, ◌&&◌, ◌||◌, Option, none, some, List, [], ◌∷◌,
  ltb, leb, ◌==◌, ◌is◌, if◌then◌else◌, length, any, arith,
}
use tg_control_api_server.Router.Paths.{segments}
use tg_control_api_server.Router.{target_of, session_target}

-- A route that a scoped token may use: its method, and its path below `/v1/{user|bot}/{id}`, where
-- "*" takes any part.
abbrev scoped_routes : List (String × List String)
scoped_routes =
    ("GET", [])
    ∷ ("POST", "call" ∷ [])
    ∷ ("GET", "files" ∷ "*" ∷ [])
    ∷ ("GET", "sends" ∷ [])
    ∷ ("GET", "limits" ∷ [])
    ∷ ("GET", "updates" ∷ "subscriptions" ∷ [])
    ∷ ("POST", "updates" ∷ "subscriptions" ∷ [])
    ∷ ("GET", "updates" ∷ "subscriptions" ∷ "*" ∷ [])
    ∷ ("DELETE", "updates" ∷ "subscriptions" ∷ "*" ∷ [])
    ∷ []

abbrev pub fits : List String → List String → Bool
fits [] [] = true
fits [] (p ∷ ps) = false
fits (q ∷ qs) [] = false
fits (q ∷ qs) (p ∷ ps) = ((q is "*") || (p is q)) && fits qs ps

abbrev in_table : String → List String → Bool
in_table method rest = any (λ r. (method is r.0) && fits r.1 rest) scoped_routes

-- The session of a route of the table.
abbrev pub table_target : String → List String → Option String
table_target method (v ∷ k ∷ id ∷ rest) =
    if (v is "v1") && ((k is "user") || (k is "bot")) && in_table method rest then some id else none
table_target method [] = none
table_target method (v ∷ []) = none
table_target method (v ∷ k ∷ []) = none

guarded :
    (v u b t : Bool) (id : String) (x : Option String)
    → x ≡ (if t then some id else none)
    → (if false || not v || (not u && not b) then none else x)
      ≡ (if v && (u || b) && t then some id else none)
guarded false u b t id x e = refl
guarded true true b t id x e = e
guarded true false true t id x e = e
guarded true false false t id x e = refl

abbrev only_if : Bool → String → Option String
only_if c id = if c then some id else none

below_3 :
    (get post delete : Bool) (id : String)
    → (if get && true
        then some id
        else if post && false && false
        then some id
        else if get && false && false
        then some id
        else if get && false && false
        then some id
        else if get && false && false
        then some id
        else none)
      ≡ only_if
          (get && true
            || (post && false
                || (get && false
                    || (get && false
                        || (get && false
                            || (get && false
                                || (post && false
                                    || (get && false || (delete && false || false)))))))))
          id
below_3 get post delete id = ground arith

below_4 :
    (g p d call files sends limits upd sub : Bool) (id : String)
    → (if g && false
        then some id
        else if p && true && call
        then some id
        else if g && false && files
        then some id
        else if g && true && sends
        then some id
        else if g && true && limits
        then some id
        else if false && upd && sub
        then (if false && (g || p) then some id else if false && (g || d) then some id else none)
        else none)
      ≡ only_if
          ((g && false)
            || ((p && ((call) && true))
                || ((g && ((files) && false))
                    || ((g && ((sends) && true))
                        || ((g && ((limits) && true))
                            || ((g && ((upd) && false))
                                || ((p && ((upd) && false))
                                    || ((g && ((upd) && false))
                                        || ((d && ((upd) && false)) || false)))))))))
          id
below_4 g p d call files sends limits upd sub id = ground arith

below_5 :
    (g p d call files sends limits upd sub : Bool) (id : String)
    → (if g && false
        then some id
        else if p && false && call
        then some id
        else if g && true && files
        then some id
        else if g && false && sends
        then some id
        else if g && false && limits
        then some id
        else if true && upd && sub
        then (if true && (g || p) then some id else if false && (g || d) then some id else none)
        else none)
      ≡ only_if
          ((g && false)
            || ((p && ((call) && false))
                || ((g && ((files) && (true && true)))
                    || ((g && ((sends) && false))
                        || ((g && ((limits) && false))
                            || ((g && ((upd) && ((sub) && true)))
                                || ((p && ((upd) && ((sub) && true)))
                                    || ((g && ((upd) && ((sub) && false)))
                                        || ((d && ((upd) && ((sub) && false))) || false)))))))))
          id
below_5 g p d call files sends limits upd sub id = ground arith

below_6 :
    (g p d call files sends limits upd sub : Bool) (id : String)
    → (if g && false
        then some id
        else if p && false && call
        then some id
        else if g && false && files
        then some id
        else if g && false && sends
        then some id
        else if g && false && limits
        then some id
        else if true && upd && sub
        then (if false && (g || p) then some id else if true && (g || d) then some id else none)
        else none)
      ≡ only_if
          ((g && false)
            || ((p && ((call) && false))
                || ((g && ((files) && (true && false)))
                    || ((g && ((sends) && false))
                        || ((g && ((limits) && false))
                            || ((g && ((upd) && ((sub) && false)))
                                || ((p && ((upd) && ((sub) && false)))
                                    || ((g && ((upd) && ((sub) && (true && true))))
                                        || ((d && ((upd) && ((sub) && (true && true))))
                                            || false)))))))))
          id
below_6 g p d call files sends limits upd sub id = ground arith

below_7 :
    (g p d call files sends limits upd sub : Bool) (id : String)
    → (if g && false
        then some id
        else if p && false && call
        then some id
        else if g && false && files
        then some id
        else if g && false && sends
        then some id
        else if g && false && limits
        then some id
        else if true && upd && sub
        then (if false && (g || p) then some id else if false && (g || d) then some id else none)
        else none)
      ≡ only_if
          ((g && false)
            || ((p && ((call) && false))
                || ((g && ((files) && (true && false)))
                    || ((g && ((sends) && false))
                        || ((g && ((limits) && false))
                            || ((g && ((upd) && ((sub) && false)))
                                || ((p && ((upd) && ((sub) && false)))
                                    || ((g && ((upd) && ((sub) && (true && false))))
                                        || ((d && ((upd) && ((sub) && (true && false))))
                                            || false)))))))))
          id
below_7 g p d call files sends limits upd sub id = ground arith

longer : (n k : ℕ) → ltb k 7 ≡ true → (suc (suc (suc (suc (suc (suc (suc n)))))) == k) ≡ false
longer n k h = ground arith

long_enough :
    (n : ℕ)
    → (ltb (suc (suc (suc (suc (suc (suc (suc n))))))) 3 ≡ false)
      × (leb 5 (suc (suc (suc (suc (suc (suc (suc n))))))) ≡ true)
long_enough n = (ground arith, ground arith)

target_of-table :
    (method : String) (parts : List String) → target_of method parts ≡ table_target method parts
target_of-table m [] = refl
target_of-table m (v ∷ []) = refl
target_of-table m (v ∷ k ∷ []) = refl
target_of-table m (v ∷ k ∷ id ∷ []) =
    guarded (v is "v1") (k is "user") (k is "bot") _ id _
      (below_3 (m is "GET") (m is "POST") (m is "DELETE") id)
target_of-table m (v ∷ k ∷ id ∷ a ∷ []) = guarded (v is "v1") (k is "user") (k is "bot") _ id _ (
    below_4 (m is "GET") (m is "POST") (m is "DELETE") (a is "call") (a is "files") (a is "sends")
      (a is "limits") (a is "updates") false id)
target_of-table m (v ∷ k ∷ id ∷ a ∷ b ∷ []) =
    guarded (v is "v1") (k is "user") (k is "bot") _ id _ (
      below_5 (m is "GET") (m is "POST") (m is "DELETE") (a is "call") (a is "files") (a is "sends")
        (a is "limits") (a is "updates") (b is "subscriptions") id)
target_of-table m (v ∷ k ∷ id ∷ a ∷ b ∷ c ∷ []) =
    guarded (v is "v1") (k is "user") (k is "bot") _ id _ (
      below_6 (m is "GET") (m is "POST") (m is "DELETE") (a is "call") (a is "files") (a is "sends")
        (a is "limits") (a is "updates") (b is "subscriptions") id)
target_of-table m (v ∷ k ∷ id ∷ a ∷ b ∷ c ∷ d ∷ ps) =
    rw
      (
        (long_enough (length ps)).0,
        (long_enough (length ps)).1,
        longer (length ps) 3 refl,
        longer (length ps) 4 refl,
        longer (length ps) 5 refl,
        longer (length ps) 6 refl,
      )
      (guarded (v is "v1") (k is "user") (k is "bot") _ id _ (
        below_7 (m is "GET") (m is "POST") (m is "DELETE") (a is "call") (a is "files")
          (a is "sends") (a is "limits") (a is "updates") (b is "subscriptions") id))

-- The code's chain of tests on a method and a path finds a session exactly for the routes of the
-- table, and then the id in the path; for every other request it finds none.
pub session_target-table :
    (method path : String) → session_target method path ≡ table_target method (segments path)
unfolding session_target
session_target-table method path = target_of-table method (segments path)
