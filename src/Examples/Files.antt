-- ===== src/Examples/Files.antt =====
-- A file uploaded in two chunks (internal/upload).
use tg_control_api_server.Prelude.{◌≡◌, refl, String, none, List, [], ◌∷◌, pos, get, text_eq}
use tg_control_api_server.Upload.{Bytes, Item, create, append}
use tg_control_api_server.Upload.Chunks.{whole}
use tg_control_api_server.Upload.Reached.{empty, next, create_step, append_step, Reach-Capped}
use tg_control_api_server.Upload.Capped.{AllCapped}

abbrev id : String
id = "0123456789abcdef0123456789abcdef"

abbrev chunks : List Bytes
chunks = (104 ∷ 101 ∷ []) ∷ (108 ∷ []) ∷ []

id_is_new : get {K = String} {V = Item} [] id ≡ none
unfolding get
id_is_new = refl

Reach-Capped_example :
    AllCapped 100
      (append (create 100 [] id "a.txt" (pos 3) none 5).0 id (pos 0) (whole (104 ∷ 101 ∷ [])) 6).0
Reach-Capped_example = Reach-Capped (
    next (next empty (create_step [] id "a.txt" (pos 3) none 5 id_is_new))
      (append_step _ id (pos 0) (whole (104 ∷ 101 ∷ [])) 6))
