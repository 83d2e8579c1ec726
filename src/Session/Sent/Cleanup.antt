-- ===== src/Session/Sent/Cleanup.antt =====
-- Which uploads a confirmed send removes.
use tg_control_api_server.Prelude.{
  ◌≡◌, ◌≢◌, refl, Bool, any, false, some, Option, List, [], ◌∷◌, if◌then◌else◌, ℤ, pos, int_same,
  int_same_iff, get, put, int_eq, arith, get-put, get-remove,
}
use tg_control_api_server.Tdjson.{Text}
use tg_control_api_server.Session.Sent.{
  SendResult, SentRef, Pending, extract_sent_refs, track_loop, track_upload, finish_upload, dirs_of,
}

not_zero : (n : ℤ) → n ≢ pos 0 → int_same n (pos 0) ≡ false
not_zero n h = ground (arith, int_same_iff n (pos 0))

abbrev pub names : List SentRef → ℤ → Bool
names rs n = any (λ r. int_same r.id n) rs

get-track_loop :
    (rs : List SentRef) (p : Pending) (dirs : List Text) (n : ℤ)
    → get (track_loop p rs dirs) n ≡ (if names rs n then some dirs else get p n)
unfolding track_loop
get-track_loop [] p dirs n = refl
get-track_loop (r ∷ rs) p dirs n =
    ground (arith, get-track_loop rs (put p r.id dirs) dirs n, get-put p r.id n dirs)

finish_upload_lem :
    (p : Pending) (n : ℤ)
    → n ≢ pos 0
    → ((finish_upload p n).1 ≡ dirs_of (get p n)) × ((finish_upload (finish_upload p n).0 n).1 ≡ [])
unfolding finish_upload
finish_upload_lem p n h =
    rw (not_zero n h) (refl, ground (arith, get-remove p n n, int_same_iff n n))

-- The confirmation of a message removes what the last send whose result named its temporary id had
-- uploaded, and is answered once: a second confirmation removes nothing. A result that names several
-- messages has its directories removed by whichever of them is confirmed first.
pub finish_upload-track_upload :
    (p : Pending) (res : Option SendResult) (dirs : List Text) (n : ℤ)
    → n ≢ pos 0
    → let q = track_upload p res dirs in
      ((finish_upload q n).1
        ≡ (if names (extract_sent_refs res) n then dirs else dirs_of (get p n)))
      × ((finish_upload (finish_upload q n).0 n).1 ≡ [])
unfolding track_upload
finish_upload-track_upload p res dirs n h =
    let f = finish_upload_lem (track_upload p res dirs) n h in
    (ground (arith, f.0, get-track_loop (extract_sent_refs res) p dirs n), f.1)
