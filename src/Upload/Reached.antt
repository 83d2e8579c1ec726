-- ===== src/Upload/Reached.antt =====
-- Every disk that the operations lead to.
use tg_control_api_server.Prelude.{
  Bool, true, false, ℕ, ◌≡◌, String, ◌&&◌, Option, none, some, [], ◌∷◌, ltb, ℤ, text_eq, get,
  All-put, All-remove, Bool-cases, inl, inr,
}
use tg_control_api_server.Store.Limits.{Time}
use tg_control_api_server.Upload.Names.{validate_name, is_id}
use tg_control_api_server.Upload.Capped.{Capped, AllCapped, Capped-create, Capped-append}
use tg_control_api_server.Upload.{
  Bytes, Item, Disk, Fault, single_shot, create, Chunk, append, abort, sweep, streamed, swept_next,
  swept_more, random_fails, mkdir_fails, meta_fails, open_fails, close_fails,
}

Capped-streamed :
    (cap : ℕ) (d : Disk) (id name : String) (b : Option Bytes) (f : Option Fault) (now : Time)
    → AllCapped cap d
    → get d id ≡ none
    → AllCapped cap (streamed d id name b f now).0
Capped-streamed cap d id name none f now a e = All-remove (Capped cap) d id a
Capped-streamed cap d id name (some b) (some close_fails) now a e = All-remove (Capped cap) d id a
Capped-streamed cap d id name (some b) none now a e = rw e (All-put (Capped cap) d id _ a tt)
Capped-streamed cap d id name (some b) (some random_fails) now a e =
    rw e (All-put (Capped cap) d id _ a tt)
Capped-streamed cap d id name (some b) (some mkdir_fails) now a e =
    rw e (All-put (Capped cap) d id _ a tt)
Capped-streamed cap d id name (some b) (some meta_fails) now a e =
    rw e (All-put (Capped cap) d id _ a tt)
Capped-streamed cap d id name (some b) (some open_fails) now a e =
    rw e (All-put (Capped cap) d id _ a tt)

Capped-single_shot :
    (cap : ℕ) (d : Disk) (id name : String) (b : Option Bytes) (f : Option Fault) (now : Time)
    → AllCapped cap d
    → get d id ≡ none
    → AllCapped cap (single_shot d id name b f now).0
unfolding single_shot get
Capped-single_shot cap d id name b (some random_fails) now a e = a
Capped-single_shot cap d id name b (some mkdir_fails) now a e = a
Capped-single_shot cap d id name b (some open_fails) now a e =
    elim (Bool-cases (validate_name name)) [
      | inl v ↦ rw v (All-remove (Capped cap) d id a)
      | inr v ↦ rw v a
    ]
Capped-single_shot cap d id name b none now a e = elim (Bool-cases (validate_name name)) [
  | inl v ↦ rw (v, e) (Capped-streamed cap d id name b none now a e)
  | inr v ↦ rw v a
]
Capped-single_shot cap d id name b (some meta_fails) now a e =
    elim (Bool-cases (validate_name name)) [
      | inl v ↦ rw (v, e) (Capped-streamed cap d id name b (some meta_fails) now a e)
      | inr v ↦ rw v a
    ]
Capped-single_shot cap d id name b (some close_fails) now a e =
    elim (Bool-cases (validate_name name)) [
      | inl v ↦ rw (v, e) (Capped-streamed cap d id name b (some close_fails) now a e)
      | inr v ↦ rw v a
    ]

Capped-swept_next :
    (cap : ℕ) (r : String × Item) (t : Disk × ℕ × Bool)
    → Capped cap r.1
    → AllCapped cap t.0
    → AllCapped cap (swept_next r t).0
Capped-swept_next cap r (d, n, ok) p a = (p, a)

Capped-swept_more :
    (cap : ℕ) (t : Disk × ℕ × Bool) → AllCapped cap t.0 → AllCapped cap (swept_more t).0
Capped-swept_more cap (d, n, ok) a = a

Capped-sweep :
    (cap : ℕ) (d : Disk) (stuck : String → Bool) (cutoff : Time)
    → AllCapped cap d
    → AllCapped cap (sweep stuck d cutoff).0
unfolding sweep
Capped-sweep cap [] stuck cutoff a = tt
Capped-sweep cap ((id, i) ∷ d) stuck cutoff a =
    elim (Bool-cases (is_id id && ltb i.modified cutoff)) [
      | inr e ↦ rw e (
          Capped-swept_next cap (id, i) (sweep stuck d cutoff) a.0
            (Capped-sweep cap d stuck cutoff a.1))
      | inl e ↦ elim (Bool-cases (stuck id)) [
        | inl s ↦ rw (e, s) a
        | inr s ↦
            rw (e, s)
              (Capped-swept_more cap (sweep stuck d cutoff) (Capped-sweep cap d stuck cutoff a.1))
      ]
    ]

Capped-abort :
    (cap : ℕ) (d : Disk) (id : String) (stuck : Bool)
    → AllCapped cap d
    → AllCapped cap (abort d id stuck).0
unfolding abort
Capped-abort cap d id true a = elim (Bool-cases (is_id id)) [ inl e ↦ rw e a | inr e ↦ rw e a ]
Capped-abort cap d id false a = elim (Bool-cases (is_id id)) [
  | inl e ↦ rw e (All-remove (Capped cap) d id a)
  | inr e ↦ rw e a
]

-- One operation on the disk. The ids that are made are new: they are 128 random bits.
pub data Step (cap : ℕ) : Disk → Disk → Type 0 where
  single_shot_step :
      (d : Disk) (id name : String) (b : Option Bytes) (f : Option Fault) (now : Time)
      → get d id ≡ none
      → Step cap d (single_shot d id name b f now).0
  create_step :
      (d : Disk) (id name : String) (n : ℤ) (f : Option Fault) (now : Time)
      → get d id ≡ none
      → Step cap d (create cap d id name n f now).0
  append_step :
      (d : Disk) (id : String) (offset : ℤ) (c : Chunk) (now : Time)
      → Step cap d (append d id offset c now).0
  abort_step : (d : Disk) (id : String) (stuck : Bool) → Step cap d (abort d id stuck).0
  sweep_step :
      (d : Disk) (stuck : String → Bool) (cutoff : Time) → Step cap d (sweep stuck d cutoff).0

pub data Reach (cap : ℕ) : Disk → Type 0 where
  empty : Reach cap []
  next : {d e : Disk} → Reach cap d → Step cap d e → Reach cap e

Step-Capped : {cap : ℕ} {d e : Disk} → Step cap d e → AllCapped cap d → AllCapped cap e
Step-Capped {cap} (single_shot_step d id name b f now h) a =
    Capped-single_shot cap d id name b f now a h
Step-Capped {cap} (create_step d id name n f now h) a = Capped-create cap d id name n f now a h
Step-Capped {cap} (append_step d id offset c now) a = Capped-append cap d id offset c now a
Step-Capped {cap} (abort_step d id stuck) a = Capped-abort cap d id stuck a
Step-Capped {cap} (sweep_step d stuck cutoff) a = Capped-sweep cap d stuck cutoff a

-- On every disk that uploads, chunks, aborts and sweeps lead to, whichever of their system calls
-- fail, a resumable upload's data file is no longer than the length declared for it, and that
-- length is within the cap on uploads.
pub Reach-Capped : {cap : ℕ} {d : Disk} → Reach cap d → AllCapped cap d
Reach-Capped empty = tt
Reach-Capped (next r s) = Step-Capped s (Reach-Capped r)
