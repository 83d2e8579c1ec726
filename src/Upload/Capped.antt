-- ===== src/Upload/Capped.antt =====
-- What the disk holds stays within what was declared, and within the total that is allowed.
use tg_control_api_server.Prelude.{
  ℕ, zero, suc, ◌+◌, ◌≤◌, ◌≡◌, refl, sym, subst, String, Bool, true, Option, none, some, [], ◌∷◌,
  ◌++◌, ltb, is_refl, if◌then◌else◌, length, length-append, ℤ, pos, negsuc, int_same, Map, text_eq,
  get, put, get-put, All, All-put, All-remove, All-get, arith, Bool-cases, inl, inr,
}
use tg_control_api_server.Store.Limits.{Time}
use tg_control_api_server.Upload.Names.{validate_name, is_id}
use tg_control_api_server.Upload.{
  Bytes, Meta, Item, Disk, Fault, create, Chunk, first, with_data, written, append_chunk, append_to,
  append_meta, append_item, append, begun, is_allowed, size_of, random_fails, mkdir_fails,
  meta_fails, open_fails, close_fails,
}

abbrev Fits : ℕ → Meta → Option Bytes → Type 0
Fits cap m none = Unit
Fits cap m (some b) = (length b ≤ m.declared) × (m.declared ≤ cap)

abbrev FitsMeta : ℕ → Option Meta → Map String Bytes → Type 0
FitsMeta cap none fs = Unit
FitsMeta cap (some m) fs = Fits cap m (get fs m.name)

-- An upload's data file is no longer than was declared, which is within the cap.
abbrev pub Capped : ℕ → Item → Type 0
Capped cap i = FitsMeta cap i.meta_file i.files

abbrev pub AllCapped : ℕ → Disk → Type 0
AllCapped cap d = All (λ (r : String × Item). Capped cap r.1) d

length-first : (xs : Bytes) (n : ℕ) → length (first n xs) ≤ length xs
length-first xs zero = ground arith
length-first [] (suc n) = ground arith
length-first (x ∷ xs) (suc n) = ground (arith, length-first xs n)

get-put_same : (fs : Map String Bytes) (n : String) (b : Bytes) → get (put fs n b) n ≡ some b
get-put_same fs n b = rw (get-put fs n n b) (rw (is_refl n) refl)

Capped-with_data :
    (cap : ℕ) (i : Item) (m : Meta) (b : Bytes) (now : Time)
    → i.meta_file ≡ some m
    → length b ≤ m.declared
    → m.declared ≤ cap
    → Capped cap (with_data i m.name b now)
Capped-with_data cap i m b now e le h =
    subst (λ o. FitsMeta cap o (put i.files m.name b)) (sym e)
      (subst (Fits cap m) (sym (get-put_same i.files m.name b)) (le, h))

declared_within :
    (cap : ℕ) (i : Item) (m : Meta) (old : Bytes)
    → Capped cap i
    → i.meta_file ≡ some m
    → get i.files m.name ≡ some old
    → m.declared ≤ cap
declared_within cap i m old c e f =
    (subst (Fits cap m) f (subst (λ o. FitsMeta cap o i.files) e c)).1

within_first : (old b : Bytes) (k n : ℕ) → length old + length b ≤ n → length (old ++ first k b) ≤ n
within_first old b k n h = ground (arith, length-append old (first k b), length-first b k)

within_all : (old b : Bytes) (n : ℕ) → length old + length b ≤ n → length (old ++ b) ≤ n
within_all old b n h = ground (arith, length-append old b)

Capped-written :
    (cap : ℕ) (d : Disk) (id : String) (i : Item) (m : Meta) (old b : Bytes) (l : Option ℕ)
    (fresh : Bool) (now : Time)
    → AllCapped cap d
    → i.meta_file ≡ some m
    → m.declared ≤ cap
    → length old + length b ≤ m.declared
    → AllCapped cap (written d id i m old b l fresh now).0
Capped-written cap d id i m old b none fresh now a e h le = All-put (Capped cap) d id _ a (
    Capped-with_data cap i m (old ++ b) (if fresh then now else i.modified) e
      (within_all old b m.declared le) h)
Capped-written cap d id i m old b (some k) fresh now a e h le = All-put (Capped cap) d id _ a (
    Capped-with_data cap i m (old ++ first k b) i.modified e (within_first old b k m.declared le) h)

Capped-append_chunk :
    (cap : ℕ) (d : Disk) (id : String) (i : Item) (m : Meta) (old : Bytes) (c : Chunk)
    (b : Option Bytes) (now : Time)
    → AllCapped cap d
    → i.meta_file ≡ some m
    → m.declared ≤ cap
    → AllCapped cap (append_chunk d id i m old c b now).0
Capped-append_chunk cap d id i m old c none now a e h = a
Capped-append_chunk cap d id i m old c (some b) now a e h =
    elim (Bool-cases (ltb m.declared (length old + length b))) [
      | inl l ↦ rw l a
      | inr l ↦ elim (Bool-cases c.opens) [
        | inl o ↦
            rw (l, o)
              (Capped-written cap d id i m old b c.lands c.refreshed now a e h (ground arith))
        | inr o ↦ rw (l, o) a
      ]
    ]

Capped-append_to :
    (cap : ℕ) (d : Disk) (id : String) (i : Item) (m : Meta) (old : Option Bytes) (offset : ℤ)
    (c : Chunk) (now : Time)
    → AllCapped cap d
    → Capped cap i
    → i.meta_file ≡ some m
    → get i.files m.name ≡ old
    → AllCapped cap (append_to d id i m old offset c now).0
Capped-append_to cap d id i m none offset c now a s e f = a
Capped-append_to cap d id i m (some old) offset c now a s e f =
    elim (Bool-cases (int_same offset (pos (length old)))) [
      | inl o ↦ rw o (
          Capped-append_chunk cap d id i m old c c.body now a e (declared_within cap i m old s e f))
      | inr o ↦ rw o a
    ]

Capped-append_meta :
    (cap : ℕ) (d : Disk) (id : String) (i : Item) (m : Option Meta) (offset : ℤ) (c : Chunk)
    (now : Time)
    → AllCapped cap d
    → Capped cap i
    → i.meta_file ≡ m
    → AllCapped cap (append_meta d id i m offset c now).0
Capped-append_meta cap d id i none offset c now a s e = a
Capped-append_meta cap d id i (some m) offset c now a s e =
    Capped-append_to cap d id i m (get i.files m.name) offset c now a s e refl

Capped-append_item :
    (cap : ℕ) (d : Disk) (id : String) (o : Option Item) (offset : ℤ) (c : Chunk) (now : Time)
    → AllCapped cap d
    → get d id ≡ o
    → AllCapped cap (append_item d id o offset c now).0
Capped-append_item cap d id none offset c now a e = a
Capped-append_item cap d id (some i) offset c now a e =
    Capped-append_meta cap d id i i.meta_file offset c now a (All-get (Capped cap) d id i a e) refl

pub Capped-append :
    (cap : ℕ) (d : Disk) (id : String) (offset : ℤ) (c : Chunk) (now : Time)
    → AllCapped cap d
    → AllCapped cap (append d id offset c now).0
unfolding append
Capped-append cap d id offset c now a = elim (Bool-cases (is_id id)) [
  | inl e ↦ rw e (Capped-append_item cap d id (get d id) offset c now a refl)
  | inr e ↦ rw e a
]

Fits-new :
    (cap : ℕ) (name : String) (n : ℕ)
    → n ≤ cap
    → Fits cap (record { name = name; declared = n }) (get (put [] name []) name)
unfolding get put
Fits-new cap name n h = rw (is_refl name) (ground arith, h)

Capped-begun :
    (cap : ℕ) (d : Disk) (id name : String) (n : ℕ) (f : Option Fault) (now : Time)
    → AllCapped cap d
    → get d id ≡ none
    → n ≤ cap
    → AllCapped cap (begun d id name n f now).0
unfolding get
Capped-begun cap d id name n (some random_fails) now a e h = a
Capped-begun cap d id name n (some mkdir_fails) now a e h = a
Capped-begun cap d id name n (some meta_fails) now a e h = All-remove (Capped cap) d id a
Capped-begun cap d id name n (some open_fails) now a e h = All-remove (Capped cap) d id a
Capped-begun cap d id name n (some close_fails) now a e h =
    rw e (All-put (Capped cap) d id _ a (Fits-new cap name n h))
Capped-begun cap d id name n none now a e h =
    rw e (All-put (Capped cap) d id _ a (Fits-new cap name n h))

allowed_within : (cap : ℕ) (n : ℤ) → is_allowed cap n ≡ true → size_of n ≤ cap
allowed_within cap (pos n) h = ground arith
allowed_within cap (negsuc n) h = absurd (cc)

pub Capped-create :
    (cap : ℕ) (d : Disk) (id name : String) (n : ℤ) (f : Option Fault) (now : Time)
    → AllCapped cap d
    → get d id ≡ none
    → AllCapped cap (create cap d id name n f now).0
unfolding create
Capped-create cap d id name n f now a e = elim (Bool-cases (validate_name name)) [
  | inr v ↦ rw v a
  | inl v ↦ elim (Bool-cases (is_allowed cap n)) [
    | inr l ↦ rw (v, l) a
    | inl l ↦ rw (v, l) (Capped-begun cap d id name (size_of n) f now a e (allowed_within cap n l))
  ]
]
