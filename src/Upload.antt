-- ===== src/Upload.antt =====
-- The shared-volume file store behind POST /v1/files (internal/upload/store.go). A file's bytes are
-- a list; the random id, the clock and the outcome of each system call are arguments. A metadata
-- file is there whole or not at all.
pub mod Names
pub mod Chunks
pub mod Capped
pub mod Reached
pub mod Inside
use tg_control_api_server.Prelude.{
  ℕ, zero, suc, ◌+◌, String, Bool, true, false, not, ◌&&◌, ◌||◌, Option, none, some, List, [], ◌∷◌,
  ◌++◌, ltb, leb, ◌==◌, ◌is◌, if◌then◌else◌, length, ℤ, pos, negsuc, int_same, Map, text_eq, get,
  put, remove,
}
use tg_control_api_server.Store.Limits.{Time}
use tg_control_api_server.Upload.Names.{meta_name, is_id, validate_name}

abbrev pub Bytes : Type 0
Bytes = List ℕ

pub data UploadError : Type 0 where
  bad_name bad_id not_found bad_offset too_large incomplete io_failed : UploadError

pub data Outcome {ℓ} (A : Type ℓ) : Type ℓ where
  refused : UploadError → Outcome A
  answered : A → Outcome A

pub record Meta : Type 0 where
  pub name : String
  pub declared : ℕ

-- One upload's directory.
pub record Item : Type 0 where
  pub meta_file : Option Meta
  pub files : Map String Bytes
  pub modified : Time

abbrev pub Disk : Type 0
Disk = Map String Item

-- Where `Create` and `SingleShot` fail, if they do.
pub data Fault : Type 0 where
  random_fails mkdir_fails meta_fails open_fails close_fails : Fault

abbrev files_of : Option Item → Map String Bytes
files_of none = []
files_of (some i) = i.files

abbrev meta_of : Option Item → Option Meta
meta_of none = none
meta_of (some i) = i.meta_file

abbrev is_taken : Option Bytes → Bool
is_taken none = false
is_taken (some b) = true

-- O_CREATE|O_EXCL.
abbrev pub add_file : Disk → String → Option Meta → String → Bytes → Time → Disk
add_file d id m name bytes now =
    put d id
      (record { meta_file = m; files = put (files_of (get d id)) name bytes; modified = now })

abbrev pub streamed :
    Disk
    → String
    → String
    → Option Bytes
    → Option Fault
    → Time
    → Disk × Outcome (String × String × ℕ)
streamed d id name none f now = (remove d id, refused io_failed)
streamed d id name (some b) (some close_fails) now = (remove d id, refused io_failed)
streamed d id name (some b) f now =
    (add_file d id (meta_of (get d id)) name b now, answered (id, name, length b))

-- `SingleShot`; `body` is none when the reader fails, as it does beyond its cap.
pub single_shot :
    Disk
    → String
    → String
    → Option Bytes
    → Option Fault
    → Time
    → Disk × Outcome (String × String × ℕ)
single_shot d id name body (some random_fails) now =
    (d, refused (if not (validate_name name) then bad_name else io_failed))
single_shot d id name body (some mkdir_fails) now =
    (d, refused (if not (validate_name name) then bad_name else io_failed))
single_shot d id name body (some open_fails) now =
    if not (validate_name name) then (d, refused bad_name) else (remove d id, refused io_failed)
single_shot d id name body f now =
    if not (validate_name name)
    then (d, refused bad_name)
    else if is_taken (get (files_of (get d id)) name)
    then (remove d id, refused io_failed)
    else streamed d id name body f now

abbrev is_allowed : ℕ → ℤ → Bool
is_allowed max_total (pos n) = ltb 0 n && leb n max_total
is_allowed max_total (negsuc n) = false

abbrev pub size_of : ℤ → ℕ
size_of (pos n) = n
size_of (negsuc n) = 0

abbrev pub begun : Disk → String → String → ℕ → Option Fault → Time → Disk × Outcome String
begun d id name n (some random_fails) now = (d, refused io_failed)
begun d id name n (some mkdir_fails) now = (d, refused io_failed)
begun d id name n (some meta_fails) now = (remove d id, refused io_failed)
begun d id name n (some open_fails) now = (remove d id, refused io_failed)
begun d id name n f now =
    if is_taken (get (files_of (get d id)) name)
    then (remove d id, refused io_failed)
    else (add_file d id (some (record { name = name; declared = n })) name [] now, answered id)

-- `Create`.
pub create : ℕ → Disk → String → String → ℤ → Option Fault → Time → Disk × Outcome String
create max_total d id name n f now =
    if not (validate_name name)
    then (d, refused bad_name)
    else if not (is_allowed max_total n)
    then (d, refused too_large)
    else begun d id name (size_of n) f now

abbrev found_meta : Option Meta → Outcome Meta
found_meta none = refused not_found
found_meta (some m) = answered m

-- `readMeta`.
abbrev read_meta : Disk → String → Outcome Meta
read_meta d id = if not (is_id id) then refused bad_id else found_meta (meta_of (get d id))

-- What Append meets: the chunk that the reader gives, whether the file opens, how many bytes land
-- before the write fails if it does, and whether the directory's time is refreshed.
pub record Chunk : Type 0 where
  pub body : Option Bytes
  pub opens : Bool
  pub lands : Option ℕ
  pub refreshed : Bool

abbrev pub first {ℓ} : {A : Type ℓ} → ℕ → List A → List A
first zero xs = []
first (suc n) [] = []
first (suc n) (x ∷ xs) = x ∷ first n xs

abbrev with_data : Item → String → Bytes → Time → Item
with_data i name b now = record {
  meta_file = i.meta_file;
  files = put i.files name b;
  modified = now;
}

abbrev pub written :
    Disk → String → Item → Meta → Bytes → Bytes → Option ℕ → Bool → Time → Disk × Outcome ℕ
written d id i m old b (some k) fresh now =
    (put d id (with_data i m.name (old ++ first k b) i.modified), refused io_failed)
written d id i m old b none fresh now = (
  put d id (with_data i m.name (old ++ b) (if fresh then now else i.modified)),
  answered (length old + length b),
)

abbrev pub append_chunk :
    Disk → String → Item → Meta → Bytes → Chunk → Option Bytes → Time → Disk × Outcome ℕ
append_chunk d id i m old c none now = (d, refused io_failed)
append_chunk d id i m old c (some b) now =
    if ltb m.declared (length old + length b)
    then (d, refused too_large)
    else if not c.opens
    then (d, refused io_failed)
    else written d id i m old b c.lands c.refreshed now

abbrev pub append_to :
    Disk → String → Item → Meta → Option Bytes → ℤ → Chunk → Time → Disk × Outcome ℕ
append_to d id i m none offset c now = (d, refused not_found)
append_to d id i m (some old) offset c now =
    if not (int_same offset (pos (length old)))
    then (d, refused bad_offset)
    else append_chunk d id i m old c c.body now

abbrev pub append_meta : Disk → String → Item → Option Meta → ℤ → Chunk → Time → Disk × Outcome ℕ
append_meta d id i none offset c now = (d, refused not_found)
append_meta d id i (some m) offset c now = append_to d id i m (get i.files m.name) offset c now

abbrev pub append_item : Disk → String → Option Item → ℤ → Chunk → Time → Disk × Outcome ℕ
append_item d id none offset c now = (d, refused not_found)
append_item d id (some i) offset c now = append_meta d id i i.meta_file offset c now

-- `Append`.
pub append : Disk → String → ℤ → Chunk → Time → Disk × Outcome ℕ
append d id offset c now =
    if not (is_id id) then (d, refused bad_id) else append_item d id (get d id) offset c now

-- The declared metadata and the bytes received, as `Status` and `Complete` see them.
abbrev data_with : Meta → Option Bytes → Outcome (Meta × Bytes)
data_with m none = refused not_found
data_with m (some b) = answered (m, b)

abbrev received_in : Option Item → Meta → Outcome (Meta × Bytes)
received_in none m = refused not_found
received_in (some i) m = data_with m (get i.files m.name)

abbrev received_as : Option Item → Outcome Meta → Outcome (Meta × Bytes)
received_as i (refused e) = refused e
received_as i (answered m) = received_in i m

pub received : Disk → String → Outcome (Meta × Bytes)
received d id = received_as (get d id) (read_meta d id)

abbrev progress : Outcome (Meta × Bytes) → Outcome (ℕ × ℕ)
progress (refused e) = refused e
progress (answered (m, b)) = answered (length b, m.declared)

-- `Status`: the bytes received, the bytes declared.
unfoldable pub status : Disk → String → Outcome (ℕ × ℕ)
unfolding received
status d id = progress (received d id)

abbrev pub completed : String → Outcome (Meta × Bytes) → Outcome (String × String × ℕ)
completed id (refused e) = refused e
completed id (answered (m, b)) =
    if not (length b == m.declared) then refused incomplete else answered (id, m.name, length b)

-- `Complete`: the path, as the id and the name, and the size.
pub complete : Disk → String → Outcome (String × String × ℕ)
unfolding received
complete d id = completed id (received d id)

-- `Abort`; a removal that fails leaves the directory, as it does in `sweep`.
pub abort : Disk → String → Bool → Disk × Outcome String
abort d id stuck =
    if not (is_id id)
    then (d, refused bad_id)
    else if stuck
    then (d, refused io_failed)
    else (remove d id, answered id)

abbrev pub swept_next : String × Item → Disk × ℕ × Bool → Disk × ℕ × Bool
swept_next r (d, n, ok) = (r ∷ d, n, ok)

abbrev pub swept_more : Disk × ℕ × Bool → Disk × ℕ × Bool
swept_more (d, n, ok) = (d, suc n, ok)

-- `Sweep`: what is left, how many were removed, and whether the pass was cut short by a removal
-- that failed; `stuck` tells which removals fail.
pub sweep : (String → Bool) → Disk → Time → Disk × ℕ × Bool
sweep stuck [] cutoff = ([], 0, true)
sweep stuck ((id, i) ∷ d) cutoff =
    let rest = sweep stuck d cutoff in
    if not (is_id id && ltb i.modified cutoff)
    then swept_next (id, i) rest
    else if stuck id
    then ((id, i) ∷ d, 0, false)
    else swept_more rest
