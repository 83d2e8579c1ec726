-- ===== src/Upload/Chunks.antt =====
-- A file sent in chunks arrives as it was sent.
use tg_control_api_server.Prelude.{
  ℕ, ◌+◌, ◌≡◌, String, true, none, some, List, [], ◌∷◌, ◌++◌, length, pos, text_eq, get,
}
use tg_control_api_server.Store.Limits.{Time}
use tg_control_api_server.Upload.{Bytes, Meta, Item, Disk, Chunk, append}

-- Of an upload: its declared metadata, and the bytes that it holds.
Holds : Disk → String → Meta → Bytes → Type 0
Holds d id m old =
    (i : Item) × (get d id ≡ some i) × (i.meta_file ≡ some m) × (get i.files m.name ≡ some old)

-- A chunk that is read, and written, whole.
abbrev pub whole : Bytes → Chunk
whole b = record { body = some b; opens = true; lands = none; refreshed = true }

-- The chunks of a file, one after another, each at the length that the file has by then.
pub send_chunks : List Bytes → Disk → String → ℕ → Time → Disk
send_chunks [] d id offset now = d
send_chunks (b ∷ bs) d id offset now =
    send_chunks bs (append d id (pos offset) (whole b) now).0 id (offset + length b) now

abbrev pub joined : List Bytes → Bytes
joined [] = []
joined (b ∷ bs) = b ++ joined bs
