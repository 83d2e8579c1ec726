-- ===== src/Upload/Names.antt =====
-- File names and ids (internal/upload/store.go): ValidateName and idRe.
use tg_control_api_server.Prelude.{
  ℕ, ◌+◌, String, Bool, true, not, ◌&&◌, ◌||◌, [], ◌∷◌, ltb, leb, ◌==◌, ◌is◌, if◌then◌else◌, length,
  any,
}
use tg_control_api_server.Tdjson.{Text, codes}

max_name_bytes : ℕ
max_name_bytes = 255

abbrev pub meta_name : String
meta_name = ".upload.json"

-- The bytes of a code point in UTF-8.
abbrev utf8_width : ℕ → ℕ
utf8_width c = if ltb c 0x80 then 1 else if ltb c 0x800 then 2 else if ltb c 0x10000 then 3 else 4

abbrev byte_length : Text → ℕ
byte_length [] = 0
byte_length (c ∷ s) = utf8_width c + byte_length s

abbrev is_separator : ℕ → Bool
is_separator c = (c == b'/') || (c == b'\\') || (c == 0)

-- `ValidateName`. Its comparison with `path.Base` refuses nothing more: a name that is not empty
-- and has no slash is its own base.
unfoldable pub validate_name : String → Bool
unfolding max_name_bytes
validate_name s =
    not ((s is "") || (s is ".") || (s is "..") || (s is meta_name))
    && not (any is_separator (codes s))
    && leb (byte_length (codes s)) max_name_bytes

abbrev is_hex : ℕ → Bool
is_hex c = (leb b'a' c && leb c b'f') || (leb b'0' c && leb c b'9')

abbrev all_hex : Text → Bool
all_hex [] = true
all_hex (c ∷ s) = is_hex c && all_hex s

-- `idRe`: 32 hexadecimal digits.
unfoldable pub is_id : String → Bool
is_id s = (length (codes s) == 32) && all_hex (codes s)
