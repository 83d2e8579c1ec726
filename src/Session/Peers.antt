-- ===== src/Session/Peers.antt =====
-- The chat that a call addresses (internal/session/manager.go, `stringChatID`, `numericChatID` and
-- `forceLoadChat`).
pub mod Encoding
use tg_control_api_server.Prelude.{
  ℕ, suc, ◌+◌, ◌-◌, String, Bool, true, false, not, Option, none, some, leb, ◌==◌, if◌then◌else◌, ℤ,
  pos, negsuc, int_same, contains, List, [], ◌∷◌,
}
use Prim.Native.Char.{code}
use tg_control_api_server.Tdjson.{is_space}
use tg_control_api_server.Session.Json.{
  Value, null, boolean, number, decimal, string, array, object, Fields, end, field, Raw, empty,
  malformed, document, raw_field, int64_field,
}

-- The fields of an object; a null reads as the empty structure, any other value is an error.
abbrev pub structure : Value → Option Fields
structure null = some end
structure (object fs) = some fs
structure _ = none

abbrev pub fields_of : Raw → Option Fields
fields_of (document v) = structure v
fields_of empty = none
fields_of malformed = none

abbrev text_of : Option Value → Option String
text_of (some (string s)) = some s
text_of _ = none

abbrev text_field : Option Fields → Option String
text_field none = none
text_field (some fs) = text_of (raw_field fs "chat_id")

unfoldable pub string_chat_id : Raw → Option String
string_chat_id params = text_field (fields_of params)

-- `strings.TrimPrefix(strings.TrimSpace(name), "@")`.
unfoldable pub trim_left : String → String
unfolding is_space
trim_left String.[] = String.[]
trim_left (String.◌∷◌ c s) =
    let rest = trim_left s in if is_space (code c) then rest else String.◌∷◌ c s

unfoldable pub trim_right : String → String
unfolding is_space
trim_right String.[] = String.[]
trim_right (String.◌∷◌ c s) = elim (trim_right s) [
  | String.[] ↦ if is_space (code c) then String.[] else String.◌∷◌ c String.[]
  | String.◌∷◌ d r ↦ String.◌∷◌ c (String.◌∷◌ d r)
]

abbrev without_at : String → String
without_at String.[] = String.[]
without_at (String.◌∷◌ c s) = if code c == b'@' then s else String.◌∷◌ c s

unfoldable pub username : String → String
unfolding trim_left trim_right
username s = without_at (trim_right (trim_left s))

abbrev nonzero : Option ℤ → Option ℤ
nonzero none = none
nonzero (some n) = if int_same n (pos 0) then none else some n

abbrev int_field : Option Fields → Option ℤ
int_field none = none
int_field (some fs) = int64_field fs "chat_id" (pos 0)

unfoldable pub numeric_chat_id : Raw → Option ℤ
numeric_chat_id params = nonzero (int_field (fields_of params))

-- The magnitudes of `chanBase` and `secretBase`.
abbrev pub chan_base : ℕ
chan_base = 1000000000000

abbrev pub secret_base : ℕ
secret_base = 2000000000000

-- The method that loads a chat, and its parameters.
pub record Load : Type 0 where
  pub method : String
  pub params : Fields

abbrev pub private_chat : ℕ → Load
private_chat n = record {
  method = "createPrivateChat";
  params = field "user_id" (number (pos n)) (field "force" (boolean true) end);
}

abbrev pub supergroup_chat : ℕ → Load
supergroup_chat n = record {
  method = "createSupergroupChat";
  params = field "supergroup_id" (number (pos n)) end;
}

abbrev pub basic_group_chat : ℕ → Load
basic_group_chat n = record {
  method = "createBasicGroupChat";
  params = field "basic_group_id" (number (pos n)) end;
}

abbrev pub load_for : Option ℤ → Option Load
load_for none = none
load_for (some (pos n)) = some (private_chat n)
load_for (some (negsuc n)) =
    if leb secret_base (suc n)
    then none
    else if leb chan_base (suc n)
    then some (supergroup_chat (suc n - chan_base))
    else some (basic_group_chat (suc n))

unfoldable pub force_load_chat : Raw → Option Load
unfolding numeric_chat_id
force_load_chat params = load_for (numeric_chat_id params)

-- The methods that the gateway itself calls to address a chat and to ask about its user.
abbrev pub helper_methods : List String
helper_methods =
    "searchPublicChat" ∷ "createPrivateChat" ∷ "createSupergroupChat" ∷ "createBasicGroupChat"
    ∷ "getUser" ∷ []

abbrev pub is_helper : String → Bool
is_helper m = contains helper_methods m
