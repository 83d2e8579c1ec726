-- ===== src/Quota/Methods.antt =====
-- Method groups, rule patterns and what a call counts (internal/quota/quota.go).
pub mod Counting
use Prim.Native.Char.{Char, code}
use text.Mathlib.Text.{starts_with}
use tg_control_api_server.Prelude.{
  ℕ, ◌≤◌, String, Bool, true, false, ◌&&◌, ◌||◌, Option, none, some, List, [], ◌∷◌, leb, ◌is◌,
  if◌then◌else◌, any, length, contains, max,
}
use tg_control_api_server.Store.Limits.{Limit}

unfoldable pub groups : List (String × String)
groups =
    ("sendMessage", "@send")
    ∷ ("sendMessageAlbum", "@send")
    ∷ ("forwardMessages", "@send")
    ∷ ("resendMessages", "@send")
    ∷ ("sendInlineQueryResultMessage", "@send")
    ∷ ("joinChat", "@join")
    ∷ ("joinChatByInviteLink", "@join")
    ∷ ("addChatMember", "@invite")
    ∷ ("addChatMembers", "@invite")
    ∷ ("searchPublicChat", "@resolve")
    ∷ ("searchPublicChats", "@resolve")
    ∷ ("searchUserByPhoneNumber", "@resolve")
    ∷ ("checkChatInviteLink", "@resolve")
    ∷ ("importContacts", "@contacts")
    ∷ ("addContact", "@contacts")
    ∷ ("createNewSupergroupChat", "@create")
    ∷ ("createNewBasicGroupChat", "@create")
    ∷ ("addMessageReaction", "@react")
    ∷ ("setMessageReactions", "@react")
    ∷ ("viewMessages", "@view")
    ∷ ("getChatHistory", "@history")
    ∷ ("searchChatMessages", "@history")
    ∷ ("deleteMessages", "@delete")
    ∷ ("deleteChatHistory", "@delete")
    ∷ ("getSupergroupMembers", "@members")
    ∷ ("searchChatMembers", "@members")
    ∷ []

-- A read of a Go map of texts, with "" for a missing key.
unfoldable pub map_read : List (String × String) → String → String
map_read [] k = ""
map_read ((j, v) ∷ m) k = if j is k then v else map_read m k

unfoldable pub map_has : List (String × String) → String → Bool
map_has [] k = false
map_has ((j, v) ∷ m) k = (j is k) || map_has m k

unfoldable pub scope : String → String
scope method = if map_has groups method then map_read groups method else method

is_group : String → Bool
is_group name = any (λ (g : String × String). g.1 is name) groups

is_lower : Char → Bool
is_lower c = leb b'a' (code c) && leb (code c) b'z'

is_alnum : Char → Bool
unfolding is_lower
is_alnum c =
    is_lower c
    || (leb b'A' (code c) && leb (code c) b'Z')
    || (leb b'0' (code c) && leb (code c) b'9')

all_alnum : String → Bool
unfolding is_alnum
all_alnum String.[] = true
all_alnum (String.◌∷◌ c s) = is_alnum c && all_alnum s

-- The pattern ^[a-z][A-Za-z0-9]*$.
method_name : String → Bool
unfolding is_lower all_alnum
method_name String.[] = false
method_name (String.◌∷◌ c s) = is_lower c && all_alnum s

unfoldable pub valid_pattern : String → Bool
unfolding is_group method_name
valid_pattern p = (p is "*") || is_group p || method_name p

pub matches : String → String → Bool
matches pattern method =
    (pattern is "*")
    || (pattern is method)
    || (starts_with pattern "@" && (map_read groups method is pattern))

-- What `Count` decodes of a call's JSON parameters. The elements of the lists stay raw.
pub record CallParams : Type 0 where
  pub only_local : Bool
  pub message_ids : List String
  pub input_message_contents : List String
  pub user_ids : List String
  pub contacts : List String

pub carried : String → CallParams → ℕ
carried method p =
    if method is "forwardMessages"
    then length p.message_ids
    else if method is "sendMessageAlbum"
    then length p.input_message_contents
    else if method is "addChatMembers"
    then length p.user_ids
    else if method is "importContacts"
    then length p.contacts
    else 0

pub covers : Limit → String → Bool
unfolding matches
covers l method = any (λ p. matches p method) l.methods

pub count : Limit → String → CallParams → ℕ
unfolding covers carried
count l method p =
    if covers l method
    then (if p.only_local
        then 0
        else if contains l.methods "*"
        then 1
        else max (carried method p) 1)
    else 0
