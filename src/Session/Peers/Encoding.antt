-- ===== src/Session/Peers/Encoding.antt =====
-- The peer that a chat id stands for.
use tg_control_api_server.Prelude.{
  ℕ, suc, ◌+◌, ◌-◌, ◌<◌, ◌≡◌, refl, Option, none, some, ℤ, pos, negsuc, arith, leb, ap, by_test,
  leb→le,
}
use tg_control_api_server.Session.Json.{Raw}
use tg_control_api_server.Session.Peers.{
  Load, private_chat, supergroup_chat, basic_group_chat, load_for, force_load_chat, numeric_chat_id,
  chan_base, secret_base,
}

-- Telegram's peers, and the ids that the code leaves alone, by their distance below -2 * 10^12.
pub data Peer : Type 0 where
  user basic_group supergroup unused : ℕ → Peer

-- The chat id of a peer, as the Bot API has it: n is a user, -n a basic group, -(10^12 + n) a
-- supergroup or a channel.
abbrev pub chat_id_of : Peer → ℤ
chat_id_of (user n) = pos n
chat_id_of (basic_group n) = negsuc (n - 1)
chat_id_of (supergroup n) = negsuc (chan_base + n - 1)
chat_id_of (unused n) = negsuc (secret_base + n - 1)

abbrev IsPeer : Peer → Type 0
IsPeer (user n) = 0 < n
IsPeer (basic_group n) = (0 < n) × (n < chan_base)
IsPeer (supergroup n) = n < chan_base
IsPeer (unused n) = Unit

abbrev pub loader : Peer → Option Load
loader (user n) = some (private_chat n)
loader (basic_group n) = some (basic_group_chat n)
loader (supergroup n) = some (supergroup_chat n)
loader (unused n) = none

load_for_peer : (p : Peer) → IsPeer p → load_for (some (chat_id_of p)) ≡ loader p
load_for_peer (user n) h = refl
load_for_peer (basic_group n) h =
    by_test (λ o. o ≡ some (basic_group_chat n)) (leb secret_base (suc (n - 1))) _ _
      (λ e. absurd (omega (arith, leb→le secret_base (suc (n - 1)) e, h)))
      (λ e.
        by_test (λ o. o ≡ some (basic_group_chat n)) (leb chan_base (suc (n - 1))) _ _
          (λ f. absurd (omega (arith, leb→le chan_base (suc (n - 1)) f, h)))
          (λ f. ap (λ k. some (basic_group_chat k)) (omega arith)))
load_for_peer (supergroup n) h =
    by_test (λ o. o ≡ some (supergroup_chat n)) (leb secret_base (suc (chan_base + n - 1))) _ _
      (λ e. absurd (omega (arith, leb→le secret_base (suc (chan_base + n - 1)) e, h)))
      (λ e.
        by_test (λ o. o ≡ some (supergroup_chat n)) (leb chan_base (suc (chan_base + n - 1))) _ _
          (λ f. ap (λ k. some (supergroup_chat k)) (omega arith)) (λ f. absurd (ground (arith, f))))
load_for_peer (unused n) h =
    by_test (λ (o : Option Load). o ≡ none) (leb secret_base (suc (secret_base + n - 1))) _ _
      (λ e. refl) (λ e. absurd (ground (arith, e)))

-- Parameters with the chat id of a user, of a basic group or of a supergroup, the latter two with
-- numbers below 10^12, have exactly that peer loaded by its own id. Parameters with an id from
-- -2 * 10^12 down have nothing loaded.
pub force_load_chat-peer :
    (params : Raw) (p : Peer)
    → IsPeer p
    → numeric_chat_id params ≡ some (chat_id_of p)
    → force_load_chat params ≡ loader p
unfolding force_load_chat
force_load_chat-peer params p h e = rw e (load_for_peer p h)
