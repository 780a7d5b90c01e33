-- ===== src/Sockets/Messages.antt =====
-- The messages of internal/websocket/messaging.go: sent by a client or a peer, kept for an address
-- without sessions, and dropped by the janitor of internal/websocket/server.go. The clock is read
-- once in a call. `alive` says for which clients a write succeeds.
use platarium_gateway_go.Common.{
  ℕ, ◌-◌, ◌*◌, Bool, true, false, ◌&&◌, ◌||◌, not, Option, none, some, List, [], ◌∷◌, ◌++◌, keep_if,
  length, drop, ltb, leb, if◌then◌else◌, ◌==◌, nat_eq,
}
use platarium_gateway_go.Common.Int.{ℤ, pos, int_eq, leb_ℤ, sub64}
use platarium_gateway_go.Common.Text.{Text, text, text_eq, text_beq, trim_space}
use platarium_gateway_go.Common.Maps.{set_at}
use platarium_gateway_go.Contacts.Types.{Store}
use platarium_gateway_go.Contacts.Store.{can_send_free_dm}
use platarium_gateway_go.Sockets.Address.{normalize_platarium_address}
use platarium_gateway_go.Sockets.Types.{OfflineMessage, Server}
use platarium_gateway_go.Sockets.Sessions.{offline_message_age_ok}
use platarium_gateway_go.Sockets.Connections.{fan_out_json}

abbrev pub max_direct_message_text_bytes : ℕ
max_direct_message_text_bytes = 12 * 1024 * 1024

abbrev pub offline_message_max_per_recipient : ℕ
offline_message_max_per_recipient = 500

-- The last 500 of the messages that wait.
unfoldable pub capped : List OfflineMessage → List OfflineMessage
capped buf =
    if ltb offline_message_max_per_recipient (length buf)
    then drop (length buf - offline_message_max_per_recipient) buf
    else buf

unfoldable pub buffer : OfflineMessage → Server → Server
unfolding capped text_beq
buffer m s = record s {
  offline_messages = set_at m.to (capped (s.offline_messages m.to ++ (m ∷ []))) s.offline_messages;
}

unfoldable pub prune_expired_offline_messages : ℤ → Server → Server
unfolding keep_if offline_message_age_ok
prune_expired_offline_messages now s = record s {
  offline_messages = λ to. keep_if (offline_message_age_ok now) (s.offline_messages to);
}

abbrev pub group_protocol_rate_limit : ℕ
group_protocol_rate_limit = 120

abbrev pub group_protocol_rate_window_secs : ℤ
group_protocol_rate_window_secs = pos 60

-- The times that are still in the window before `now`.
unfoldable pub kept_hits : ℤ → List ℤ → List ℤ
unfolding keep_if sub64
kept_hits now hits = keep_if (λ ts. leb_ℤ (sub64 now group_protocol_rate_window_secs) ts) hits

unfoldable pub allow_group_protocol_send : Text → ℤ → Server → Server × Bool
unfolding normalize_platarium_address kept_hits text_beq
allow_group_protocol_send from now s =
    let key = normalize_platarium_address from in
    let kept = kept_hits now (s.group_protocol_hits key) in
    if leb group_protocol_rate_limit (length kept)
    then (record s { group_protocol_hits = set_at key kept s.group_protocol_hits }, false)
    else (
      record s { group_protocol_hits = set_at key (kept ++ (now ∷ [])) s.group_protocol_hits },
      true,
    )

pub data MessageError : Type 0 where
  invalid_format too_large not_registered rate_limited contact_required : MessageError

-- What becomes of a message: the clients of the recipient that it is written to, and those of the sender,
-- or kept, and sent to the peers too where no session was found.
pub data Sent : Type 0 where
  refused : MessageError → Sent
  delivered : List Text → List Text → Sent
  kept : Bool → Sent

-- The sessions of the recipient, or of the address as it was written.
unfoldable pub recipients_of : Text → Server → List Text
unfolding normalize_platarium_address text_beq
recipients_of raw s =
    let to = normalize_platarium_address raw in
    if length (s.clients_by_addr to) == 0 && not (raw == to)
    then s.clients_by_addr raw
    else s.clients_by_addr to

-- `ce.CanSendFreeDM(from, to)`, where the contact economy is attached.
abbrev pub is_free : Option Store → Text → Text → Bool
is_free none from to = true
is_free (some ce) from to = can_send_free_dm from to ce

-- The sender's other devices that the message is written to, so that their outbox stays in step.
unfoldable pub mirrored : (Text → Bool) → Text → OfflineMessage → Server → List Text
unfolding keep_if text_beq
mirrored alive sender m s =
    if m.from == m.to
    then []
    else keep_if (λ id. alive id && not (id == sender)) (s.clients_by_addr m.from)

-- A message that no session took is kept; one that is delivered goes to `own` too.
abbrev pub after_fan_out :
    (Server → List Text) → OfflineMessage → Server × List Text → Server × Sent
after_fan_out own m (s, []) = (buffer m s, kept false)
after_fan_out own m (s, id ∷ ids) = (s, delivered (id ∷ ids) (own s))

unfoldable pub deliver : (Text → Bool) → Text → Text → OfflineMessage → Server → Server × Sent
unfolding recipients_of fan_out_json buffer mirrored
deliver alive sender raw m s =
    if length (recipients_of raw s) == 0
    then (buffer m s, kept true)
    else after_fan_out (mirrored alive sender m) m (fan_out_json alive m.to s)

pub record DirectMessage : Type 0 where
  pub to : Text
  pub content : Text
  pub purpose : Text

abbrev pub is_group : DirectMessage → Bool
is_group d = trim_space d.purpose == text "group_protocol"

abbrev pub message_of : ℤ → Text → DirectMessage → OfflineMessage
message_of now from d = record {
  from = from;
  to = normalize_platarium_address d.to;
  content = d.content;
  timestamp = now;
  buffered_at = now;
}

-- What follows the limit on group messages.
unfoldable pub send_allowed :
    Option Store → (Text → Bool) → ℤ → Text → Text → DirectMessage → Server × Bool → Server × Sent
unfolding deliver normalize_platarium_address trim_space text_beq
send_allowed ce alive now sender from d (s, false) = (s, refused rate_limited)
send_allowed ce alive now sender from d (s, true) =
    if not (is_group d) && not (is_free ce from (normalize_platarium_address d.to))
    then (s, refused contact_required)
    else deliver alive sender d.to (message_of now from d) s

-- `handleDirectMessage`, of the client with the ID `sender`.
unfoldable pub handle_direct_message :
    Option Store → (Text → Bool) → ℤ → Text → DirectMessage → Server → Server × Sent
unfolding send_allowed allow_group_protocol_send trim_space text_beq
handle_direct_message ce alive now sender d s =
    let from = (s.objects sender).address in
    if d.to == [] || d.content == []
    then (s, refused invalid_format)
    else if ltb max_direct_message_text_bytes (length d.content)
    then (s, refused too_large)
    else if from == []
    then (s, refused not_registered)
    else send_allowed ce alive now sender from d
        (if is_group d then allow_group_protocol_send from now s else (s, true))

-- A "message:route" of a peer; its timestamp is 0 where it is missing or no number.
pub record PeerMessage : Type 0 where
  pub from : Text
  pub to : Text
  pub content : Text
  pub timestamp : ℤ

abbrev pub routed_of : ℤ → PeerMessage → OfflineMessage
routed_of now d = record {
  from = normalize_platarium_address d.from;
  to = normalize_platarium_address d.to;
  content = d.content;
  timestamp = if d.timestamp == pos 0 then now else d.timestamp;
  buffered_at = now;
}

-- `HandleIncomingPeerMessage`; nothing is done with a message that lacks a field.
unfoldable pub handle_incoming_peer_message :
    (Text → Bool) → ℤ → PeerMessage → Server → Server × Option Sent
unfolding normalize_platarium_address fan_out_json buffer text_beq
handle_incoming_peer_message alive now d s =
    let (s', r) =
      after_fan_out (λ _. []) (routed_of now d) (fan_out_json alive (routed_of now d).to s) in
    if d.to == [] || (d.from == [] || d.content == []) then (s, none) else (s', some r)
