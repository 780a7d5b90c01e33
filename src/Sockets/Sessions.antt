-- ===== src/Sockets/Sessions.antt =====
-- The sessions of internal/websocket/server.go and internal/websocket/messaging.go: the index from
-- addresses to clients, and the registration of an address. What is written to a connection is a result
-- or is left out; `prove` is the prover that the server is given, true where it returns no error.
use platarium_gateway_go.Common.{
  Bool, true, false, ◌&&◌, ◌||◌, not, Option, none, some, List, [], ◌∷◌, keep_if, length,
  if◌then◌else◌, ◌==◌, nat_eq, map,
}
use platarium_gateway_go.Common.Int.{ℤ, pos, int_eq, leb_ℤ, sub64}
use platarium_gateway_go.Common.Text.{Text, text, text_eq, text_beq, trim_space, has_prefix}
use platarium_gateway_go.Common.Maps.{Table, set_at}
use platarium_gateway_go.Deals.Sets.{contains}
use platarium_gateway_go.Sockets.Address.{normalize_platarium_address}
use platarium_gateway_go.Sockets.Types.{Client, OfflineMessage, Server, Credentials, Register}

abbrev pub Prover : Type 0
Prover = Text → Credentials → Bool

unfoldable pub authenticated_owner : Client → Text
authenticated_owner c = if c.authenticated then c.address else []

-- `delete(m, id)`
unfoldable pub without_id : Text → List Text → List Text
unfolding keep_if text_beq
without_id id ids = keep_if (λ j. not (j == id)) ids

unfoldable pub remove_client_from_addr : Text → Text → Server → Server
unfolding without_id
remove_client_from_addr address id s = record s {
  clients_by_addr = set_at address (without_id id (s.clients_by_addr address)) s.clients_by_addr;
}

-- The client `j` has the device of the client `id`, which takes its place.
abbrev pub is_replaced : Table Client → Text → Text → Bool
is_replaced objects id j =
    not ((objects id).device_id == [])
    && ((objects j).device_id == (objects id).device_id && not (j == id))

abbrev pub logged_out : Client → Client
logged_out c = record c { address = []; authenticated = false }

-- `m[id] = client`
abbrev pub with_id : Text → List Text → List Text
with_id id ids = if contains id ids then ids else id ∷ ids

unfoldable pub add_client_to_addr : Text → Text → Server → Server
unfolding text_beq contains keep_if
add_client_to_addr address id s =
    let m = s.clients_by_addr address in
    record s {
      objects = λ j.
          if contains j m && is_replaced s.objects id j
          then logged_out (s.objects j)
          else s.objects j;
      clients_by_addr =
          set_at address (with_id id (keep_if (λ j. not (is_replaced s.objects id j)) m))
            s.clients_by_addr;
    }

pub record DeviceEntry : Type 0 where
  pub client_id : Text
  pub device_id : Text
  pub device_label : Text
  pub connected_at : ℤ

abbrev pub device_entry : Table Client → Text → DeviceEntry
device_entry objects id = record {
  client_id = id;
  device_id = (objects id).device_id;
  device_label = (objects id).device_label;
  connected_at = (objects id).connected_at;
}

unfoldable pub device_entries_for_addr : Text → Server → List DeviceEntry
device_entries_for_addr address s = map (device_entry s.objects) (s.clients_by_addr address)

pub data Authentication : Type 0 where
  claimed proven unavailable unproven : Authentication

unfoldable pub has_proof : Credentials → Bool
unfolding trim_space text_beq has_prefix
has_proof c =
    (not (trim_space c.mnemonic == []) && not (trim_space c.alphanumeric == []))
    || has_prefix (trim_space c.signature) (text "sig-core:")

abbrev pub proof_of : Option Prover → Text → Credentials → Authentication
proof_of none address c = unavailable
proof_of (some prove) address c = if prove address c then proven else unproven

unfoldable pub resolve_register_authentication : Option Prover → Text → Credentials → Authentication
unfolding has_proof
resolve_register_authentication prove address c =
    if not (has_proof c) then claimed else proof_of prove address c

abbrev pub offline_message_ttl_seconds : ℤ
offline_message_ttl_seconds = pos 86400

unfoldable pub offline_message_age_ok : ℤ → OfflineMessage → Bool
unfolding sub64
offline_message_age_ok now m =
    let buffered = if m.buffered_at == pos 0 then m.timestamp else m.buffered_at in
    leb_ℤ (sub64 now buffered) offline_message_ttl_seconds

-- What the client is told, and the messages that were kept for it.
pub record Registered : Type 0 where
  pub address : Text
  pub authenticated : Bool
  pub device_id : Text
  pub device_label : Text
  pub devices : List DeviceEntry
  pub pending : List OfflineMessage

pub data RegisterError : Type 0 where
  address_required prover_unavailable not_proven : RegisterError

pub data Bound : Type 0 where
  registered : Registered → Bound
  rejected : RegisterError → Bound

abbrev pub text_else : Text → Text → Text
text_else t d = if t == [] then d else t

-- The client leaves the address that it had.
unfoldable pub leave_address : Text → Text → Server → Server
unfolding normalize_platarium_address remove_client_from_addr text_beq
leave_address address id s =
    let old = (s.objects id).address in
    if not (old == []) && not (normalize_platarium_address old == address)
    then remove_client_from_addr (normalize_platarium_address old) id s
    else s

abbrev pub bound_client : Bool → Text → Text → Register → Client → Client
bound_client authed address id data' c = record c {
  address = address;
  authenticated = authed;
  device_id = text_else (trim_space data'.device_id) id;
  device_label = text_else (trim_space data'.device_label) (text "Device");
}

-- The index and the client, once the proof is resolved.
unfoldable pub bind_session : Bool → Text → Text → Register → Server → Server
unfolding leave_address add_client_to_addr text_beq trim_space
bind_session authed address id data' s =
    let s1 = leave_address address id s in
    let c = bound_client authed address id data' (s1.objects id) in
    add_client_to_addr address id (record s1 { objects = set_at id c s1.objects })

-- The messages for the address, or else for the address as it was written.
abbrev pub spelled_otherwise : Text → Text → Table (List OfflineMessage) → Bool
spelled_otherwise address raw buffers = length (buffers address) == 0 && not (raw == address)

abbrev pub taken : Text → Text → Table (List OfflineMessage) → List OfflineMessage
taken address raw buffers =
    if spelled_otherwise address raw buffers then buffers raw else buffers address

abbrev pub emptied : Text → Text → Table (List OfflineMessage) → Table (List OfflineMessage)
emptied address raw buffers =
    set_at address []
      (if spelled_otherwise address raw buffers then set_at raw [] buffers else buffers)

-- The part of `bindClientRegister` under the lock, and the filter after it.
unfoldable pub bind_locked : ℤ → Bool → Text → Text → Register → Server → Server × Registered
unfolding bind_session device_entries_for_addr offline_message_age_ok keep_if text_beq trim_space
bind_locked now authed address id data' s =
    let s' = bind_session authed address id data' s in
    (
      record s' {
        e2ee_pub_keys =
            if data'.e2ee_public_key == []
            then s'.e2ee_pub_keys
            else set_at address data'.e2ee_public_key s'.e2ee_pub_keys;
        offline_messages = emptied address data'.address s'.offline_messages;
      },
      record {
        address = address;
        authenticated = authed;
        device_id = text_else (trim_space data'.device_id) id;
        device_label = text_else (trim_space data'.device_label) (text "Device");
        devices = device_entries_for_addr address s';
        pending =
            keep_if (offline_message_age_ok now) (taken address data'.address s'.offline_messages);
      },
    )

abbrev pub bind_with : Authentication → ℤ → Text → Text → Register → Server → Server × Bound
bind_with claimed now address id data' s =
    let (s', r) = bind_locked now false address id data' s in (s', registered r)
bind_with proven now address id data' s =
    let (s', r) = bind_locked now true address id data' s in (s', registered r)
bind_with unavailable now address id data' s = (s, rejected prover_unavailable)
bind_with unproven now address id data' s = (s, rejected not_proven)

unfoldable pub bind_client_register : Option Prover → ℤ → Text → Register → Server → Server × Bound
unfolding bind_locked resolve_register_authentication normalize_platarium_address text_beq
bind_client_register prove now id data' s =
    let address = normalize_platarium_address data'.address in
    if data'.address == []
    then (s, rejected address_required)
    else bind_with (resolve_register_authentication prove address data'.credentials) now address id
        data' s
