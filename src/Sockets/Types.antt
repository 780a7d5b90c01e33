-- ===== src/Sockets/Types.antt =====
-- The data of internal/websocket/server.go. A client is known by its ID, so that a `*Client` is an ID
-- and `objects` holds what it points to; the inner map of `clientsByAddr`, from IDs to clients, is the
-- list of its IDs, and an address without sessions has the empty list. Connections, the port and
-- the TLS files are left out.
use platarium_gateway_go.Common.{Bool, false, List, []}
use platarium_gateway_go.Common.Int.{ℤ, pos}
use platarium_gateway_go.Common.Text.{Text}
use platarium_gateway_go.Common.Maps.{Table}

pub record Client : Type 0 where
  pub ip_address : Text
  pub connected_at : ℤ
  pub address : Text
  pub authenticated : Bool
  pub device_id : Text
  pub device_label : Text

pub record OfflineMessage : Type 0 where
  pub from : Text
  pub to : Text
  pub content : Text
  pub timestamp : ℤ
  pub buffered_at : ℤ

pub record Server : Type 0 where
  pub clients : List Text
  pub objects : Table Client
  pub clients_by_addr : Table (List Text)
  pub offline_messages : Table (List OfflineMessage)
  pub e2ee_pub_keys : Table Text
  pub group_protocol_hits : Table (List ℤ)

abbrev pub fresh_client : Text → ℤ → Client
fresh_client ip at = record {
  ip_address = ip;
  connected_at = at;
  address = [];
  authenticated = false;
  device_id = [];
  device_label = [];
}

abbrev pub new_server : Server
new_server = record {
  clients = [];
  objects = λ _. fresh_client [] (pos 0);
  clients_by_addr = λ _. [];
  offline_messages = λ _. [];
  e2ee_pub_keys = λ _. [];
  group_protocol_hits = λ _. [];
}

-- What a registration and the answer to a contact request prove an address with.
pub record Credentials : Type 0 where
  pub signature : Text
  pub mnemonic : Text
  pub alphanumeric : Text
  pub pub_main : Text

-- The fields of a "register" message; one that is missing or no text is empty.
pub record Register : Type 0 where
  pub address : Text
  pub device_id : Text
  pub device_label : Text
  pub e2ee_public_key : Text
  pub credentials : Credentials
