-- ===== src/Sockets/Connections.antt =====
-- How a connection begins and ends in internal/websocket/server.go, and the writes to the clients of an
-- address.
use platarium_gateway_go.Common.{Bool, not, List, [], ◌∷◌, keep_if, if◌then◌else◌, ◌==◌, nat_eq}
use platarium_gateway_go.Common.Int.{ℤ, int_eq}
use platarium_gateway_go.Common.Text.{Text, text_eq, text_beq}
use platarium_gateway_go.Common.Maps.{set_at}
use platarium_gateway_go.Deals.Sets.{contains}
use platarium_gateway_go.Sockets.Types.{Server, fresh_client}
use platarium_gateway_go.Sockets.Sessions.{remove_client_from_addr, with_id, without_id}

-- `handleWebSocket`, up to its return.
unfoldable pub connect : Text → Text → ℤ → Server → Server
unfolding contains text_beq
connect id ip at s = record s {
  clients = with_id id s.clients;
  objects = set_at id (fresh_client ip at) s.objects;
}

-- A client leaves the index of its own address.
abbrev pub leave_index : Text → Server → Server
leave_index id s =
    let address = (s.objects id).address in
    if address == [] then s else remove_client_from_addr address id s

-- The deferred part of `handleWebSocket`.
unfoldable pub disconnect : Text → Server → Server
unfolding contains without_id remove_client_from_addr text_beq
disconnect id s =
    if contains id s.clients
    then leave_index id (record s { clients = without_id id s.clients })
    else s

-- The last loop of `fanOutJSON`, over the clients that could not be written to.
unfoldable pub forget_dead : List Text → Server → Server
unfolding without_id remove_client_from_addr text_beq
forget_dead [] s = s
forget_dead (id ∷ dead) s =
    let s' = leave_index id s in forget_dead dead (record s' { clients = without_id id s'.clients })

-- `alive` says for which clients the write succeeds; the result is the clients that are reached.
unfoldable pub fan_out_json : (Text → Bool) → Text → Server → Server × List Text
unfolding forget_dead keep_if
fan_out_json alive address s =
    let recipients = s.clients_by_addr address in
    (forget_dead (keep_if (λ id. not (alive id)) recipients) s, keep_if alive recipients)
