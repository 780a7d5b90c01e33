-- ===== src/Sockets/Steps.antt =====
-- The steps of package websocket on its sessions, and what holds between them. A step is what a handler
-- does under the lock, so every interleaving of handlers is a sequence of steps.
use platarium_gateway_go.Common.{◌≡◌, ◌≢◌, true, Option, some, List, []}
use platarium_gateway_go.Common.Int.{ℤ}
use platarium_gateway_go.Common.Text.{Text, text_eq}
use platarium_gateway_go.Common.Maps.{Table}
use platarium_gateway_go.Deals.Sets.{contains}
use platarium_gateway_go.Sockets.Address.{normalize_platarium_address}
use platarium_gateway_go.Sockets.Types.{
  Client, OfflineMessage, Server, Register, Credentials, new_server,
}
use platarium_gateway_go.Sockets.Sessions.{Prover, bind_client_register}
use platarium_gateway_go.Sockets.Connections.{connect, disconnect, forget_dead}

abbrev pub IsCanonical : Client → Type 0
IsCanonical c = normalize_platarium_address c.address ≡ c.address

-- The addresses that are registered, in canonical form: any, or any but that of spaces only.
abbrev pub Any : Text → Type 0
Any a = Unit

abbrev pub NotEmpty : Text → Type 0
NotEmpty a = a ≢ []

module _ (prove : Option Prover) (Allowed : Text → Type 0) where
  -- A new client has a new ID, which is not empty. The canonical form of an address to register is
  -- `Allowed`.
  -- `queues` is any change of the messages that wait and of the times of group messages.
  pub data Step : Server → Server → Type 0 where
    connects :
        (s : Server) (id ip : Text) (at : ℤ)
        → (s.objects id).address ≡ []
        → Step s (connect id ip at s)
    disconnects : (s : Server) (id : Text) → Step s (disconnect id s)
    binds :
        (s : Server) (now : ℤ) (id : Text) (msg : Register)
        → id ≢ []
        → Allowed (normalize_platarium_address msg.address)
        → Step s (bind_client_register prove now id msg s).0
    forgets : (s : Server) (dead : List Text) → Step s (forget_dead dead s)
    queues :
        (s : Server) (messages : Table (List OfflineMessage)) (hits : Table (List ℤ))
        → Step s (record s { offline_messages = messages; group_protocol_hits = hits })

  pub data Reach : Server → Type 0 where
    start : Reach new_server
    next : {s t : Server} → Reach s → Step s t → Reach t

module _ (prove : Option Prover) where
  -- The prover of the server has accepted credentials for the address.
  abbrev pub IsProven : Text → Type 0
  IsProven address = (p : Prover) × (prove ≡ some p) × ((c : Credentials) × (p address c ≡ true))

  abbrev pub IsOwner : Client → Type 0
  IsOwner c = c.authenticated ≡ true → IsProven c.address

  -- An address is in canonical form, and an authenticated client has the address that the prover accepted.
  pub record OwnerInv (s : Server) : Type 0 where
    pub canonical : (i : Text) → IsCanonical (s.objects i)
    pub owned : (i : Text) → IsOwner (s.objects i)

  -- Besides, a session found under an address carries it, and a device has one session under an address.
  pub record SessionInv (s : Server) : Type 0 where
    pub indexed :
        (a i : Text) → a ≢ [] → contains i (s.clients_by_addr a) ≡ true → (s.objects i).address ≡ a
    pub devices :
        (a i j : Text)
        → a ≢ []
        → contains i (s.clients_by_addr a) ≡ true
        → contains j (s.clients_by_addr a) ≡ true
        → (s.objects i).device_id ≡ (s.objects j).device_id
        → i ≡ j
    pub owners : OwnerInv s
