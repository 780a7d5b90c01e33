-- ===== src/Sockets/Tests.antt =====
-- Runs of internal/websocket on concrete clients, and instances of its theorems.
use platarium_gateway_go.Common.{◌≡◌, ◌≢◌, refl, ◌⊎◌, inl, true, none, some, [], ◌∷◌, ◌==◌, arith}
use platarium_gateway_go.Common.Int.{pos}
use platarium_gateway_go.Common.Text.{Text, text, text_eq, trim_space}
use platarium_gateway_go.Contacts.Types.{ContactRequest, Store, status_pending, outcome_accepted}
use platarium_gateway_go.Contacts.Answered.{Answerable}
use platarium_gateway_go.Sockets.Address.{normalize_platarium_address}
use platarium_gateway_go.Sockets.Types.{Server, Register, Credentials, new_server}
use platarium_gateway_go.Sockets.Sessions.{
  Prover, bind_client_register, claimed, resolve_register_authentication,
}
use platarium_gateway_go.Sockets.Connections.{connect}
use platarium_gateway_go.Sockets.Messages.{DirectMessage, message_of, handle_direct_message, kept}
use platarium_gateway_go.Sockets.Steps.{connects, binds, Reach, start, next, SessionInv, IsProven}
use platarium_gateway_go.Sockets.Owned.{reachable-SessionInv}
use platarium_gateway_go.Sockets.Window.{Sends, answers, ideal_answers, answers_refine}
use platarium_gateway_go.Sockets.Delivery.{Outcome, handle_direct_message-Outcome}
use platarium_gateway_go.Sockets.Reconnect.{IsHanded, handle_direct_message-IsHanded}
use platarium_gateway_go.Sockets.Answers.{ContactRespond, apply_contact_respond}
use platarium_gateway_go.Sockets.Authority.{IsRefusal, IsSettled, apply_contact_respond-authority}

-- A prover that knows one mnemonic.
abbrev knows : Prover
knows address c = c.mnemonic == text "good"

abbrev no_credentials : Credentials
no_credentials = record { signature = []; mnemonic = []; alphanumeric = []; pub_main = [] }

abbrev register_as : Text → Credentials → Register
register_as address c = record {
  address = address;
  device_id = text "laptop";
  device_label = [];
  e2ee_public_key = [];
  credentials = c;
}

abbrev as_bob : Register
as_bob =
    register_as (text "pxB0B1")
      (record no_credentials { mnemonic = text "good"; alphanumeric = text "a1" })

-- Bob's client, registered with a proof.
abbrev with_bob : Server
with_bob =
    (bind_client_register (some knows) (pos 9) (text "c1") as_bob
      (connect (text "c1") (text "10.0.0.1") (pos 5) new_server)).0

as_bob-address : normalize_platarium_address as_bob.address ≢ []
unfolding normalize_platarium_address
as_bob-address e = cc

c1-ne : text "c1" ≢ []
c1-ne e = cc

bob_reached :
    {Allowed : Text → Type 0}
    → Allowed (normalize_platarium_address as_bob.address)
    → Reach (some knows) Allowed with_bob
bob_reached allowed =
    next (next start (connects new_server (text "c1") (text "10.0.0.1") (pos 5) refl)) (
      binds (connect (text "c1") (text "10.0.0.1") (pos 5) new_server) (pos 9) (text "c1") as_bob
        c1-ne allowed)

-- His address is canonical, and the session is his.
bob_is_authenticated : (with_bob.objects (text "c1")).address ≡ text "Pxb0b1"
unfolding bind_client_register connect
bob_is_authenticated = refl

reachable-SessionInv_example : SessionInv (some knows) with_bob
reachable-SessionInv_example = reachable-SessionInv (some knows) (bob_reached as_bob-address)

abbrev gate : Store
gate = record {
  cfg = record {
    enabled = true;
    min_fee_uplp = 10000;
    max_fee_uplp = 100000000;
    default_unknown_uplp = 1000000;
    default_verified_uplp = 100000;
    timeout_secs = pos 2592000;
    base_pending_limit = pos 5;
    economy_gate_dms = true;
  };
  data_of = record { requests = (text "r1", asked) ∷ []; contacts = []; pricing = []; xp = [] };
  file = none;
  writable = true;
}
  where
    asked : ContactRequest
    asked = record {
      request_id = text "r1";
      request_id_hash = text "h1";
      sender = text "Pxa11ce";
      receiver = text "PxB0b1";
      sender_pub_key = [];
      receiver_pub_key = [];
      encrypted_payload = text "x";
      timestamp = pos 1;
      expires_at = pos 100;
      lock_tx_hash = text "0123456789abcdef0123456789abcdef";
      amount_uplp = 20000;
      status = status_pending;
      settle_outcome = [];
      settle_tx_hash = [];
    }

abbrev yes_of_bob : ContactRespond
yes_of_bob = record {
  request_id = text "r1";
  outcome = outcome_accepted;
  actor = [];
  signature = [];
}

apply_contact_respond-authority_example :
    let r = apply_contact_respond (λ t. t) (pos 20) (text "c1") yes_of_bob with_bob (some gate) in
    let address = (with_bob.objects (text "c1")).address in
    ((r.0 ≡ some gate) × IsRefusal r.1)
    ⊎ ((q : ContactRequest) × IsProven (some knows) address
        × Answerable (text "r1") (trim_space address) gate q
        × IsSettled (λ t. t) q outcome_accepted r.1)
apply_contact_respond-authority_example =
    apply_contact_respond-authority (some knows) (λ t. t) (pos 20) (text "c1") yes_of_bob with_bob
      gate (bob_reached tt)

-- A message to an address without sessions.
abbrev greeting : DirectMessage
greeting = record { to = text "pxCA401"; content = text "hello"; purpose = text "group_protocol" }

handle_direct_message-Outcome_example :
    let r = handle_direct_message (some gate) (λ _. true) (pos 30) (text "c1") greeting with_bob in
    Outcome
      (some gate)
      (λ _. true)
      (text "c1")
      (message_of (pos 30) (with_bob.objects (text "c1")).address greeting)
      greeting
      with_bob
      r.0
      r.1
handle_direct_message-Outcome_example =
    handle_direct_message-Outcome (some gate) (λ _. true) (pos 30) (text "c1") greeting with_bob

greeting_is_kept :
    (handle_direct_message (some gate) (λ _. true) (pos 30) (text "c1") greeting with_bob).1
    ≡ kept true
unfolding handle_direct_message bind_client_register connect
greeting_is_kept = refl

spelled : normalize_platarium_address (text " PxCa401") ≡ normalize_platarium_address greeting.to
unfolding normalize_platarium_address
spelled = refl

unproven_claim :
    resolve_register_authentication
      (some knows)
      (normalize_platarium_address (text " PxCa401"))
      no_credentials
    ≡ claimed
unfolding resolve_register_authentication
unproven_claim = refl

handle_direct_message-IsHanded_example :
    let r = handle_direct_message (some gate) (λ _. true) (pos 30) (text "c1") greeting with_bob in
    IsHanded (message_of (pos 30) (with_bob.objects (text "c1")).address greeting) (
      bind_client_register
        (some knows)
        (pos 86430)
        (text "c2")
        (register_as (text " PxCa401") no_credentials)
        r.0)
handle_direct_message-IsHanded_example =
    handle_direct_message-IsHanded (some gate) (λ _. true) 30 86430 (text "c1") greeting with_bob
      true (some knows) (text "c2") (register_as (text " PxCa401") no_credentials) greeting_is_kept
      spelled (λ e. cc) (inl unproven_claim) (omega arith) (omega arith) (omega arith) (omega arith)

abbrev burst : Sends
burst = (text "PxA1", 100) ∷ (text "pxa1", 130) ∷ (text "PxB2", 161) ∷ []

answers_refine_example : answers burst new_server ≡ ideal_answers burst (λ _. [])
answers_refine_example = answers_refine burst new_server (λ k. refl) (omega arith)
