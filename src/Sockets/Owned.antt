-- ===== src/Sockets/Owned.antt =====
-- The sessions of internal/websocket over every sequence of steps.
use platarium_gateway_go.Common.{
  ◌≡◌, ◌≢◌, refl, sym, subst, ◌⊎◌, inl, inr, Bool, true, false, Option, none, some, [], Bool-cases,
}
use mathlib.Core.Bool.{false≢true}
use platarium_gateway_go.Common.Int.{ℤ}
use platarium_gateway_go.Common.Text.{Text, text_eq, text_beq, text_beq-ne, trim_space}
use platarium_gateway_go.Deals.Sets.{contains}
use platarium_gateway_go.Sockets.Address.{normalize_platarium_address, normalize-normalize}
use platarium_gateway_go.Sockets.Types.{Server, Register, Credentials, new_server}
use platarium_gateway_go.Sockets.Sessions.{
  Prover, Authentication, claimed, proven, unavailable, unproven, resolve_register_authentication,
  has_proof, proof_of, bind_client_register, bind_with, bind_locked, text_else,
}
use platarium_gateway_go.Sockets.Indexes.{disconnect-Shrunk, forget_dead-Shrunk}
use platarium_gateway_go.Sockets.Binding.{bind_session-Rebound}
use platarium_gateway_go.Sockets.Steps.{
  Step, connects, disconnects, binds, forgets, queues, Reach, start, next, IsProven, OwnerInv,
  SessionInv, NotEmpty,
}
use platarium_gateway_go.Sockets.Kept.{
  canonical-nil, Shrunk-OwnerInv, connect-OwnerInv, Rebound-OwnerInv, Shrunk-SessionInv,
  connect-SessionInv, Rebound-SessionInv,
}

module _ (prove : Option Prover) where
  text_else-ne : (t d : Text) → d ≢ [] → text_else t d ≢ []
  text_else-ne t d n = elim (Bool-cases (text_beq t [])) [
    | inl p ↦ rw p n
    | inr p ↦ rw p (text_beq-ne t [] p)
  ]

  resolved-IsProven :
      (address : Text) (c : Credentials)
      → resolve_register_authentication prove address c ≡ proven
      → IsProven prove address
  unfolding resolve_register_authentication
  resolved-IsProven address c h = elim (Bool-cases (has_proof c)) [
    | inr e ↦ let f : claimed ≡ proven = rw e at h in cc
    | inl e ↦ by_prover prove refl (rw e at h)
  ]
    where
      by_prover :
          (o : Option Prover) → prove ≡ o → proof_of o address c ≡ proven → IsProven prove address
      by_prover none q f = cc
      by_prover (some p) q f = elim (Bool-cases (p address c)) [
        | inl t ↦ (p, q, (c, t))
        | inr t ↦ let g : unproven ≡ proven = rw t at f in cc
      ]

  -- A registration that is refused changes nothing; one that is not binds the client to the address, as
  -- authenticated only where the prover has accepted the credentials.
  bind_client_register-cases :
      (now : ℤ) (id : Text) (msg : Register) (s : Server)
      → let address = normalize_platarium_address msg.address in
        ((bind_client_register prove now id msg s).0 ≡ s)
        ⊎ ((authed : Bool) × (authed ≡ true → IsProven prove address)
            × ((bind_client_register prove now id msg s).0
                ≡ (bind_locked now authed address id msg s).0))
  unfolding bind_client_register
  bind_client_register-cases now id msg s = elim (Bool-cases (text_beq msg.address [])) [
    | inl e ↦ rw e (inl refl)
    | inr e ↦ rw e (resolved (resolve_register_authentication prove address msg.credentials) refl)
  ]
    where
      address : Text
      address = normalize_platarium_address msg.address

      resolved :
          (a : Authentication)
          → resolve_register_authentication prove address msg.credentials ≡ a
          → ((bind_with a now address id msg s).0 ≡ s)
            ⊎ ((authed : Bool) × (authed ≡ true → IsProven prove address)
                × ((bind_with a now address id msg s).0
                    ≡ (bind_locked now authed address id msg s).0))
      resolved claimed h = inr (false, (λ f. absurd (false≢true f)), refl)
      resolved proven h = inr (true, (λ _. resolved-IsProven address msg.credentials h), refl)
      resolved unavailable h = inl refl
      resolved unproven h = inl refl

  bind_locked-OwnerInv :
      (now : ℤ) (authed : Bool) (address id : Text) (msg : Register) (s : Server)
      → normalize_platarium_address address ≡ address
      → (authed ≡ true → IsProven prove address)
      → OwnerInv prove s
      → OwnerInv prove (bind_locked now authed address id msg s).0
  unfolding bind_locked
  bind_locked-OwnerInv now authed address id msg s e ok v =
      let w = Rebound-OwnerInv prove (bind_session-Rebound authed address id msg s) refl ok e v in
      record { canonical = w.canonical; owned = w.owned }

  bind_locked-SessionInv :
      (now : ℤ) (authed : Bool) (address id : Text) (msg : Register) (s : Server)
      → id ≢ []
      → address ≢ []
      → normalize_platarium_address address ≡ address
      → (authed ≡ true → IsProven prove address)
      → SessionInv prove s
      → SessionInv prove (bind_locked now authed address id msg s).0
  unfolding bind_locked
  bind_locked-SessionInv now authed address id msg s ni na e ok v =
      let w =
        Rebound-SessionInv prove (bind_session-Rebound authed address id msg s)
          (refl, text_else-ne (trim_space msg.device_id) id ni, ok) na e v in
      record {
        indexed = w.indexed;
        devices = w.devices;
        owners = bind_locked-OwnerInv now authed address id msg s e ok v.owners;
      }

  Step-OwnerInv :
      {Allowed : Text → Type 0} {s t : Server}
      → Step prove Allowed s t
      → OwnerInv prove s
      → OwnerInv prove t
  Step-OwnerInv (connects s id ip at e) v = connect-OwnerInv prove id ip at s v
  Step-OwnerInv (disconnects s id) v = Shrunk-OwnerInv prove (disconnect-Shrunk id s) v
  Step-OwnerInv (binds s now id msg ni na) v = elim (bind_client_register-cases now id msg s) [
    | inl e ↦ subst (OwnerInv prove) (sym e) v
    | inr (authed, ok, e) ↦
        subst (OwnerInv prove) (sym e)
          (bind_locked-OwnerInv now authed _ id msg s (normalize-normalize msg.address) ok v)
  ]
  Step-OwnerInv (forgets s dead) v = Shrunk-OwnerInv prove (forget_dead-Shrunk dead s) v
  Step-OwnerInv (queues s messages hits) v = record { canonical = v.canonical; owned = v.owned }

  new_server-OwnerInv : OwnerInv prove new_server
  new_server-OwnerInv = record {
    canonical = λ i. canonical-nil;
    owned = λ i h. absurd (false≢true h);
  }

  -- Whatever addresses are registered, every address of a client is in canonical form, and a client that
  -- is authenticated has an address for which the prover has accepted credentials.
  pub reachable-OwnerInv :
      {Allowed : Text → Type 0} {s : Server} → Reach prove Allowed s → OwnerInv prove s
  reachable-OwnerInv start = new_server-OwnerInv
  reachable-OwnerInv (next r st) = Step-OwnerInv st (reachable-OwnerInv r)

  Step-SessionInv :
      {s t : Server} → Step prove NotEmpty s t → SessionInv prove s → SessionInv prove t
  Step-SessionInv (connects s id ip at e) v = connect-SessionInv prove id ip at s e v
  Step-SessionInv (disconnects s id) v = Shrunk-SessionInv prove (disconnect-Shrunk id s) v
  Step-SessionInv (binds s now id msg ni na) v = elim (bind_client_register-cases now id msg s) [
    | inl e ↦ subst (SessionInv prove) (sym e) v
    | inr (authed, ok, e) ↦
        subst (SessionInv prove) (sym e) (
          bind_locked-SessionInv now authed _ id msg s ni na (normalize-normalize msg.address) ok v)
  ]
  Step-SessionInv (forgets s dead) v = Shrunk-SessionInv prove (forget_dead-Shrunk dead s) v
  Step-SessionInv (queues s messages hits) v = record {
    indexed = v.indexed;
    devices = v.devices;
    owners = record { canonical = v.owners.canonical; owned = v.owners.owned };
  }

  -- In every state that the steps of the handlers reach from the empty server, where no registration is
  -- of an address of spaces only: a session that is found under an address that is not empty is of a
  -- client with that address; no two sessions under it are of one device; every address of a client is
  -- in canonical form; and a client that is authenticated has an address for which the prover has
  -- accepted credentials.
  pub reachable-SessionInv : {s : Server} → Reach prove NotEmpty s → SessionInv prove s
  unfolding contains
  reachable-SessionInv start = record {
    indexed = λ a i n h. absurd (false≢true h);
    devices = λ a i j n h k d. absurd (false≢true h);
    owners = new_server-OwnerInv;
  }
  reachable-SessionInv (next r st) = Step-SessionInv st (reachable-SessionInv r)
