-- ===== src/Sockets/Reconnect.antt =====
-- A message that waits for an address is taken out by the registration that follows.
use platarium_gateway_go.Common.{
  ℕ, ◌+◌, ◌^◌, ◌≤◌, ◌<◌, ◌≡◌, ◌≢◌, refl, sym, ◌∙◌, ap, subst, ◌⊎◌, Bool, true, false, Option, List,
  [], ◌∷◌, ◌++◌, keep_if, length, length-append, if◌then◌else◌, nat_eq, arith, Bool-cases, inl, inr,
}
use platarium_gateway_go.Common.Int.{ℤ, pos, int_eq, int_beq, sub64_pos}
use platarium_gateway_go.Common.Text.{Text, text_eq, text_beq, text_beq_iff}
use platarium_gateway_go.Common.Maps.{Table, set_at, set_at_self}
use platarium_gateway_go.Contacts.Types.{Store}
use platarium_gateway_go.Sockets.Address.{normalize_platarium_address}
use platarium_gateway_go.Sockets.Types.{OfflineMessage, Server, Register}
use platarium_gateway_go.Sockets.Sessions.{
  Prover, Authentication, claimed, proven, unavailable, unproven, Bound, Registered, registered,
  bind_client_register, bind_with, bind_locked, bind_session, leave_address,
  remove_client_from_addr, add_client_to_addr, taken, spelled_otherwise,
  resolve_register_authentication, offline_message_age_ok,
}
use platarium_gateway_go.Sockets.Messages.{
  DirectMessage, message_of, handle_direct_message, kept, Sent,
}
use platarium_gateway_go.Sockets.Queues.{Queued}
use platarium_gateway_go.Sockets.Delivery.{Outcome, handle_direct_message-Outcome}

leave_address-offline_messages :
    (address id : Text) (s : Server)
    → (leave_address address id s).offline_messages ≡ s.offline_messages
unfolding leave_address remove_client_from_addr
leave_address-offline_messages address id s = ground arith

keep_if-last :
    (p : OfflineMessage → Bool) (ms : List OfflineMessage) (m : OfflineMessage)
    → p m ≡ true
    → keep_if p (ms ++ (m ∷ [])) ≡ keep_if p ms ++ (m ∷ [])
unfolding keep_if
keep_if-last p [] m e = rw e refl
keep_if-last p (n ∷ ms) m e = ground (arith, keep_if-last p ms m e)

taken-last :
    (address raw : Text) (buffers : Table (List OfflineMessage)) (rest : List OfflineMessage)
    (m : OfflineMessage)
    → buffers address ≡ rest ++ (m ∷ [])
    → taken address raw buffers ≡ rest ++ (m ∷ [])
taken-last address raw buffers rest m e =
    ground (arith, e, length-append rest (m ∷ []), ap length e)

-- What a registration takes out to write: the message is the last, and none is left for its address.
abbrev pub IsHanded : OfflineMessage → Server × Bound → Type 0
IsHanded m b =
    (r : Registered) × (b.1 ≡ registered r)
    × ((earlier : List OfflineMessage) × (r.pending ≡ earlier ++ (m ∷ [])))
    × (b.0.offline_messages m.to ≡ [])

bind_locked-IsHanded :
    (now : ℤ) (authed : Bool) (id : Text) (msg : Register) (m : OfflineMessage)
    (rest : List OfflineMessage) (s : Server)
    → s.offline_messages m.to ≡ rest ++ (m ∷ [])
    → offline_message_age_ok now m ≡ true
    → let r = bind_locked now authed m.to id msg s in IsHanded m (r.0, registered r.1)
unfolding bind_locked bind_session add_client_to_addr
bind_locked-IsHanded now authed id msg m rest s e fresh = (
  (bind_locked now authed m.to id msg s).1,
  refl,
  (
    keep_if (offline_message_age_ok now) rest,
    ap (keep_if (offline_message_age_ok now)) (taken-last m.to msg.address left rest m waiting)
        ∙ keep_if-last (offline_message_age_ok now) rest m fresh,
  ),
  set_at_self m.to []
      (if spelled_otherwise m.to msg.address left then set_at msg.address [] left else left),
)
  where
    left : Table (List OfflineMessage)
    left = (leave_address m.to id s).offline_messages

    waiting : left m.to ≡ rest ++ (m ∷ [])
    waiting = ap (λ o. o m.to) (leave_address-offline_messages m.to id s) ∙ e

-- A time at most a day after one that is not 0.
age_ok :
    (sent now : ℕ) (m : OfflineMessage)
    → m.buffered_at ≡ pos sent
    → 0 < sent
    → sent ≤ now
    → now ≤ sent + 86400
    → now < 2 ^ 63
    → offline_message_age_ok (pos now) m ≡ true
unfolding offline_message_age_ok
age_ok sent now m e z a b c =
    let f : int_beq (pos sent) (pos 0) ≡ false = ground arith in
    rw (e, f, sub64_pos now sent c (omega arith)) (ground arith)

bind_with-IsHanded :
    (auth : Authentication) (now : ℤ) (address id : Text) (msg : Register) (m : OfflineMessage)
    (rest : List OfflineMessage) (s : Server)
    → (auth ≡ claimed) ⊎ (auth ≡ proven)
    → address ≡ m.to
    → s.offline_messages m.to ≡ rest ++ (m ∷ [])
    → offline_message_age_ok now m ≡ true
    → IsHanded m (bind_with auth now address id msg s)
bind_with-IsHanded claimed now address id msg m rest s a q e f =
    subst (λ t. IsHanded m (bind_with claimed now t id msg s)) (sym q)
      (bind_locked-IsHanded now false id msg m rest s e f)
bind_with-IsHanded proven now address id msg m rest s a q e f =
    subst (λ t. IsHanded m (bind_with proven now t id msg s)) (sym q)
      (bind_locked-IsHanded now true id msg m rest s e f)
bind_with-IsHanded unavailable now address id msg m rest s a q e f = elim a [
  | inl g ↦ cc
  | inr g ↦ cc
]
bind_with-IsHanded unproven now address id msg m rest s a q e f = elim a [ inl g ↦ cc | inr g ↦ cc ]

-- A client's direct message that is kept, since no session took it, is the last of those that a
-- registration of the recipient's address takes out to write to its client, where no other call comes
-- between, the address is spelled in any way, the proof is accepted or none is given, and at most a day
-- has passed by the clock of the server. After it no message waits for the address.
pub handle_direct_message-IsHanded :
    (ce : Option Store) (alive : Text → Bool) (sent now : ℕ) (sender : Text) (d : DirectMessage)
    (s : Server) (routed : Bool) (prove : Option Prover) (id : Text) (msg : Register)
    → let r = handle_direct_message ce alive (pos sent) sender d s in
      let address = normalize_platarium_address msg.address in
      r.1 ≡ kept routed
      → address ≡ normalize_platarium_address d.to
      → msg.address ≢ []
      → (resolve_register_authentication prove address msg.credentials ≡ claimed)
        ⊎ (resolve_register_authentication prove address msg.credentials ≡ proven)
      → 0 < sent
      → sent ≤ now
      → now ≤ sent + 86400
      → now < 2 ^ 63
      → IsHanded
          (message_of (pos sent) (s.objects sender).address d)
          (bind_client_register prove (pos now) id msg r.0)
unfolding bind_client_register
handle_direct_message-IsHanded ce alive sent now sender d s routed prove id msg k e n a z x y w =
    let f : text_beq msg.address [] ≡ false = elim (Bool-cases (text_beq msg.address [])) [
      | inl g ↦ absurd (n ((text_beq_iff msg.address []).0 g))
      | inr g ↦ g
    ] in
    rw f (
      bind_with-IsHanded (resolve_register_authentication prove address msg.credentials) (pos now)
        address id msg m v.rest r.0 a e v.after (age_ok sent now m refl z x y w))
  where
    m : OfflineMessage
    m = message_of (pos sent) (s.objects sender).address d

    r : Server × Sent
    r = handle_direct_message ce alive (pos sent) sender d s

    address : Text
    address = normalize_platarium_address msg.address

    v : Queued m s r.0
    v =
        (subst (λ q. Outcome ce alive sender m d s r.0 q) k
          (handle_direct_message-Outcome ce alive (pos sent) sender d s)).1
